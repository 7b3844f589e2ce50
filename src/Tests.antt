-- ===== src/Tests.antt =====
-- The theorems at concrete inputs, over the concrete libraries of CJson/Trees, Nlohmann/Trees,
-- RocksDb/Memory and Wrapper/Memory.
pub mod Data
mod Stock
mod Alarms
mod Shells
mod Descriptors
mod Tcp
mod Udp
mod Listed
pub mod Served
pub mod Updated
mod Requests
mod Rest
mod Outside
