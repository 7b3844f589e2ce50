-- ===== src/Clients.antt =====
-- What src/clients/tcp_client.c and src/clients/udp_client.c have in common: the two files hold the
-- same text for these functions.
pub mod Args
pub mod OsRelease
pub mod Utf8
pub mod ArgsLaws
pub mod Hostname
pub mod Utf8Laws
