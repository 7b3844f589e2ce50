-- ===== src/TcpClient.antt =====
-- The TCP client, src/clients/tcp_client.c.
pub mod Session
pub mod Connect
pub mod Zip
pub mod Receive
pub mod Menu
pub mod Main
pub mod ConnectLaws
pub mod ZipLaws
pub mod Tame
pub mod Shrinks
pub mod Listens
pub mod Update
