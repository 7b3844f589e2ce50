-- ===== src/UdpClient.antt =====
-- The UDP client, src/clients/udp_client.c. A process of it has the state of a TcpClient.Session, of
-- which it uses the input, the datagrams to come, the events and the two flags of the loop.
pub mod Setup
pub mod Menu
pub mod Receive
pub mod Main
pub mod Update
pub mod Bounds
pub mod Ends
