-- ===== src/Server.antt =====
-- The server: src/server/server.cpp, src/server/main.cpp, src/server/socketSetup.cpp and
-- src/server/utils.cpp.
pub mod Tables
pub mod TablesLaws
pub mod Reachable
pub mod State
pub mod Messages
pub mod Images
pub mod TcpMessages
pub mod UdpMessages
pub mod Notices
pub mod Listing
pub mod Start
pub mod Rest
pub mod Options
pub mod Log
pub mod Loop
pub mod Frame
pub mod FrameMessages
pub mod Asks
pub mod FrameTcp
pub mod FrameUdp
pub mod FrameLists
pub mod FrameLoop
pub mod StockKept
pub mod Watched
pub mod Invariant
pub mod Stops
pub mod NoticeRound
pub mod Broadcast
pub mod Restart
pub mod Counts
pub mod TcpUpdate
pub mod Keys
pub mod Writes
pub mod History
pub mod UdpUpdate
pub mod StockUpdate
pub mod RestLaws
pub mod RestStatus
pub mod ImagesLaws
pub mod OptionsLaws
pub mod LogLaws
