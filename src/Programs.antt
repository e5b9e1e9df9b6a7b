-- ===== src/Programs.antt =====
-- The two programs, client.cpp and server.cpp.
pub mod MulticastClient
pub mod MulticastServer
pub mod Broadcast
pub mod Turns
pub mod ServerMain
pub mod Idle
pub mod Asked
pub mod TakenPort
pub mod Ending
pub mod ClientLoop
pub mod Growth
pub mod Listening
pub mod Connecting
pub mod ClientMain
pub mod Leaving
pub mod ClientEnding
pub mod Going
pub mod Disconnected
pub mod NoConnection
pub mod Network
pub mod Lossy
pub mod Together
