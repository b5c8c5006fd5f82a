-- ===== src/Message.antt =====
-- inc/tazer/Message.h and src/common/Message.cpp: the wire messages between client and server.
pub mod Bytes
pub mod Layout
pub mod Build
pub mod Parse
pub mod Header
pub mod RoundTrip
pub mod Names
pub mod Blocks
pub mod Transfer
pub mod Pipe
pub mod Received
pub mod Retry
mod Tests
