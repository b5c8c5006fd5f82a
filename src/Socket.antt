-- ===== src/Socket.antt =====
-- The send and the receive of src/common/Connection.cpp over the socket that a thread holds.
mod Loops
mod Ends
mod Stream
mod Tests
