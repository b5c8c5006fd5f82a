-- ===== src/Output.antt =====
-- Files that a program writes (src/client/OutputFile.cpp).
mod Types
mod Open
mod Write
mod View
mod Loop
mod Refine
mod History
mod Stuck
mod Transfer
mod InOrder
mod Close
mod Tests
