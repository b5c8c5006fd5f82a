-- ===== src/Lock.antt =====
-- src/common/ReaderWriterLock.cpp: the lock of many readers and one writer, under any interleaving of
-- its atomic operations.
pub mod Steps
pub mod Count
pub mod Exclusion
pub mod Fair
mod Tests
