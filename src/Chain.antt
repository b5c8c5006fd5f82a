-- ===== src/Chain.antt =====
-- src/caches/Cache.cpp: the chain of cache levels and the window of request times, and
-- what a base cache requests and gives back.
pub mod Levels
pub mod Window
pub mod Request
pub mod Balance
pub mod Prefetch
pub mod Given
mod Tests
