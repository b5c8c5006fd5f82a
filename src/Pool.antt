-- ===== src/Pool.antt =====
-- The thread pools (src/common/PriorityThreadPool.cpp and src/common/ThreadPool.cpp).
mod Queue
mod Order
mod Threads
mod Drain
mod Tests
