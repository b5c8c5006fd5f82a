-- ===== src/Prefetch.antt =====
-- src/prefetchers/DeltaPrefetcher.cpp and src/prefetchers/PerfectPrefetcher.cpp: the blocks that are
-- fetched ahead of a read.
pub mod Delta
mod Tests
