-- ===== src/Bounded.antt =====
-- src/caches/bounded: the set-associative block cache (NewBoundedCache) with the block table of
-- the single-process memory cache (NewMemoryCache) under it.
pub mod Types
pub mod Table
pub mod Scan
pub mod Ops
pub mod Invariant
pub mod Lookup
pub mod Store
pub mod Stays
pub mod Held
pub mod Balance
pub mod Geometry
pub mod Calls
pub mod Whole
pub mod Again
mod Tests
