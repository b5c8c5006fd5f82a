-- ===== src/Bounded/Invariant.antt =====
-- The well-formedness of the block table of src/caches/bounded, and that every operation keeps it.
pub mod Defs
pub mod Write
pub mod Ops
pub mod Release
pub mod Files
pub mod Calls
