-- ===== src/Track.antt =====
-- inc/tazer/Trackable.h: the objects that are shared by key and deleted with their last user.
pub mod Table
pub mod Counts
pub mod Users
mod Tests
