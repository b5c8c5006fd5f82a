-- ===== src/File.antt =====
-- src/client/InputFile.cpp, src/client/LocalFile.cpp and src/client/TazerFile.cpp: reads of a file
-- through the blocks of the caches.
pub mod Types
pub mod Read
pub mod Copy
pub mod Block
pub mod Range
pub mod Open
pub mod Serve
pub mod Whole
pub mod Content
pub mod Local
mod Tests
