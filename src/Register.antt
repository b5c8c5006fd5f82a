-- ===== src/Register.antt =====
-- The register of file names that processes share (src/common/FileCacheRegister.cpp).
mod Table
mod Names
mod Search
mod Agree
mod Tests
