-- ===== src/Remote.antt =====
-- The network cache (src/caches/NetworkCache.cpp) with the connections of a file
-- (src/common/ConnectionPool.cpp).
mod Request
mod Server
mod Served
mod Connections
mod Read
mod Conserve
mod Servers
mod Sizes
mod Tests
