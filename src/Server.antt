-- ===== src/Server.antt =====
-- The server proper (src/server.c, include/server.h).
pub mod Config
pub mod Listen
pub mod Lifecycle
pub mod Socket
pub mod Read
pub mod Response
pub mod Client
pub mod Accept
pub mod Range
