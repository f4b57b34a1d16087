-- ===== src/Files.antt =====
-- Paths, types and listings of files (src/files.c, include/files.h).
pub mod Types
pub mod Decode
pub mod Escape
pub mod Builder
pub mod Path
pub mod Mime
pub mod Resolve
pub mod Listing
