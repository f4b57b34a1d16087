-- ===== src/Http.antt =====
-- The HTTP request parser (src/http.c, include/http.h).
pub mod Types
pub mod Scan
pub mod RangeHeader
pub mod Headers
pub mod Request
