-- ===== src/Stream.antt =====
-- Streams: identifiers and the values that hold entries (src/storage.h, src/storage.cpp).
pub mod Id
pub mod Value
