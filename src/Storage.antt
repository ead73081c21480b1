-- ===== src/Storage.antt =====
-- Storage of src/storage.h and src/storage.cpp.
pub mod Keyspace
pub mod Blocking
pub mod Restore
