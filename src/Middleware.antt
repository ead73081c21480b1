-- ===== src/Middleware.antt =====
-- StorageMiddleware of src/storage_middleware.h and src/storage_middleware.cpp: the storage, the
-- replicas that SET is pushed to, and the WAITs that count their acknowledgements. A slot, through
-- which a message goes to a client, is a number; what the slots are called with is the list `sent`.
pub mod Replicas
pub mod WaitList
pub mod Steps
pub mod Waits
pub mod Acks
pub mod EarlyAck
