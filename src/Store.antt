-- ===== src/Store.antt =====
-- internal/store: the operations of the interface `Store`, by the memory store
-- and the store in Redis, with the server as a parameter.
pub mod Memory
pub mod Redis
