-- ===== src/Cache.antt =====
-- internal/cache: what a cache offers, and the client of Valkey. A byte string is the list of its bytes.
pub mod Provider
pub mod Resp
pub mod Valkey
