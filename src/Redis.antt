-- ===== src/Redis.antt =====
-- The Redis server and its Python client, as far as the loader and the API use them.
mod Server
pub mod Session
pub mod Keeps
pub use Server.*
