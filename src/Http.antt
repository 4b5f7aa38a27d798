-- ===== src/Http.antt =====
-- internal/httpx: the client that sends GET requests only to the destinations that were registered
-- at startup.
pub mod Store
pub mod Paths
pub mod Info
pub mod Client
pub mod Get
mod Tests
