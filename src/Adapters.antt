-- ===== src/Adapters.antt =====
-- internal/adapters: the clients of the sources.
pub mod Docker
pub mod Loki
pub mod Ntfy
