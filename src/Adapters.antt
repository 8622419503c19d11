-- ===== src/Adapters.antt =====
-- internal/adapters: the interface to the services, and the registry of its implementations.
pub mod Interface
pub mod Registry
