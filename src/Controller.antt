-- ===== src/Controller.antt =====
-- internal/controller: the reconciliation of a custom resource with its service.
pub mod Status
pub mod Reconcile
pub mod Secrets
pub mod Generic
pub mod Coordinator
