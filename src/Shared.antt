-- ===== src/Shared.antt =====
-- internal/adapters/shared: what the adapters of the services have in common, but for the diffs.
pub mod Direct
pub mod Authentication
pub mod Health
pub mod Fields
pub mod Resources
pub mod Tags
