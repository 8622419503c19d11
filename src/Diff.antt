-- ===== src/Diff.antt =====
-- The comparison of the current and the desired state: internal/adapters/diff.go, and
-- delayprofiles.go and remotepathmappings.go of internal/adapters/shared.
pub mod Keyed
pub mod Clients
pub mod Indexers
pub mod Formats
pub mod Paths
pub mod Delay
pub mod Profiles
pub mod Cleared
