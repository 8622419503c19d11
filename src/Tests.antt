-- ===== src/Tests.antt =====
-- The theorems at concrete inputs.
mod Data
mod Diffs
mod Deltas
mod Compiled
mod Presets
mod Services
mod Reconciled
mod Controlled
mod Secrets
mod Prowlarred
mod Converted
mod Coordinated
mod Sent
