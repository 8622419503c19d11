-- ===== src/Presets.antt =====
-- internal/presets: the built-in presets, overrides, and their expansion into the representation.
pub mod Video
pub mod Audio
pub mod Naming
pub mod Override
pub mod Expander
