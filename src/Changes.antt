-- ===== src/Changes.antt =====
-- internal/adapters: change sets, and the loops that apply them.
mod Types
mod Apply
pub mod Outcome
unfoldable pub use Types.*
unfoldable pub use Apply.*
