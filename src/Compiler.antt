-- ===== src/Compiler.antt =====
-- internal/compiler: from the intent of a custom resource to the intermediate representation.
pub mod Types
pub mod Resources
pub mod Features
pub mod Prune
pub mod Compile
pub mod Convert
