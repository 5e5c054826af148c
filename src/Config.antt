-- ===== src/Config.antt =====
-- crates/frances-config: configuration that changes while the program runs.
pub mod Binding
