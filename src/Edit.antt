-- ===== src/Edit.antt =====
-- crates/frances-edit: anchored edits of files.
pub mod Anchor
pub mod Pool
pub mod State
pub mod LoopGuard
pub mod Diff
pub mod Reconcile
pub mod Ops
pub mod Store
pub mod Engine
pub mod Render
pub mod Session
pub mod Tests
pub mod Runs
