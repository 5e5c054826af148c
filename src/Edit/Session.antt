-- ===== src/Edit/Session.antt =====
-- crates/frances-edit/src/session: the edits that a language model asks for.
pub mod Types
pub mod Working
pub mod Anchored
pub mod WholeFile
pub mod Dispatch
pub mod Resolve
pub mod Effects
pub mod Drafted
