-- ===== src/Worker.antt =====
-- crates/frances-worker-protocol: messages between the program and its workers.
pub mod Frame
pub mod Feed
