-- ===== src/Models.antt =====
-- crates/frances-models-llm: data about language models.
pub mod Effort
pub mod ToolArgs
