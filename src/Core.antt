-- ===== src/Core.antt =====
-- crates/frances-core: helpers that the other crates share.
pub mod LogFmt
pub mod PathUtil
pub mod JsonRepair
pub mod Tests
