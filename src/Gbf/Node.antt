-- ===== src/Gbf/Node.antt =====
-- The nodes of a table's tree in mizl_core/src/database.
pub mod Interior
pub mod Fixed
pub mod Var
