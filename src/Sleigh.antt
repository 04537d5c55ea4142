-- ===== src/Sleigh.antt =====
-- The instruction decoder of mizl_core/src/sleigh.
pub mod Memory
pub mod State
pub mod Element
pub mod Attribute
pub mod Reader
pub mod Expression
pub mod Decision
pub mod Constructor
pub mod Symbol
pub mod Scope
pub mod File
pub mod Disasm
pub mod Pspec
