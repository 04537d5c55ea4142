-- ===== src/Gbf.antt =====
-- The Ghidra database reader of mizl_core/src/database.
pub mod Record
pub mod Text
pub mod Tables
pub mod Open
pub mod Chained
pub mod Schema
pub mod File
pub mod Search
pub mod Leaf
pub mod Node
pub mod TableView
