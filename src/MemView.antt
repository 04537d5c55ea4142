-- ===== src/MemView.antt =====
-- The memory views of mizl_core/src/memory/memview.rs.
pub mod Codec
pub mod Trait
pub mod Static
