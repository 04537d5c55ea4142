-- ===== src/Shared.antt =====
-- Helpers of mizl_core/src that several parts use.
pub mod HexText
pub mod SwapBytes
