-- ===== src/Gbf/File/NodeKind.antt =====
-- The node kinds that the reader knows: mizl_core/src/database/gbf_node_kind.rs.
use mizl_h_public.Base.{ℕ}

abbrev pub longkey_interior : ℕ
longkey_interior = 0

abbrev pub longkey_var_rec : ℕ
longkey_var_rec = 1

abbrev pub longkey_fixed_rec : ℕ
longkey_fixed_rec = 2

abbrev pub chained_buffer_index : ℕ
chained_buffer_index = 8

abbrev pub chained_buffer_data : ℕ
chained_buffer_data = 9
