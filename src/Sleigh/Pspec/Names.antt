-- ===== src/Sleigh/Pspec/Names.antt =====
-- The names in the text of a processor specification, of mizl_core/src/sleigh/pspec_file.rs, as
-- bytes.
use mizl_h_public.Base.{ℕ, List, [], ◌∷◌}

-- `processor_spec`
abbrev pub processor_spec_tag : List ℕ
processor_spec_tag =
    112 ∷ 114 ∷ 111 ∷ 99 ∷ 101 ∷ 115 ∷ 115 ∷ 111 ∷ 114 ∷ 95 ∷ 115 ∷ 112 ∷ 101 ∷ 99 ∷ []

-- `properties`
abbrev pub properties_tag : List ℕ
properties_tag = 112 ∷ 114 ∷ 111 ∷ 112 ∷ 101 ∷ 114 ∷ 116 ∷ 105 ∷ 101 ∷ 115 ∷ []

-- `property`
abbrev pub property_tag : List ℕ
property_tag = 112 ∷ 114 ∷ 111 ∷ 112 ∷ 101 ∷ 114 ∷ 116 ∷ 121 ∷ []

-- `key`
abbrev pub key_attr : List ℕ
key_attr = 107 ∷ 101 ∷ 121 ∷ []

-- `value`
abbrev pub value_attr : List ℕ
value_attr = 118 ∷ 97 ∷ 108 ∷ 117 ∷ 101 ∷ []

-- `programcounter`
abbrev pub programcounter_tag : List ℕ
programcounter_tag =
    112 ∷ 114 ∷ 111 ∷ 103 ∷ 114 ∷ 97 ∷ 109 ∷ 99 ∷ 111 ∷ 117 ∷ 110 ∷ 116 ∷ 101 ∷ 114 ∷ []

-- `register`
abbrev pub register_tag : List ℕ
register_tag = 114 ∷ 101 ∷ 103 ∷ 105 ∷ 115 ∷ 116 ∷ 101 ∷ 114 ∷ []

-- `context_data`
abbrev pub context_data_tag : List ℕ
context_data_tag = 99 ∷ 111 ∷ 110 ∷ 116 ∷ 101 ∷ 120 ∷ 116 ∷ 95 ∷ 100 ∷ 97 ∷ 116 ∷ 97 ∷ []

-- `context_set`
abbrev pub context_set_tag : List ℕ
context_set_tag = 99 ∷ 111 ∷ 110 ∷ 116 ∷ 101 ∷ 120 ∷ 116 ∷ 95 ∷ 115 ∷ 101 ∷ 116 ∷ []

-- `tracked_set`
abbrev pub tracked_set_tag : List ℕ
tracked_set_tag = 116 ∷ 114 ∷ 97 ∷ 99 ∷ 107 ∷ 101 ∷ 100 ∷ 95 ∷ 115 ∷ 101 ∷ 116 ∷ []

-- `space`
abbrev pub space_attr : List ℕ
space_attr = 115 ∷ 112 ∷ 97 ∷ 99 ∷ 101 ∷ []

-- `name`
abbrev pub name_attr : List ℕ
name_attr = 110 ∷ 97 ∷ 109 ∷ 101 ∷ []

-- `val`
abbrev pub val_attr : List ℕ
val_attr = 118 ∷ 97 ∷ 108 ∷ []

-- `register_data`
abbrev pub register_data_tag : List ℕ
register_data_tag = 114 ∷ 101 ∷ 103 ∷ 105 ∷ 115 ∷ 116 ∷ 101 ∷ 114 ∷ 95 ∷ 100 ∷ 97 ∷ 116 ∷ 97 ∷ []

-- `rename`
abbrev pub rename_attr : List ℕ
rename_attr = 114 ∷ 101 ∷ 110 ∷ 97 ∷ 109 ∷ 101 ∷ []

-- `alias`
abbrev pub alias_attr : List ℕ
alias_attr = 97 ∷ 108 ∷ 105 ∷ 97 ∷ 115 ∷ []

-- `group`
abbrev pub group_attr : List ℕ
group_attr = 103 ∷ 114 ∷ 111 ∷ 117 ∷ 112 ∷ []

-- `hidden`
abbrev pub hidden_attr : List ℕ
hidden_attr = 104 ∷ 105 ∷ 100 ∷ 100 ∷ 101 ∷ 110 ∷ []

-- `vector_lane_sizes`
abbrev pub vector_lane_sizes_attr : List ℕ
vector_lane_sizes_attr =
    118 ∷ 101 ∷ 99 ∷ 116 ∷ 111 ∷ 114 ∷ 95 ∷ 108 ∷ 97 ∷ 110 ∷ 101 ∷ 95 ∷ 115 ∷ 105 ∷ 122 ∷ 101 ∷ 115
    ∷ []

-- `false`
abbrev pub false_text : List ℕ
false_text = 102 ∷ 97 ∷ 108 ∷ 115 ∷ 101 ∷ []

-- `true`
abbrev pub true_text : List ℕ
true_text = 116 ∷ 114 ∷ 117 ∷ 101 ∷ []

-- `0`
abbrev pub zero_text : List ℕ
zero_text = 48 ∷ []

-- `ram`
abbrev pub ram_text : List ℕ
ram_text = 114 ∷ 97 ∷ 109 ∷ []
