-- ===== src/Examples/Nodes.antt =====
-- The lookups in the nodes of the small file.
use mizl_h_public.Base.{
  ℕ, zero, suc, ◌^◌, ◌≤◌, ◌<◌, ◌≡◌, refl, [], ◌∷◌, none, some, ok, rank64, arith,
}
use mizl_h_public.MemView.Trait.{decode}
use mizl_h_public.MemView.Codec.{from_be_bytes}
use mizl_h_public.Gbf.Record.{GbfRecord, long_value, byte_value}
use mizl_h_public.Gbf.Leaf.Laws.{Between}
use mizl_h_public.Gbf.Node.Interior
use mizl_h_public.Gbf.Node.Interior.Laws as InteriorLaws
use mizl_h_public.Gbf.Node.Fixed
use mizl_h_public.Gbf.Node.Fixed.Laws as FixedLaws
use mizl_h_public.Gbf.Node.Var
use mizl_h_public.Gbf.Node.Var.Laws as VarLaws
use mizl_h_public.Examples.{
  be, file, schema, keys, inner_keys, inner_node, fixed_node, single_fixed_node, var_node,
}

abbrev pub record_of : ℕ → ℕ → GbfRecord
record_of key v = record { key = long_value key; values = byte_value v ∷ [] }

opened : Fixed.new file 2 1 ≡ ok fixed_node
unfolding Fixed.new file be decode from_be_bytes
opened = refl

opened_single : Fixed.new file 3 1 ≡ ok single_fixed_node
unfolding Fixed.new file be decode from_be_bytes
opened_single = refl

opened_var : Var.new file 4 ≡ ok var_node
unfolding Var.new file be decode from_be_bytes
opened_var = refl

opened_inner : Interior.new file 1 ≡ ok inner_node
unfolding Interior.new file be decode from_be_bytes
opened_inner = refl

looked_up : Fixed.get_entry schema fixed_node 5 ≡ ok (some (record_of 5 105))
unfolding Fixed.get_entry file be decode from_be_bytes
looked_up = refl

looked_up_var : Var.get_entry schema var_node 9 ≡ ok (some (record_of 9 0))
unfolding Var.get_entry file be decode from_be_bytes
looked_up_var = refl

fixed_reads : (i : ℕ) → i < 3 → Fixed.get_key_at fixed_node i ≡ ok (keys i)
unfolding Fixed.get_key_at file be decode from_be_bytes
fixed_reads zero h = refl
fixed_reads (suc zero) h = refl
fixed_reads (suc (suc zero)) h = refl
fixed_reads (suc (suc (suc i))) h = absurd (omega arith)

var_reads : (i : ℕ) → i < 3 → Var.get_key_at var_node i ≡ ok (keys i)
unfolding Var.get_key_at file be decode from_be_bytes
var_reads zero h = refl
var_reads (suc zero) h = refl
var_reads (suc (suc zero)) h = refl
var_reads (suc (suc (suc i))) h = absurd (omega arith)

inner_reads : (i : ℕ) → i < 2 → Interior.get_key_at inner_node i ≡ ok (inner_keys i)
unfolding Interior.get_key_at file be decode from_be_bytes
inner_reads zero h = refl
inner_reads (suc zero) h = refl
inner_reads (suc (suc i)) h = absurd (omega arith)

keys_are_words : (i : ℕ) → i < 3 → keys i < 2 ^ 64
keys_are_words zero h = omega arith
keys_are_words (suc zero) h = omega arith
keys_are_words (suc (suc zero)) h = omega arith
keys_are_words (suc (suc (suc i))) h = omega arith

inner_keys_are_words : (i : ℕ) → i < 2 → inner_keys i < 2 ^ 64
inner_keys_are_words zero h = omega arith
inner_keys_are_words (suc zero) h = omega arith
inner_keys_are_words (suc (suc i)) h = omega arith

keys_ascend : (i j : ℕ) → i < j → j < 3 → rank64 (keys i) < rank64 (keys j)
keys_ascend zero zero h k = absurd (omega arith)
keys_ascend zero (suc zero) h k = omega arith
keys_ascend zero (suc (suc j)) h k = omega arith
keys_ascend (suc zero) zero h k = absurd (omega arith)
keys_ascend (suc zero) (suc zero) h k = absurd (omega arith)
keys_ascend (suc zero) (suc (suc j)) h k = omega arith
keys_ascend (suc (suc i)) j h k = absurd (omega arith)

inner_keys_ascend : (i j : ℕ) → i < j → j < 2 → rank64 (inner_keys i) < rank64 (inner_keys j)
inner_keys_ascend zero zero h k = absurd (omega arith)
inner_keys_ascend zero (suc j) h k = omega arith
inner_keys_ascend (suc i) j h k = absurd (omega arith)

pub fixed_node-IsLeaf : FixedLaws.IsLeaf fixed_node keys
fixed_node-IsLeaf = record {
  has_keys = record { reads = fixed_reads; words = keys_are_words; ascends = keys_ascend };
  many = omega arith;
  few = omega arith;
}

pub var_node-IsLeaf : VarLaws.IsLeaf var_node keys
var_node-IsLeaf = record {
  has_keys = record { reads = var_reads; words = keys_are_words; ascends = keys_ascend };
  many = omega arith;
  few = omega arith;
}

pub inner_node-IsInner : InteriorLaws.IsInner inner_node inner_keys
inner_node-IsInner = record {
  has_keys = record {
    reads = inner_reads;
    words = inner_keys_are_words;
    ascends = inner_keys_ascend;
  };
  some_entry = omega arith;
  few = omega arith;
}

-- The key 3 lies between the entries 0 and 1, the key 7 between the entries 1 and 2.
pub below_second : Between keys 3 3 1
below_second = record {
  from_one = omega arith;
  to_count = omega arith;
  below = λ j h k. absurd (omega arith);
  above = above;
}
  where
    above : (j : ℕ) → 1 ≤ j → j < 3 → rank64 3 < rank64 (keys j)
    above zero h k = absurd (omega arith)
    above (suc zero) h k = omega arith
    above (suc (suc j)) h k = omega arith

pub below_third : Between keys 3 7 2
below_third = record {
  from_one = omega arith;
  to_count = omega arith;
  below = below;
  above = above;
}
  where
    below : (j : ℕ) → 1 ≤ j → j < 2 → rank64 (keys j) < rank64 7
    below zero h k = absurd (omega arith)
    below (suc zero) h k = omega arith
    below (suc (suc j)) h k = absurd (omega arith)

    above : (j : ℕ) → 2 ≤ j → j < 3 → rank64 7 < rank64 (keys j)
    above zero h k = absurd (omega arith)
    above (suc zero) h k = absurd (omega arith)
    above (suc (suc j)) h k = omega arith

get_entry-Covers_example :
    (i : ℕ) × (InteriorLaws.Covers inner_keys 2 7 i)
    × (Interior.get_entry inner_node 7 ≡ Interior.get_value_at inner_node i)
get_entry-Covers_example =
    InteriorLaws.get_entry-Covers inner_node inner_keys inner_node-IsInner 7 (omega arith)

get_entry-fixed_decided_example :
    (Fixed.get_entry schema fixed_node 5 ≡ Fixed.get_entry_by_index schema fixed_node 5 1)
    × (Fixed.get_entry schema fixed_node 7 ≡ ok none)
get_entry-fixed_decided_example =
    FixedLaws.get_entry-fixed_decided fixed_node schema keys fixed_node-IsLeaf 1 7 2 (omega arith)
      (omega arith) (omega arith) below_third
