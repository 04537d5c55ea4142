-- ===== src/Gbf/Search.antt =====
-- The binary search of the three node kinds over their keys, which are the same lines in
-- mizl_core/src/database/gbf_long_interior_node.rs, gbf_long_fixed_node.rs and
-- gbf_long_var_node.rs but for what is answered when the key is missing.
pub mod Laws
use mizl_h_public.Base.{
  ℕ, zero, suc, ◌+◌, ltb, ◌==◌, if◌then◌else◌, add32, sub32, lt_i64, le_i32, div_i32, Outcome, ok,
  no_fuel, ◌>>=◌,
}

pub data BinarySearchMatch : Type 0 where
  found missing : ℕ → BinarySearchMatch

-- `get_key_at` reads a key; `absent` turns the last `min` into the answer for a missing key.
module _ (get_key_at : ℕ → Outcome ℕ) (absent : ℕ → ℕ) (key : ℕ) where
  -- while min <= max { .. }
  unfoldable pub find_loop : ℕ → ℕ → ℕ → Outcome BinarySearchMatch
  find_loop zero min max = no_fuel
  find_loop (suc fuel) min max =
      let i = div_i32 (add32 min max) 2 in
      let right = find_loop fuel (add32 i 1) max in
      let left = find_loop fuel min (sub32 i 1) in
      let probed = get_key_at i >>= λ k.
      if k == key then ok (found i) else if lt_i64 k key then right else left in
      if le_i32 min max then probed else ok (missing (absent min))

  -- The range loses an entry in each round, so `entry_count` rounds are enough, while the sum of
  -- two indices does not wrap.
  unfoldable pub find_entry_index : ℕ → Outcome BinarySearchMatch
  unfolding find_loop
  find_entry_index entry_count =
      let searched = find_loop entry_count 1 (sub32 entry_count 1) in
      if entry_count == 0
      then ok (missing 0)
      else if entry_count == 1
      then ok (found 0)
      else searched
