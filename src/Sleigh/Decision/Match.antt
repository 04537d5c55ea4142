-- ===== src/Sleigh/Decision/Match.antt =====
-- Whether a pattern matches the bytes and the context: `DisjointPattern::is_match` of
-- mizl_core/src/sleigh/decision.rs.
use Prim.Native.Nat.{bit_and}
use mizl_h_public.Base.{
  ℕ, Bool, true, false, not, ◌&&◌, List, [], ◌∷◌, Option, none, some, get_elem?, ◌==◌,
  if◌then◌else◌, add32, add64, i32_as_u64, Outcome, ok, err, panic, no_fuel, ◌>>=◌,
}
use mizl_h_public.Sleigh.State.{DisasmState, read_mem_u32_at, read_ctx_u32_at}
use mizl_h_public.Sleigh.Decision.{
  PatBlock, DisjointPattern, instruction_pattern, context_pattern, combine_pattern,
}

-- `Err(_) => return false`
abbrev pub or_false : Outcome Bool → Outcome Bool
or_false (ok b) = ok b
or_false (err e) = ok false
or_false panic = panic
or_false no_fuel = no_fuel

module _ (state : DisasmState) where
  -- The loop of `check_ins_pattern` from a pair on.
  unfoldable pub ins_pairs : ℕ → ℕ → List (ℕ × ℕ) → Outcome Bool
  unfolding read_mem_u32_at
  ins_pairs at offset [] = ok true
  ins_pairs at offset ((mask, val) ∷ pairs) =
      let rest = ins_pairs at (add32 offset 4) pairs in
      or_false (
        read_mem_u32_at state (add64 at (i32_as_u64 offset)) true >>= λ d.
        if not (bit_and d mask == val) then ok false else rest)

  unfoldable pub ctx_pairs : ℕ → List (ℕ × ℕ) → Outcome Bool
  unfolding read_ctx_u32_at
  ctx_pairs offset [] = ok true
  ctx_pairs offset ((mask, val) ∷ pairs) = do
    let rest = ctx_pairs (add32 offset 4) pairs
    d ← read_ctx_u32_at state (i32_as_u64 offset)
    if not (bit_and d mask == val) then ok false else rest

  abbrev pub ins_block : ℕ → Option PatBlock → Outcome Bool
  unfolding ins_pairs
  ins_block at none = panic
  ins_block at (some block) = ins_pairs at block.offset block.mask_value_pairs

  abbrev pub ctx_block : Option PatBlock → Outcome Bool
  unfolding ctx_pairs
  ctx_block none = panic
  ctx_block (some block) = ctx_pairs block.offset block.mask_value_pairs

  unfoldable pub check_ins_pattern : DisjointPattern → ℕ → ℕ → Outcome Bool
  unfolding ins_block
  check_ins_pattern p at pat_block_idx = ins_block at (get_elem? p.pat_blocks pat_block_idx)

  unfoldable pub check_ctx_pattern : DisjointPattern → ℕ → Outcome Bool
  unfolding ctx_block
  check_ctx_pattern p pat_block_idx = ctx_block (get_elem? p.pat_blocks pat_block_idx)

  -- Both halves of a combined pattern are checked, also where the first does not match.
  unfoldable pub is_match : DisjointPattern → ℕ → Outcome Bool
  unfolding check_ins_pattern check_ctx_pattern
  is_match p at = elim p.pat_type [
    | instruction_pattern ↦ check_ins_pattern p at 0
    | context_pattern ↦ check_ctx_pattern p 0
    | combine_pattern ↦ do c ← check_ctx_pattern p 0; i ← check_ins_pattern p at 1; ok (c && i)
  ]
