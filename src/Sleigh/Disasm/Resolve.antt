-- ===== src/Sleigh/Disasm/Resolve.antt =====
-- The walk through a decision tree to a constructor: `resolve_ctor` of
-- mizl_core/src/sleigh/disasm.rs. An access without a bounds check that is out of range has
-- undefined behaviour; the walk answers `out_of_bounds` for it.
pub mod Safety
pub mod Straddle
pub mod First
use Prim.Native.Nat.{bit_or}
use mizl_h_public.Base.{
  ℕ, zero, suc, ◌+◌, ◌-◌, ◌%◌, ◌/◌, Bool, true, false, not, ◌&&◌, List, [], ◌∷◌, ◌++◌, Option, none,
  some, length, get_elem?, ltb, ◌==◌, if◌then◌else◌, add32, sub32, mul32, i32_as_u64, div_i32,
  lt_i32, le_i32, shl32, shr32, rounds_i32, Outcome, ok, err, panic, no_fuel, generic, ◌>>=◌,
}
use mizl_h_public.Sleigh.State.{DisasmState, read_mem_u32_at, state_ctx_u32_bits_at}
use mizl_h_public.Sleigh.Decision.{Decision, Decisions, decision, no_decisions, onto, DecisionPair}
use mizl_h_public.Sleigh.Decision.Match.{is_match}

pub data Walk : Type 0 where
  leaf : List DecisionPair → Walk
  out_of_bounds : Walk

-- `Err("<invalid read>")` in place of the error of a read.
abbrev pub or_invalid {ℓ} : {A : Type ℓ} → Outcome A → Outcome A
or_invalid (ok v) = ok v
or_invalid (err e) = err (generic "<invalid read>" [])
or_invalid panic = panic
or_invalid no_fuel = no_fuel

-- The position of the bits of a decision in the words: the word of the first bit, the bits behind
-- the last one in that word (negative where they go on in the next), and the last word.
abbrev pub word_idx : ℕ → ℕ
word_idx start = div_i32 start 32

abbrev pub word_plus : ℕ → ℕ → ℕ
word_plus start size = let next = add32 start 32 in sub32 (next - next % 32) (add32 start size)

abbrev pub word_end_idx : ℕ → ℕ → ℕ
word_end_idx start size =
    let plus = word_plus start size in
    if lt_i32 plus 0 then add32 (word_idx start) (div_i32 (sub32 0 plus) 32) else word_idx start

-- The bits, from the word of the first bit and, where they go on, the next one.
abbrev pub second_bits : ℕ → ℕ → ℕ → Option ℕ → Outcome (Option ℕ)
second_bits plus unused_bits tmp none = ok none
second_bits plus unused_bits tmp (some w) =
    if lt_i32 plus (sub32 0 32) then panic else ok (some (bit_or tmp (shr32 w unused_bits)))

abbrev pub bits_of : List ℕ → ℕ → ℕ → Option ℕ → Outcome (Option ℕ)
bits_of words start size none = ok none
bits_of words start size (some w) =
    let idx = word_idx start in
    let unused_bits = sub32 32 size in
    let tmp = shr32 (shl32 w (sub32 start (mul32 idx 32))) unused_bits in
    let plus = word_plus start size in
    if lt_i32 plus 0
    then second_bits plus unused_bits tmp (get_elem? words (i32_as_u64 (add32 idx 1)))
    else ok (some tmp)

module _ (state : DisasmState) where
  -- `while word_stack_end_idx >= word_stack_len`: the words that are missing are read, at the
  -- number of words divided by four.
  unfoldable pub push_words : ℕ → List ℕ → Outcome (List ℕ)
  unfolding read_mem_u32_at
  push_words zero words = ok words
  push_words (suc n) words = do
    w ← or_invalid (read_mem_u32_at state (length words / 4) true)
    push_words n (words ++ (w ∷ []))

  -- The bits that a decision looks at, and the words that are read by then.
  unfoldable pub check_bits : Bool → ℕ → ℕ → List ℕ → Outcome (Option ℕ × List ℕ)
  unfolding state_ctx_u32_bits_at push_words
  check_bits context start size words =
      let in_context : Outcome (Option ℕ × List ℕ) = (do
        bits ← state_ctx_u32_bits_at state start size
        ok (some bits, words)) in
      let in_words : Outcome (Option ℕ × List ℕ) = (do
        let end_idx = word_end_idx start size
        let missing =
            if le_i32 (length words) end_idx then suc (sub32 end_idx (length words)) else 0
        words' ← push_words missing words
        bits ← bits_of words' start size (get_elem? words' (i32_as_u64 (word_idx start)))
        ok (bits, words')) in
      if context then in_context else in_words

  -- The child for the bits, by `choose`.
  abbrev pub step_to : (ℕ → List ℕ → Outcome Walk) → Option ℕ × List ℕ → Outcome Walk
  step_to choose (none, words) = ok out_of_bounds
  step_to choose (some bits, words) = choose bits words

  unfoldable mutual
    unfolding check_bits

    pub walk : Decision → List ℕ → Outcome Walk
    walk (decision context start size children pairs) words =
        let further = check_bits context start size words >>= step_to (walk_child children) in
        if not (size == 0) then further else ok (leaf pairs)

    pub walk_child : Decisions → ℕ → List ℕ → Outcome Walk
    walk_child no_decisions i words = ok out_of_bounds
    walk_child (onto d rest) zero words = walk d words
    walk_child (onto d rest) (suc i) words = walk_child rest i words

  -- The first pair whose pattern matches.
  unfoldable pub find_ctor : List DecisionPair → ℕ → Outcome ℕ
  unfolding is_match
  find_ctor [] at = err (generic "<pattern not found>" [])
  find_ctor (pair ∷ pairs) at = do
    let rest = find_ctor pairs at
    matches ← is_match state pair.pattern at
    if matches then ok pair.ctor_id else rest

  -- Undefined behaviour has no outcome of its own: it is counted as a panic here.
  abbrev pub ctor_at : ℕ → Walk → Outcome ℕ
  unfolding find_ctor
  ctor_at at (leaf pairs) = find_ctor pairs at
  ctor_at at out_of_bounds = panic

  unfoldable pub resolve_ctor : Decision → ℕ → Outcome ℕ
  unfolding read_mem_u32_at walk ctor_at
  resolve_ctor tree at = do
    w ← or_invalid (read_mem_u32_at state at true)
    reached ← walk tree (w ∷ [])
    ctor_at at reached
