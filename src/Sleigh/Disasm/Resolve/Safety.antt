-- ===== src/Sleigh/Disasm/Resolve/Safety.antt =====
-- The accesses without a bounds check in the walk through a decision tree.
use mathlib.Core.Path.{subst}
use mizl_h_public.Base.{
  ℕ, zero, suc, ◌+◌, ◌-◌, ◌/◌, ◌%◌, ◌^◌, ◌≤◌, ◌<◌, ◌≡◌, ◌≢◌, refl, Bool, true, false, List, [], ◌∷◌,
  ◌++◌, Option, none, some, length, length-append, get_elem?, get_or, get_elem?-some, ne→==, arith,
  if◌then◌else◌, sub32, mul32, i32_as_u64, lt_i32, le_i32, shl32, shr32, Outcome, ok, ◌>>=◌, IfOk,
  value, IfOk->>=, IfOk-ok, IfOk-any, IfOk-weaken,
}
use mizl_h_public.Sleigh.State.{DisasmState, state_ctx_u32_bits_at}
use mizl_h_public.Sleigh.Memory.Laws.{InWord, shr32-lt, word_of, read_ctx-lt}
use mizl_h_public.Sleigh.Decision.{
  Decision, Decisions, decision, no_decisions, onto, count, DecisionPair,
}
use mizl_h_public.Sleigh.Disasm.Resolve.{
  Walk, leaf, out_of_bounds, or_invalid, word_idx, word_plus, word_end_idx, bits_of, push_words,
  check_bits, step_to, walk, walk_child,
}

-- A tree whose inner nodes look at bits of one word, and have a child for each value of the bits,
-- as the reader of decisions asserts.
mutual
  pub data IsSafe : Decision → Type 0 where
    at_leaf :
        {c : Bool} {s : ℕ} {cs : Decisions} {ps : List DecisionPair} → IsSafe (decision c s 0 cs ps)
    at_node :
        {c : Bool} {start size : ℕ} {cs : Decisions} {ps : List DecisionPair}
        → InWord start size
        → count cs ≡ 2 ^ size
        → AreSafe cs
        → IsSafe (decision c start size cs ps)

  pub data AreSafe : Decisions → Type 0 where
    no_more : AreSafe no_decisions
    and_more : {d : Decision} {ds : Decisions} → IsSafe d → AreSafe ds → AreSafe (onto d ds)

module _ (start size : ℕ) (h : InWord start size) where
  plus_of : word_plus start size ≡ 32 - (start % 32 + size)
  plus_of = omega (arith, h.0, h.1, h.2)

  no_further : lt_i32 (word_plus start size) 0 ≡ false
  no_further = rw plus_of (ground (arith, h.2))

  idx_of : i32_as_u64 (word_idx start) ≡ start / 32
  idx_of = word_of start size h

  amount_of : sub32 start (mul32 (word_idx start) 32) ≡ start % 32
  amount_of = ground (arith, h.0)

  end_is_first : word_end_idx start size ≡ start / 32
  end_is_first = rw no_further (ground (arith, h.0))

  bits_of-word :
      (words : List ℕ) (w : ℕ)
      → bits_of words start size (some w) ≡ ok (some (shr32 (shl32 w (start % 32)) (sub32 32 size)))
  bits_of-word words w = rw (no_further, amount_of) refl

-- The words that were read so far: one at least, and far fewer than an `i32` counts.
abbrev pub IsStack : List ℕ → Type 0
IsStack words = (1 ≤ length words) × (length words < 2 ^ 30)

-- The bits are found, and number a child.
abbrev Found : ℕ → Option ℕ × List ℕ → Type 0
Found size (none, words) = ⊥
Found size (some v, words) = (v < 2 ^ size) × IsStack words

module _ (state : DisasmState) where
  push_words-length :
      (n : ℕ) (words : List ℕ) → IfOk (λ l. length l ≡ length words + n) (push_words state n words)
  unfolding push_words
  push_words-length zero words = value (omega arith)
  push_words-length (suc n) words = IfOk->>= (IfOk-any (or_invalid _)) λ w t.
      IfOk-weaken (push_words-length n (words ++ (w ∷ [])))
        λ l e. omega (arith, e, length-append words (w ∷ []))

  module _ (start size : ℕ) (h : InWord start size) (words : List ℕ) (k : IsStack words) where
    in_context : IfOk (Found size) (check_bits state true start size words)
    unfolding check_bits state_ctx_u32_bits_at
    in_context = IfOk->>= (read_ctx-lt state.ctx start size h) λ v b. value (b, k)

    -- How many words are missing.
    missing : ℕ
    missing =
        if le_i32 (length words) (start / 32) then suc (sub32 (start / 32) (length words)) else 0

    -- The word of the bits is there in the end.
    enough : (n : ℕ) → n ≡ length words + missing → (start / 32 < n) × (1 ≤ n) × (n < 2 ^ 30)
    unfolding missing
    enough n e = ground (arith, h.0, k.0, k.1)

    bits_there :
        (l : List ℕ)
        → length l ≡ length words + missing
        → IfOk
            (Found size)
            (bits_of l start size (get_elem? l (i32_as_u64 (word_idx start))) >>= λ b. ok (b, l))
    bits_there l e =
        let n = enough (length l) e in
        rw
          (
            idx_of start size h,
            get_elem?-some l (start / 32) 0 n.0,
            bits_of-word start size h l (get_or l (start / 32) 0),
          )
          (value (shr32-lt _ size (omega arith) h.1 (omega (arith, h.2)), (n.1, n.2)))

    in_words : IfOk (Found size) (check_bits state false start size words)
    unfolding check_bits missing
    in_words =
        rw (end_is_first start size h)
          (IfOk->>= (push_words-length missing words) λ l e. bits_there l e)

  abbrev IsLeaf : Walk → Type 0
  IsLeaf (leaf ps) = Unit
  IsLeaf out_of_bounds = ⊥

  bits_of-Found :
      (c : Bool) (start size : ℕ)
      → InWord start size
      → (words : List ℕ) → IsStack words
      → IfOk (Found size) (check_bits state c start size words)
  bits_of-Found true start size h words k = in_context start size h words k
  bits_of-Found false start size h words k = in_words start size h words k

  step-IsLeaf :
      (choose : ℕ → List ℕ → Outcome Walk) (size : ℕ)
      → ((i : ℕ) (l : List ℕ) → i < 2 ^ size → IsStack l → IfOk IsLeaf (choose i l))
      → (b : Option ℕ) (l : List ℕ) → Found size (b, l)
      → IfOk IsLeaf (step_to state choose (b, l))
  step-IsLeaf choose size k none l f = absurd f
  step-IsLeaf choose size k (some v) l f = k v l f.0 f.1

  mutual
    unfolding walk

    walk-IsLeaf :
        (d : Decision)
        → IsSafe d
        → (words : List ℕ) → IsStack words
        → IfOk IsLeaf (walk state d words)
    walk-IsLeaf (decision c start size cs ps) (at_leaf) words k = value tt
    walk-IsLeaf (decision c start size cs ps) (at_node h n safe) words k =
        rw (ne→== size 0 (omega (arith, h.1))) (
          IfOk->>= (bits_of-Found c start size h words k) λ (b, l) f.
            step-IsLeaf (walk_child state cs) size
              (λ i l' u v. child-IsLeaf cs safe i (rw n u) l' v) b l f)

    child-IsLeaf :
        (cs : Decisions)
        → AreSafe cs
        → (i : ℕ) → i < count cs
        → (words : List ℕ) → IsStack words
        → IfOk IsLeaf (walk_child state cs i words)
    child-IsLeaf no_decisions safe i h words k = elim h [ ]
    child-IsLeaf (onto d ds) (and_more s safe) zero h words k = walk-IsLeaf d s words k
    child-IsLeaf (onto d ds) (and_more s safe) (suc i) h words k =
        child-IsLeaf ds safe i (omega arith) words k

-- In a tree that looks at bits of one word and has a child for each value of the bits, as the
-- assertion of the reader says, the walk accesses nothing out of bounds, neither among the words
-- that it read nor among the children, whatever the memory and the context hold.
pub walk-in_bounds :
    (state : DisasmState) (d : Decision) (w : ℕ)
    → IsSafe d
    → walk state d (w ∷ []) ≢ ok out_of_bounds
walk-in_bounds state d w h eq =
    IfOk-ok
      (subst (IfOk (IsLeaf state)) eq (walk-IsLeaf state d h (w ∷ []) (omega arith, omega arith)))
