-- ===== src/Sleigh/Disasm/Resolve/First.antt =====
-- The constructor that is resolved.
use mathlib.Core.Path.{subst}
use mizl_h_public.Base.{
  ℕ, ◌≡◌, refl, Bool, true, false, List, [], ◌∷◌, if◌then◌else◌, Outcome, ok, err, panic, no_fuel,
  ◌>>=◌, IfOk, value, failed, panicked, unfinished, IfOk-ok, IfOk-weaken,
}
use mizl_h_public.Sleigh.State.{DisasmState, read_mem_u32_at}
use mizl_h_public.Sleigh.Decision.{Decision, DecisionPair}
use mizl_h_public.Sleigh.Decision.Match.{is_match}
use mizl_h_public.Sleigh.Disasm.Resolve.{
  Walk, leaf, out_of_bounds, or_invalid, walk, find_ctor, ctor_at, resolve_ctor,
}

module _ (state : DisasmState) (at : ℕ) where
  -- A pair that matches, behind pairs that do not.
  pub data Chosen : List DecisionPair → ℕ → Type 0 where
    here :
        {pair : DecisionPair} {pairs : List DecisionPair}
        → is_match state pair.pattern at ≡ ok true
        → Chosen (pair ∷ pairs) pair.ctor_id
    behind :
        {pair : DecisionPair} {pairs : List DecisionPair} {id : ℕ}
        → is_match state pair.pattern at ≡ ok false
        → Chosen pairs id
        → Chosen (pair ∷ pairs) id

  chosen :
      (pair : DecisionPair) (pairs : List DecisionPair) (rest : Outcome ℕ) (matches : Outcome Bool)
      → is_match state pair.pattern at ≡ matches
      → IfOk (Chosen pairs) rest
      → IfOk (Chosen (pair ∷ pairs)) (matches >>= λ b. if b then ok pair.ctor_id else rest)
  chosen pair pairs rest (ok true) e h = value (here e)
  chosen pair pairs (ok id) (ok false) e (value h) = value (behind e h)
  chosen pair pairs (err x) (ok false) e h = failed
  chosen pair pairs panic (ok false) e h = panicked
  chosen pair pairs no_fuel (ok false) e h = unfinished
  chosen pair pairs rest (err x) e h = failed
  chosen pair pairs rest panic e h = panicked
  chosen pair pairs rest no_fuel e h = unfinished

  find_ctor-Chosen : (pairs : List DecisionPair) → IfOk (Chosen pairs) (find_ctor state pairs at)
  unfolding find_ctor
  find_ctor-Chosen [] = failed
  find_ctor-Chosen (pair ∷ pairs) =
      chosen pair pairs (find_ctor state pairs at) (is_match state pair.pattern at) refl
        (find_ctor-Chosen pairs)

  -- The tree leads from a first word to a leaf, and the constructor is chosen from its pairs.
  abbrev pub Resolved : Decision → ℕ → Type 0
  Resolved tree id =
      (w : ℕ) × (pairs : List DecisionPair) × (read_mem_u32_at state at true ≡ ok w)
      × (walk state tree (w ∷ []) ≡ ok (leaf pairs))
      × Chosen pairs id

  at_end :
      (tree : Decision) (w : ℕ) (reached : Outcome Walk)
      → read_mem_u32_at state at true ≡ ok w
      → walk state tree (w ∷ []) ≡ reached
      → IfOk (Resolved tree) (reached >>= ctor_at state at)
  unfolding ctor_at
  at_end tree w (ok (leaf pairs)) h e =
      IfOk-weaken (find_ctor-Chosen pairs) λ id c. (w, pairs, h, e, c)
  at_end tree w (ok out_of_bounds) h e = panicked
  at_end tree w (err x) h e = failed
  at_end tree w panic h e = panicked
  at_end tree w no_fuel h e = unfinished

  from_word :
      (tree : Decision) (read : Outcome ℕ)
      → read_mem_u32_at state at true ≡ read
      → IfOk
          (Resolved tree)
          (or_invalid read >>= λ w. walk state tree (w ∷ []) >>= ctor_at state at)
  from_word tree (ok w) h = at_end tree w (walk state tree (w ∷ [])) h refl
  from_word tree (err x) h = failed
  from_word tree panic h = panicked
  from_word tree no_fuel h = unfinished

  -- A constructor that is resolved is that of the first pair that matches: the word at the address
  -- is read, the tree leads from it to a leaf, a pair of the leaf matches and has the
  -- constructor's id, and the pairs of the leaf in front of it do not match.
  pub resolve_ctor-first :
      (tree : Decision) (id : ℕ) → resolve_ctor state tree at ≡ ok id → Resolved tree id
  unfolding resolve_ctor
  resolve_ctor-first tree id e =
      IfOk-ok (subst (IfOk (Resolved tree)) e (from_word tree (read_mem_u32_at state at true) refl))
