-- ===== src/Sleigh/Disasm/Resolve/Straddle.antt =====
-- A decision whose bits go on in the next word.
use mizl_h_public.Base.{
  ℕ, ◌+◌, ◌-◌, ◌≤◌, ◌<◌, ◌≡◌, refl, true, false, List, [], ◌∷◌, ne→==, arith, lt_i32, u32_mod, ok,
}
use mizl_h_public.Sleigh.State.{DisasmState}
use mizl_h_public.Sleigh.Decision.{Decisions, decision, DecisionPair}
use mizl_h_public.Sleigh.Disasm.Resolve.{
  out_of_bounds, word_idx, word_plus, word_end_idx, push_words, check_bits, walk,
}

module _ (start size : ℕ) (h : start < 32) (k : 32 < start + size) (l : size ≤ 32) where
  plus_of : word_plus start size ≡ u32_mod + 32 - (start + size)
  plus_of = omega (arith, h, k, l)

  goes_on : lt_i32 (word_plus start size) 0 ≡ true
  goes_on = rw plus_of (ground (arith, h, k, l))

  first_word : word_idx start ≡ 0
  first_word = ground (arith, h)

  -- The further words are counted by whole words: there are none.
  no_word_more : word_end_idx start size ≡ 0
  no_word_more = rw goes_on (rw (first_word, plus_of) (ground (arith, h, k, l)))

  -- A decision on bits of the instruction that start in the first word and end in the second reads
  -- a word that is not there, whatever the memory holds.
  pub walk-straddling :
      (state : DisasmState) (cs : Decisions) (ps : List DecisionPair) (w : ℕ)
      → walk state (decision false start size cs ps) (w ∷ []) ≡ ok out_of_bounds
  unfolding walk check_bits push_words
  walk-straddling state cs ps w =
      rw (ne→== size 0 (omega (arith, h, k)), no_word_more, first_word, goes_on)
        (rw first_word refl)
