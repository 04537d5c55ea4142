-- ===== src/Sleigh/Memory/Laws.antt =====
-- What reading bits gives, where they lie in one word.
use native.Mathlib.Nat.{div-lt_iff_lt-mul, one-le-pow, pow-suc}
use mizl_h_public.Base.{
  ℕ, zero, suc, ◌+◌, ◌-◌, ◌*◌, ◌/◌, ◌%◌, ◌^◌, ◌≤◌, ◌<◌, ◌≡◌, refl, ap, sym, ◌∙◌, false, List,
  get_elem?, arith, add32, sub32, i32_as_u64, div_i32, lt_i32, shl32, shr32, u32_mod, ok, ◌>>=◌,
  IfOk, value, IfOk->>=, IfOk-any,
}
use mizl_h_public.Sleigh.Memory.{read_ctx_u32_bits_at, context_word, unit_count}

-- The bits lie in one word of 32 bits: there is one at least, and the last is in the word of the
-- first.
abbrev pub InWord : ℕ → ℕ → Type 0
InWord start size = (start < 2 ^ 31) × (1 ≤ size) × (start % 32 + size ≤ 32)

doubled : (x y z : ℕ) → x ≡ y * z → x * 2 ≡ y * (z * 2)
doubled x y z e = omega (arith, e)

pow-add : (a b : ℕ) → 2 ^ (a + b) ≡ 2 ^ a * 2 ^ b
pow-add a zero = let e : a + 0 ≡ a = omega arith in rw e (omega arith)
pow-add a (suc b) =
    let e : a + suc b ≡ suc (a + b) = omega arith in
    rw (e, pow-suc 2 (a + b), pow-suc 2 b) (doubled (2 ^ (a + b)) (2 ^ a) (2 ^ b) (pow-add a b))

shift_of : (size : ℕ) → 1 ≤ size → size ≤ 32 → sub32 32 size % 32 ≡ 32 - size
shift_of size h k = omega arith

-- A shift to the right leaves the bits that are wanted.
pub shr32-lt :
    (x size : ℕ) → x < u32_mod → 1 ≤ size → size ≤ 32 → shr32 x (sub32 32 size) < 2 ^ size
shr32-lt x size h k l =
    let whole : 2 ^ 32 ≡ 2 ^ size * 2 ^ (32 - size) =
      let e : 32 ≡ size + (32 - size) = omega arith in
      ap (λ n. 2 ^ n) e ∙ pow-add size (32 - size) in
    let small : x < 2 ^ size * 2 ^ (32 - size) = rw (sym whole) h in
    rw (shift_of size k l) ((div-lt_iff_lt-mul (one-le-pow (32 - size) 2 (omega arith))).1 small)

module _ (start size : ℕ) (h : InWord start size) where
  pub word_of : i32_as_u64 (div_i32 start 32) ≡ start / 32
  word_of = ground (arith, h.0)

  one_word : unit_count (start % 32) size 32 ≡ 1
  one_word = ground (arith, h.1, h.2)

  none_left : lt_i32 0 (add32 (sub32 size 32) (start % 32)) ≡ false
  none_left = ground (arith, h.1, h.2)

-- Where the bits lie in one word of the context, they are read as a number: those of the word, from
-- the highest bit on, shifted to the bottom. A word that is not there is a panic.
pub read_ctx-word :
    (ctx : List ℕ) (start size : ℕ)
    → InWord start size
    → read_ctx_u32_bits_at ctx start size ≡ (
        context_word (get_elem? ctx (start / 32)) >>= λ w.
        ok (shr32 (shl32 w (start % 32)) (sub32 32 size)))
unfolding read_ctx_u32_bits_at
read_ctx-word ctx start size h =
    rw (one_word start size h, none_left start size h, word_of start size h) refl

-- What is read has no more bits than asked for.
pub read_ctx-lt :
    (ctx : List ℕ) (start size : ℕ)
    → InWord start size
    → IfOk (λ v. v < 2 ^ size) (read_ctx_u32_bits_at ctx start size)
read_ctx-lt ctx start size h = rw (read_ctx-word ctx start size h) (
    IfOk->>= (IfOk-any (context_word (get_elem? ctx (start / 32))))
      λ w t. value (shr32-lt _ size (omega arith) h.1 (omega (arith, h.2))))
