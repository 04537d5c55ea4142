-- ===== src/Sleigh/Expression/Evaluate/Sign.antt =====
-- The value of a token field and of a context field as arithmetic.
use native.Mathlib.Nat.{
  pow-suc, pow-le-pow_right, one-le-pow, mod-lt, div-eq_of_lt, div-eq_of_lt-le,
}
use Prim.Native.Nat.{bit_xor}
use mizl_h_public.Base.{
  ℕ, suc, ◌+◌, ◌-◌, ◌*◌, ◌/◌, ◌%◌, ◌^◌, ◌≤◌, ◌<◌, ◌≡◌, refl, sym, Bool, true, false, inl, inr, ltb,
  ltb→lt, ltb→le, lt→leb, ne→==, eq→==, Bool-cases, arith, if◌then◌else◌, sub32, sub64, neg64,
  shl64, shr64, shr32, u64_mod, is_negative64, bit_and-mask, bit_and-highest, bit_xor-highest,
}
use mizl_h_public.Sleigh.Expression.{TokenField, ContextField}
use mizl_h_public.Sleigh.Expression.Evaluate.{
  bit_count_of, low_bits, has_sign, token_value, context_value,
}

-- A number of `k + 1` bits with a sign, as an `i64`.
abbrev pub sign_extended : ℕ → ℕ → ℕ
sign_extended k v = if ltb v (2 ^ k) then v else u64_mod - 2 ^ k * 2 + v

-- The same bits with the value negated where the sign is set.
abbrev pub sign_negated : ℕ → ℕ → ℕ
sign_negated k v = if ltb v (2 ^ k) then v else u64_mod - v

pow_bound : (k : ℕ) → k ≤ 62 → 2 ^ k * 2 ≤ 2 ^ 63
pow_bound k h =
    rw (sym (pow-suc 2 k))
      (pow-le-pow_right {n = 2} (omega arith) {i = suc k} {j = 63} (omega (arith, h)))

module _ (k : ℕ) (h : k ≤ 62) where
  bound : 2 ^ k * 2 ≤ 2 ^ 63
  bound = pow_bound k h

  one_bit : shl64 1 k ≡ 2 ^ k
  one_bit = let e : k % 64 ≡ k = omega (arith, h) in rw e (omega (arith, bound))

  mask_of : sub64 (shl64 1 (suc k)) 1 ≡ 2 ^ suc k - 1
  mask_of =
      let e : suc k % 64 ≡ suc k = omega (arith, h) in
      rw (e, pow-suc 2 k) (omega (arith, bound, one-le-pow k 2 (omega arith)))

  low_bits-mod : (x : ℕ) → low_bits x (suc k) ≡ x % 2 ^ suc k
  low_bits-mod x = rw mask_of (bit_and-mask x (suc k))

  last_bit : sub32 (suc k) 1 ≡ k
  last_bit = omega (arith, h)

  module _ (v : ℕ) (l : v < 2 ^ k * 2) where
    not_negative : is_negative64 v ≡ false
    not_negative = lt→leb (2 ^ 63) v (omega (arith, l, bound))

    no_sign : (sign_bit : Bool) → v < 2 ^ k → has_sign sign_bit v (suc k) ≡ false
    no_sign false s = refl
    no_sign true s =
        rw (not_negative, last_bit, one_bit, bit_and-highest v k l, div-eq_of_lt s)
          (rw (eq→== (0 * 2 ^ k) 0 (omega arith)) refl)

    one_half : 2 ^ k ≤ v → v / 2 ^ k ≡ 1
    one_half s = div-eq_of_lt-le (2 ^ k) (omega (arith, s)) (omega (arith, l))

    a_sign : 2 ^ k ≤ v → has_sign true v (suc k) ≡ true
    a_sign s =
        rw (not_negative, last_bit, one_bit, bit_and-highest v k l, one_half s)
          (rw (ne→== (1 * 2 ^ k) 0 (λ z. omega (arith, z, one-le-pow k 2 (omega arith)))) refl)

    lowered : 2 ^ k ≤ v → sub64 (v - 2 ^ k) (2 ^ k) ≡ u64_mod - 2 ^ k * 2 + v
    lowered s = omega (arith, s, l, bound)

  extended :
      (sign_bit : Bool) (v : ℕ)
      → v < 2 ^ k * 2
      → (if has_sign sign_bit v (suc k)
          then sub64 (bit_xor v (shl64 1 (sub32 (suc k) 1))) (shl64 1 (sub32 (suc k) 1))
          else v)
        ≡ (if sign_bit then sign_extended k v else v)
  extended false v l = refl
  extended true v l = elim (Bool-cases (ltb v (2 ^ k))) [
    | inl e ↦ rw (no_sign v l true (ltb→lt v (2 ^ k) e), e) refl
    | inr n ↦
        let s = ltb→le v (2 ^ k) n in
        rw (a_sign v l s, n, last_bit, one_bit, bit_xor-highest v k s l) (lowered v l s)
  ]

  negated :
      (sign_bit : Bool) (v : ℕ)
      → v < 2 ^ k * 2
      → (if has_sign sign_bit v (suc k) then neg64 v else v)
        ≡ (if sign_bit then sign_negated k v else v)
  negated false v l = refl
  negated true v l = elim (Bool-cases (ltb v (2 ^ k))) [
    | inl e ↦ rw (no_sign v l true (ltb→lt v (2 ^ k) e), e) refl
    | inr n ↦
        let s = ltb→le v (2 ^ k) n in
        rw (a_sign v l s, n) (omega (arith, s, l, bound, one-le-pow k 2 (omega arith)))
  ]

  low_bits-lt : (x : ℕ) → x % 2 ^ suc k < 2 ^ k * 2
  low_bits-lt x = rw (sym (pow-suc 2 k)) (mod-lt x (one-le-pow (suc k) 2 (omega arith)))

  -- A token field of `k + 1` bits, at most 63, has the value of those bits in what was read,
  -- shifted down: as they are, or, where the field has a sign, sign extended to an `i64`.
  pub token_value-bits :
      (f : TokenField) (read_value : ℕ)
      → bit_count_of f.bit_start f.bit_end f.byte_start f.byte_end ≡ suc k
      → token_value f read_value ≡ (
          let v = shr64 read_value f.shift % 2 ^ suc k in
          if f.sign_bit then sign_extended k v else v)
  token_value-bits f read_value e =
      rw (e, low_bits-mod (shr64 read_value f.shift))
        (extended f.sign_bit (shr64 read_value f.shift % 2 ^ suc k)
          (low_bits-lt (shr64 read_value f.shift)))

  -- A context field of `k + 1` bits, at most 63, has the value of those bits in what was read,
  -- shifted down: as they are, or, where the field has a sign and the highest bit is set, 0 less
  -- that value, which is not the sign extension.
  pub context_value-bits :
      (f : ContextField) (read_value : ℕ)
      → bit_count_of f.bit_start f.bit_end f.byte_start f.byte_end ≡ suc k
      → context_value f read_value ≡ (
          let v = shr32 read_value f.shift % 2 ^ suc k in
          if f.sign_bit then sign_negated k v else v)
  context_value-bits f read_value e =
      rw (e, low_bits-mod (shr32 read_value f.shift))
        (negated f.sign_bit (shr32 read_value f.shift % 2 ^ suc k)
          (low_bits-lt (shr32 read_value f.shift)))
