-- ===== src/Shared/HexText/Laws.antt =====
-- What the text of a number says.
use native.Mathlib.Nat.{pow-suc, one-le-pow}
use mizl_h_public.Base.{
  ℕ, zero, suc, ◌+◌, ◌-◌, ◌*◌, ◌/◌, ◌%◌, ◌^◌, ◌≤◌, ◌<◌, ◌≡◌, ◌⊎◌, inl, inr, refl, ap, ◌∙◌,
  Bool-cases, List, [], ◌∷◌, ◌++◌, length, get_or, ltb, ◌==◌, ==_iff, eq→==, ne→==, lt→ltb, le→ltb,
  le→leb, lt→leb, arith, if◌then◌else◌, is_negative64, abs64, ok, panic, all_below-true,
}
use mizl_h_public.Shared.HexText.{hex_chars, write_digits, with_prefix, i64_to_str_fast}

-- The digit that a character stands for, and the number that characters stand for behind `acc`.
abbrev pub digit : ℕ → ℕ
digit c = if ltb c 58 then c - 48 else c - 87

unfoldable pub hex_value : ℕ → List ℕ → ℕ
hex_value acc [] = acc
hex_value acc (c ∷ text) = hex_value (acc * 16 + digit c) text

digit-hex_char : (n : ℕ) → n < 16 → digit (get_or hex_chars n 0) ≡ n
digit-hex_char n h =
    (==_iff _ n).0 (all_below-true 16 (λ m. digit (get_or hex_chars m 0) == m) refl n h)

hex_value-write_digits :
    (rounds num : ℕ) (written : List ℕ)
    → num < 16 ^ rounds
    → hex_value 0 (write_digits rounds num written) ≡ hex_value num written
unfolding hex_value write_digits
hex_value-write_digits zero num written h = ap (λ n. hex_value n written) (omega arith)
hex_value-write_digits (suc rounds) num written h = elim (Bool-cases (num == 0)) [
  | inl e ↦ rw e (ap (λ n. hex_value n written) (omega (arith, (==_iff num 0).0 e)))
  | inr e ↦ rw e (
      hex_value-write_digits rounds (num / 16) _ (omega (arith, rw (pow-suc 16 rounds) at h))
      ∙ ap (λ n. hex_value n written) (omega (arith, digit-hex_char (num % 16) (omega arith))))
]

-- A number has as many digits as it needs.
length-write_digits-le :
    (rounds k num : ℕ) (written : List ℕ)
    → num < 16 ^ k
    → length (write_digits rounds num written) ≤ k + length written
unfolding write_digits
length-write_digits-le zero k num written h = omega arith
length-write_digits-le (suc rounds) zero num written h =
    rw (eq→== num 0 (omega (arith, h))) (omega arith)
length-write_digits-le (suc rounds) (suc k) num written h = elim (Bool-cases (num == 0)) [
  | inl e ↦ rw e (omega arith)
  | inr e ↦ rw e (
      omega (
        arith,
        length-write_digits-le rounds k (num / 16) (get_or hex_chars (num % 16) 0 ∷ written)
            (omega (arith, rw (pow-suc 16 k) at h)),
      ))
]

length-write_digits-kept :
    (rounds num : ℕ) (written : List ℕ) → length written ≤ length (write_digits rounds num written)
unfolding write_digits
length-write_digits-kept zero num written = omega arith
length-write_digits-kept (suc rounds) num written = elim (Bool-cases (num == 0)) [
  | inl e ↦ rw e (omega arith)
  | inr e ↦ rw e (
      omega (
        arith,
        length-write_digits-kept rounds (num / 16) (get_or hex_chars (num % 16) 0 ∷ written),
      ))
]

length-write_digits-ge :
    (rounds k num : ℕ) (written : List ℕ)
    → 16 ^ k ≤ num
    → k < rounds
    → suc k + length written ≤ length (write_digits rounds num written)
unfolding write_digits
length-write_digits-ge zero k num written h r = absurd (omega arith)
length-write_digits-ge (suc rounds) zero num written h r = rw (ne→== num 0 (omega (arith, h))) (
    omega
      (arith, length-write_digits-kept rounds (num / 16) (get_or hex_chars (num % 16) 0 ∷ written)))
length-write_digits-ge (suc rounds) (suc k) num written h r =
    let big : 16 ^ k * 16 ≤ num = rw (pow-suc 16 k) at h in
    rw (ne→== num 0 (omega (arith, one-le-pow k 16 (omega arith), big))) (
      omega (
        arith,
        length-write_digits-ge rounds k (num / 16) (get_or hex_chars (num % 16) 0 ∷ written)
            (omega (arith, big)) (omega arith),
      ))

-- The numbers from 0 up, and those above -2^60.
abbrev pub Fits : ℕ → Type 0
Fits value = (value < 2 ^ 63) ⊎ ((2 ^ 64 - 2 ^ 60 < value) × (value < 2 ^ 64))

abbrev pub sign_text : ℕ → List ℕ
sign_text value = if is_negative64 value then 45 ∷ [] else []

with_prefix-zero : with_prefix 0 (write_digits 16 (abs64 0) []) ≡ ok (48 ∷ 120 ∷ 48 ∷ [])
with_prefix-zero = refl

with_prefix-positive :
    (value : ℕ) (written : List ℕ)
    → 0 < value
    → value < 2 ^ 63
    → with_prefix value written ≡ ok (sign_text value ++ (48 ∷ 120 ∷ written))
with_prefix-positive value written h k =
    rw (ne→== value 0 (omega (arith, h)), lt→leb (2 ^ 63) value k) refl

with_prefix-negative :
    (value : ℕ) (written : List ℕ)
    → 2 ^ 63 ≤ value
    → length written ≤ 15
    → with_prefix value written ≡ ok (sign_text value ++ (48 ∷ 120 ∷ written))
with_prefix-negative value written h k =
    rw
      (
        ne→== value 0 (omega (arith, h)),
        le→leb (2 ^ 63) value h,
        le→ltb (18 - length written) 3 (omega (arith, k)),
      )
      refl

with_prefix-panics :
    (value : ℕ) (written : List ℕ)
    → 2 ^ 63 ≤ value
    → 16 ≤ length written
    → with_prefix value written ≡ panic
with_prefix-panics value written h k =
    rw
      (
        ne→== value 0 (omega (arith, h)),
        le→leb (2 ^ 63) value h,
        lt→ltb (18 - length written) 3 (omega (arith, k)),
      )
      refl

abs64-positive : (value : ℕ) → value < 2 ^ 63 → abs64 value ≡ value
abs64-positive value h = rw (lt→leb (2 ^ 63) value h) refl

abs64-negative : (value : ℕ) → 2 ^ 63 ≤ value → value < 2 ^ 64 → abs64 value ≡ 2 ^ 64 - value
abs64-negative value h k = rw (le→leb (2 ^ 63) value h) (omega (arith, h, k))

-- The digits have the value of the distance from 0.
digits_of :
    (value : ℕ)
    → abs64 value < 2 ^ 64
    → hex_value 0 (write_digits 16 (abs64 value) []) ≡ abs64 value
unfolding hex_value
digits_of value h = hex_value-write_digits 16 (abs64 value) [] h

-- A number that is at least 0, or greater than -2^60, is written as its sign, `0x`, and digits that
-- have the value of its distance from 0.
pub i64_to_str_fast-digits :
    (value : ℕ)
    → Fits value
    → (digits : List ℕ) × (i64_to_str_fast value ≡ ok (sign_text value ++ (48 ∷ 120 ∷ digits)))
      × (hex_value 0 digits ≡ abs64 value)
unfolding i64_to_str_fast
i64_to_str_fast-digits zero h = (48 ∷ [], refl, unfold hex_value in refl)
i64_to_str_fast-digits (suc n) (inl h) = (
  write_digits 16 (abs64 (suc n)) [],
  with_prefix-positive (suc n) _ (omega arith) h,
  digits_of (suc n) (rw (abs64-positive (suc n) h) (omega (arith, h))),
)
i64_to_str_fast-digits (suc n) (inr (h, k)) =
    let e : abs64 (suc n) ≡ 2 ^ 64 - suc n = abs64-negative (suc n) (omega (arith, h)) k in
    (
      write_digits 16 (abs64 (suc n)) [],
      with_prefix-negative (suc n) _ (omega (arith, h)) (
          omega (arith, length-write_digits-le 16 15 (abs64 (suc n)) [] (rw e (omega (arith, h))))),
      digits_of (suc n) (rw e (omega arith)),
    )

-- A number of -2^60 or less has no room for its sign: the program panics.
pub i64_to_str_fast-panics :
    (value : ℕ) → 2 ^ 63 ≤ value → value ≤ 2 ^ 64 - 2 ^ 60 → i64_to_str_fast value ≡ panic
unfolding i64_to_str_fast
i64_to_str_fast-panics value h k =
    let e : abs64 value ≡ 2 ^ 64 - value = abs64-negative value h (omega (arith, k)) in
    with_prefix-panics value _ h (
      omega (
        arith,
        length-write_digits-ge 16 15 (abs64 value) [] (rw e (omega (arith, k))) (omega arith),
      ))
