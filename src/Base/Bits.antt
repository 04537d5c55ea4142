-- ===== src/Base/Bits.antt =====
-- The operations on binary digits as arithmetic, for masks and single digits.
use Prim.Native.Nat.{
  ℕ, zero, suc, ◌+◌, ◌-◌, ◌*◌, ◌/◌, ◌%◌, ◌^◌, ◌≤◌, ◌<◌, bit_and, bit_and-bitwise, bit_or,
  bit_or-bitwise, bit_xor, bit_xor-bitwise, digits, min, differ,
}
use native.Mathlib.Nat.{
  pow-suc, one-le-pow, mod-eq_of_lt, mod-lt, div-add-mod, div-eq_of_lt, mul_comm,
  div-div-eq-div-mul, mul-add-mod_self_left,
}
use native.Mathlib.Omega.{arith}
use mathlib.Core.Path.{◌≡◌, refl, sym, ap, ◌∙◌}

min_zero : (x : ℕ) → min x 0 ≡ 0
min_zero x = omega arith

min_one : (x : ℕ) → x < 2 → min x 1 ≡ x
min_one x h = omega (arith, h)

differ_zero : (x : ℕ) → differ x 0 ≡ x
differ_zero zero = refl
differ_zero (suc x) = refl

mod_of : (x m q r : ℕ) → x ≡ m * q + r → r < m → x % m ≡ r
mod_of x m q r e h = ap (λ y. y % m) e ∙ mul-add-mod_self_left m q r ∙ mod-eq_of_lt h

-- The digits in common with no digit.
and_zero : (rounds a : ℕ) → digits (λ b. zero) min rounds a 0 ≡ 0
and_zero zero a = refl
and_zero (suc rounds) zero = refl
and_zero (suc rounds) (suc a) = rw (and_zero rounds (suc a / 2), min_zero (suc a % 2)) refl

doubled : (x y p q r : ℕ) → x ≡ p * q + r → (x * 2 + y) ≡ p * 2 * q + (r * 2 + y)
doubled x y p q r e = omega (arith, e)

div_eq : (x p : ℕ) → x ≡ p * (x / p) + x % p
div_eq x p = sym (div-add-mod x p)

half_mod : (x p : ℕ) → 1 ≤ p → x % (p * 2) ≡ ((x / 2) % p) * 2 + x % 2
half_mod x p h =
    let r : (x / 2) % p < p = mod-lt (x / 2) h in
    let e : x ≡ (x / 2) * 2 + x % 2 = omega arith in
    mod_of x (p * 2) (x / 2 / p) ((x / 2) % p * 2 + x % 2)
      (e ∙ doubled (x / 2) (x % 2) p (x / 2 / p) ((x / 2) % p) (div_eq (x / 2) p))
      (omega (arith, r))

mask_half : (p : ℕ) → 1 ≤ p → (p * 2 - 1) / 2 ≡ p - 1
mask_half p h = omega (arith, h)

mask_odd : (p : ℕ) → 1 ≤ p → (p * 2 - 1) % 2 ≡ 1
mask_odd p h = omega (arith, h)

-- The digits in common with the lowest `n`.
and_mask : (rounds a n : ℕ) → a ≤ rounds → digits (λ b. zero) min rounds a (2 ^ n - 1) ≡ a % 2 ^ n
and_mask zero a n h =
    let e : a ≡ 0 = omega (arith, h) in rw e (sym (mod-eq_of_lt (one-le-pow n 2 (omega arith))))
and_mask (suc rounds) zero n h = sym (mod-eq_of_lt (one-le-pow n 2 (omega arith)))
and_mask (suc rounds) (suc a) zero h =
    rw (and_zero rounds (suc a / 2), min_zero (suc a % 2)) (omega arith)
and_mask (suc rounds) (suc a) (suc n) h =
    let p = one-le-pow n 2 (omega arith) in
    rw
      (
        pow-suc 2 n,
        mask_half (2 ^ n) p,
        mask_odd (2 ^ n) p,
        min_one (suc a % 2) (omega arith),
        and_mask rounds (suc a / 2) n (omega (arith, h)),
      )
      (sym (half_mod (suc a) (2 ^ n) p))

-- A mask of the lowest digits is a remainder.
pub bit_and-mask : (a n : ℕ) → bit_and a (2 ^ n - 1) ≡ a % 2 ^ n
bit_and-mask a n = bit_and-bitwise a (2 ^ n - 1) ∙ and_mask a a n (omega arith)

twice_half : (p : ℕ) → (p * 2) / 2 ≡ p
twice_half p = omega arith

twice_even : (p : ℕ) → (p * 2) % 2 ≡ 0
twice_even p = omega arith

-- The digit in common with a single one.
and_single :
    (rounds a k : ℕ)
    → a ≤ rounds
    → a < 2 ^ k * 2
    → digits (λ b. zero) min rounds a (2 ^ k) ≡ (a / 2 ^ k) * 2 ^ k
and_single zero a k h l =
    let e : a ≡ 0 = omega (arith, h) in
    rw (e, div-eq_of_lt (one-le-pow k 2 (omega arith))) (omega arith)
and_single (suc rounds) zero k h l = rw (div-eq_of_lt (one-le-pow k 2 (omega arith))) (omega arith)
and_single (suc rounds) (suc a) zero h l =
    rw (and_zero rounds (suc a / 2), min_one (suc a % 2) (omega arith)) (omega (arith, l))
and_single (suc rounds) (suc a) (suc k) h l =
    let small : suc a < 2 ^ k * 2 * 2 = rw (sym (pow-suc 2 k)) l in
    rw
      (
        pow-suc 2 k,
        twice_half (2 ^ k),
        twice_even (2 ^ k),
        min_zero (suc a % 2),
        and_single rounds (suc a / 2) k (omega (arith, h)) (omega (arith, small)),
        div-div-eq-div-mul (suc a) 2 (2 ^ k),
        mul_comm 2 (2 ^ k),
      )
      (omega arith)

no_digits : (rounds : ℕ) → digits (λ b. b) differ rounds 0 0 ≡ 0
no_digits zero = refl
no_digits (suc rounds) = refl

-- Where the single digit is the highest of a number, it is taken away.
xor_highest :
    (rounds a k : ℕ)
    → a ≤ rounds
    → 2 ^ k ≤ a
    → a < 2 ^ k * 2
    → digits (λ b. b) differ rounds a (2 ^ k) ≡ a - 2 ^ k
xor_highest zero a k h g l = absurd (omega (arith, h, g, one-le-pow k 2 (omega arith)))
xor_highest (suc rounds) zero k h g l = absurd (omega (arith, g, one-le-pow k 2 (omega arith)))
xor_highest (suc rounds) (suc a) zero h g l =
    let e : a ≡ 0 = omega (arith, l) in rw e (rw (no_digits rounds) refl)
xor_highest (suc rounds) (suc a) (suc k) h g l =
    let small : suc a < 2 ^ k * 2 * 2 = rw (sym (pow-suc 2 k)) l in
    let great : 2 ^ k * 2 ≤ suc a = rw (sym (pow-suc 2 k)) g in
    rw
      (
        pow-suc 2 k,
        twice_half (2 ^ k),
        twice_even (2 ^ k),
        differ_zero (suc a % 2),
        xor_highest rounds (suc a / 2) k (omega (arith, h)) (omega (arith, great))
            (omega (arith, small)),
      )
      (omega (arith, great))

-- The highest digit of a number of `k + 1` digits.
pub bit_and-highest : (a k : ℕ) → a < 2 ^ k * 2 → bit_and a (2 ^ k) ≡ (a / 2 ^ k) * 2 ^ k
bit_and-highest a k h = bit_and-bitwise a (2 ^ k) ∙ and_single a a k (omega arith) h

pub bit_xor-highest : (a k : ℕ) → 2 ^ k ≤ a → a < 2 ^ k * 2 → bit_xor a (2 ^ k) ≡ a - 2 ^ k
bit_xor-highest a k h l = bit_xor-bitwise a (2 ^ k) ∙ xor_highest a a k (omega arith) h l

mask_suc : (p : ℕ) → 1 ≤ p → p * 2 - 1 ≡ suc (p * 2 - 2)
mask_suc p h = omega (arith, h)

half_of : (p : ℕ) → 1 ≤ p → suc (p * 2 - 2) / 2 ≡ p - 1
half_of p h = omega (arith, h)

odd_of : (p : ℕ) → 1 ≤ p → suc (p * 2 - 2) % 2 ≡ 1
odd_of p h = omega (arith, h)

min_one_left : (x : ℕ) → x < 2 → min 1 x ≡ x
min_one_left x h = omega (arith, h)

mask_and :
    (rounds n b : ℕ) → 2 ^ n - 1 ≤ rounds → digits (λ b. zero) min rounds (2 ^ n - 1) b ≡ b % 2 ^ n
mask_and zero zero b h = omega arith
mask_and (suc rounds) zero b h = omega arith
mask_and zero (suc n) b h =
    absurd (let p = one-le-pow n 2 (omega arith) in let e = pow-suc 2 n in omega (arith, h, p, e))
mask_and (suc rounds) (suc n) b h =
    let p = one-le-pow n 2 (omega arith) in
    let e = pow-suc 2 n in
    rw
      (
        pow-suc 2 n,
        mask_suc (2 ^ n) p,
        half_of (2 ^ n) p,
        odd_of (2 ^ n) p,
        min_one_left (b % 2) (omega arith),
        mask_and rounds n (b / 2) (omega (arith, h, e, p)),
      )
      (sym (half_mod b (2 ^ n) p))

pub mask-bit_and : (n b : ℕ) → bit_and (2 ^ n - 1) b ≡ b % 2 ^ n
mask-bit_and n b = bit_and-bitwise (2 ^ n - 1) b ∙ mask_and (2 ^ n - 1) n b (omega arith)

pub bit_and-zero : (a : ℕ) → bit_and a 0 ≡ 0
bit_and-zero a = bit_and-bitwise a 0 ∙ and_zero a a

pub zero-bit_or : (b : ℕ) → bit_or 0 b ≡ b
zero-bit_or b = bit_or-bitwise 0 b
