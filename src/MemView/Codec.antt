-- ===== src/MemView/Codec.antt =====
-- Words as byte sequences: what `to_le_bytes`, `to_be_bytes`, `from_le_bytes` and `from_be_bytes`
-- of the Rust integers do, for a word of `n` bytes. A float stands for its bit pattern.
use native.Mathlib.Nat.{pow-suc}
use mathlib.Core.List.{reverse-reverse, reverse-append, ◌++◌}
use mizl_h_public.Base.{
  ℕ, zero, suc, ◌+◌, ◌*◌, ◌/◌, ◌%◌, ◌^◌, ◌<◌, ◌≡◌, refl, List, [], ◌∷◌, reverse, length,
  length-append, arith, ap,
}

pub data Endianness : Type 0 where
  little_endian big_endian : Endianness

unfoldable pub to_le_bytes : ℕ → ℕ → List ℕ
to_le_bytes zero v = []
to_le_bytes (suc n) v = (v % 256) ∷ to_le_bytes n (v / 256)

unfoldable pub to_be_bytes : ℕ → ℕ → List ℕ
unfolding to_le_bytes
to_be_bytes n v = reverse (to_le_bytes n v)

unfoldable pub from_le_bytes : List ℕ → ℕ
from_le_bytes [] = 0
from_le_bytes (b ∷ bs) = b + 256 * from_le_bytes bs

unfoldable pub from_be_bytes : List ℕ → ℕ
unfolding from_le_bytes
from_be_bytes bs = from_le_bytes (reverse bs)

-- The bytes of a word in the other order: `swap_bytes` of the Rust integers.
unfoldable pub swap_bytes : ℕ → ℕ → ℕ
unfolding from_be_bytes to_le_bytes
swap_bytes n v = from_be_bytes (to_le_bytes n v)

pub from_le_bytes-to_le_bytes : (n v : ℕ) → v < 256 ^ n → from_le_bytes (to_le_bytes n v) ≡ v
unfolding from_le_bytes to_le_bytes
from_le_bytes-to_le_bytes zero v h = omega arith
from_le_bytes-to_le_bytes (suc n) v h =
    omega (arith, pow-suc 256 n, from_le_bytes-to_le_bytes n (v / 256))

pub from_be_bytes-to_be_bytes : (n v : ℕ) → v < 256 ^ n → from_be_bytes (to_be_bytes n v) ≡ v
unfolding from_be_bytes to_be_bytes
from_be_bytes-to_be_bytes n v h =
    rw (reverse-reverse (to_le_bytes n v)) (from_le_bytes-to_le_bytes n v h)

pub length-reverse : (xs : List ℕ) → length (reverse xs) ≡ length xs
length-reverse [] = refl
length-reverse (x ∷ xs) =
    let e : reverse (x ∷ xs) ≡ reverse xs ++ (x ∷ []) = reverse-append (x ∷ []) xs in
    rw e (omega (arith, length-append (reverse xs) (x ∷ []), length-reverse xs))

pub length-to_le_bytes : (n v : ℕ) → length (to_le_bytes n v) ≡ n
unfolding to_le_bytes
length-to_le_bytes zero v = refl
length-to_le_bytes (suc n) v = ap suc (length-to_le_bytes n (v / 256))
