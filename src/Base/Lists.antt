-- ===== src/Base/Lists.antt =====
-- Lists measured, indexed and sliced by native numbers: the Rust `Vec` and its slices.
use Prim.Native.Nat.{ℕ, zero, suc, ◌+◌, ◌-◌, ◌≤◌, ◌<◌, min}
use mathlib.Core.Path.{◌≡◌, refl, ap, sym, ◌∙◌}
use mathlib.Core.List.{List, [], ◌∷◌, ◌++◌}
use mathlib.Core.Option.{Option, none, some}
use mathlib.Core.Logic.{◌⊎◌, inl, inr}
use native.Mathlib.Omega.{arith}

module _ {ℓ} {A : Type ℓ} where
  abbrev pub length : List A → ℕ
  length [] = 0
  length (x ∷ xs) = suc (length xs)

  abbrev pub get_elem? : List A → ℕ → Option A
  get_elem? [] i = none
  get_elem? (x ∷ xs) zero = some x
  get_elem? (x ∷ xs) (suc i) = get_elem? xs i

  abbrev pub get_or : List A → ℕ → A → A
  get_or [] i d = d
  get_or (x ∷ xs) zero d = x
  get_or (x ∷ xs) (suc i) d = get_or xs i d

  -- A write out of bounds changes nothing; the code's own bounds test stands at each call.
  abbrev pub set : List A → ℕ → A → List A
  set [] i v = []
  set (x ∷ xs) zero v = v ∷ xs
  set (x ∷ xs) (suc i) v = x ∷ set xs i v

  abbrev pub take : ℕ → List A → List A
  take zero xs = []
  take (suc n) [] = []
  take (suc n) (x ∷ xs) = x ∷ take n xs

  abbrev pub drop : ℕ → List A → List A
  drop zero xs = xs
  drop (suc n) [] = []
  drop (suc n) (x ∷ xs) = drop n xs

  abbrev pub replicate : ℕ → A → List A
  replicate zero a = []
  replicate (suc n) a = a ∷ replicate n a

module _ {ℓ} {A : Type ℓ} where
  -- `&xs[a..b]`, for `a ≤ b ≤ xs.len()`.
  abbrev pub slice : List A → ℕ → ℕ → List A
  slice xs a b = take (b - a) (drop a xs)

  -- `xs[a..a + v.len()].copy_from_slice(v)`, and a `splice` by as many elements.
  abbrev pub overwrite : List A → ℕ → List A → List A
  overwrite xs a v = take a xs ++ (v ++ drop (a + length v) xs)

  -- `xs.insert(i, v)`, for `i ≤ xs.len()`.
  abbrev pub insert_at : ℕ → A → List A → List A
  insert_at i v xs = take i xs ++ (v ∷ drop i xs)

  pub length-append : (xs ys : List A) → length (xs ++ ys) ≡ length xs + length ys
  length-append [] ys = omega arith
  length-append (x ∷ xs) ys = omega (arith, length-append xs ys)

  pub length-take : (n : ℕ) (xs : List A) → length (take n xs) ≡ min n (length xs)
  length-take zero xs = omega arith
  length-take (suc n) [] = omega arith
  length-take (suc n) (x ∷ xs) = omega (arith, length-take n xs)

  pub length-drop : (n : ℕ) (xs : List A) → length (drop n xs) ≡ length xs - n
  length-drop zero xs = omega arith
  length-drop (suc n) [] = omega arith
  length-drop (suc n) (x ∷ xs) = omega (arith, length-drop n xs)

  pub length-replicate : (n : ℕ) (a : A) → length (replicate n a) ≡ n
  length-replicate zero a = refl
  length-replicate (suc n) a = ap suc (length-replicate n a)

  pub length-overwrite :
      (xs : List A) (a : ℕ) (v : List A)
      → a + length v ≤ length xs
      → length (overwrite xs a v) ≡ length xs
  length-overwrite xs a v h = omega (
    arith,
    length-append (take a xs) (v ++ drop (a + length v) xs),
    length-append v (drop (a + length v) xs),
    length-take a xs,
    length-drop (a + length v) xs,
  )

  pub take-length_append : (v r : List A) → take (length v) (v ++ r) ≡ v
  take-length_append [] r = refl
  take-length_append (x ∷ v) r = ap (λ l. x ∷ l) (take-length_append v r)

  pub drop-overwrite :
      (xs : List A) (a : ℕ) (v : List A)
      → a ≤ length xs
      → drop a (overwrite xs a v) ≡ v ++ drop (a + length v) xs
  drop-overwrite xs zero v h = refl
  drop-overwrite [] (suc a) v h = absurd (omega arith)
  drop-overwrite (x ∷ xs) (suc a) v h =
      let e : suc a + length v ≡ suc (a + length v) = omega arith in
      rw e (drop-overwrite xs a v (omega arith))

  pub get_elem?-some :
      (xs : List A) (i : ℕ) (d : A) → i < length xs → get_elem? xs i ≡ some (get_or xs i d)
  get_elem?-some [] i d h = absurd (omega arith)
  get_elem?-some (x ∷ xs) zero d h = refl
  get_elem?-some (x ∷ xs) (suc i) d h = get_elem?-some xs i d (omega arith)

  pub get_elem?-lt : (xs : List A) (i : ℕ) (x : A) → get_elem? xs i ≡ some x → i < length xs
  get_elem?-lt [] i x h = cc
  get_elem?-lt (y ∷ xs) zero x h = omega arith
  get_elem?-lt (y ∷ xs) (suc i) x h = omega (arith, get_elem?-lt xs i x h)

  pub get_elem?-overwrite_lt :
      (xs : List A) (a i : ℕ) (v : List A)
      → i < a
      → a ≤ length xs
      → get_elem? (overwrite xs a v) i ≡ get_elem? xs i
  get_elem?-overwrite_lt xs zero i v h k = elim h [ ]
  get_elem?-overwrite_lt [] (suc a) i v h k = absurd (omega arith)
  get_elem?-overwrite_lt (x ∷ xs) (suc a) zero v h k = refl
  get_elem?-overwrite_lt (x ∷ xs) (suc a) (suc i) v h k =
      let e : suc a + length v ≡ suc (a + length v) = omega arith in
      rw e (get_elem?-overwrite_lt xs a i v (omega arith) (omega arith))

  get_elem?-append_ge :
      (v r : List A) (i : ℕ) → length v ≤ i → get_elem? (v ++ r) i ≡ get_elem? r (i - length v)
  get_elem?-append_ge [] r i h = ap (get_elem? r) (omega arith)
  get_elem?-append_ge (x ∷ v) r zero h = absurd (omega arith)
  get_elem?-append_ge (x ∷ v) r (suc i) h =
      let e : suc i - suc (length v) ≡ i - length v = omega arith in
      rw e (get_elem?-append_ge v r i (omega arith))

  pub get_elem?-drop : (xs : List A) (a i : ℕ) → get_elem? (drop a xs) i ≡ get_elem? xs (a + i)
  get_elem?-drop xs zero i = ap (get_elem? xs) (omega arith)
  get_elem?-drop [] (suc a) i = refl
  get_elem?-drop (x ∷ xs) (suc a) i =
      let e : suc a + i ≡ suc (a + i) = omega arith in rw e (get_elem?-drop xs a i)

  -- Behind the part written over, too, nothing changes.
  pub get_elem?-overwrite_ge :
      (xs : List A) (a i : ℕ) (v : List A)
      → a + length v ≤ i
      → a ≤ length xs
      → get_elem? (overwrite xs a v) i ≡ get_elem? xs i
  get_elem?-overwrite_ge xs zero i v h k =
      get_elem?-append_ge v (drop (0 + length v) xs) i (omega arith)
      ∙ get_elem?-drop xs (0 + length v) (i - length v)
      ∙ ap (get_elem? xs) (omega arith)
  get_elem?-overwrite_ge [] (suc a) i v h k = absurd (omega arith)
  get_elem?-overwrite_ge (x ∷ xs) (suc a) zero v h k = absurd (omega arith)
  get_elem?-overwrite_ge (x ∷ xs) (suc a) (suc i) v h k =
      let e : suc a + length v ≡ suc (a + length v) = omega arith in
      rw e (get_elem?-overwrite_ge xs a i v (omega arith) (omega arith))

  -- A slice of what was written over is what was written.
  pub slice-overwrite :
      (xs : List A) (a : ℕ) (v : List A)
      → a ≤ length xs
      → slice (overwrite xs a v) a (a + length v) ≡ v
  slice-overwrite xs a v h =
      let e : a + length v - a ≡ length v = omega arith in
      rw (drop-overwrite xs a v h, e) (take-length_append v (drop (a + length v) xs))

  pub take-append-drop : (n : ℕ) (xs : List A) → take n xs ++ drop n xs ≡ xs
  take-append-drop zero xs = refl
  take-append-drop (suc n) [] = refl
  take-append-drop (suc n) (x ∷ xs) = ap (λ l. x ∷ l) (take-append-drop n xs)

  pub get_elem?-append_lt :
      (v r : List A) (i : ℕ) → i < length v → get_elem? (v ++ r) i ≡ get_elem? v i
  get_elem?-append_lt [] r i h = absurd (omega arith)
  get_elem?-append_lt (x ∷ v) r zero h = refl
  get_elem?-append_lt (x ∷ v) r (suc i) h = get_elem?-append_lt v r i (omega arith)

  pub get_elem?-take :
      (n : ℕ) (xs : List A) (i : ℕ) → i < n → get_elem? (take n xs) i ≡ get_elem? xs i
  get_elem?-take zero xs i h = elim h [ ]
  get_elem?-take (suc n) [] i h = refl
  get_elem?-take (suc n) (x ∷ xs) zero h = refl
  get_elem?-take (suc n) (x ∷ xs) (suc i) h = get_elem?-take n xs i (omega arith)

  pub get_elem?-slice :
      (xs : List A) (a b i : ℕ) → i < b - a → get_elem? (slice xs a b) i ≡ get_elem? xs (a + i)
  get_elem?-slice xs a b i h = get_elem?-take (b - a) (drop a xs) i h ∙ get_elem?-drop xs a i

  pub length-slice : (xs : List A) (a b : ℕ) → b ≤ length xs → length (slice xs a b) ≡ b - a
  length-slice xs a b h = omega (arith, length-take (b - a) (drop a xs), length-drop a xs)

  -- Inside the part written over stands what was written.
  pub get_elem?-overwrite_self :
      (xs : List A) (a i : ℕ) (v : List A)
      → a ≤ length xs
      → i < length v
      → get_elem? (overwrite xs a v) (a + i) ≡ get_elem? v i
  get_elem?-overwrite_self xs a i v h k =
      sym (get_elem?-drop (overwrite xs a v) a i)
      ∙ ap (λ l. get_elem? l i) (drop-overwrite xs a v h)
      ∙ get_elem?-append_lt v (drop (a + length v) xs) i k

  -- Lists that agree at every index are equal.
  pub get_elem?-ext :
      (xs ys : List A)
      → length xs ≡ length ys
      → ((i : ℕ) → i < length xs → get_elem? xs i ≡ get_elem? ys i)
      → xs ≡ ys
  get_elem?-ext [] [] e h = refl
  get_elem?-ext [] (y ∷ ys) e h = absurd (omega arith)
  get_elem?-ext (x ∷ xs) [] e h = absurd (omega arith)
  get_elem?-ext (x ∷ xs) (y ∷ ys) e h =
      cc (h 0 (omega arith), get_elem?-ext xs ys (omega arith) (λ i k. h (suc i) (omega arith)))

  -- The element behind a list that is extended by one.
  pub get_elem?-append_end : (xs : List A) (x : A) → get_elem? (xs ++ (x ∷ [])) (length xs) ≡ some x
  get_elem?-append_end [] x = refl
  get_elem?-append_end (y ∷ xs) x = get_elem?-append_end xs x

  -- What a list that is extended by one has at an index, it had before, or it is the new element.
  pub get_elem?-append_one :
      (xs : List A) (x : A) (i : ℕ) {y : A}
      → get_elem? (xs ++ (x ∷ [])) i ≡ some y
      → (get_elem? xs i ≡ some y) ⊎ (y ≡ x)
  get_elem?-append_one [] x zero e = inr (cc)
  get_elem?-append_one [] x (suc i) e = cc
  get_elem?-append_one (z ∷ xs) x zero e = inl e
  get_elem?-append_one (z ∷ xs) x (suc i) e = get_elem?-append_one xs x i e

  -- What a list has at an index after a write, it had before, or it is the element written there.
  pub length-set : (xs : List A) (i : ℕ) (v : A) → length (set xs i v) ≡ length xs
  length-set [] i v = refl
  length-set (x ∷ xs) zero v = refl
  length-set (x ∷ xs) (suc i) v = ap suc (length-set xs i v)

  pub get_elem?-set_self :
      (xs : List A) (i : ℕ) (x : A) {y : A}
      → get_elem? xs i ≡ some y
      → get_elem? (set xs i x) i ≡ some x
  get_elem?-set_self [] i x e = cc
  get_elem?-set_self (z ∷ xs) zero x e = refl
  get_elem?-set_self (z ∷ xs) (suc i) x e = get_elem?-set_self xs i x e

  pub get_elem?-set :
      (xs : List A) (j : ℕ) (x : A) (i : ℕ) {y : A}
      → get_elem? (set xs j x) i ≡ some y
      → (get_elem? xs i ≡ some y) ⊎ ((i ≡ j) × (y ≡ x))
  get_elem?-set [] j x i e = cc
  get_elem?-set (z ∷ xs) zero x zero e = inr (refl, cc)
  get_elem?-set (z ∷ xs) zero x (suc i) e = inl e
  get_elem?-set (z ∷ xs) (suc j) x zero e = inl e
  get_elem?-set (z ∷ xs) (suc j) x (suc i) e = elim (get_elem?-set xs j x i e) [
    | inl h ↦ inl h
    | inr (h, k) ↦ inr (ap suc h, k)
  ]
