-- ===== src/Base/Results.antt =====
-- What a call in the program can come to: a value, a `MemViewError`, or a panic. `no_fuel` is no
-- outcome of the program: a loop of the model ran out of its rounds.
use Prim.Native.Nat.{ℕ}
use Prim.Native.String.{String}
use mathlib.Core.Path.{◌≡◌, refl}
use mathlib.Core.List.{List}
use mathlib.Core.Bool.{Bool, true, false}
use mathlib.Core.Logic.{◌≢◌}
use mizl_h_public.Base.Tests.{if◌then◌else◌}

-- `generic` keeps a message's format string and the values put into it.
pub data MemViewError : Type 0 where
  end_of_stream read_access_denied write_access_denied not_loaded invalid_parameter : MemViewError
  generic : String → List ℕ → MemViewError

pub data Outcome {ℓ} (A : Type ℓ) : Type ℓ where
  ok : A → Outcome A
  err : MemViewError → Outcome A
  panic : Outcome A
  no_fuel : Outcome A

module _ {ℓ κ} {A : Type ℓ} {B : Type κ} where
  infixl 5 ◌>>=◌
  abbrev pub ◌>>=◌ : Outcome A → (A → Outcome B) → Outcome B
  no_fuel >>= next = no_fuel
  panic >>= next = panic
  err e >>= next = err e
  ok a >>= next = next a

  -- A call that goes on to a value came to a value itself.
  pub >>=-eq-ok :
      (call : Outcome A) (next : A → Outcome B) {b : B}
      → (call >>= next) ≡ ok b
      → (a : A) × (call ≡ ok a) × (next a ≡ ok b)
  >>=-eq-ok no_fuel next eq = cc
  >>=-eq-ok panic next eq = cc
  >>=-eq-ok (err e) next eq = cc
  >>=-eq-ok (ok a) next eq = (a, refl, eq)

pub >>=-assoc {ℓ κ μ} :
    {A : Type ℓ} {B : Type κ} {C : Type μ} (call : Outcome A) (next : A → Outcome B)
    (last : B → Outcome C)
    → (call >>= next >>= last) ≡ (call >>= λ a. next a >>= last)
>>=-assoc no_fuel next last = refl
>>=-assoc panic next last = refl
>>=-assoc (err e) next last = refl
>>=-assoc (ok a) next last = refl

-- The call does not run out of fuel, and `P` holds of its value if it has one.
pub data Ensures {ℓ} {A : Type ℓ} (P : A → Type 0) : Outcome A → Type ℓ where
  holds : {a : A} → P a → Ensures P (ok a)
  fails : {e : MemViewError} → Ensures P (err e)
  panics : Ensures P panic

module _ {ℓ κ} {A : Type ℓ} {B : Type κ} {P : A → Type 0} {Q : B → Type 0} where
  pub Ensures->>= :
      {call : Outcome A} {next : A → Outcome B}
      → Ensures P call
      → ((a : A) → P a → Ensures Q (next a))
      → Ensures Q (call >>= next)
  Ensures->>= (holds {a} h) k = k a h
  Ensures->>= fails k = fails
  Ensures->>= panics k = panics

module _ {ℓ} {A : Type ℓ} {P : A → Type 0} where
  pub Ensures-if :
      (b : Bool) {x y : Outcome A}
      → (b ≡ true → Ensures P x)
      → (b ≡ false → Ensures P y)
      → Ensures P (if b then x else y)
  Ensures-if true h k = h refl
  Ensures-if false h k = k refl

  pub Ensures-no_fuel : {call : Outcome A} → Ensures P call → call ≢ no_fuel
  Ensures-no_fuel (holds h) = cc
  Ensures-no_fuel fails = cc
  Ensures-no_fuel panics = cc

pub Ensures-weaken {ℓ} :
    {A : Type ℓ} {P Q : A → Type 0} {call : Outcome A}
    → Ensures P call
    → ((a : A) → P a → Q a)
    → Ensures Q call
Ensures-weaken (holds {a} h) k = holds (k a h)
Ensures-weaken fails k = fails
Ensures-weaken panics k = panics

-- `P` holds of the call's value if it has one.
pub data IfOk {ℓ} {A : Type ℓ} (P : A → Type 0) : Outcome A → Type ℓ where
  value : {a : A} → P a → IfOk P (ok a)
  failed : {e : MemViewError} → IfOk P (err e)
  panicked : IfOk P panic
  unfinished : IfOk P no_fuel

module _ {ℓ κ} {A : Type ℓ} {B : Type κ} {P : A → Type 0} {Q : B → Type 0} where
  pub IfOk->>= :
      {call : Outcome A} {next : A → Outcome B}
      → IfOk P call
      → ((a : A) → P a → IfOk Q (next a))
      → IfOk Q (call >>= next)
  IfOk->>= (value {a} h) k = k a h
  IfOk->>= failed k = failed
  IfOk->>= panicked k = panicked
  IfOk->>= unfinished k = unfinished

module _ {ℓ} {A : Type ℓ} {P : A → Type 0} where
  pub IfOk-if :
      (b : Bool) {x y : Outcome A}
      → (b ≡ true → IfOk P x)
      → (b ≡ false → IfOk P y)
      → IfOk P (if b then x else y)
  IfOk-if true h k = h refl
  IfOk-if false h k = k refl

  pub IfOk-ok : {a : A} → IfOk P (ok a) → P a
  IfOk-ok (value h) = h

-- Of any call, nothing.
pub IfOk-any {ℓ} : {A : Type ℓ} (call : Outcome A) → IfOk (λ _. Unit) call
IfOk-any (ok a) = value tt
IfOk-any (err e) = failed
IfOk-any panic = panicked
IfOk-any no_fuel = unfinished

pub IfOk-weaken {ℓ} :
    {A : Type ℓ} {P Q : A → Type 0} {call : Outcome A}
    → IfOk P call
    → ((a : A) → P a → Q a)
    → IfOk Q call
IfOk-weaken (value {a} h) k = value (k a h)
IfOk-weaken failed k = failed
IfOk-weaken panicked k = panicked
IfOk-weaken unfinished k = unfinished
