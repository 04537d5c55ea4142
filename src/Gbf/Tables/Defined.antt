-- ===== src/Gbf/Tables/Defined.antt =====
-- Which table a name stands for, before and after a row of the master table.
use mathlib.Core.Path.{subst}
use mizl_h_public.Base.{
  ℕ, ◌≡◌, refl, ap, sym, ◌∙◌, true, false, List, [], ◌∷◌, Option, none, some, ok, ◌==◌, ==_iff,
  both_true, Bool-cases, Option-cases, inl, inr, if◌then◌else◌, minus_one32, eq→==,
}
use mizl_h_public.Gbf.Schema.{bytes_eq}
use mizl_h_public.Gbf.File.{GbfTableDef}
use mizl_h_public.Gbf.Tables.{Tables, find_table, push_at, push_index, define_found, define_table}

bytes_eq_refl : (xs : List ℕ) → bytes_eq xs xs ≡ true
unfolding bytes_eq
bytes_eq_refl [] = refl
bytes_eq_refl (x ∷ xs) = rw (eq→== x x refl) (bytes_eq_refl xs)

pub bytes_eq-eq : (xs ys : List ℕ) → bytes_eq xs ys ≡ true → xs ≡ ys
unfolding bytes_eq
bytes_eq-eq [] [] h = refl
bytes_eq-eq [] (y ∷ ys) h = absurd (cc)
bytes_eq-eq (x ∷ xs) [] h = absurd (cc)
bytes_eq-eq (x ∷ xs) (y ∷ ys) h =
    let (p, q) = both_true (x == y) (bytes_eq xs ys) h in
    let head : x ≡ y = (==_iff x y).0 p in let tail = bytes_eq-eq xs ys q in cc

-- What stands under the name of a new definition: it, or the base table with it pushed.
abbrev pub added : GbfTableDef → Option GbfTableDef → GbfTableDef
added d none = d
added d (some base) = push_index d base

find_table-push_at :
    (tables : Tables) (name other : List ℕ) (d base : GbfTableDef)
    → find_table name tables ≡ some base
    → find_table other (push_at name d tables)
      ≡ (if bytes_eq name other then some (push_index d base) else find_table other tables)
unfolding find_table push_at
find_table-push_at [] name other d base h = absurd (cc)
find_table-push_at ((n, e) ∷ tables) name other d base h = elim (Bool-cases (bytes_eq n name)) [
  | inl p ↦
      let same : n ≡ name = bytes_eq-eq n name p in
      let h' = rw p at h in
      let found : e ≡ base = cc in
      elim (Bool-cases (bytes_eq n other)) [
        | inl q ↦
            let q' : bytes_eq name other ≡ true = subst (λ k. bytes_eq k other ≡ true) same q in
            rw (p, q, q') (ap (λ b. some (push_index d b)) found)
        | inr q ↦
            let q' : bytes_eq name other ≡ false = subst (λ k. bytes_eq k other ≡ false) same q in
            rw (p, q, q') refl
      ]
  | inr p ↦
      let later = find_table-push_at tables name other d base (rw p at h) in
      elim (Bool-cases (bytes_eq n other)) [
        | inl q ↦ elim (Bool-cases (bytes_eq name other)) [
          | inl r ↦
              let same : n ≡ name = bytes_eq-eq n other q ∙ sym (bytes_eq-eq name other r) in
              let p' = subst (λ k. bytes_eq k name ≡ false) same p in
              absurd (cc (bytes_eq_refl name))
          | inr r ↦ rw (p, q, r) refl
        ]
        | inr q ↦ rw (p, q) later
      ]
]

find_table-cons :
    (name : List ℕ) (d : GbfTableDef) (tables : Tables) (other : List ℕ)
    → find_table other ((name, d) ∷ tables)
      ≡ (if bytes_eq name other then some d else find_table other tables)
unfolding find_table
find_table-cons name d tables other = refl

-- When a row of the master table is accepted, its name stands for its definition if it is new, and
-- for the base table with the definition pushed to its index tables if not; every other name
-- stands for what it stood for.
pub find_table-define_table :
    (tables tables' : Tables) (name other : List ℕ) (indexing_column : ℕ) (d : GbfTableDef)
    → define_table tables name indexing_column d ≡ ok tables'
    → find_table other tables' ≡ (
        if bytes_eq name other
        then some (added d (find_table name tables))
        else find_table other tables)
unfolding define_table define_found
find_table-define_table tables tables' name other indexing_column d h =
    elim (Option-cases (find_table name tables)) [
      | inl e ↦ elim (Bool-cases (indexing_column == minus_one32)) [
        | inl i ↦
            let h' = rw i at (known none e) in
            let same : (name, d) ∷ tables ≡ tables' = cc in
            rw (sym same, e) (find_table-cons name d tables other)
        | inr i ↦ let h' = rw i at (known none e) in absurd (cc)
      ]
      | inr (base, e) ↦ elim (Bool-cases (indexing_column == minus_one32)) [
        | inl i ↦ let h' = rw i at (known (some base) e) in absurd (cc)
        | inr i ↦
            let h' = rw i at (known (some base) e) in
            let same : push_at name d tables ≡ tables' = cc in
            rw (sym same, e) (find_table-push_at tables name other d base e)
      ]
    ]
  where
    known :
        (o : Option GbfTableDef)
        → find_table name tables ≡ o
        → define_found tables name indexing_column d o ≡ ok tables'
    known o e = sym (ap (define_found tables name indexing_column d) e) ∙ h
