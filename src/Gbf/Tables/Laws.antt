-- ===== src/Gbf/Tables/Laws.antt =====
-- The field types in a row of the master table, written and read back, and where the list of the
-- sparse columns ends.
use mathlib.Core.Path.{subst}
use mizl_h_public.Base.{
  ◌∙◌, ℕ, ◌%◌, ◌^◌, ◌<◌, ◌≡◌, refl, ap, Bool, true, false, Bool-cases, inl, inr, ◌⊎◌, List, [], ◌∷◌,
  ◌++◌, map, some, le_i32, ◌==◌, u32_mod, Outcome, ok, err, MemViewError, ◌≤◌, arith, ==_iff, ◌||◌,
}
use mizl_h_public.Gbf.Record.{
  GbfFieldKind, byte, short, int, long, string, bytes, boolean, to_u8, from_u8,
}
use mizl_h_public.Gbf.Schema.{contains}
use mizl_h_public.Gbf.Tables.{
  field_extension_indicator, read_kinds, parse_sparse_field_list, insert_column,
}

from_u8-to_u8 : (k : GbfFieldKind) → from_u8 (to_u8 k false) ≡ some k
unfolding from_u8 to_u8
from_u8-to_u8 byte = refl
from_u8-to_u8 short = refl
from_u8-to_u8 int = refl
from_u8-to_u8 long = refl
from_u8-to_u8 string = refl
from_u8-to_u8 bytes = refl
from_u8-to_u8 boolean = refl

not_indicator : (k : GbfFieldKind) → (to_u8 k false == field_extension_indicator) ≡ false
unfolding to_u8
not_indicator byte = refl
not_indicator short = refl
not_indicator int = refl
not_indicator long = refl
not_indicator string = refl
not_indicator bytes = refl
not_indicator boolean = refl

-- The kinds of the fields, each as the byte that stands for it, are read back, whatever follows
-- the extension indicator behind them; that is left in the buffer.
pub read_kinds-to_u8 :
    (kinds : List GbfFieldKind) (rest : List ℕ)
    → read_kinds (map (λ k. to_u8 k false) kinds ++ (field_extension_indicator ∷ rest))
      ≡ ok (kinds, rest)
unfolding read_kinds
read_kinds-to_u8 [] rest = refl
read_kinds-to_u8 (k ∷ kinds) rest =
    rw (not_indicator k, from_u8-to_u8 k, read_kinds-to_u8 kinds rest) refl

-- The bytes before the first extension indicator, and those from it on.
abbrev pub Ends : List ℕ → Type 0
Ends [] = Unit
Ends (b ∷ buf) = b ≡ field_extension_indicator

Has : ℕ → List ℕ → Type 0
Has j columns = contains j columns ≡ true

-- `columns` with the bytes that were read off `buf`: all that are in front of the first indicator,
-- and columns of the table.
pub record Parsed (field_count : ℕ) (buf columns left columns' : List ℕ) : Type 0 where
  pub read : List ℕ
  pub split : buf ≡ read ++ left
  pub plain : contains field_extension_indicator read ≡ false
  pub ends : Ends left
  pub bounded : (j : ℕ) → contains j read ≡ true → j < field_count
  pub members : (j : ℕ) → contains j columns' ≡ (contains j read || contains j columns)

-- `buf` has a byte that is no column of the table, with columns in front of it and no indicator.
pub record Refused (field_count : ℕ) (buf : List ℕ) : Type 0 where
  pub read : List ℕ
  pub bad : ℕ
  pub left : List ℕ
  pub split : buf ≡ read ++ (bad ∷ left)
  pub plain : contains field_extension_indicator (read ++ (bad ∷ [])) ≡ false
  pub bounded : (j : ℕ) → contains j read ≡ true → j < field_count
  pub outside : field_count ≤ bad

-- What the parser comes to: it does not panic, and is not out of fuel.
pub data Parses (field_count : ℕ) (buf columns : List ℕ) : Outcome (List ℕ × List ℕ) → Type 0 where
  accepted :
      {columns' left : List ℕ}
      → Parsed field_count buf columns left columns'
      → Parses field_count buf columns (ok (columns', left))
  refused : {e : MemViewError} → Refused field_count buf → Parses field_count buf columns (err e)

or-insert_column :
    (i j : ℕ) (read columns : List ℕ)
    → (contains j read || contains j (insert_column i columns))
      ≡ ((i == j || contains j read) || contains j columns)
unfolding insert_column contains
or-insert_column i j read columns = elim (Bool-cases (contains i columns)) [
  | inl e ↦ rw e (known e)
  | inr e ↦ rw e (swap (contains j read) (i == j) (contains j columns))
]
  where
    swap : (a b c : Bool) → (a || (b || c)) ≡ ((b || a) || c)
    swap true true c = refl
    swap true false c = refl
    swap false true c = refl
    swap false false c = refl

    absorb : (a b c : Bool) → (b ≡ true → c ≡ true) → (a || c) ≡ ((b || a) || c)
    absorb true true c h = refl
    absorb true false c h = refl
    absorb false true c h = h refl
    absorb false false c h = refl

    known :
        contains i columns ≡ true
        → (contains j read || contains j columns)
          ≡ ((i == j || contains j read) || contains j columns)
    known e =
        absorb (contains j read) (i == j) (contains j columns)
          (λ q. subst (λ k. contains k columns ≡ true) ((==_iff i j).0 q) e)

or-split : (a b : Bool) → (a || b) ≡ true → (a ≡ true) ⊎ (b ≡ true)
or-split true b h = inl refl
or-split false b h = inr h

or-left : (i : ℕ) (buf : List ℕ) → contains i (i ∷ buf) ≡ true
unfolding contains
or-left i buf = rw ((==_iff i i).1 refl) refl

or-right : (i j : ℕ) (buf : List ℕ) → contains j buf ≡ true → contains j (i ∷ buf) ≡ true
unfolding contains
or-right i j buf h = rw h (or-true (i == j))
  where
    or-true : (a : Bool) → (a || true) ≡ true
    or-true true = refl
    or-true false = refl

index_lt : (fc i : ℕ) → fc < 2 ^ 31 → i < 256 → le_i32 (fc % u32_mod) i ≡ false → i < fc
index_lt fc i h k l = ground arith

at_least : (fc i : ℕ) → fc < 2 ^ 31 → i < 256 → le_i32 (fc % u32_mod) i ≡ true → fc ≤ i
at_least fc i h k l = ground arith

cons_bounded :
    (fc i : ℕ) (read : List ℕ)
    → i < fc
    → ((j : ℕ) → contains j read ≡ true → j < fc)
    → (j : ℕ) → contains j (i ∷ read) ≡ true
    → j < fc
unfolding contains
cons_bounded fc i read h k j q = elim (or-split (i == j) (contains j read) q) [
  | inl same ↦ subst (λ k. k < fc) ((==_iff i j).0 same) h
  | inr there ↦ k j there
]

-- A column in front of what the parser comes to.
behind :
    (fc i : ℕ) (buf columns : List ℕ) {r : Outcome (List ℕ × List ℕ)}
    → (i == field_extension_indicator) ≡ false
    → i < fc
    → Parses fc buf (insert_column i columns) r
    → Parses fc (i ∷ buf) columns r
unfolding contains
behind fc i buf columns e l (accepted {columns' = columns'} p) = accepted (record {
  read = i ∷ p.read;
  split = ap (λ l. i ∷ l) p.split;
  plain = rw e p.plain;
  ends = p.ends;
  bounded = cons_bounded fc i p.read l p.bounded;
  members = λ j. p.members j ∙ or-insert_column i j p.read columns;
})
behind fc i buf columns e l (refused r) = refused (record {
  read = i ∷ r.read;
  bad = r.bad;
  left = r.left;
  split = ap (λ l. i ∷ l) r.split;
  plain = rw e r.plain;
  bounded = cons_bounded fc i r.read l r.bounded;
  outside = r.outside;
})

-- A list of sparse columns is read up to the first extension indicator, or to the end of the
-- buffer, and no further: what is read has no indicator in it, its bytes are indices of columns of
-- the table, and the set that comes out has those and what was in it before. It is refused exactly
-- where one of these bytes is no column, and never a panic. (For a table with fewer than 2 ^ 31
-- columns, and a buffer of bytes.)
pub parse_sparse_field_list-Parses :
    (field_count : ℕ) (columns buf : List ℕ)
    → field_count < 2 ^ 31
    → ((j : ℕ) → contains j buf ≡ true → j < 256)
    → Parses field_count buf columns (parse_sparse_field_list field_count columns buf)
unfolding parse_sparse_field_list contains
parse_sparse_field_list-Parses fc columns [] small byte_wise = accepted (record {
  read = [];
  split = refl;
  plain = refl;
  ends = tt;
  bounded = λ j q. absurd (cc);
  members = λ j. refl;
})
parse_sparse_field_list-Parses fc columns (i ∷ buf) small byte_wise =
    let byte_i : i < 256 = byte_wise i (or-left i buf) in
    let rest =
      parse_sparse_field_list-Parses fc (insert_column i columns) buf small
        (λ j q. byte_wise j (or-right i j buf q)) in
    elim (Bool-cases (i == field_extension_indicator)) [
      | inl e ↦ rw e (
          accepted (record {
            read = [];
            split = refl;
            plain = refl;
            ends = (==_iff i field_extension_indicator).0 e;
            bounded = λ j q. absurd (cc);
            members = λ j. refl;
          }))
      | inr e ↦ elim (Bool-cases (le_i32 (fc % u32_mod) i)) [
        | inl l ↦
            rw (e, l)
              (refused (record {
                read = [];
                bad = i;
                left = buf;
                split = refl;
                plain = rw e refl;
                bounded = λ j q. absurd (cc);
                outside = at_least fc i small byte_i l;
              }))
        | inr l ↦ rw (e, l) (behind fc i buf columns e (index_lt fc i small byte_i l) rest)
      ]
    ]
