-- ===== src/Sleigh/Decision.antt =====
-- Decision trees and the patterns at their leaves, and how they are read:
-- mizl_core/src/sleigh/decision.rs.
pub mod Ends
pub mod Match
use mizl_h_public.Base.{
  ℕ, zero, suc, ◌+◌, ◌-◌, ◌%◌, ◌^◌, Bool, true, false, not, ◌||◌, List, [], ◌∷◌, ◌++◌, Option, none,
  some, length, ◌==◌, if◌then◌else◌, u32_mod, u64_mod, i32_as_u64, Outcome, ok, panic, no_fuel,
  ◌>>=◌,
}
use mizl_h_public.Sleigh.Element
use mizl_h_public.Sleigh.Element.{ElementId}
use mizl_h_public.Sleigh.Attribute
use mizl_h_public.Sleigh.Reader.{SlaElement}
use mizl_h_public.Sleigh.Reader.Elements.{
  as_bool_or, as_int_or, as_uint_or, seek_elem_children_start, read_elem, read_elem_end,
  for_children,
}

pub record PatBlock : Type 0 where
  pub offset : ℕ
  pub non_zero : ℕ
  pub mask_value_pairs : List (ℕ × ℕ)

pub data DisjointPatternType : Type 0 where
  instruction_pattern context_pattern combine_pattern : DisjointPatternType

pub record DisjointPattern : Type 0 where
  pub pat_type : DisjointPatternType
  pub pat_blocks : List PatBlock

pub record DecisionPair : Type 0 where
  pub ctor_id : ℕ
  pub pattern : DisjointPattern

-- `decision context start size children pairs`
mutual
  pub data Decision : Type 0 where
    decision : Bool → ℕ → ℕ → Decisions → List DecisionPair → Decision

  pub data Decisions : Type 0 where
    no_decisions : Decisions
    onto : Decision → Decisions → Decisions

abbrev pub push : Decisions → Decision → Decisions
push no_decisions d = onto d no_decisions
push (onto x xs) d = onto x (push xs d)

abbrev pub count : Decisions → ℕ
count no_decisions = 0
count (onto x xs) = suc (count xs)

abbrev pub get_child : Decisions → ℕ → Option Decision
get_child no_decisions i = none
get_child (onto x xs) zero = some x
get_child (onto x xs) (suc i) = get_child xs i

-- `elem.as_int_or(attr, -1) as i32`
abbrev pub int32_or_minus_one : SlaElement → Attribute.AttributeId → ℕ
unfolding as_int_or
int32_or_minus_one elem attr = as_int_or elem attr (u64_mod - 1) % u32_mod

module _ (buffer : List ℕ) where
  -- `as_uint_or(.., u32::MAX as u64) as u32` for both words.
  unfoldable pub read_mask_word : List (ℕ × ℕ) → SlaElement → ℕ → Outcome (List (ℕ × ℕ) × ℕ)
  unfolding as_uint_or read_elem_end
  read_mask_word mask_value_pairs child pos = do
    let read : Outcome (List (ℕ × ℕ) × ℕ) = do
      let mask = as_uint_or child Attribute.mask (u32_mod - 1) % u32_mod
      let val = as_uint_or child Attribute.val (u32_mod - 1) % u32_mod
      (_, pos') ← read_elem_end buffer child.id pos
      ok (mask_value_pairs ++ ((mask, val) ∷ []), pos')
    if not (Element.same child.id Element.mask_word) then panic else read

  unfoldable pub new_pat_block : SlaElement → ℕ → Outcome (PatBlock × ℕ)
  unfolding seek_elem_children_start for_children read_mask_word read_elem_end
  new_pat_block elem pos = do
    p1 ← seek_elem_children_start buffer elem pos
    (pairs, p2) ← for_children buffer elem read_mask_word [] p1
    (_, p3) ← read_elem_end buffer elem.id p2
    ok (
      record {
        offset = int32_or_minus_one elem Attribute.off;
        non_zero = int32_or_minus_one elem Attribute.nonzero;
        mask_value_pairs = pairs;
      },
      p3,
    )

  -- An element around one pattern block: half of a combined pattern.
  unfoldable pub read_half : ℕ → Outcome (PatBlock × ℕ)
  unfolding read_elem seek_elem_children_start new_pat_block read_elem_end
  read_half pos = do
    (half_elem, p1) ← read_elem buffer pos
    p2 ← seek_elem_children_start buffer half_elem p1
    (pat_block_elem, p3) ← read_elem buffer p2
    (pat_block, p4) ← new_pat_block pat_block_elem p3
    (_, p5) ← read_elem_end buffer half_elem.id p4
    ok (pat_block, p5)

  unfoldable pub read_combined : ℕ → Outcome (DisjointPattern × ℕ)
  unfolding read_half
  read_combined pos = do
    (ctx_pat_block, p1) ← read_half pos
    (ins_pat_block, p2) ← read_half p1
    ok (record { pat_type = combine_pattern; pat_blocks = ctx_pat_block ∷ ins_pat_block ∷ [] }, p2)

  -- The type is looked at before the block is read.
  unfoldable pub read_single : ElementId → ℕ → Outcome (DisjointPattern × ℕ)
  unfolding read_elem new_pat_block
  read_single kind pos = do
    (pat_block_elem, p1) ← read_elem buffer pos
    let block : DisjointPatternType → Outcome (DisjointPattern × ℕ) = λ pat_type.
        new_pat_block pat_block_elem p1 >>= λ (r : PatBlock × ℕ).
        ok (record { pat_type = pat_type; pat_blocks = r.0 ∷ [] }, r.1)
    if not (Element.same pat_block_elem.id Element.pat_block)
        then panic
        else if Element.same kind Element.instruct_pat
        then block instruction_pattern
        else if Element.same kind Element.context_pat
        then block context_pattern
        else panic

  unfoldable pub new_disjoint_pattern : SlaElement → ℕ → Outcome (DisjointPattern × ℕ)
  unfolding seek_elem_children_start read_combined read_single read_elem_end
  new_disjoint_pattern elem pos = do
    p1 ← seek_elem_children_start buffer elem pos
    (pattern, p2) ←
        (if Element.same elem.id Element.combine_pat
          then read_combined p1
          else read_single elem.id p1)
    (_, p3) ← read_elem_end buffer elem.id p2
    ok (pattern, p3)

  unfoldable pub new_decision_pair : SlaElement → ℕ → Outcome (DecisionPair × ℕ)
  unfolding seek_elem_children_start read_elem new_disjoint_pattern read_elem_end
  new_decision_pair elem pos = do
    p1 ← seek_elem_children_start buffer elem pos
    (pattern_elem, p2) ← read_elem buffer p1
    (pattern, p3) ← new_disjoint_pattern pattern_elem p2
    (_, p4) ← read_elem_end buffer elem.id p3
    ok (record { ctor_id = int32_or_minus_one elem Attribute.id; pattern = pattern }, p4)

  abbrev pub Branches : Type 0
  Branches = Decisions × List DecisionPair

  -- The body of the loop over the children of a decision. `new` reads a decision.
  unfoldable pub read_branch :
      (SlaElement → ℕ → Outcome (Decision × ℕ))
      → ℕ
      → Branches
      → SlaElement
      → ℕ
      → Outcome (Branches × ℕ)
  unfolding new_decision_pair
  read_branch new size (children, pairs) child pos = do
    let child_decision : Outcome (Branches × ℕ) = do
      (d, pos') ← new child pos
      ok ((push children d, pairs), pos')
    let child_pair : Outcome (Branches × ℕ) = do
      (pair, pos') ← new_decision_pair child pos
      ok ((children, pairs ++ (pair ∷ [])), pos')
    if Element.same child.id Element.decision
        then if size == 0 then panic else child_decision
        else if Element.same child.id Element.pair
        then if size == 0 then child_pair else panic
        else ok ((children, pairs), pos)

  -- `pow` of num_traits, which wraps around in a release build, is a parameter.
  module _ (pow : ℕ → ℕ → ℕ) where
    -- The nesting is bounded by fuel.
    unfoldable pub decision_within : ℕ → SlaElement → ℕ → Outcome (Decision × ℕ)
    unfolding as_bool_or seek_elem_children_start for_children read_branch read_elem_end
    decision_within zero elem pos = no_fuel
    decision_within (suc fuel) elem pos = do
      let context = as_bool_or elem Attribute.context false
      let start = int32_or_minus_one elem Attribute.startbit
      let size = int32_or_minus_one elem Attribute.size
      p1 ← seek_elem_children_start buffer elem pos
      ((children, pairs), p2) ←
          for_children buffer elem (read_branch (decision_within fuel) size) (no_decisions, []) p1
      let closed : Outcome (Decision × ℕ) = do
        (_, p3) ← read_elem_end buffer elem.id p2
        ok (decision context start size children pairs, p3)
      if size == 0 || pow 2 (i32_as_u64 size) == count children then closed else panic

    -- `Decision::new`
    unfoldable pub new_decision : SlaElement → ℕ → Outcome (Decision × ℕ)
    unfolding decision_within
    new_decision elem pos = decision_within (suc (length buffer)) elem pos
