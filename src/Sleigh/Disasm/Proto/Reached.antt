-- ===== src/Sleigh/Disasm/Proto/Reached.antt =====
-- What the loop of `disasm_proto` keeps, in every state that it reaches.
use mathlib.Core.Path.{subst}
use mizl_h_public.Base.{
  ℕ, ◌%◌, ◌≤◌, ◌<◌, ◌≡◌, inl, inr, refl, false, List, [], ◌∷◌, ◌++◌, Option, none, some, length,
  length-set, get_elem?, set, lt→ltb, eq→==, ◌==◌, Bool-cases, arith, sub64, i32_as_u64, u32_mod,
  minus_one32, ok, IfOk, value, IfOk->>=, IfOk-ok,
}
use mizl_h_public.Sleigh.Constructor.{ConstructorPrintElement}
use mizl_h_public.Sleigh.Disasm.{Disasm, DisasmStackItem}
use mizl_h_public.Sleigh.Disasm.Proto.Print.{set_at}
use mizl_h_public.Sleigh.Disasm.Proto.Step.{Progress, pop_item, round_at, round_of, round}
use mizl_h_public.Sleigh.Disasm.Proto.Offsets.{
  HasOffset, HaveOffsets, none_left, one_more, written-HasOffset, print_element-Goes,
}

-- A place that is there can be written.
set_at-ok : (list : List ℕ) (i v : ℕ) → i < length list → set_at list i v ≡ ok (set list i v)
set_at-ok list i v h = rw (lt→ltb i (length list) h) refl

place_of :
    (item : DisasmStackItem)
    → HasOffset item
    → (item.last_operand_idx == minus_one32) ≡ false
    → i32_as_u64 item.last_operand_idx < length item.op_offsets
place_of item (inl e) n = absurd (let t = eq→== item.last_operand_idx minus_one32 e in cc)
place_of item (inr h) n = h

-- A constructor that is done is removed: the item below has a place for the operand's end.
pub pop_item-HaveOffsets :
    (at end_pos : ℕ) (below : List DisasmStackItem)
    → HaveOffsets below
    → (below' : List DisasmStackItem) × (pop_item at end_pos below ≡ ok below') × HaveOffsets below'
unfolding pop_item
pop_item-HaveOffsets at end_pos [] h = ([], refl, none_left)
pop_item-HaveOffsets at end_pos (prev ∷ below) (one_more h hs) =
    let i = i32_as_u64 prev.last_operand_idx in
    let offset = sub64 end_pos at % u32_mod in
    elim (Bool-cases (prev.last_operand_idx == minus_one32)) [
      | inl e ↦ (prev ∷ below, rw e refl, one_more h hs)
      | inr n ↦ (
        record prev { op_offsets = set prev.op_offsets i offset } ∷ below,
        rw (n, set_at-ok prev.op_offsets i offset (place_of prev h n)) refl,
        one_more (written-HasOffset prev _ (length-set prev.op_offsets i offset) h) hs,
      )
    ]

below_of :
    {item : DisasmStackItem} {below : List DisasmStackItem}
    → HaveOffsets (item ∷ below)
    → HaveOffsets below
below_of (one_more h hs) = hs

pushed :
    (items : List DisasmStackItem) {below : List DisasmStackItem}
    → HaveOffsets items
    → HaveOffsets below
    → HaveOffsets (items ++ below)
pushed [] none_left hs = hs
pushed (item ∷ items) (one_more k ks) hs = one_more k (pushed items ks hs)

module _ (disasm : Disasm) (depth : ℕ) where
  -- A round keeps the offsets, and does not move the end back.
  abbrev Kept : Progress → Progress → Type 0
  Kept p p' = (p.end_pos ≤ p'.end_pos) × HaveOffsets p'.stack

  round_at-Kept :
      (at : ℕ) (p : Progress) (top : DisasmStackItem) (below : List DisasmStackItem)
      (element : Option ConstructorPrintElement)
      → HasOffset top
      → HaveOffsets below
      → IfOk (Kept p) (round_at disasm depth at p top below element)
  unfolding round_at
  round_at-Kept at p top below none h hs =
      let (below', e, k) = pop_item-HaveOffsets at p.end_pos below hs in
      rw e (value (omega arith, k))
  round_at-Kept at p top below (some element) h hs =
      IfOk->>= (print_element-Goes disasm depth p.state top element at p.end_pos h)
        λ (r, top') (g, k). value (g.0, pushed r.elem_to_add g.1 (one_more k hs))

  round_of-Kept :
      (at : ℕ) (p : Progress) (stack : List DisasmStackItem)
      → HaveOffsets stack
      → p.stack ≡ stack
      → IfOk (Kept p) (round_of disasm depth at p stack)
  unfolding round_of
  round_of-Kept at p [] none_left e = value (omega arith, rw e none_left)
  round_of-Kept at p (top ∷ below) (one_more h hs) e =
      round_at-Kept at p top below (get_elem? top.ctor.print_elements top.print_elem_idx) h hs

  round-Kept :
      (at : ℕ) (p : Progress) → HaveOffsets p.stack → IfOk (Kept p) (round disasm depth at p)
  unfolding round
  round-Kept at p h = round_of-Kept at p p.stack h refl

  -- The states that the loop reaches from a state.
  pub data Reached (at : ℕ) (first : Progress) : Progress → Type 0 where
    at_first : Reached at first first
    by_round :
        {p next : Progress}
        → Reached at first p
        → round disasm depth at p ≡ ok next
        → Reached at first next

  Reached-Kept :
      (at : ℕ) (first p : Progress) → HaveOffsets first.stack → Reached at first p → Kept first p
  Reached-Kept at first p h at_first = (omega arith, h)
  Reached-Kept at first next h (by_round {p} r e) =
      let kept = Reached-Kept at first p h r in
      let more = IfOk-ok (subst (IfOk (Kept p)) e (round-Kept at p kept.1)) in
      (omega (arith, kept.0, more.0), more.1)

  -- In every state that the loop of the decoder reaches from one item with no last operand, the
  -- end of the instruction is not in front of where it was at first, and the removal of the item
  -- on top succeeds: the item below has a place for the end of the operand.
  pub Reached-pop_item :
      (at : ℕ) (first p : Progress) (item top : DisasmStackItem) (below : List DisasmStackItem)
      → first.stack ≡ item ∷ []
      → item.last_operand_idx ≡ minus_one32
      → Reached at first p
      → p.stack ≡ top ∷ below
      → (first.end_pos ≤ p.end_pos)
        × (below' : List DisasmStackItem) × (pop_item at p.end_pos below ≡ ok below')
  Reached-pop_item at first p item top below e l r q =
      let kept = Reached-Kept at first p (rw e (one_more (inl l) none_left)) r in
      let popped =
        pop_item-HaveOffsets at p.end_pos below (below_of (subst HaveOffsets q kept.1)) in
      (kept.0, popped.0, popped.1)
