-- ===== src/Sleigh/Reader/Ends.antt =====
-- Where a read of an element ends, and that the loops over attributes and children have rounds
-- enough.
use mathlib.Core.Path.{subst}
use mizl_h_public.Base.{
  ℕ, zero, suc, ◌+◌, ◌≤◌, ◌<◌, ◌≡◌, refl, not, ◌&&◌, List, [], Option, none, some, length, sym,
  get_elem?, get_elem?-lt, ◌==◌, arith, Outcome, ok, panic, ◌>>=◌, Ensures, holds, panics,
  Ensures->>=, Ensures-if, Ensures-weaken,
}
use mizl_h_public.Sleigh.Element
use mizl_h_public.Sleigh.Element.{ElementId}
use mizl_h_public.Sleigh.Reader.{SlaAttribute, SlaElement, get_element_type, byte_here, peek_u8}
use mizl_h_public.Sleigh.Reader.Elements.{
  attrs_from, read_elem_attrs, read_elem, read_elem_start, read_elem_end, next_child, expect_child,
  seek_elem_children_start, each_child, for_children, skip_children,
}
use mizl_h_public.Sleigh.Reader.Bounds.{
  Within, Within-weaken, Within->>=, len, read_u8-Within, seek-Ensures, read_id-Within,
  read_attr-Within,
}

module _ (buffer : List ℕ) where
  -- An element is read from `pos`: it takes a byte at least, and ends where the call ends.
  abbrev pub Opens : ℕ → Outcome (SlaElement × ℕ) → Type 0
  Opens pos call = Ensures (λ r. (suc pos ≤ r.1) × (r.1 ≤ len buffer) × (r.0.epos ≡ r.1)) call

  abbrev pub IsChild : ℕ → Option SlaElement × ℕ → Type 0
  IsChild pos (none, at) = (at ≡ pos) × (pos ≤ len buffer)
  IsChild pos (some e, at) = (suc pos ≤ at) × (at ≤ len buffer) × (e.epos ≡ at)

  peek_u8-Ensures : (pos : ℕ) → Ensures (λ b. pos < len buffer) (peek_u8 buffer pos)
  unfolding peek_u8
  peek_u8-Ensures pos = here (get_elem? buffer pos) refl
    where
      here :
          (b : Option ℕ)
          → get_elem? buffer pos ≡ b
          → Ensures (λ b. pos < len buffer) (byte_here buffer b)
      here none e = panics
      here (some b) e = holds (get_elem?-lt buffer pos b e)

  attrs_from-Within :
      (fuel : ℕ) (attrs : List SlaAttribute) (pos : ℕ)
      → pos ≤ len buffer
      → len buffer < fuel + pos
      → Within (len buffer) pos (attrs_from buffer fuel attrs pos)
  unfolding attrs_from
  attrs_from-Within zero attrs pos h f = absurd (omega arith)
  attrs_from-Within (suc fuel) attrs pos h f = Ensures->>= (peek_u8-Ensures pos) λ byte1 t.
      Ensures-if (not (get_element_type byte1 == 3)) (λ e. holds (omega arith, h))
        λ e. Within-weaken (omega arith) (
          Within->>= _ (read_attr-Within buffer pos)
            λ attr at u w. attrs_from-Within fuel _ at w (omega arith))

  read_elem_attrs-Within : (pos : ℕ) → Within (len buffer) pos (read_elem_attrs buffer pos pos)
  unfolding read_elem_attrs
  read_elem_attrs-Within pos = Ensures->>= (seek-Ensures buffer pos pos) λ at r.
      Within-weaken (omega (arith, r.0))
        (attrs_from-Within (suc (length buffer)) [] at (omega (arith, r.0, r.1)) (omega arith))

  pub read_elem-Opens : (pos : ℕ) → Opens pos (read_elem buffer pos)
  unfolding read_elem
  read_elem-Opens pos = Ensures->>= (read_u8-Within buffer pos) λ (byte1, p1) h1.
      Ensures-if (not (get_element_type byte1 == 1) && not (get_element_type byte1 == 2))
        (λ e. panics)
        λ e. Ensures->>= (read_id-Within buffer p1 h1.1 byte1) λ (n, p2) h2.
          Ensures-if (get_element_type byte1 == 1)
            (λ e.
              Ensures->>= (read_elem_attrs-Within p2)
                λ (attrs, p3) h3. holds (omega (arith, h1.0, h2.0, h3.0), h3.1, refl))
            λ e. holds (omega (arith, h1.0, h2.0), h2.1, refl)

  pub read_elem_start-Opens :
      (check_id : ElementId) (pos : ℕ) → Opens pos (read_elem_start buffer check_id pos)
  unfolding read_elem_start
  read_elem_start-Opens check_id pos = Ensures->>= (read_elem-Opens pos) λ (elem, at) h.
      Ensures-if (Element.same elem.id check_id && elem.start) (λ e. holds h) λ e. panics

  pub read_elem_end-Within :
      (check_id : ElementId) (pos : ℕ) → Within (len buffer) pos (read_elem_end buffer check_id pos)
  unfolding read_elem_end
  read_elem_end-Within check_id pos = Ensures->>= (read_elem-Opens pos) λ (elem, at) h.
      Ensures-if (Element.same elem.id check_id && not elem.start)
        (λ e. holds (omega (arith, h.0), h.1)) λ e. panics

  pub next_child-IsChild : (pos : ℕ) → Ensures (IsChild pos) (next_child buffer pos)
  unfolding next_child
  next_child-IsChild pos = Ensures->>= (peek_u8-Ensures pos) λ byte1 h.
      Ensures-if (get_element_type byte1 == 1)
        (λ e. Ensures->>= (read_elem-Opens pos) λ (elem, at) r. holds r)
        λ e. Ensures-if (get_element_type byte1 == 2) (λ e. holds (refl, omega arith)) λ e. panics

  pub expect_child-Opens : (pos : ℕ) → Opens pos (expect_child buffer pos)
  unfolding expect_child
  expect_child-Opens pos = Ensures->>= (next_child-IsChild pos) λ r. given r.0 r.1
    where
      given :
          (c : Option SlaElement) (at : ℕ)
          → IsChild pos (c, at)
          → Opens pos (elim c [ some elem ↦ ok (elem, at) | none ↦ panic ])
      given none at h = panics
      given (some elem) at h = holds h

  pub seek_elem_children_start-Ensures :
      (elem : SlaElement) (pos : ℕ)
      → elem.epos ≡ pos
      → Ensures (λ at. (at ≡ pos) × (pos < len buffer)) (seek_elem_children_start buffer elem pos)
  unfolding seek_elem_children_start
  seek_elem_children_start-Ensures elem pos e =
      Ensures-weaken (seek-Ensures buffer pos elem.epos) λ at r. (cc, r.1)

  -- What a loop asks of its body: from behind the child, it ends in the buffer.
  abbrev pub Steps {ℓ} : {S : Type ℓ} → ℕ → (S → SlaElement → ℕ → Outcome (S × ℕ)) → Type ℓ
  Steps {S} from body =
      (s : S) (c : SlaElement) (at : ℕ)
      → suc from ≤ at
      → at ≤ len buffer
      → c.epos ≡ at
      → Within (len buffer) at (body s c at)

  -- One round of a loop, given the rounds behind it.
  round-Within {ℓ} :
      {S : Type ℓ} (body : S → SlaElement → ℕ → Outcome (S × ℕ)) (rest : S × ℕ → Outcome (S × ℕ))
      (s : S) (from pos : ℕ)
      → Steps from body
      → from ≤ pos
      → ((s' : S) (p : ℕ) → suc pos ≤ p → p ≤ len buffer → Within (len buffer) p (rest (s', p)))
      → (c : Option SlaElement) (at : ℕ) → IsChild pos (c, at)
      → Within (len buffer) pos (elim c [ none ↦ ok (s, at) | some elem ↦ body s elem at >>= rest ])
  round-Within body rest s from pos k h again none at t =
      holds (omega (arith, t.0), omega (arith, t.0, t.1))
  round-Within body rest s from pos k h again (some elem) at t =
      Within-weaken (omega (arith, t.0)) (
        Within->>= rest (k s elem at (omega (arith, t.0)) t.1 t.2)
          λ s' p u w. again s' p (omega (arith, t.0)) w)

  each_child-Within {ℓ} :
      {S : Type ℓ} (body : S → SlaElement → ℕ → Outcome (S × ℕ)) (fuel : ℕ) (s : S) (from pos : ℕ)
      → Steps from body
      → from ≤ pos
      → pos ≤ len buffer
      → len buffer < fuel + pos
      → Within (len buffer) pos (each_child buffer body fuel s pos)
  unfolding each_child
  each_child-Within body zero s from pos k h g f = absurd (omega arith)
  each_child-Within body (suc fuel) s from pos k h g f = Ensures->>= (next_child-IsChild pos) λ r.
      round-Within body (λ (s', p). each_child buffer body fuel s' p) s from pos k h
        (λ s' p u w. each_child-Within body fuel s' from p k (omega arith) w (omega arith)) r.0 r.1

  pub for_children-Within {ℓ} :
      {S : Type ℓ} (elem : SlaElement) (body : S → SlaElement → ℕ → Outcome (S × ℕ)) (s : S)
      (pos : ℕ)
      → Steps pos body
      → elem.epos ≡ pos
      → Within (len buffer) pos (for_children buffer elem body s pos)
  unfolding for_children
  for_children-Within elem body s pos k e = Ensures->>= (seek-Ensures buffer pos elem.epos) λ at r.
      Within-weaken (omega (arith, r.0, e)) (
        each_child-Within body (suc (length buffer)) s pos at k (omega (arith, r.0, e))
          (omega (arith, r.0, r.1, e)) (omega arith))

  -- The loop over the children, from the position that the seek before it left.
  pub children-Within {ℓ} :
      {S : Type ℓ} (elem : SlaElement) (body : S → SlaElement → ℕ → Outcome (S × ℕ)) (s : S)
      (pos p1 : ℕ)
      → Steps pos body
      → elem.epos ≡ pos
      → p1 ≡ pos
      → Within (len buffer) pos (for_children buffer elem body s p1)
  children-Within elem body s pos p1 k e r =
      subst (λ p. Within (len buffer) pos (for_children buffer elem body s p)) (sym r)
        (for_children-Within elem body s pos k e)

  pub skip_children-Ensures :
      (elem : SlaElement) (pos : ℕ)
      → elem.epos ≡ pos
      → Ensures (λ at. (pos ≤ at) × (at ≤ len buffer)) (skip_children buffer elem pos)
  unfolding skip_children
  skip_children-Ensures elem pos e =
      Ensures->>= (seek_elem_children_start-Ensures elem pos e) λ at r.
        Ensures->>= (read_elem_end-Within elem.id at)
          λ (x, end) h. holds (omega (arith, r.0, h.0), h.1)
