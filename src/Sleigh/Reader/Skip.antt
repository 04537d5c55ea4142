-- ===== src/Sleigh/Reader/Skip.antt =====
-- `seek_elem_children_end` of mizl_core/src/sleigh/sla_reader.rs, which looks for the end of an
-- element. A round moves only over a start and an end: in front of anything else the program stays
-- where it is for ever, so the fuel is an argument.
use mizl_h_public.Base.{
  ℕ, zero, suc, List, [], ◌∷◌, ◌==◌, if◌then◌else◌, Outcome, ok, no_fuel, ◌>>=◌,
}
use mizl_h_public.Sleigh.Element.{ElementId}
use mizl_h_public.Sleigh.Reader.{SlaElement, get_element_type, peek_u8}
use mizl_h_public.Sleigh.Reader.Elements.{read_elem, read_elem_end}

module _ (buffer : List ℕ) where
  -- The loop, with the top of the stack of ids in front.
  unfoldable pub skip_from : ℕ → List ElementId → ℕ → Outcome ℕ
  unfolding peek_u8 read_elem read_elem_end
  skip_from zero id_stack pos = no_fuel
  skip_from (suc fuel) id_stack pos = do
    byte1 ← peek_u8 buffer pos
    let elem_type = get_element_type byte1
    let closed : Outcome ℕ = elim id_stack [
      | [] ↦ ok pos
      | id ∷ [] ↦ ok pos
      | id ∷ outer ∷ ids ↦
          read_elem_end buffer id pos >>= λ (r : SlaElement × ℕ). skip_from fuel (outer ∷ ids) r.1
    ]
    let opened : Outcome ℕ =
        read_elem buffer pos >>= λ (r : SlaElement × ℕ). skip_from fuel (r.0.id ∷ id_stack) r.1
    let stays : Outcome ℕ = skip_from fuel id_stack pos
    if elem_type == 2 then closed else if elem_type == 1 then opened else stays

  unfoldable pub seek_elem_children_end : ℕ → SlaElement → ℕ → Outcome ℕ
  unfolding skip_from
  seek_elem_children_end fuel elem pos = skip_from fuel (elem.id ∷ []) pos
