-- ===== src/Sleigh/Pspec/Context.antt =====
-- The context that decoding starts with: `get_initial_ctx` of mizl_core/src/sleigh/pspec_file.rs.
pub mod Size
use mizl_h_public.Base
use mizl_h_public.Base.{
  ℕ, ◌%◌, Bool, not, ◌||◌, List, [], ◌∷◌, Option, none, some, get_elem?, replicate, if◌then◌else◌,
  lt_i32, u32_mod, Outcome, ok, panic, ◌>>=◌,
}
use mizl_h_public.Gbf.Schema.{bytes_eq}
use mizl_h_public.Sleigh.Memory.{write_ctx_u32_bits_range}
use mizl_h_public.Sleigh.Symbol.{Symbol, ContextSym, context_sym}
use mizl_h_public.Sleigh.Scope.{Scope, find_symbol}
use mizl_h_public.Sleigh.File.{Sleigh, get_context_size}
use mizl_h_public.Sleigh.Pspec
use mizl_h_public.Sleigh.Pspec.{
  PspecConstSetEntry, PspecConstSet, root_scope_missing, symbol_missing, Parsed, parsed, refused,
}
use mizl_h_public.Sleigh.Pspec.Names.{ram_text}

-- A call that is refused ends the ones behind it.
abbrev pub next_parsed {ℓ κ} :
    {A : Type ℓ} {B : Type κ} → (A → Outcome (Parsed B)) → Parsed A → Outcome (Parsed B)
next_parsed next (parsed a) = next a
next_parsed next (refused e) = ok (refused e)

abbrev pub then_parsed {ℓ κ} :
    {A : Type ℓ} {B : Type κ} → Outcome (Parsed A) → (A → Outcome (Parsed B)) → Outcome (Parsed B)
then_parsed call next = call >>= next_parsed next

abbrev pub context_of : Option Symbol → Outcome ContextSym
context_of none = panic
context_of (some s) = elim s.inner [ context_sym v ↦ ok v | _ ↦ panic ]

module _ (sleigh : Sleigh) (root_scope : Scope) where
  -- The bits of a context symbol get the value, by the index that the root scope has for it.
  unfoldable pub set_symbol : Option ℕ → ℕ → List ℕ → Outcome (Parsed (List ℕ))
  unfolding write_ctx_u32_bits_range
  set_symbol none val ctx = ok (refused symbol_missing)
  set_symbol (some i) val ctx = do
    sym ← context_of (get_elem? sleigh.symbol_table.symbols i)
    ctx' ← write_ctx_u32_bits_range ctx sym.low sym.high (val % u32_mod)
    ok (parsed ctx')

  unfoldable pub set_entries : List PspecConstSetEntry → List ℕ → Outcome (Parsed (List ℕ))
  unfolding find_symbol set_symbol
  set_entries [] ctx = ok (parsed ctx)
  set_entries (e ∷ entries) ctx =
      then_parsed (set_symbol (find_symbol root_scope.lookup e.name) e.val ctx)
        (set_entries entries)

  unfoldable pub set_all : List PspecConstSet → List ℕ → Outcome (Parsed (List ℕ))
  unfolding bytes_eq set_entries
  set_all [] ctx = ok (parsed ctx)
  set_all (s ∷ sets) ctx =
      let set_one = set_entries s.entries ctx in
      let one = if not (bytes_eq s.space ram_text) || s.tracked then ok (parsed ctx) else set_one in
      then_parsed one (set_all sets)

-- A negative size, as a `usize`, is more than a vector can have.
abbrev pub zeros : ℕ → Outcome (List ℕ)
zeros size = if lt_i32 size 0 then panic else ok (replicate size 0)

unfoldable pub ctx_from : Pspec.Pspec → Sleigh → Option Scope → Outcome (Parsed (List ℕ))
unfolding get_context_size set_all
ctx_from pspec sleigh none = ok (refused root_scope_missing)
ctx_from pspec sleigh (some root_scope) = do
  size ← get_context_size sleigh
  ctx ← zeros size
  set_all sleigh root_scope pspec.context_settings ctx

unfoldable pub get_initial_ctx : Pspec.Pspec → Sleigh → Outcome (Parsed (List ℕ))
unfolding ctx_from
get_initial_ctx pspec sleigh = ctx_from pspec sleigh (get_elem? sleigh.symbol_table.scopes 0)
