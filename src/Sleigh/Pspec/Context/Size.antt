-- ===== src/Sleigh/Pspec/Context/Size.antt =====
-- The size of the context that decoding starts with.
use mathlib.Core.Path.{subst}
use mizl_h_public.Base.{
  ℕ, zero, suc, ◌%◌, ◌≡◌, ◌∙◌, refl, not, ◌||◌, List, [], ◌∷◌, Option, none, some, length,
  length-set, length-replicate, get_elem?, lt_i32, low_mask32, sub32, add32, shr32, u32_mod, ◌-◌,
  ◌*◌, ◌/◌, Outcome, ok, IfOk, value, panicked, IfOk->>=, IfOk-if, IfOk-ok, IfOk-any, IfOk-weaken,
}
use mizl_h_public.Gbf.Schema.{bytes_eq}
use mizl_h_public.Sleigh.Memory.{
  set_word, put_bits, bits_in_byte, range_loop, write_ctx_u32_bits_range,
}
use mizl_h_public.Sleigh.Scope.{Scope, find_symbol}
use mizl_h_public.Sleigh.File.{Sleigh, get_context_size}
use mizl_h_public.Sleigh.Pspec
use mizl_h_public.Sleigh.Pspec.{PspecConstSetEntry, PspecConstSet, Parsed, parsed, refused}
use mizl_h_public.Sleigh.Pspec.Names.{ram_text}
use mizl_h_public.Sleigh.Pspec.Context.{
  next_parsed, then_parsed, context_of, set_symbol, set_entries, set_all, zeros, ctx_from,
  get_initial_ctx,
}

set_word-length :
    (ctx : List ℕ) (i : ℕ) (change : ℕ → ℕ) (old : Option ℕ)
    → IfOk (λ r. length r ≡ length ctx) (set_word ctx i change old)
set_word-length ctx i change none = panicked
set_word-length ctx i change (some w) = value (length-set ctx i (change w))

range_loop-length :
    (n byte_idx : ℕ) (ctx : List ℕ) (start_bit bits_left cur_value : ℕ)
    → IfOk (λ r. length r ≡ length ctx) (range_loop n byte_idx ctx start_bit bits_left cur_value)
unfolding range_loop
range_loop-length zero byte_idx ctx start_bit bits_left cur_value = value refl
range_loop-length (suc n) byte_idx ctx start_bit bits_left cur_value =
    let count = bits_in_byte bits_left start_bit in
    let change =
      put_bits (low_mask32 count) (sub32 (sub32 8 start_bit) count) ((3 - byte_idx % 4) * 8)
        cur_value in
    IfOk->>= (set_word-length ctx (byte_idx / 8) change (get_elem? ctx (byte_idx / 8))) λ ctx' h.
      IfOk-weaken
        (range_loop-length n (suc byte_idx) ctx' 0 (sub32 bits_left count) (shr32 cur_value count))
        λ r k. k ∙ h

write_range-length :
    (ctx : List ℕ) (low high v : ℕ)
    → IfOk (λ r. length r ≡ length ctx) (write_ctx_u32_bits_range ctx low high v)
unfolding write_ctx_u32_bits_range
write_range-length ctx low high v =
    IfOk-if (lt_i32 32 (sub32 (add32 high 1) low)) (λ b. panicked)
      λ b. range_loop-length _ _ ctx _ _ v

-- What is parsed has the length; nothing is said of what is refused.
abbrev HasLength : ℕ → Parsed (List ℕ) → Type 0
HasLength n (parsed ctx) = length ctx ≡ n
HasLength n (refused e) = Unit

next_HasLength :
    (n : ℕ) (next : List ℕ → Outcome (Parsed (List ℕ))) (r : Parsed (List ℕ))
    → ((ctx : List ℕ) → length ctx ≡ n → IfOk (HasLength n) (next ctx))
    → HasLength n r
    → IfOk (HasLength n) (next_parsed next r)
next_HasLength n next (parsed ctx) k h = k ctx h
next_HasLength n next (refused e) k h = value tt

then_HasLength :
    (n : ℕ) (call : Outcome (Parsed (List ℕ))) (next : List ℕ → Outcome (Parsed (List ℕ)))
    → IfOk (HasLength n) call
    → ((ctx : List ℕ) → length ctx ≡ n → IfOk (HasLength n) (next ctx))
    → IfOk (HasLength n) (then_parsed call next)
then_HasLength n call next h k = IfOk->>= h λ r l. next_HasLength n next r k l

module _ (sleigh : Sleigh) (root_scope : Scope) (n : ℕ) where
  set_symbol-HasLength :
      (i : Option ℕ) (val : ℕ) (ctx : List ℕ)
      → length ctx ≡ n
      → IfOk (HasLength n) (set_symbol sleigh root_scope i val ctx)
  unfolding set_symbol
  set_symbol-HasLength none val ctx h = value tt
  set_symbol-HasLength (some i) val ctx h =
      IfOk->>= (IfOk-any (context_of (get_elem? sleigh.symbol_table.symbols i))) λ sym t.
        IfOk->>= (write_range-length ctx sym.low sym.high (val % u32_mod)) λ ctx' k. value (k ∙ h)

  set_entries-HasLength :
      (entries : List PspecConstSetEntry) (ctx : List ℕ)
      → length ctx ≡ n
      → IfOk (HasLength n) (set_entries sleigh root_scope entries ctx)
  unfolding set_entries
  set_entries-HasLength [] ctx h = value h
  set_entries-HasLength (e ∷ entries) ctx h =
      then_HasLength n _ (set_entries sleigh root_scope entries)
        (set_symbol-HasLength (find_symbol root_scope.lookup e.name) e.val ctx h)
        (set_entries-HasLength entries)

  set_all-HasLength :
      (sets : List PspecConstSet) (ctx : List ℕ)
      → length ctx ≡ n
      → IfOk (HasLength n) (set_all sleigh root_scope sets ctx)
  unfolding set_all
  set_all-HasLength [] ctx h = value h
  set_all-HasLength (s ∷ sets) ctx h =
      then_HasLength n _ (set_all sleigh root_scope sets)
        (IfOk-if (not (bytes_eq s.space ram_text) || s.tracked) (λ b. value h)
          λ b. set_entries-HasLength s.entries ctx h)
        (set_all-HasLength sets)

zeros-length : (size : ℕ) → IfOk (λ ctx. length ctx ≡ size) (zeros size)
zeros-length size = IfOk-if (lt_i32 size 0) (λ b. panicked) λ b. value (length-replicate size 0)

ctx_from-HasLength :
    (pspec : Pspec.Pspec) (sleigh : Sleigh) (root_scope : Option Scope) (size : ℕ)
    → get_context_size sleigh ≡ ok size
    → IfOk (HasLength size) (ctx_from pspec sleigh root_scope)
unfolding ctx_from
ctx_from-HasLength pspec sleigh none size h = value tt
ctx_from-HasLength pspec sleigh (some root_scope) size h = rw h (
    IfOk->>= (zeros-length size)
      λ ctx k. set_all-HasLength sleigh root_scope size pspec.context_settings ctx k)

-- The first context has as many words as the size of the register that the first context symbol
-- names, whatever the settings write to it.
pub get_initial_ctx-length :
    (pspec : Pspec.Pspec) (sleigh : Sleigh) (size : ℕ) (ctx : List ℕ)
    → get_context_size sleigh ≡ ok size
    → get_initial_ctx pspec sleigh ≡ ok (parsed ctx)
    → length ctx ≡ size
unfolding get_initial_ctx
get_initial_ctx-length pspec sleigh size ctx h e = IfOk-ok (
    subst (IfOk (HasLength size)) e
      (ctx_from-HasLength pspec sleigh (get_elem? sleigh.symbol_table.scopes 0) size h))
