-- ===== src/Examples/Context.antt =====
-- Varnodes by their offset, and a first context.
use mizl_h_public.Base.{ℕ, length, ◌≡◌, refl, false, List, [], ◌∷◌, ok}
use mizl_h_public.Sleigh.Reader.{address_space}
use mizl_h_public.Sleigh.Expression.{constant_value}
use mizl_h_public.Sleigh.Pspec
use mizl_h_public.Sleigh.Pspec.{parsed}
use mizl_h_public.Sleigh.Pspec.Names.{ram_text}
use mizl_h_public.Sleigh.Pspec.Context.{get_initial_ctx}
use mizl_h_public.Sleigh.Pspec.Context.Size
use mizl_h_public.Sleigh.Symbol.{Symbol, varnode_sym, context_sym}
use mizl_h_public.Sleigh.File.{Sleigh, get_varnodes_by_offset, get_context_size}
use mizl_h_public.Sleigh.File.Varnodes
use mizl_h_public.Sleigh.File.Varnodes.{ids_at}
use mizl_h_public.Examples.Decoder.{nop_sleigh, instruction}

-- A varnode at an offset.
abbrev eax : Symbol
eax = record {
  name = 97 ∷ [];
  id = 7;
  scope = 0;
  inner =
      varnode_sym
        (record { space = record { space_type = address_space; index = 1 }; offset = 4; size = 4 });
}

abbrev eax_sleigh : Sleigh
eax_sleigh = record nop_sleigh {
  symbol_table = record { scopes = []; symbols = instruction ∷ eax ∷ [] };
}

get_varnodes_by_offset-ids_example : ids_at (get_varnodes_by_offset eax_sleigh) 4 ≡ 7 ∷ []
get_varnodes_by_offset-ids_example = Varnodes.get_varnodes_by_offset-ids eax_sleigh 4

-- A context of one register of four bytes; bits 0 to 3 are set to 5.
abbrev mode : Symbol
mode = record {
  name = 109 ∷ [];
  id = 1;
  scope = 0;
  inner =
      context_sym
        (record { varnode = 0; low = 0; high = 3; flow = false; patexp = constant_value 0 });
}

abbrev mode_sleigh : Sleigh
mode_sleigh = record nop_sleigh {
  symbol_table = record {
    scopes = (record { id = 0; parent = 0; lookup = (109 ∷ [], 1) ∷ [] }) ∷ [];
    symbols = eax ∷ mode ∷ [];
  };
}

abbrev mode_set : Pspec.Pspec
mode_set = record {
  properties = [];
  program_counter = [];
  context_settings =
      (record {
        tracked = false;
        space = ram_text;
        entries = (record { name = 109 ∷ []; val = 5 }) ∷ [];
      })
      ∷ [];
  registers = [];
}

mode_size : get_context_size mode_sleigh ≡ ok 4
unfolding get_context_size
mode_size = refl

mode_ctx : get_initial_ctx mode_set mode_sleigh ≡ ok (parsed (0x5000_0000 ∷ 0 ∷ 0 ∷ 0 ∷ []))
unfolding get_initial_ctx
mode_ctx = refl

abbrev first_ctx : List ℕ
first_ctx = 0x5000_0000 ∷ 0 ∷ 0 ∷ 0 ∷ []

get_initial_ctx-length_example : length first_ctx ≡ 4
get_initial_ctx-length_example =
    Size.get_initial_ctx-length mode_set mode_sleigh 4 first_ctx mode_size mode_ctx
