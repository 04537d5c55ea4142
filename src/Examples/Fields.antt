-- ===== src/Examples/Fields.antt =====
-- The bits of a token field, of a context field and of a context word.
use mizl_h_public.Base.{ℕ, ◌-◌, ◌≡◌, refl, true, false, List, [], ◌∷◌, set, arith, u64_mod, ok}
use mizl_h_public.Sleigh.Expression.{TokenField, ContextField}
use mizl_h_public.Sleigh.Expression.Evaluate.{token_value, context_value}
use mizl_h_public.Sleigh.Expression.Evaluate.Sign
use mizl_h_public.Sleigh.Memory.{read_ctx_u32_bits_at, write_ctx_u32_bits_at}
use mizl_h_public.Sleigh.Memory.Write

-- A byte with a sign.
abbrev displacement : TokenField
displacement = record {
  big_endian = false;
  sign_bit = true;
  bit_start = 0;
  bit_end = 7;
  byte_start = 0;
  byte_end = 0;
  shift = 0;
}

token_value-bits_example : token_value displacement 0xfe ≡ u64_mod - 2
token_value-bits_example = Sign.token_value-bits 7 (omega arith) displacement 0xfe refl

abbrev signed_mode : ContextField
signed_mode = record {
  sign_bit = true;
  bit_start = 0;
  bit_end = 7;
  byte_start = 0;
  byte_end = 0;
  shift = 0;
}

context_value-bits_example : context_value signed_mode 0xfe ≡ u64_mod - 0xfe
context_value-bits_example = Sign.context_value-bits 7 (omega arith) signed_mode 0xfe refl

abbrev two_words : List ℕ
two_words = 1 ∷ 2 ∷ []

read_ctx-write_ctx_example :
    (write_ctx_u32_bits_at two_words 32 32 7 ≡ ok (set two_words 1 7))
    × (read_ctx_u32_bits_at (set two_words 1 7) 32 32 ≡ ok 7)
read_ctx-write_ctx_example =
    Write.read_ctx-write_ctx 1 (omega arith) two_words 2 7 (omega arith) refl
