-- ===== src/Sleigh/Expression/Evaluate.antt =====
-- The value of a pattern expression: `evaluate` of mizl_core/src/sleigh/expression.rs. An `i64` is
-- its bit pattern; `+`, `-`, `*` and the shifts wrap around as in a release build, and a division
-- panics where Rust's does.
pub mod Sign
use Prim.Native.Nat.{bit_and, bit_or, bit_xor}
use mizl_h_public.Base.{
  ℕ, ◌-◌, ◌/◌, ◌%◌, ◌^◌, Bool, not, ◌&&◌, ◌||◌, ◌==◌, if◌then◌else◌, add32, sub32, mul32, add64,
  sub64, mul64, i32_as_u64, shl64, shr64, shr32, sar64, not64, neg64, abs64, is_negative64, u64_mod,
  Outcome, ok, err, panic, no_fuel, ◌>>=◌,
}
use mizl_h_public.Sleigh.State.{
  DisasmState, state_mem_u64_bits_at, state_ctx_u32_bits_at, get_start_ins, get_end_ins,
  get_next2_ins,
}
use mizl_h_public.Sleigh.Expression.{
  Expression, TokenField, ContextField, OperandValue, token_field, context_field, constant_value,
  operand_value, start_instruction_value, end_instruction_value, next2_instruction_value,
  add_expression, sub_expression, mult_expression, div_expression, left_shift_expression,
  right_shift_expression, and_expression, or_expression, xor_expression, neg_expression,
  not_expression,
}

-- `Err(_) => 0`
abbrev pub or_zero : Outcome ℕ → Outcome ℕ
or_zero (ok v) = ok v
or_zero (err e) = ok 0
or_zero panic = panic
or_zero no_fuel = no_fuel

-- `(end + byte_end * 8) - (start + byte_start * 8) + 1`
abbrev pub bit_count_of : ℕ → ℕ → ℕ → ℕ → ℕ
bit_count_of bit_start bit_end byte_start byte_end =
    add32 (sub32 (add32 bit_end (mul32 byte_end 8)) (add32 bit_start (mul32 byte_start 8))) 1

-- `value & ((1 << bit_count) - 1)`
abbrev pub low_bits : ℕ → ℕ → ℕ
low_bits value bit_count = bit_and value (sub64 (shl64 1 bit_count) 1)

-- The test for a sign that the value does not have as an `i64`.
abbrev pub has_sign : Bool → ℕ → ℕ → Bool
has_sign sign_bit value bit_count =
    (sign_bit && not (is_negative64 value))
    && not (bit_and value (shl64 1 (sub32 bit_count 1)) == 0)

abbrev pub token_value : TokenField → ℕ → ℕ
token_value f read_value =
    let bit_count = bit_count_of f.bit_start f.bit_end f.byte_start f.byte_end in
    let value = low_bits (shr64 read_value f.shift) bit_count in
    let mask = shl64 1 (sub32 bit_count 1) in
    if has_sign f.sign_bit value bit_count then sub64 (bit_xor value mask) mask else value

-- A context field with its sign bit set is negated, not extended.
abbrev pub context_value : ContextField → ℕ → ℕ
context_value f read_value =
    let bit_count = bit_count_of f.bit_start f.bit_end f.byte_start f.byte_end in
    let value = low_bits (shr32 read_value f.shift) bit_count in
    if has_sign f.sign_bit value bit_count then neg64 value else value

abbrev pub byte_count_of : ℕ → ℕ → ℕ
byte_count_of byte_start byte_end = add32 (sub32 byte_end byte_start) 1

unfoldable pub evaluate_token_field : DisasmState → TokenField → ℕ → Outcome ℕ
unfolding state_mem_u64_bits_at
evaluate_token_field state f at = do
  let bits = mul32 (byte_count_of f.byte_start f.byte_end) 8
  read_value ←
      or_zero (state_mem_u64_bits_at state (add64 at (i32_as_u64 f.byte_start)) 0 bits f.big_endian)
  ok (token_value f read_value)

unfoldable pub evaluate_context_field : DisasmState → ContextField → Outcome ℕ
unfolding state_ctx_u32_bits_at
evaluate_context_field state f = do
  let bits = mul32 (byte_count_of f.byte_start f.byte_end) 8
  read_value ← state_ctx_u32_bits_at state (mul32 f.byte_start 8) bits
  ok (context_value f read_value)

-- `left / right` of `i64`, which rounds towards zero.
abbrev pub div_i64 : ℕ → ℕ → Outcome ℕ
div_i64 a b =
    let q = abs64 a / abs64 b in
    let negative = if is_negative64 a then not (is_negative64 b) else is_negative64 b in
    if b == 0 || (a == 2 ^ 63 && b == u64_mod - 1)
    then panic
    else ok (if negative then neg64 q else q % u64_mod)

-- Both sides, and then the operation.
abbrev pub both : Outcome ℕ → Outcome ℕ → (ℕ → ℕ → Outcome ℕ) → Outcome ℕ
both l r op = l >>= λ left. r >>= λ right. op left right

-- `operand` evaluates a reference to an operand.
unfoldable pub eval : (OperandValue → Outcome ℕ) → DisasmState → Expression → ℕ → Outcome ℕ
unfolding evaluate_token_field evaluate_context_field
eval operand state (token_field f) at = evaluate_token_field state f at
eval operand state (context_field f) at = evaluate_context_field state f
eval operand state (constant_value v) at = ok v
eval operand state (operand_value v) at = operand v
eval operand state start_instruction_value at = ok (get_start_ins state)
eval operand state end_instruction_value at = ok (get_end_ins state)
eval operand state next2_instruction_value at = get_next2_ins state
eval operand state (add_expression l r) at =
    both (eval operand state l at) (eval operand state r at) λ a b. ok (add64 a b)
eval operand state (sub_expression l r) at =
    both (eval operand state l at) (eval operand state r at) λ a b. ok (sub64 a b)
eval operand state (mult_expression l r) at =
    both (eval operand state l at) (eval operand state r at) λ a b. ok (mul64 a b)
eval operand state (div_expression l r) at =
    both (eval operand state l at) (eval operand state r at) div_i64
eval operand state (left_shift_expression l r) at =
    both (eval operand state l at) (eval operand state r at) λ a b. ok (shl64 a b)
eval operand state (right_shift_expression l r) at =
    both (eval operand state l at) (eval operand state r at) λ a b. ok (sar64 a b)
eval operand state (and_expression l r) at =
    both (eval operand state l at) (eval operand state r at) λ a b. ok (bit_and a b)
eval operand state (or_expression l r) at =
    both (eval operand state l at) (eval operand state r at) λ a b. ok (bit_or a b)
eval operand state (xor_expression l r) at =
    both (eval operand state l at) (eval operand state r at) λ a b. ok (bit_xor a b)
eval operand state (neg_expression e) at = eval operand state e at >>= λ v. ok (neg64 v)
eval operand state (not_expression e) at = eval operand state e at >>= λ v. ok (not64 v)
