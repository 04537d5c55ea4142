-- ===== src/Sleigh/Pspec/Numbers.antt =====
-- Decimal numbers in text, as `parse` of the Rust library reads them, and lists with commas.
use mizl_h_public.Base.{
  ℕ, ◌+◌, ◌-◌, ◌*◌, ◌%◌, ◌^◌, ◌&&◌, List, [], ◌∷◌, ◌++◌, Option, none, some, ltb, leb, ◌==◌,
  if◌then◌else◌, u32_mod, u64_mod,
}

-- The digits that are left, behind those with the value `acc`, of a number below a limit.
unfoldable pub digits_from : ℕ → ℕ → List ℕ → Option ℕ
digits_from limit acc [] = some acc
digits_from limit acc (c ∷ cs) =
    let next = acc * 10 + (c - 48) in
    let rest = digits_from limit next cs in
    if leb 48 c && leb c 57 && ltb next limit then rest else none

-- There is a digit at least.
unfoldable pub magnitude : ℕ → List ℕ → Option ℕ
unfolding digits_from
magnitude limit [] = none
magnitude limit (c ∷ cs) = digits_from limit 0 (c ∷ cs)

-- `str::parse::<u64>`
unfoldable pub parse_u64 : List ℕ → Option ℕ
unfolding magnitude
parse_u64 [] = none
parse_u64 (c ∷ cs) = if c == 43 then magnitude u64_mod cs else magnitude u64_mod (c ∷ cs)

abbrev negated : Option ℕ → Option ℕ
negated none = none
negated (some n) = some ((u32_mod - n) % u32_mod)

-- `str::parse::<i32>`, as a bit pattern.
unfoldable pub parse_i32 : List ℕ → Option ℕ
unfolding magnitude
parse_i32 [] = none
parse_i32 (c ∷ cs) =
    if c == 45
    then negated (magnitude (2 ^ 31 + 1) cs)
    else if c == 43
    then magnitude (2 ^ 31) cs
    else magnitude (2 ^ 31) (c ∷ cs)

-- `split(",")`: the piece that is read so far, in front of the text that is left.
unfoldable pub split_from : List ℕ → List ℕ → List (List ℕ)
split_from piece [] = piece ∷ []
split_from piece (c ∷ cs) =
    let closed = piece ∷ split_from [] cs in
    let longer = split_from (piece ++ (c ∷ [])) cs in if c == 44 then closed else longer
