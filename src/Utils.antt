-- ===== src/Utils.antt =====
-- pkg/utils/convert.go: numbers and decimal texts. `strconv.ParseUint` is modelled in base 10.
pub mod Decimal
pub mod Bounds
mod Tests
use minefield.Prelude.{
  ℕ, zero, suc, ◌+◌, ◌-◌, ◌*◌, ◌/◌, ◌%◌, ◌^◌, Bool, true, false, List, [], ◌∷◌, ◌++◌, ◌||◌, ltb,
  leb, if◌then◌else◌, Text, Error, errorf, wrap, Outcome, ok, err, ℤ, pos, negsuc,
}

-- `strconv.FormatUint(n, 10)`; a number below 10 ^ fuel has at most `fuel` digits
unfoldable pub format_uint : ℕ → ℕ → Text
format_uint zero n = []
format_uint (suc fuel) n = elim (ltb n 10) [
  | true ↦ (b'0' + n) ∷ []
  | false ↦ format_uint fuel (n / 10) ++ (b'0' + n % 10) ∷ []
]

-- `Uint32ToStr`, and `%d`: a number has fewer digits than its successor counts.
unfoldable pub uint32_to_str : ℕ → Text
uint32_to_str val = format_uint (suc val) val

-- the digits of `strconv.ParseUint(s, 10, 32)`, behind the value read so far
unfoldable pub parse_digits : ℕ → Text → Outcome ℕ
parse_digits n [] = ok n
parse_digits n (c ∷ s) =
    let next = parse_digits (n * 10 + (c - b'0')) s in
    if ltb c b'0' || ltb b'9' c
    then err (errorf "invalid syntax")
    else if leb (2 ^ 32) (n * 10 + (c - b'0'))
    then err (errorf "value out of range")
    else next

unfoldable pub parse_uint : Text → Outcome ℕ
parse_uint [] = err (errorf "invalid syntax")
parse_uint (c ∷ s) = parse_digits 0 (c ∷ s)

abbrev pub failed_to : Outcome ℕ → Outcome ℕ
failed_to (err e) = err (wrap "failed to convert string to uint32: %w" e)
failed_to r = r

-- `StrToUint32`
unfoldable pub str_to_uint32 : Text → Outcome ℕ
str_to_uint32 val = failed_to (parse_uint val)

-- `IntToUint32`
unfoldable pub int_to_uint32 : ℤ → Outcome ℕ
int_to_uint32 (negsuc n) = err (errorf "negative value %d cannot be converted to uint32")
int_to_uint32 (pos val) =
    if ltb (2 ^ 32 - 1) val
    then err (errorf "value %d exceeds maximum uint32 value")
    else ok (val % 2 ^ 32)
