-- ===== src/Utils/Bounds.antt =====
-- The conversions return numbers of 32 bits.
use minefield.Prelude.{
  ℕ, ◌+◌, ◌-◌, ◌*◌, ◌^◌, ◌<◌, ◌≡◌, ◌↔◌, [], ◌∷◌, Text, ℤ, pos, negsuc, ok, arith,
}
use minefield.Utils.{parse_digits, parse_uint, int_to_uint32}

-- `IntToUint32` returns a number without an error exactly where it is the integer itself and fits
-- in 32 bits.
pub int_to_uint32_iff :
    (val : ℤ) (n : ℕ) → (int_to_uint32 val ≡ ok n) ↔ ((val ≡ pos n) × (n < 2 ^ 32))
unfolding int_to_uint32
int_to_uint32_iff (pos m) n = ground arith
int_to_uint32_iff (negsuc m) n = ground arith

parse_digits-lt : (m n : ℕ) (s : Text) → m < 2 ^ 32 → parse_digits m s ≡ ok n → n < 2 ^ 32
unfolding parse_digits
parse_digits-lt m n [] small h = ground (arith, h, small)
parse_digits-lt m n (c ∷ s) small h = ground (arith, h, parse_digits-lt (m * 10 + (c - b'0')) n s)

-- What `strconv.ParseUint(s, 10, 32)` returns fits in 32 bits.
parse_uint-lt : (n : ℕ) (s : Text) → parse_uint s ≡ ok n → n < 2 ^ 32
unfolding parse_uint
parse_uint-lt n [] h = ground (arith, h)
parse_uint-lt n (c ∷ s) h = parse_digits-lt 0 n (c ∷ s) (omega arith) h
