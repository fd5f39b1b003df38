-- ===== src/Utils/Decimal.antt =====
-- A number printed in decimal is read back.
use minefield.Prelude.{
  ℕ, zero, suc, ◌+◌, ◌-◌, ◌*◌, ◌/◌, ◌%◌, ◌^◌, ◌<◌, ◌≡◌, refl, sym, ap, ◌∙◌, inl, inr, [], ◌∷◌, ◌++◌,
  ltb, ltb_iff, Bool-cases, true, false, Text, ok, arith,
}
use native.Mathlib.Nat.{pow-suc}
use mathlib.Core.List.{append_assoc, append-nil}
use minefield.Utils.{format_uint, uint32_to_str, parse_digits, parse_uint, failed_to, str_to_uint32}

parse_digits-cons :
    (m d : ℕ) (rest : Text)
    → d < 10
    → m * 10 + d < 2 ^ 32
    → parse_digits m ((b'0' + d) ∷ rest) ≡ parse_digits (m * 10 + d) rest
unfolding parse_digits
parse_digits-cons m d rest small big =
    let e : m * 10 + (b'0' + d - b'0') ≡ m * 10 + d = omega arith in ground (arith, e)

format_uint-digit : (fuel n : ℕ) → ltb n 10 ≡ true → format_uint (suc fuel) n ≡ (b'0' + n) ∷ []
unfolding format_uint
format_uint-digit fuel n h = ground (arith, h)

format_uint-more :
    (fuel n : ℕ)
    → ltb n 10 ≡ false
    → format_uint (suc fuel) n ≡ format_uint fuel (n / 10) ++ (b'0' + n % 10) ∷ []
unfolding format_uint
format_uint-more fuel n h = ground (arith, h)

-- Reading goes on behind the printed digits, with their value.
parse_digits-format :
    (fuel n : ℕ) (rest : Text)
    → n < 10 ^ fuel
    → n < 2 ^ 32
    → parse_digits 0 (format_uint fuel n ++ rest) ≡ parse_digits n rest
unfolding format_uint
parse_digits-format zero n rest h big = let e : n ≡ 0 = omega arith in rw e
parse_digits-format (suc fuel) n rest h big = elim (Bool-cases (ltb n 10)) [
  | inl small ↦ rw (format_uint-digit fuel n small) (
      parse_digits-cons 0 n rest ((ltb_iff n 10).0 small) (omega arith)
      ∙ ap (λ k. parse_digits k rest) (omega arith))
  | inr large ↦
      rw (format_uint-more fuel n large, append_assoc)
        (parse_digits-format fuel (n / 10) ((b'0' + n % 10) ∷ rest) (omega (arith, pow-suc 10 fuel))
            (omega arith)
          ∙ parse_digits-cons (n / 10) (n % 10) rest (omega arith) (omega arith)
          ∙ ap (λ k. parse_digits k rest) (omega arith))
]

parse_uint-concat : (s : Text) (c : ℕ) → parse_uint (s ++ c ∷ []) ≡ parse_digits 0 (s ++ c ∷ [])
unfolding parse_uint
parse_uint-concat [] c = refl
parse_uint-concat (a ∷ s) c = refl

-- A printed number is not empty.
parse_uint-format :
    (fuel n : ℕ) → parse_uint (format_uint (suc fuel) n) ≡ parse_digits 0 (format_uint (suc fuel) n)
parse_uint-format fuel n = elim (Bool-cases (ltb n 10)) [
  | inl small ↦ rw (format_uint-digit fuel n small) (parse_uint-concat [] (b'0' + n))
  | inr large ↦
      rw (format_uint-more fuel n large)
        (parse_uint-concat (format_uint fuel (n / 10)) (b'0' + n % 10))
]

parse_digits-nil : (n : ℕ) → parse_digits n [] ≡ ok n
unfolding parse_digits
parse_digits-nil n = refl

lt-pow : (n : ℕ) → n < 10 ^ suc n
lt-pow zero = omega (arith, pow-suc 10 0)
lt-pow (suc n) = omega (arith, pow-suc 10 (suc n), lt-pow n)

pub parse_uint-uint32_to_str : (val : ℕ) → val < 2 ^ 32 → parse_uint (uint32_to_str val) ≡ ok val
unfolding uint32_to_str
parse_uint-uint32_to_str val h =
    parse_uint-format val val
    ∙ ap (parse_digits 0) (sym (append-nil (format_uint (suc val) val)))
    ∙ parse_digits-format (suc val) val [] (lt-pow val) h
    ∙ parse_digits-nil val

-- Every uint32 that `Uint32ToStr` prints is read back by `StrToUint32`.
pub str_to_uint32-uint32_to_str :
    (val : ℕ) → val < 2 ^ 32 → str_to_uint32 (uint32_to_str val) ≡ ok val
unfolding str_to_uint32 uint32_to_str
str_to_uint32-uint32_to_str val h = ap failed_to (parse_uint-uint32_to_str val h)

-- the number that digits of any length write
unfoldable pub number : ℕ → Text → ℕ
number n [] = n
number n (c ∷ s) = number (n * 10 + (c - b'0')) s

number-format :
    (fuel n : ℕ) (rest : Text)
    → n < 10 ^ fuel
    → number 0 (format_uint fuel n ++ rest) ≡ number n rest
unfolding format_uint number
number-format zero n rest h = let e : n ≡ 0 = omega arith in rw e
number-format (suc fuel) n rest h = elim (Bool-cases (ltb n 10)) [
  | inl small ↦ rw (format_uint-digit fuel n small) (ap (λ k. number k rest) (omega arith))
  | inr large ↦
      rw (format_uint-more fuel n large, append_assoc)
        (number-format fuel (n / 10) ((b'0' + n % 10) ∷ rest) (omega (arith, pow-suc 10 fuel))
          ∙ ap (λ k. number k rest) (omega arith))
]

pub number-uint32_to_str : (n : ℕ) → number 0 (uint32_to_str n) ≡ n
unfolding uint32_to_str number
number-uint32_to_str n =
    ap (number 0) (sym (append-nil (uint32_to_str n))) ∙ number-format (suc n) n [] (lt-pow n)

-- Different numbers are printed differently.
pub uint32_to_str_injective : (m n : ℕ) → uint32_to_str m ≡ uint32_to_str n → m ≡ n
uint32_to_str_injective m n h =
    sym (number-uint32_to_str m) ∙ ap (number 0) h ∙ number-uint32_to_str n
