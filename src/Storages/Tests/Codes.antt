-- ===== src/Storages/Tests/Codes.antt =====
-- Strings are read back from the codes of their characters.
use Prim.Native.Char.{Char, char, code, nul, IsScalar, IsLt}
use Prim.Native.Nat.{compare, Ordering}
use Prim.Native.String.{String}
use text.Mathlib.TextEquality.{Char-path}
use minefield.Prelude.{ℕ, ◌≡◌, refl, [], ◌∷◌, Text, text_of}

abbrev IsBoth : Ordering → Ordering → Type 0
IsBoth Ordering.lt o = IsLt o
IsBoth Ordering.eq _ = ⊥
IsBoth Ordering.gt _ = ⊥

abbrev IsCode : Ordering → Ordering → Ordering → Type 0
IsCode Ordering.lt _ _ = Unit
IsCode Ordering.eq o p = IsBoth o p
IsCode Ordering.gt o p = IsBoth o p

abbrev char_of : (n : ℕ) (a b c : Ordering) → (IsCode a b c → IsScalar n) → Char
char_of n Ordering.lt b c f = char n (f tt)
char_of n Ordering.eq Ordering.lt Ordering.lt f = char n (f tt)
char_of n Ordering.gt Ordering.lt Ordering.lt f = char n (f tt)
char_of n _ _ _ f = nul

abbrev to_char : ℕ → Char
to_char n = char_of n (compare n 55296) (compare 57343 n) (compare n 1114112) (λ h. h)

abbrev pub string_of : Text → String
string_of [] = String.[]
string_of (c ∷ s) = String.◌∷◌ (to_char c) (string_of s)

code-char_of :
    (n : ℕ) (a b c : Ordering) (f : IsCode a b c → IsScalar n)
    → IsCode a b c
    → code (char_of n a b c f) ≡ n
code-char_of n Ordering.lt b c f h = refl
code-char_of n Ordering.eq Ordering.lt Ordering.lt f h = refl
code-char_of n Ordering.gt Ordering.lt Ordering.lt f h = refl
code-char_of n Ordering.eq Ordering.lt Ordering.eq f h = elim h [ ]
code-char_of n Ordering.eq Ordering.lt Ordering.gt f h = elim h [ ]
code-char_of n Ordering.eq Ordering.eq c f h = elim h [ ]
code-char_of n Ordering.eq Ordering.gt c f h = elim h [ ]
code-char_of n Ordering.gt Ordering.lt Ordering.eq f h = elim h [ ]
code-char_of n Ordering.gt Ordering.lt Ordering.gt f h = elim h [ ]
code-char_of n Ordering.gt Ordering.eq c f h = elim h [ ]
code-char_of n Ordering.gt Ordering.gt c f h = elim h [ ]

pub string_of-text_of : (s : String) → string_of (text_of s) ≡ s
unfolding text_of
string_of-text_of String.[] = refl
string_of-text_of (String.◌∷◌ (char n h) s) =
    cc (Char-path (to_char n) (char n h) (code-char_of n _ _ _ (λ h. h) h), string_of-text_of s)
