-- ===== src/Prelude/Texts.antt =====
-- The bytes of a string, as the codes of its characters.
use Prim.Native.Char.{code}
use Prim.Native.String.{String}
use mathlib.Core.Path.{◌≡◌, refl}
use mathlib.Core.Option.{Option, none, some}
use mathlib.Core.List.{[], ◌∷◌}
use native.Mathlib.Omega.{arith}
use text.Mathlib.TextEquality.{Char-path}
use minefield.Prelude.Tests.{if◌then◌else◌, nat_beq}
use minefield.Prelude.Eqs.{Text}

unfoldable pub text_of : String → Text
text_of String.[] = []
text_of (String.◌∷◌ c s) = code c ∷ text_of s

pub text_of_injective : (s t : String) → text_of s ≡ text_of t → s ≡ t
unfolding text_of
text_of_injective String.[] String.[] h = refl
text_of_injective String.[] (String.◌∷◌ d t) h = ground (arith, h)
text_of_injective (String.◌∷◌ c s) String.[] h = ground (arith, h)
text_of_injective (String.◌∷◌ c s) (String.◌∷◌ d t) h =
    cc (Char-path c d (ground (arith, h)), text_of_injective s t (ground (arith, h)))

-- `strings.TrimPrefix`
unfoldable pub trim_prefix : Text → Text → Text
trim_prefix s p = elim (strip s p) [ none ↦ s | some rest ↦ rest ]
  where
    strip : Text → Text → Option Text
    strip s [] = some s
    strip [] (d ∷ p) = none
    strip (c ∷ s) (d ∷ p) = if nat_beq c d then strip s p else none
