-- ===== src/Storages/Keys.antt =====
-- The keys of different things are different.
use minefield.Prelude.{
  ℕ, String, ◌≡◌, ◌∙◌, sym, refl, ap, [], ◌∷◌, ◌++◌, ◌==◌, Eq, Bool-cases, inl, inr, nat_eq,
  string_eq, text_eq, text_beq, text_beq_iff, Text, text_of, text_of_injective, arith,
}
use minefield.Utils.{uint32_to_str}
use minefield.Utils.Decimal.{uint32_to_str_injective}
use minefield.Storages.{node_key, name_key, cache_key}

text_beq-append : (p s t : Text) → text_beq (p ++ s) (p ++ t) ≡ text_beq s t
text_beq-append [] s t = refl
text_beq-append (c ∷ p) s t = ground (arith, text_beq-append p s t)

-- An injection keeps the equality tests.
beq-injection :
    {A : Type 0} ⦃e : Eq A⦄ (f : A → Text)
    → ((x y : A) → f x ≡ f y → x ≡ y)
    → (x y : A) → text_beq (f x) (f y) ≡ (x == y)
beq-injection ⦃e⦄ f injective x y = elim (Bool-cases (x == y)) [
  | inl same ↦
      let p : x ≡ y = (e.beq_iff x y).0 same in (text_beq_iff (f x) (f y)).1 (ap f p) ∙ sym same
  | inr differ ↦ elim (Bool-cases (text_beq (f x) (f y))) [
    | inl t ↦ cc ((e.beq_iff x y).1 (injective x y ((text_beq_iff (f x) (f y)).0 t)))
    | inr t ↦ t ∙ sym differ
  ]
]

pub node_key-beq : (i j : ℕ) → (node_key i == node_key j) ≡ (i == j)
unfolding node_key
node_key-beq i j =
    text_beq-append (text_of "node:") _ _ ∙ beq-injection uint32_to_str uint32_to_str_injective i j

pub cache_key-beq : (i j : ℕ) → (cache_key i == cache_key j) ≡ (i == j)
unfolding cache_key
cache_key-beq i j =
    text_beq-append (text_of "cache:") _ _ ∙ beq-injection uint32_to_str uint32_to_str_injective i j

pub name_key-beq : (s t : String) → (name_key (text_of s) == name_key (text_of t)) ≡ (s == t)
unfolding name_key
name_key-beq s t =
    text_beq-append (text_of "name_to_id:") _ _ ∙ beq-injection text_of text_of_injective s t
