-- ===== src/Nacd/Tests.antt =====
-- Numbers that satisfy the laws, with `none` for no number, a sort, and witnesses.
use minefield.Prelude.{
  ℕ, zero, suc, ◌+◌, ◌-◌, ◌*◌, ◌/◌, ◌^◌, ◌≡◌, refl, Bool, true, false, Option, none, some, List, [],
  ◌∷◌, if◌then◌else◌, keys, lookup, nat_eq, ok, ltb, arith,
}
use minefield.Bitmap.Listed.{listed}
use minefield.Graph.Mock.{mock_storage}
use minefield.Graph.Query.Reach.{degree_sum}
use minefield.Graph.Tests.Data.{all_match, chain}
use minefield.Graph.Tests.Build.{chain-IsWellFormed}
use minefield.Nacd.{Float, Weights, PkgAndValue, score, ranks_before, weighted_nacd}
use minefield.Nacd.Ranked.{Scored, weighted_nacd-Scored}
use minefield.Nacd.Risk.{score_lem}

abbrev Number : Type 0
Number = Option ℕ

abbrev both : (ℕ → ℕ → ℕ) → Number → Number → Number
both f (some a) (some b) = some (f a b)
both f (some a) none = none
both f none b = none

abbrev divide : Number → Number → Number
divide (some a) (some zero) = none
divide (some a) (some (suc b)) = some (a / suc b)
divide (some a) none = none
divide none b = none

abbrev is_none : Number → Bool
is_none none = true
is_none (some a) = false

abbrev exceeds : Number → Number → Bool
exceeds (some a) (some b) = ltb b a
exceeds (some a) none = false
exceeds none b = false

none-both : (f : ℕ → ℕ → ℕ) (x y : Number) → is_none y ≡ true → is_none (both f x y) ≡ true
none-both f none y h = refl
none-both f (some a) none h = refl
none-both f (some a) (some b) h = ground (arith, h)

number_float : Float Number
number_float = record {
  zero = some 0;
  one = some 1;
  two = some 2;
  e = some 3;
  from_length = λ n. some n;
  add = both (λ a b. a + b);
  sub = both (λ a b. a - b);
  mul = both (λ a b. a * b);
  div = divide;
  neg = λ a. a;
  pow = both (λ a b. a ^ b);
  gt = exceeds;
  is_nan = is_none;
  inf_times_zero = refl;
  is_nan-mul = none-both (λ a b. a * b);
  is_nan-add = none-both (λ a b. a + b);
}

abbrev weights : Weights Number
weights = record {
  dependencies = some (record { weight = some 1; k = some 1; l = some 2 });
  scorecard = none;
  criticality_weight = some 1;
  likelihood_weight = some 1;
}

score_lem_example :
    (number_float.is_nan (score ⦃float = number_float⦄ weights 1 3).likelihood ≡ true)
    × (number_float.is_nan (score ⦃float = number_float⦄ weights 1 3).risk ≡ true)
    × (ranks_before ⦃float = number_float⦄
          (score ⦃float = number_float⦄ weights 1 3)
          (score ⦃float = number_float⦄ weights 2 5)
        ≡ number_float.gt
            (score ⦃float = number_float⦄ weights 1 3).criticality
            (score ⦃float = number_float⦄ weights 2 5).criticality)
score_lem_example = score_lem ⦃float = number_float⦄ weights 1 2 3 5

abbrev put :
    (PkgAndValue Number → PkgAndValue Number → Bool)
    → PkgAndValue Number
    → List (PkgAndValue Number)
    → List (PkgAndValue Number)
put less p [] = p ∷ []
put less p (q ∷ l) = let rest = put less p l in if less q p then q ∷ rest else p ∷ q ∷ l

abbrev insertion_sort :
    (PkgAndValue Number → PkgAndValue Number → Bool)
    → List (PkgAndValue Number)
    → List (PkgAndValue Number)
insertion_sort less [] = []
insertion_sort less (p ∷ l) = put less p (insertion_sort less l)

weighted_nacd-Scored_example :
    (scores : List (PkgAndValue Number)) × (weighted_nacd ⦃float = number_float⦄ 9
        (mock_storage all_match)
        weights
        insertion_sort
        chain
      ≡ (ok (insertion_sort (ranks_before ⦃float = number_float⦄) scores), chain))
    × Scored ⦃float = number_float⦄ chain.nodes weights (keys chain.nodes) scores
unfolding lookup degree_sum
weighted_nacd-Scored_example =
    weighted_nacd-Scored ⦃float = number_float⦄ all_match weights chain 9 chain-IsWellFormed refl 1
      (2 ∷ 1 ∷ 2 ∷ []) refl (omega arith) insertion_sort
