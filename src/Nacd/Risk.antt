-- ===== src/Nacd/Risk.antt =====
-- The risk of a package.
use minefield.Prelude.{ℕ, ◌≡◌, refl, true}
use minefield.Nacd.{
  Float, Weights, score, sigmoid_based_algo, risk_algo, sum_weights, sum_terms, ranks_before,
}

module _ {F : Type 0} ⦃float : Float F⦄ where
  likelihood_is_nan :
      (weights : Weights F) (id count : ℕ) → float.is_nan (score weights id count).likelihood ≡ true
  unfolding score sigmoid_based_algo sum_weights sum_terms
  likelihood_is_nan weights id count = float.inf_times_zero

  risk_is_nan :
      (weights : Weights F) (id count : ℕ) → float.is_nan (score weights id count).risk ≡ true
  unfolding score risk_algo
  risk_is_nan weights id count =
      float.is_nan-add _ _ (float.is_nan-mul _ _ (likelihood_is_nan weights id count))

  -- Whatever the weights and the numbers of dependencies, the likelihood and the risk of a package
  -- are no numbers, and packages are ranked by their criticality alone.
  pub score_lem :
      (weights : Weights F) (i j m n : ℕ)
      → (float.is_nan (score weights i m).likelihood ≡ true)
        × (float.is_nan (score weights i m).risk ≡ true)
        × (ranks_before (score weights i m) (score weights j n)
            ≡ float.gt (score weights i m).criticality (score weights j n).criticality)
  score_lem weights i j m n = (
    likelihood_is_nan weights i m,
    risk_is_nan weights i m,
    rw (risk_is_nan weights i m, risk_is_nan weights j n) refl,
  )
