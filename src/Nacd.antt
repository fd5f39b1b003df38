-- ===== src/Nacd.antt =====
-- pkg/tools/weightedNACD: the scores of packages. `Float` has the operations of float64 that the code
-- uses, with the laws of IEEE 754 that the theorems use; `sort.Slice` is a parameter, and the callback for the progress is left out.
pub mod Risk
pub mod Ranked
mod Tests
use minefield.Prelude.{
  ℕ, String, Bool, true, false, not, ◌&&◌, Option, none, some, List, [], ◌∷◌, ◌++◌, if◌then◌else◌,
  ◌==◌, string_eq, Map, lookup, insert, length, ◌≡◌, Outcome, ok, err, panic, out_of_fuel, Action,
  ◌>>=◌, ◌>>◌, pure, context,
}
use minefield.Bitmap.{Bitmap}
use minefield.Graph.Node.{Node}
use minefield.Graph.Storage.{Storage}
use minefield.Graph.Query.{query_dependencies}

pub record Float (F : Type 0) : Type 0 where
  pub zero : F
  pub one : F
  pub two : F
  pub e : F
  pub from_length : ℕ → F
  pub add : F → F → F
  pub sub : F → F → F
  pub mul : F → F → F
  pub div : F → F → F
  pub neg : F → F
  pub pow : F → F → F
  pub gt : F → F → Bool
  pub is_nan : F → Bool
  -- 1 / 0 is an infinity, and that times 0 is no number.
  pub inf_times_zero : is_nan (mul (div one zero) zero) ≡ true
  pub is_nan-mul : (x y : F) → is_nan y ≡ true → is_nan (mul x y) ≡ true
  pub is_nan-add : (x y : F) → is_nan y ≡ true → is_nan (add x y) ≡ true

-- `weightsForType`
pub record WeightsForType (F : Type 0) : Type 0 where
  pub weight : F
  pub k : F
  pub l : F

-- `valueAndType`
pub record ValueAndType (F : Type 0) : Type 0 where
  pub type : String
  pub value : F

pub record PkgAndValue (F : Type 0) : Type 0 where
  pub id : ℕ
  pub risk : F
  pub criticality : F
  pub likelihood : F

-- A field that is a pointer is an `Option`.
pub record Weights (F : Type 0) : Type 0 where
  pub dependencies : Option (WeightsForType F)
  pub scorecard : Option (WeightsForType F)
  pub criticality_weight : F
  pub likelihood_weight : F

module _ {F : Type 0} ⦃float : Float F⦄ where
  -- a missing type reads as zeros
  abbrev weights_of : Map String (WeightsForType F) → String → WeightsForType F
  weights_of vals type = elim (lookup type vals) [
    | none ↦ record { weight = float.zero; k = float.zero; l = float.zero }
    | some w ↦ w
  ]

  -- the first loop of `sigmoidBasedAlgo`
  unfoldable pub sum_weights : Map String (WeightsForType F) → F → List (ValueAndType F) → F
  sum_weights vals sum [] = sum
  sum_weights vals sum (value ∷ values) =
      sum_weights vals (float.add sum (weights_of vals value.type).weight) values

  -- the second loop
  unfoldable pub sum_terms : Map String (WeightsForType F) → F → List (ValueAndType F) → F
  sum_terms vals sum [] = sum
  sum_terms vals sum (value ∷ values) =
      let w = weights_of vals value.type in
      let power =
        float.pow float.e
          (float.mul (float.neg w.k) (float.sub value.value (float.div w.l float.two))) in
      sum_terms vals (float.add sum (float.div w.weight (float.add float.one power))) values

  unfoldable pub sigmoid_based_algo : List (ValueAndType F) → Map String (WeightsForType F) → F
  unfolding sum_weights sum_terms
  sigmoid_based_algo values vals =
      float.mul (float.div float.one (sum_weights vals float.zero values))
        (sum_terms vals float.zero values)

  unfoldable pub risk_algo : F → F → F → F → F
  risk_algo weight1 criticality weight2 likelihood =
      float.add (float.mul weight1 criticality) (float.mul weight2 likelihood)

  -- the maps that the weights give
  abbrev with_weights :
      String
      → Option (WeightsForType F)
      → Map String (WeightsForType F)
      → Map String (WeightsForType F)
  with_weights type none vals = vals
  with_weights type (some w) vals = insert type w vals

  abbrev weights_for_each_type : Weights F → Map String (WeightsForType F)
  weights_for_each_type weights =
      with_weights "scorecard" weights.scorecard
        (with_weights "dependencies" weights.dependencies [])

  -- the score of a node with `count` dependencies
  unfoldable pub score : Weights F → ℕ → ℕ → PkgAndValue F
  unfolding sigmoid_based_algo risk_algo
  score weights id count =
      let vals = weights_for_each_type weights in
      let criticality =
        sigmoid_based_algo (record { type = "dependencies"; value = float.from_length count } ∷ [])
          vals in
      let likelihood = sigmoid_based_algo [] vals in
      record {
        id = id;
        risk =
            risk_algo weights.criticality_weight criticality weights.likelihood_weight likelihood;
        criticality = criticality;
        likelihood = likelihood;
      }

  -- the test that `sort.Slice` is given
  abbrev pub ranks_before : PkgAndValue F → PkgAndValue F → Bool
  ranks_before a b =
      if float.is_nan a.risk && not (float.is_nan b.risk)
      then false
      else if not (float.is_nan a.risk) && float.is_nan b.risk
      then true
      else if float.is_nan a.risk && float.is_nan b.risk
      then float.gt a.criticality b.criticality
      else float.gt a.risk b.risk

module _ {F S B M : Type 0} ⦃float : Float F⦄ ⦃bm : Bitmap B⦄ (fuel : ℕ) (storage : Storage S B M)
    (weights : Weights F) where
  -- the loop over the ids
  unfoldable pub score_all : List ℕ → Action S (List (PkgAndValue F))
  unfolding score
  score_all [] = pure []
  score_all (id ∷ ids) = do
    node ← context "error getting node with Id %d: %w" (storage.get_node id)
    scores ←
        (if node.type == "library"
          then (do
            deps ←
                context "error querying dependencies for node with Id %d: %w"
                  (query_dependencies fuel (some node) (some storage))
            pure (score weights id (length (bm.to_array deps)) ∷ []))
          else pure [])
    rest ← score_all ids
    pure (scores ++ rest)

  -- `sort` is `sort.Slice` with the test
  unfoldable pub weighted_nacd :
      ((PkgAndValue F → PkgAndValue F → Bool) → List (PkgAndValue F) → List (PkgAndValue F))
      → Action S (List (PkgAndValue F))
  unfolding score_all
  weighted_nacd sort = do
    ids ← context "error getting all leaderboard: %w" storage.get_all_keys
    scores ← score_all ids
    pure (sort ranks_before scores)
