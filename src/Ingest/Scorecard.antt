-- ===== src/Ingest/Scorecard.antt =====
-- pkg/tools/ingest/scorecard.go: `Scorecards`. `metadata` is the whole result, which is stored.
pub mod Kept
pub mod Listed
pub mod Exact
pub mod Grown
pub mod Scored
use minefield.Prelude.{
  ℕ, String, ◌+++◌, Bool, ◌&&◌, none, some, List, [], ◌∷◌, ◌++◌, ◌==◌, string_eq, if◌then◌else◌,
  Map, lookup, insert, errorf, Outcome, ok, err, panic, out_of_fuel, Action, ◌>>=◌, ◌>>◌, pure,
  throw, lift, context,
}
use minefield.Bitmap.{Bitmap}
use minefield.Graph.Node.{Node}
use minefield.Graph.Storage.{Storage, Bytes}
use minefield.Graph.Build.{add_node, set_dependency}
use minefield.Ingest.Purl.{PackageUrl, has_prefix, purl_to_package}
use minefield.Ingest.Vuln.Add.{or_skip}

pub record ScorecardResult (M : Type 0) : Type 0 where
  pub metadata : M
  pub purl : String
  pub success : Bool

abbrev pub get_scorecard_node_name : String → String
get_scorecard_node_name name = "scorecard:" +++ name

module _ {M : Type 0} (from_string : String → Outcome PackageUrl) where
  -- The loop that fills `scorecardResults`; a result with no valid name is logged and skipped.
  unfoldable pub index_results :
      List (ScorecardResult M)
      → Map String (List (ScorecardResult M))
      → Outcome (Map String (List (ScorecardResult M)))
  index_results [] m = ok m
  index_results (r ∷ rs) m =
      let skip = index_results rs m in
      let keep = λ (name : String).
        let old : List (ScorecardResult M) = elim (lookup name m) [ none ↦ [] | some l ↦ l ] in
        index_results rs (insert name (old ++ r ∷ []) m) in
      if r.success
      then elim (from_string r.purl) [
        | ok u ↦ if u.name == "" then skip else keep u.name
        | err _ ↦ skip
        | panic ↦ panic
        | out_of_fuel ↦ out_of_fuel
      ]
      else skip

module _ {S B M : Type 0} ⦃bm : Bitmap B⦄ (from_string : String → Outcome PackageUrl)
    (storage : Storage S B M) where
  -- the part of the loop body behind the test of the versions
  unfoldable pub add_scorecard : Node B M → ScorecardResult M → Action S (Node B M)
  add_scorecard node r = do
    scorecard_node ←
        context "failed to add Scorecard node to storage: %w"
          (add_node storage "scorecard" r.metadata (get_scorecard_node_name r.purl))
    (n, _) ←
        context "failed to add dependency edge to Scorecard node: %w"
          (set_dependency (some node) (some storage) (some scorecard_node))
    pure n

  -- The body of the loop over the results of one node, which is returned as it is left.
  unfoldable pub add_if_current : String → Node B M → ScorecardResult M → Action S (Node B M)
  unfolding add_scorecard
  add_if_current version node r =
      if r.success
      then elim (purl_to_package from_string r.purl) [
        | ok info ↦ if info.version == version then add_scorecard node r else pure node
        | err _ ↦ pure node
        | panic ↦ lift panic
        | out_of_fuel ↦ lift out_of_fuel
      ]
      else pure node

  unfoldable pub add_scorecards : String → Node B M → List (ScorecardResult M) → Action S (Unit {0})
  unfolding add_if_current
  add_scorecards version node [] = pure tt
  add_scorecards version node (r ∷ rs) = do
    n ← add_if_current version node r
    add_scorecards version n rs

  -- the body of the loop over the nodes
  unfoldable pub score_node : Map String (List (ScorecardResult M)) → Node B M → Action S (Unit {0})
  unfolding add_scorecards
  score_node results node =
      if node.type == "library" && has_prefix node.name "pkg:"
      then or_skip (purl_to_package from_string node.name) (λ info.
        elim (lookup info.name results) [
          | none ↦ pure tt
          | some rs ↦ add_scorecards info.version node rs
        ])
      else pure tt

  unfoldable pub score_nodes :
      Map String (List (ScorecardResult M)) → Map ℕ (Node B M) → Action S (Unit {0})
  unfolding score_node
  score_nodes results [] = pure tt
  score_nodes results ((_, node) ∷ nodes) = do score_node results node; score_nodes results nodes

  unfoldable pub scorecards :
      (Bytes → Outcome (List (ScorecardResult M))) → Bytes → Action S (Unit {0})
  unfolding score_nodes index_results
  scorecards unmarshal [] = throw (errorf "data is empty")
  scorecards unmarshal (b ∷ bytes) = do
    results ← context "failed to decode Scorecard data: %w" (lift (unmarshal (b ∷ bytes)))
    by_name ← lift (index_results from_string results [])
    keys ← storage.get_all_keys
    nodes ← context "failed to get nodes from storage: %w" (storage.get_nodes keys)
    score_nodes by_name nodes
