-- ===== src/Ingest/Scorecard/Kept.antt =====
-- `Scorecards` keeps the invariant and the edges of the graph.
use minefield.Prelude.{
  ℕ, suc, ◌+◌, ◌*◌, ◌^◌, ◌<◌, ◌≤◌, String, ◌≡◌, ap, subst, ◌≢◌, inl, inr, Bool, false, Bool-cases,
  ◌&&◌, ◌==◌, Option-cases, List, [], ◌∷◌, length, All, Outcome-split, Map, lookup, keys, nat_eq,
  string_eq, Outcome, ok, err, panic, out_of_fuel, arith, continue, Action, continue-leads,
}
use Prim.Native.String.append
use minefield.Bitmap.{Bitmap}
use minefield.Graph.Node.{Node}
use minefield.Graph.Storage.{Bytes}
use minefield.Graph.Mock.{mock_storage}
use minefield.Graph.Mock.Quiet.{get_all_keys-quiet}
use minefield.Graph.Mock.Picked.{get_nodes-quiet}
use minefield.Graph.Mock.State.{MockStorage, no_faults}
use minefield.Graph.Build.Invariant.{IsWellFormed, Edge}
use minefield.Ingest.Purl.{PackageUrl, has_prefix, purl_to_package}
use minefield.Ingest.Attached.{Visits, attach}
use minefield.Ingest.Visited.{
  Few, none-Few, insert-Few, or_skip-keeps, Left, behind-Left, fewer-Left, none-Left, Visits-Left,
  fewer-Visits, visit, Reading, next, read_all,
}
use minefield.Ingest.Scorecard.{
  ScorecardResult, get_scorecard_node_name, index_results, add_scorecard, add_if_current,
  add_scorecards, score_node, score_nodes, scorecards,
}

pub scorecard_other : (purl : String) → has_prefix (get_scorecard_node_name purl) "pkg:" ≡ false
unfolding has_prefix
scorecard_other purl = ap (λ name. has_prefix name "pkg:") (append.cons "s" "corecard:" purl)

abbrev pub Any : {M : Type 0} → ScorecardResult M → Type 0
Any r = Unit {0}

pub looser :
    {M : Type 0} (a b : ℕ) (m : Map String (List (ScorecardResult M)))
    → a ≤ b
    → Few Any a m
    → Few Any b m
looser a b m less few name l found =
    let (short, all) = few name l found in (omega (arith, short, less), all)

pub index_results-Few :
    {M : Type 0} (from_string : String → Outcome PackageUrl) (rs : List (ScorecardResult M)) (c : ℕ)
    (m out : Map String (List (ScorecardResult M)))
    → Few Any c m
    → index_results from_string rs m ≡ ok out
    → Few Any (length rs + c) out
unfolding index_results
index_results-Few from_string [] c m out few h =
    let same : m ≡ out = ground (arith, h) in
    subst (Few Any (0 + c)) same (looser c (0 + c) m (omega arith) few)
index_results-Few from_string (r ∷ rs) c m out few h = elim (Bool-cases r.success) [
  | inr failed ↦
      looser (length rs + c) _ out (omega arith)
        (index_results-Few from_string rs c m out few (rw failed at h))
  | inl passed ↦ elim (Outcome-split (from_string r.purl)) [
    | inl (u, read) ↦ elim (Bool-cases (u.name == "")) [
      | inl empty ↦
          looser (length rs + c) _ out (omega arith)
            (index_results-Few from_string rs c m out few (rw (passed, read, empty) at h))
      | inr named ↦ looser (length rs + suc c) _ out (omega arith) (
          index_results-Few from_string rs (suc c) _ out (insert-Few Any r u.name c m tt few)
            (rw (passed, read, named) at h))
    ]
    | inr (inl (e, bad)) ↦
        looser (length rs + c) _ out (omega arith)
          (index_results-Few from_string rs c m out few (rw (passed, bad) at h))
    | inr (inr (inl bad)) ↦ absurd (ground (arith, h, passed, bad))
    | inr (inr (inr bad)) ↦ absurd (ground (arith, h, passed, bad))
  ]
]

module _ {B M : Type 0} ⦃bm : Bitmap B⦄ (matches : String → String → Outcome Bool)
    (from_string : String → Outcome PackageUrl) (before : MockStorage B M) where
  -- The package is still visited, or the loop ends.
  abbrev Passes : ℕ → Map ℕ (Node B M) → Outcome (Node B M) × MockStorage B M → Type 0
  Passes k rest (ok n, s) = Visits matches before k n rest s
  Passes k rest (err e, s) = Left matches before k rest s
  Passes k rest (panic, s) = Left matches before k rest s
  Passes k rest (out_of_fuel, s) = Left matches before k rest s

  add_if_current-Passes :
      (version : String) (r : ScorecardResult M) (k : ℕ) (n : Node B M) (rest : Map ℕ (Node B M))
      (s : MockStorage B M)
      → Visits matches before (suc k) n rest s
      → Passes k rest (add_if_current from_string (mock_storage matches) version n r s)
  unfolding add_if_current add_scorecard
  add_if_current-Passes version r k n rest s v =
      let skip : Visits matches before k n rest s = fewer-Visits matches before s (omega arith) v in
      let left = Visits-Left matches before s skip in
      elim (Bool-cases r.success) [
        | inr failed ↦ rw failed skip
        | inl passed ↦ elim (Outcome-split (purl_to_package from_string r.purl)) [
          | inl (info, read) ↦ elim (Bool-cases (info.version == version)) [
            | inr older ↦ rw (passed, read, older) skip
            | inl current ↦
                let a =
                  attach matches before n rest "scorecard" r.metadata
                    (get_scorecard_node_name r.purl) (scorecard_other r.purl) v in
                rw (passed, read, current, a.adds, a.links) a.visits
          ]
          | inr (inl (e, bad)) ↦ rw (passed, bad) skip
          | inr (inr (inl bad)) ↦ rw (passed, bad) left
          | inr (inr (inr bad)) ↦ rw (passed, bad) left
        ]
      ]

  continue-Passes :
      (j k : ℕ) (rest : Map ℕ (Node B M)) (r : Outcome (Node B M) × MockStorage B M)
      (f : Node B M → Action (MockStorage B M) (Unit {0}))
      → k ≤ j
      → Passes j rest r
      → ((n : Node B M) (s : MockStorage B M)
          → Visits matches before j n rest s
          → Left matches before k rest (f n s).1)
      → Left matches before k rest (continue f r).1
  continue-Passes j k rest (ok n, s) f less p go = go n s p
  continue-Passes j k rest (err e, s) f less p go = fewer-Left matches before s less p
  continue-Passes j k rest (panic, s) f less p go = fewer-Left matches before s less p
  continue-Passes j k rest (out_of_fuel, s) f less p go = fewer-Left matches before s less p

  add_scorecards-Left :
      (version : String) (rs : List (ScorecardResult M)) (k : ℕ) (n : Node B M)
      (rest : Map ℕ (Node B M)) (s : MockStorage B M)
      → Visits matches before (length rs + k) n rest s
      → Left matches before k rest
          (add_scorecards from_string (mock_storage matches) version n rs s).1
  unfolding add_scorecards
  add_scorecards-Left version [] k n rest s v =
      Visits-Left matches before s (fewer-Visits matches before s (omega arith) v)
  add_scorecards-Left version (r ∷ rs) k n rest s v =
      continue-Passes (length rs + k) k rest _ _ (omega arith)
        (add_if_current-Passes version r (length rs + k) n rest s
          (fewer-Visits matches before s (omega arith) v))
        (λ m t v'. add_scorecards-Left version rs k m rest t v')

  score_node-Left :
      (results : Map String (List (ScorecardResult M))) (c k id : ℕ) (n : Node B M)
      (rest : Map ℕ (Node B M)) (s : MockStorage B M)
      → Few Any c results
      → All (λ e. n.id ≢ e.1.id) rest
      → Left matches before (c + k) ((id, n) ∷ rest) s
      → Left matches before k rest (score_node from_string (mock_storage matches) results n s).1
  unfolding score_node
  score_node-Left results c k id n rest s few later l =
      let left : Left matches before k rest s = behind-Left matches before s (omega arith) l in
      elim (Bool-cases (n.type == "library" && has_prefix n.name "pkg:")) [
        | inr passed ↦ rw passed left
        | inl visited ↦ rw visited (
            or_skip-keeps (Left matches before k rest) (purl_to_package from_string n.name) _ s left
              λ info. elim (Option-cases (lookup info.name results)) [
                | inl unlisted ↦ rw unlisted left
                | inr (rs, found) ↦
                    let (less, _) = few info.name rs found in
                    let v = visit matches before s l (ground (arith, visited)) later in
                    rw found (
                      add_scorecards-Left info.version rs k n rest s
                        (fewer-Visits matches before s (omega (arith, less)) v))
              ])
      ]

  score_nodes-Left :
      (results : Map String (List (ScorecardResult M))) (c : ℕ) (nodes : Map ℕ (Node B M))
      (s : MockStorage B M)
      → Few Any c results
      → Reading matches before c nodes s
      → Left matches before 0 [] (score_nodes from_string (mock_storage matches) results nodes s).1
  unfolding score_nodes
  score_nodes-Left results c [] s few r = none-Left matches before s r.left
  score_nodes-Left results c ((id, n) ∷ nodes) s few r =
      let m = next matches before s r in
      continue-leads (Left matches before (length nodes * c) nodes) (Left matches before 0 []) _ _
        (score_node-Left results c (length nodes * c) id n nodes s few m.later m.left)
        (λ t p. none-Left matches before t p)
        (λ _ t p. score_nodes-Left results c nodes t few (m.reading t p))

-- Where what is read is a list of results, and an id is left for each of them at each node, a
-- well-formed storage in memory that injects no error stays well-formed and keeps all of its edges,
-- whichever packages have results.
pub scorecards_lem :
    {B M : Type 0} ⦃bm : Bitmap B⦄ (matches : String → String → Outcome Bool)
    (from_string : String → Outcome PackageUrl)
    (unmarshal : Bytes → Outcome (List (ScorecardResult M))) (bytes : Bytes)
    (rs : List (ScorecardResult M)) (s : MockStorage B M)
    → unmarshal bytes ≡ ok rs
    → IsWellFormed s
    → s.faults ≡ no_faults
    → s.id_counter + length s.nodes * length rs < 2 ^ 32
    → let after = (scorecards from_string (mock_storage matches) unmarshal bytes s).1 in
      IsWellFormed after × ((a b : ℕ) → Edge s a b → Edge after a b)
unfolding scorecards
scorecards_lem matches from_string unmarshal [] rs s h w quiet room = (w, λ a b e. e)
scorecards_lem matches from_string unmarshal (b ∷ bytes) rs s h w quiet room =
    elim (Outcome-split (index_results from_string rs [])) [
      | inl (results, indexed) ↦
          let few = index_results-Few from_string rs 0 [] results (none-Few Any) indexed in
          let few' = looser (length rs + 0) (length rs) results (omega arith) few in
          let end =
            score_nodes-Left matches from_string s results (length rs) _ s few'
              (read_all matches (length rs) s w quiet room) in
          rw (h, indexed, get_all_keys-quiet s quiet, get_nodes-quiet s quiet (keys s.nodes))
            (end.ready.well_formed, end.ready.kept)
      | inr (inl (e, bad)) ↦ rw (h, bad) (w, λ a b e. e)
      | inr (inr (inl bad)) ↦ rw (h, bad) (w, λ a b e. e)
      | inr (inr (inr bad)) ↦ rw (h, bad) (w, λ a b e. e)
    ]
