-- ===== src/Ingest/Scorecard/Exact.antt =====
-- Which dependencies `Scorecards` adds to the graph.
use minefield.Prelude.{
  ℕ, ◌+◌, ◌*◌, ◌^◌, ◌<◌, String, ◌≡◌, refl, sym, ap, ◌∙◌, subst, ◌↔◌, ◌⊎◌, inl, inr, Bool, true,
  false, ◌&&◌, ◌==◌, some, List, [], ◌∷◌, ◌∈◌, length, Map, lookup, keys, nat_eq, string_eq,
  Outcome, ok, arith,
}
use minefield.Bitmap.{Bitmap}
use minefield.Graph.Node.{Node}
use minefield.Graph.Storage.{Bytes}
use minefield.Graph.Mock.{mock_storage, pick}
use minefield.Graph.Mock.Quiet.{get_all_keys-quiet}
use minefield.Graph.Mock.Picked.{get_nodes-quiet}
use minefield.Graph.Mock.State.{MockStorage, no_faults}
use minefield.Graph.Build.Invariant.{IsWellFormed}
use minefield.Graph.Build.Drawn.{DependsOn, Draws-iff}
use minefield.Ingest.Purl.{PackageUrl, PackageInfo, has_prefix, purl_to_package}
use minefield.Ingest.Visited.{Few, none-Few, none-Left, Reading, next, read_all}
use minefield.Ingest.Drawn.{Settles, Drawn, idle-Drawn, Among, Draws-first, Among-all}
use minefield.Ingest.Scorecard.{ScorecardResult, get_scorecard_node_name, score_nodes, scorecards}
use minefield.Ingest.Scorecard.Kept.{Any, looser, index_results-Few}
use minefield.Ingest.Scorecard.Listed.{Lists, index_results-Lists, index_results_returns}
use minefield.Ingest.Scorecard.Scored.{Scored, score_node-Drawn}

-- The node is visited, and the result is a success whose package URL has the name, which is not empty,
-- and the version of the package of the node.
abbrev pub IsScoredBy :
    {B M : Type 0} → (String → Outcome PackageUrl) → Node B M → ScorecardResult M → Type 0
IsScoredBy from_string n r =
    ((n.type == "library" && has_prefix n.name "pkg:") ≡ true)
    × ((info : PackageInfo) × (purl_to_package from_string n.name ≡ ok info)
        × (u : PackageUrl) × (from_string r.purl ≡ ok u)
        × (u.name ≡ info.name)
        × (u.version ≡ info.version)
        × ((u.name == "") ≡ false))
    × (r.success ≡ true)

module _ {B M : Type 0} ⦃bm : Bitmap B⦄ (matches : String → String → Outcome Bool)
    (from_string : String → Outcome PackageUrl) (before : MockStorage B M)
    (settles : (name : String) → Settles (from_string name))
    (results : Map String (List (ScorecardResult M))) (c : ℕ) (few : Few Any c results) where
  abbrev Given : Node B M → String → Type 0
  Given n x = Scored matches from_string before results n x

  score_nodes-Drawn :
      (nodes : Map ℕ (Node B M)) (s : MockStorage B M)
      → Reading matches before c nodes s
      → Drawn matches before 0 []
          (Among Given nodes)
          s
          (score_nodes from_string (mock_storage matches) results nodes s)
  unfolding score_nodes
  score_nodes-Drawn [] s r =
      idle-Drawn matches before s (ok tt, s) refl (λ a x (_, there, _, _). absurd there)
        (none-Left matches before s r.left)
  score_nodes-Drawn ((id, n) ∷ nodes) s r =
      let m = next matches before s r in
      let d =
        score_node-Drawn matches from_string before settles results c (length nodes * c) id n nodes
          s few m.later m.left in
      let e = score_nodes-Drawn nodes d.state (m.reading d.state d.left) in
      record {
        value = tt;
        state = e.state;
        returns = rw d.returns e.returns;
        left = e.left;
        draws = Draws-first Given id n nodes d.draws e.draws;
      }

  Scored-IsScoredBy :
      (rs : List (ScorecardResult M)) (n : Node B M) (x : String)
      → Lists from_string rs [] results
      → Scored matches from_string before results n x ↔ (
          (r : ScorecardResult M) × (r ∈ rs)
          × (IsScoredBy from_string n r × (get_scorecard_node_name r.purl ≡ x)))
  unfolding lookup
  Scored-IsScoredBy rs n x lists = (
    λ (visited, (info, read, (r, there, ((passed, (u, parsed, current)), name)))).
        elim ((lists info.name r).0 there) [
          | inl none_new ↦ absurd none_new
          | inr (new, (_, (u', parsed', named, full))) ↦
              let same : u' ≡ u = ground (arith, parsed, parsed') in
              let named' : u.name ≡ info.name =
                ap (λ (w : PackageUrl). w.name) (sym same) ∙ named in
              let full' : (u.name == "") ≡ false =
                subst (λ (w : PackageUrl). (w.name == "") ≡ false) same full in
              (r, new, ((visited, (info, read, u, parsed, named', current, full'), passed), name))
        ],
    λ (r, new, ((visited, (info, read, u, parsed, named, current, full), passed), name)).
        let there = (lists info.name r).1 (inr (new, (passed, (u, parsed, named, full)))) in
        (visited, (info, read, (r, there, ((passed, (u, parsed, current)), name)))),
  )

-- Where what is read is a list of results, the package URLs parse or fail without a panic, and an id
-- is left for each result at each node, `Scorecards` on a well-formed storage in memory that injects
-- no error succeeds. Afterwards a node depends on a name exactly where it did before, or where it is a
-- library, named by a package URL that parses, and the name is that of the scorecard of a successful
-- result, whose package URL has the name and the version that `PURLToPackage` gives the library.
pub scorecards-DependsOn :
    {B M : Type 0} ⦃bm : Bitmap B⦄ (matches : String → String → Outcome Bool)
    (from_string : String → Outcome PackageUrl)
    (unmarshal : Bytes → Outcome (List (ScorecardResult M))) (b : ℕ) (bytes : Bytes)
    (rs : List (ScorecardResult M)) (s : MockStorage B M)
    → unmarshal (b ∷ bytes) ≡ ok rs
    → ((name : String) → Settles (from_string name))
    → IsWellFormed s
    → s.faults ≡ no_faults
    → s.id_counter + length s.nodes * length rs < 2 ^ 32
    → let after = scorecards from_string (mock_storage matches) unmarshal (b ∷ bytes) s in
      (after.0 ≡ ok tt)
      × ((a : ℕ) (x : String)
          → DependsOn after.1 a x ↔ (
              DependsOn s a x
              ⊎ ((n : Node B M) × (lookup a s.nodes ≡ some n)
                  × ((r : ScorecardResult M) × (r ∈ rs)
                      × (IsScoredBy from_string n r × (get_scorecard_node_name r.purl ≡ x))))))
unfolding scorecards
scorecards-DependsOn matches from_string unmarshal b bytes rs s h settles w quiet room =
    let (results, indexed) = index_results_returns from_string settles rs [] in
    let few =
      looser (length rs + 0) (length rs) results (omega arith)
        (index_results-Few from_string rs 0 [] results (none-Few Any) indexed) in
    let d =
      score_nodes-Drawn matches from_string s settles results (length rs) few
        (pick s.nodes (keys s.nodes) []) s (read_all matches (length rs) s w quiet room) in
    let lists = index_results-Lists from_string rs [] results indexed in
    let named = Scored-IsScoredBy matches from_string s settles results (length rs) few rs in
    rw (h, indexed, get_all_keys-quiet s quiet, get_nodes-quiet s quiet (keys s.nodes), d.returns)
      (
        refl,
        (Draws-iff d.draws (λ a x.
            let all = Among-all (Scored matches from_string s results) s w a x in
            (
              λ there. let (n, found, q) = all.0 there in (n, found, (named n x lists).0 q),
              λ (n, found, q). all.1 (n, found, (named n x lists).1 q),
            ))).exactly,
      )
