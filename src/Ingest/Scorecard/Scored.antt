-- ===== src/Ingest/Scorecard/Scored.antt =====
-- Which dependencies the visit of one node by `Scorecards` adds to the graph.
use minefield.Prelude.{
  ℕ, ◌+◌, String, ◌≡◌, refl, sym, ap, ◌∙◌, subst, ◌≢◌, inl, inr, ◌↔◌, Bool, true, Bool-cases, ◌&&◌,
  ◌==◌, Option-cases, List, [], ◌∷◌, ◌∈◌, length, All, Map, lookup, nat_eq, string_eq, Outcome,
  Outcome-split, ok, arith,
}
use minefield.Bitmap.{Bitmap}
use minefield.Graph.Node.{Node}
use minefield.Graph.Mock.{mock_storage}
use minefield.Graph.Mock.State.{MockStorage}
use minefield.Graph.Build.Drawn.{Draws-both, Draws-iff}
use minefield.Ingest.Purl.{PackageUrl, PackageInfo, has_prefix, purl_to_package}
use minefield.Ingest.Attached.{Visits}
use minefield.Ingest.Visited.{Left, Visits-Left, fewer-Visits, behind-Left, visit, Few, listed}
use minefield.Ingest.Drawn.{Settles, Drawn, idle-Drawn, purl_to_package-Settles}
use minefield.Ingest.Vuln.Add.{or_skip}
use minefield.Ingest.Scorecard.{
  ScorecardResult, get_scorecard_node_name, add_scorecards, score_node,
}
use minefield.Ingest.Scorecard.Listed.{under}
use minefield.Ingest.Scorecard.Kept.{Any}
use minefield.Ingest.Scorecard.Grown.{IsCurrent, add_if_current-Grown}

module _ {B M : Type 0} ⦃bm : Bitmap B⦄ (matches : String → String → Outcome Bool)
    (from_string : String → Outcome PackageUrl) (before : MockStorage B M) where
  -- The names of the results that are for the version.
  abbrev IsScore : String → List (ScorecardResult M) → String → Type 0
  IsScore version rs x =
      (r : ScorecardResult M) × (r ∈ rs)
      × (IsCurrent from_string version r × (get_scorecard_node_name r.purl ≡ x))

  add_scorecards-Drawn :
      (settles : (name : String) → Settles (from_string name)) (version : String)
      (rs : List (ScorecardResult M)) (k : ℕ) (n : Node B M) (rest : Map ℕ (Node B M))
      (s : MockStorage B M)
      → Visits matches before (length rs + k) n rest s
      → Drawn matches before k rest
          (λ a x. (n.id ≡ a) × IsScore version rs x)
          s
          (add_scorecards from_string (mock_storage matches) version n rs s)
  unfolding add_scorecards
  add_scorecards-Drawn settles version [] k n rest s v =
      idle-Drawn matches before s (ok tt, s) refl (λ a x (_, (_, none_new, _)). absurd none_new)
        (Visits-Left matches before s (fewer-Visits matches before s (omega arith) v))
  add_scorecards-Drawn settles version (r ∷ rs) k n rest s v =
      let g =
        add_if_current-Grown matches from_string before settles version r (length rs + k) n rest s
          (fewer-Visits matches before s (omega arith) v) in
      let d = add_scorecards-Drawn settles version rs k g.grown rest g.state g.visits in
      record {
        value = d.value;
        state = d.state;
        returns = rw g.goes_on d.returns;
        left = d.left;
        draws = Draws-iff (Draws-both g.draws d.draws) (λ a x. (
          λ h. elim h [
            | inl (p, q) ↦ (p, (r, inl refl, q))
            | inr (p, (o, there, q)) ↦ (sym g.same_id ∙ p, (o, inr there, q))
          ],
          λ (p, (o, there, q)). elim there [
            | inl same ↦ inl (
              p,
              subst
                  (λ (w : ScorecardResult M).
                    IsCurrent from_string version w × (get_scorecard_node_name w.purl ≡ x))
                  same q,
            )
            | inr there ↦ inr (g.same_id ∙ p, (o, there, q))
          ],
        ));
      }

  -- A library, and the name of a current result that is listed under its package's name.
  abbrev pub Scored : Map String (List (ScorecardResult M)) → Node B M → String → Type 0
  Scored results n x =
      ((n.type == "library" && has_prefix n.name "pkg:") ≡ true)
      × ((info : PackageInfo) × (purl_to_package from_string n.name ≡ ok info)
          × IsScore info.version (under info.name results) x)

  Scored-IsScore :
      (results : Map String (List (ScorecardResult M))) (n : Node B M) (info : PackageInfo)
      (rs : List (ScorecardResult M)) (x : String)
      → (n.type == "library" && has_prefix n.name "pkg:") ≡ true
      → purl_to_package from_string n.name ≡ ok info
      → under info.name results ≡ rs
      → Scored results n x ↔ IsScore info.version rs x
  Scored-IsScore results n info rs x visited read e = (
    λ (_, (info', read', q)).
        let same : info' ≡ info = ground (arith, read, read') in
        subst (λ l. IsScore info.version l x) e
          (subst (λ (i : PackageInfo). IsScore i.version (under i.name results) x) same q),
    λ q. (visited, (info, read, subst (λ l. IsScore info.version l x) (sym e) q)),
  )

  pub score_node-Drawn :
      (settles : (name : String) → Settles (from_string name))
      (results : Map String (List (ScorecardResult M))) (c k id : ℕ) (n : Node B M)
      (rest : Map ℕ (Node B M)) (s : MockStorage B M)
      → Few Any c results
      → All (λ e. n.id ≢ e.1.id) rest
      → Left matches before (c + k) ((id, n) ∷ rest) s
      → Drawn matches before k rest
          (λ a x. (n.id ≡ a) × Scored results n x)
          s
          (score_node from_string (mock_storage matches) results n s)
  unfolding score_node
  score_node-Drawn settles results c k id n rest s few later l =
      let left : Left matches before k rest s = behind-Left matches before s (omega arith) l in
      elim (Bool-cases (n.type == "library" && has_prefix n.name "pkg:")) [
        | inr passed ↦
            idle-Drawn matches before s _ (rw passed refl)
              (λ a x (_, (is, _)). ground (arith, is, passed)) left
        | inl visited ↦ elim (Outcome-split (purl_to_package from_string n.name)) [
          | inr (inl (e, bad)) ↦
              idle-Drawn matches before s _ (rw (visited, bad) refl)
                (λ a x (_, (_, (info, read, _))). ground (arith, read, bad)) left
          | inr (inr (inl bad)) ↦
              absurd
                (subst Settles bad (purl_to_package-Settles from_string n.name (settles n.name)))
          | inr (inr (inr bad)) ↦
              absurd
                (subst Settles bad (purl_to_package-Settles from_string n.name (settles n.name)))
          | inl (info, read) ↦ elim (Option-cases (lookup info.name results)) [
            | inl unlisted ↦
                idle-Drawn matches before s _ (rw (visited, read, or_skip, unlisted) refl)
                  (λ a x (_, q).
                    let (_, none_new, _) =
                      (Scored-IsScore results n info [] x visited read (ap listed unlisted)).0 q in
                    absurd none_new)
                  left
            | inr (rs, found) ↦
                let (less, _) = few info.name rs found in
                let is = visit matches before s l (ground (arith, visited)) later in
                let d =
                  add_scorecards-Drawn settles info.version rs k n rest s
                    (fewer-Visits matches before s (omega (arith, less)) is) in
                record {
                  value = d.value;
                  state = d.state;
                  returns = rw (visited, read, or_skip, found) d.returns;
                  left = d.left;
                  draws = Draws-iff d.draws (λ a x.
                      let e = Scored-IsScore results n info rs x visited read (ap listed found) in
                      (λ (p, q). (p, e.1 q), λ (p, q). (p, e.0 q)));
                }
          ]
        ]
      ]
