-- ===== src/Ingest/Scorecard/Grown.antt =====
-- What `Scorecards` does with one result at one node.
use minefield.Prelude.{
  ℕ, suc, Error, String, ◌≡◌, refl, sym, ap, ◌∙◌, subst, inl, inr, Bool, true, Bool-cases, ◌==◌,
  Map, nat_eq, string_eq, Outcome, Outcome-split, ok, err, arith,
}
use minefield.Bitmap.{Bitmap}
use minefield.Graph.Node.{Node}
use minefield.Graph.Mock.{mock_storage}
use minefield.Graph.Mock.State.{MockStorage}
use minefield.Graph.Build.{add_child}
use minefield.Graph.Build.Linked.{linked}
use minefield.Graph.Build.Drawn.{Draws, Draws-none, Draws-iff}
use minefield.Ingest.Purl.{PackageUrl, PackageInfo, purl_to_package}
use minefield.Ingest.Attached.{Visits, attach}
use minefield.Ingest.Visited.{fewer-Visits}
use minefield.Ingest.Drawn.{Settles}
use minefield.Ingest.Scorecard.{
  ScorecardResult, get_scorecard_node_name, add_scorecard, add_if_current,
}
use minefield.Ingest.Scorecard.Kept.{scorecard_other}

read_version :
    (from_string : String → Outcome PackageUrl) (purl : String) (u : PackageUrl)
    → from_string purl ≡ ok u
    → (info : PackageInfo) × (purl_to_package from_string purl ≡ ok info)
      × (info.version ≡ u.version)
unfolding purl_to_package
read_version from_string purl u read = rw read (_, refl, refl)

read_error :
    (from_string : String → Outcome PackageUrl) (purl : String) (e : Error)
    → from_string purl ≡ err e
    → (e' : Error) × (purl_to_package from_string purl ≡ err e')
unfolding purl_to_package
read_error from_string purl e bad = rw bad (_, refl)

-- A successful result for the version.
abbrev pub IsCurrent :
    {M : Type 0} → (String → Outcome PackageUrl) → String → ScorecardResult M → Type 0
IsCurrent from_string version r =
    (r.success ≡ true) × ((u : PackageUrl) × (from_string r.purl ≡ ok u) × (u.version ≡ version))

module _ {B M : Type 0} ⦃bm : Bitmap B⦄ (matches : String → String → Outcome Bool)
    (from_string : String → Outcome PackageUrl) (before : MockStorage B M) where
  -- The node is returned, with the result attached to it where it is for the version.
  pub record Grown (version : String) (r : ScorecardResult M) (k : ℕ) (n : Node B M)
      (rest : Map ℕ (Node B M)) (s : MockStorage B M) : Type 0 where
    pub grown : Node B M
    pub state : MockStorage B M
    pub goes_on :
        add_if_current from_string (mock_storage matches) version n r s ≡ (ok grown, state)
    pub same_id : grown.id ≡ n.id
    pub visits : Visits matches before k grown rest state
    pub draws :
        Draws
          (λ a x.
            (n.id ≡ a) × (IsCurrent from_string version r × (get_scorecard_node_name r.purl ≡ x)))
          s
          state

  idle-Grown :
      {version : String} {r : ScorecardResult M} {k : ℕ} (n : Node B M) {rest : Map ℕ (Node B M)}
      (s : MockStorage B M)
      → add_if_current from_string (mock_storage matches) version n r s ≡ (ok n, s)
      → ¬ IsCurrent from_string version r
      → Visits matches before k n rest s
      → Grown version r k n rest s
  idle-Grown n s same old v = record {
    grown = n;
    state = s;
    goes_on = same;
    same_id = refl;
    visits = v;
    draws = Draws-iff (Draws-none s) (λ a x. (λ e. absurd e, λ (_, (current, _)). old current));
  }

  pub add_if_current-Grown :
      (settles : (name : String) → Settles (from_string name)) (version : String)
      (r : ScorecardResult M) (k : ℕ) (n : Node B M) (rest : Map ℕ (Node B M)) (s : MockStorage B M)
      → Visits matches before (suc k) n rest s
      → Grown version r k n rest s
  unfolding add_if_current add_scorecard
  add_if_current-Grown settles version r k n rest s v =
      let skip : Visits matches before k n rest s = fewer-Visits matches before s (omega arith) v in
      elim (Bool-cases r.success) [
        | inr failed ↦
            idle-Grown n s (rw failed refl) (λ (passed, _). ground (arith, passed, failed)) skip
        | inl passed ↦ elim (Outcome-split (from_string r.purl)) [
          | inl (u, parsed) ↦
              let (info, read, at) = read_version from_string r.purl u parsed in
              elim (Bool-cases (info.version == version)) [
                | inr older ↦
                    idle-Grown n s (rw (passed, read, older) refl)
                      (λ (_, (u', parsed', current)).
                        let same : u ≡ u' = ground (arith, parsed, parsed') in
                        let e : info.version ≡ version =
                          at ∙ ap (λ (w : PackageUrl). w.version) same ∙ current in
                        ground (arith, older, (string_eq.beq_iff info.version version).1 e))
                      skip
                | inl current ↦
                    let a =
                      attach matches before n rest "scorecard" r.metadata
                        (get_scorecard_node_name r.purl) (scorecard_other r.purl) v in
                    let is : IsCurrent from_string version r = (
                      passed,
                      (u, parsed, sym at ∙ (string_eq.beq_iff info.version version).0 current),
                    ) in
                    record {
                      grown = add_child a.node.id n;
                      state = linked n a.node a.made;
                      goes_on = rw (passed, read, current, a.adds, a.links) refl;
                      same_id = refl;
                      visits = a.visits;
                      draws =
                          Draws-iff a.draws
                            (λ b x. (λ (p, q). (p, (is, q)), λ (p, (_, q)). (p, q)));
                    }
              ]
          | inr (inl (e, bad)) ↦
              let (_, bad') = read_error from_string r.purl e bad in
              idle-Grown n s (rw (passed, bad') refl)
                (λ (_, (u, parsed, _)). ground (arith, bad, parsed)) skip
          | inr (inr (inl bad)) ↦ absurd (subst Settles bad (settles r.purl))
          | inr (inr (inr bad)) ↦ absurd (subst Settles bad (settles r.purl))
        ]
      ]
