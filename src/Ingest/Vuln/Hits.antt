-- ===== src/Ingest/Vuln/Hits.antt =====
-- Which dependencies the visit of one node by `Vulnerabilities` adds to the graph.
use minefield.Prelude.{
  ℕ, suc, ◌+◌, String, ◌≡◌, refl, sym, ap, ◌∙◌, subst, ◌≢◌, inl, inr, Bool, true, false, Bool-cases,
  ◌&&◌, ◌==◌, Option, Option-cases, some, List, [], ◌∷◌, length, All, Map, lookup, nat_eq,
  string_eq, Outcome, Outcome-split, ok, arith,
}
use minefield.Bitmap.{Bitmap}
use minefield.Graph.Node.{Node}
use minefield.Graph.Mock.{mock_storage}
use minefield.Graph.Mock.State.{MockStorage}
use minefield.Graph.Build.{add_child}
use minefield.Graph.Build.Linked.{linked}
use minefield.Graph.Build.Drawn.{Draws, Draws-both, Draws-iff}
use minefield.Ingest.Purl.{PackageUrl, PackageInfo, has_prefix, purl_to_package}
use minefield.Ingest.Attached.{Visits, attach}
use minefield.Ingest.Visited.{Left, Visits-Left, fewer-Visits, behind-Left, visit, Few}
use minefield.Ingest.Drawn.{Settles, Drawn, idle-Drawn}
use minefield.Ingest.Vuln.{Vulnerability, Event, Order, is_package_affected}
use minefield.Ingest.Vuln.Add.{or_skip, add_vulns, visit_node}

-- The node is visited, its name parses to a package, and the vulnerability affects the package.
abbrev pub IsHit :
    {B M V : Type 0}
    → (String → Outcome PackageUrl)
    → (String → Option V)
    → (V → V → Order)
    → ((ℕ → ℕ → Bool) → List Event → List Event)
    → Vulnerability
    → Node B M
    → Type 0
IsHit from_string new_version compare_semver sort_slice v n =
    ((n.type == "library" && has_prefix n.name "pkg:") ≡ true)
    × ((info : PackageInfo) × (purl_to_package from_string n.name ≡ ok info)
        × (is_package_affected new_version compare_semver sort_slice v info ≡ true))

module _ {B M V : Type 0} ⦃bm : Bitmap B⦄ (matches : String → String → Outcome Bool)
    (from_string : String → Outcome PackageUrl) (new_version : String → Option V)
    (compare_semver : V → V → Order) (sort_slice : (ℕ → ℕ → Bool) → List Event → List Event)
    (marshal : Vulnerability → Option M) (before : MockStorage B M) (v : Vulnerability)
    (other : has_prefix v.id "pkg:" ≡ false) (metadata : M)
    (marshalled : marshal v ≡ some metadata) where
  abbrev adds :
      PackageInfo
      → Node B M
      → List Vulnerability
      → MockStorage B M
      → Outcome (Node B M) × MockStorage B M
  adds info n vs =
      add_vulns from_string new_version compare_semver sort_slice marshal (mock_storage matches)
        info n vs

  abbrev finds : PackageInfo → Bool
  finds info = is_package_affected new_version compare_semver sort_slice v info

  spared-same :
      (info : PackageInfo) (vs : List Vulnerability) (n : Node B M) (s : MockStorage B M)
      → All (λ w. w ≡ v) vs
      → finds info ≡ false
      → adds info n vs s ≡ (ok n, s)
  unfolding add_vulns
  spared-same info [] n s all spared = refl
  spared-same info (w ∷ vs) n s (e, all) spared =
      let known : marshal w ≡ some metadata = ap marshal e ∙ marshalled in
      let same : is_package_affected new_version compare_semver sort_slice w info ≡ false =
        ap (λ u. is_package_affected new_version compare_semver sort_slice u info) e ∙ spared in
      rw (add_vulns, known, same) (spared-same info vs n s all spared)

  -- The first of the vulnerabilities is attached.
  record Stepped (info : PackageInfo) (w : Vulnerability) (vs : List Vulnerability) (k : ℕ)
      (n : Node B M) (rest : Map ℕ (Node B M)) (s : MockStorage B M) : Type 0 where
    pub grown : Node B M
    pub state : MockStorage B M
    pub goes_on : adds info n (w ∷ vs) s ≡ adds info grown vs state
    pub same_id : grown.id ≡ n.id
    pub visits : Visits matches before (length vs + k) grown rest state
    pub draws : Draws (λ a x. (n.id ≡ a) × (v.id ≡ x)) s state

  affected-Stepped :
      (info : PackageInfo) (w : Vulnerability) (vs : List Vulnerability) (k : ℕ) (n : Node B M)
      (rest : Map ℕ (Node B M)) (s : MockStorage B M)
      → w ≡ v
      → finds info ≡ true
      → Visits matches before (suc (length vs) + k) n rest s
      → Stepped info w vs k n rest s
  unfolding add_vulns
  affected-Stepped info w vs k n rest s e affected r =
      let known : marshal w ≡ some metadata = ap marshal e ∙ marshalled in
      let same : is_package_affected new_version compare_semver sort_slice w info ≡ true =
        ap (λ u. is_package_affected new_version compare_semver sort_slice u info) e ∙ affected in
      let name : w.id ≡ v.id = ap (λ (u : Vulnerability). u.id) e in
      let a =
        attach matches before {k = length vs + k} n rest "vuln" metadata w.id
          (ap (λ x. has_prefix x "pkg:") name ∙ other)
          (fewer-Visits matches before s (omega arith) r) in
      record {
        grown = add_child a.node.id n;
        state = linked n a.node a.made;
        goes_on = rw (add_vulns, known, same, a.adds, a.links) refl;
        same_id = refl;
        visits = a.visits;
        draws = Draws-iff a.draws (λ b x. (λ (p, q). (p, sym name ∙ q), λ (p, q). (p, name ∙ q)));
      }

  affected-Drawn :
      (info : PackageInfo) (w : Vulnerability) (vs : List Vulnerability) (k : ℕ) (n : Node B M)
      (rest : Map ℕ (Node B M)) (s : MockStorage B M)
      → w ≡ v
      → All (λ u. u ≡ v) vs
      → finds info ≡ true
      → Visits matches before (suc (length vs) + k) n rest s
      → Drawn matches before k rest (λ a x. (n.id ≡ a) × (v.id ≡ x)) s (adds info n (w ∷ vs) s)
  unfolding add_vulns
  affected-Drawn info w [] k n rest s e all affected r =
      let t = affected-Stepped info w [] k n rest s e affected r in
      record {
        value = t.grown;
        state = t.state;
        returns = t.goes_on;
        left =
            Visits-Left matches before t.state
              (fewer-Visits matches before t.state (omega arith) t.visits);
        draws = t.draws;
      }
  affected-Drawn info w (u ∷ vs) k n rest s e (e', all) affected r =
      let t = affected-Stepped info w (u ∷ vs) k n rest s e affected r in
      let d =
        affected-Drawn info u vs k t.grown rest t.state e' all affected
          (fewer-Visits matches before t.state (omega arith) t.visits) in
      record {
        value = d.value;
        state = d.state;
        returns = t.goes_on ∙ d.returns;
        left = d.left;
        draws =
            Draws-iff (Draws-both t.draws d.draws)
              (λ b x. (λ h. elim h [ inl p ↦ p | inr (p, q) ↦ (sym t.same_id ∙ p, q) ], inl));
      }

  abbrev Hit : Node B M → Type 0
  Hit n = IsHit from_string new_version compare_semver sort_slice v n

  -- the names of the vulnerabilities that a node is given
  abbrev Given : Node B M → String → Type 0
  Given n x = Hit n × (v.id ≡ x)

  spared_visit :
      (vulns : Map String (List Vulnerability)) (c : ℕ) (info : PackageInfo) (n : Node B M)
      (s : MockStorage B M)
      → Few (λ w. w ≡ v) c vulns
      → (n.type == "library" && has_prefix n.name "pkg:") ≡ true
      → purl_to_package from_string n.name ≡ ok info
      → finds info ≡ false
      → visit_node from_string new_version compare_semver sort_slice marshal
          (mock_storage matches)
          vulns
          n
          s
        ≡ (ok tt, s)
  unfolding visit_node
  spared_visit vulns c info n s few visited read spared =
      elim (Option-cases (lookup info.name vulns)) [
        | inl unlisted ↦ rw (visited, read, or_skip, unlisted) refl
        | inr (vs, found) ↦
            let (_, all) = few info.name vs found in
            rw (visited, read, or_skip, found, spared-same info vs n s all spared) refl
      ]

  pub visit_node-Drawn :
      (vulns : Map String (List Vulnerability)) (c k id : ℕ) (n : Node B M)
      (rest : Map ℕ (Node B M)) (s : MockStorage B M)
      → Few (λ w. w ≡ v) c vulns
      → ((info : PackageInfo)
          → finds info ≡ true
          → (w : Vulnerability) × (ws : List Vulnerability) × (lookup info.name vulns
              ≡ some (w ∷ ws)))
      → ((name : String) → Settles (purl_to_package from_string name))
      → All (λ e. n.id ≢ e.1.id) rest
      → Left matches before (c + k) ((id, n) ∷ rest) s
      → Drawn matches before k rest
          (λ a x. (n.id ≡ a) × Given n x)
          s
          (visit_node from_string new_version compare_semver sort_slice marshal
            (mock_storage matches)
            vulns
            n
            s)
  unfolding visit_node
  visit_node-Drawn vulns c k id n rest s few lists settles later l =
      let left : Left matches before k rest s = behind-Left matches before s (omega arith) l in
      elim (Bool-cases (n.type == "library" && has_prefix n.name "pkg:")) [
        | inr passed ↦
            idle-Drawn matches before s _ (rw passed refl)
              (λ a x (_, ((is, _), _)). ground (arith, is, passed)) left
        | inl visited ↦ elim (Outcome-split (purl_to_package from_string n.name)) [
          | inr (inl (e, bad)) ↦
              idle-Drawn matches before s _ (rw (visited, bad) refl)
                (λ a x (_, ((_, (info, read, _)), _)). ground (arith, read, bad)) left
          | inr (inr (inl bad)) ↦ absurd (subst Settles bad (settles n.name))
          | inr (inr (inr bad)) ↦ absurd (subst Settles bad (settles n.name))
          | inl (info, read) ↦ elim (Bool-cases (finds info)) [
            | inr spared ↦
                idle-Drawn matches before s _
                  (spared_visit vulns c info n s few visited read spared)
                  (λ a x (_, ((_, (other_info, read', hit)), _)).
                    let same : info ≡ other_info = ground (arith, read, read') in
                    ground (arith, spared, ap finds same, hit))
                  left
            | inl affected ↦
                let (w, ws, found) = lists info affected in
                let (less, (e, all)) = few info.name (w ∷ ws) found in
                let is = visit matches before s l (ground (arith, visited)) later in
                let d =
                  affected-Drawn info w ws k n rest s e all affected
                    (fewer-Visits matches before s (omega (arith, less)) is) in
                record {
                  value = tt;
                  state = d.state;
                  returns = rw (visited, read, or_skip, found, d.returns) refl;
                  left = d.left;
                  draws = Draws-iff d.draws (λ a x. (
                    λ (p, q). (p, ((visited, (info, read, affected)), q)),
                    λ (p, (_, q)). (p, q),
                  ));
                }
          ]
        ]
      ]
