-- ===== src/Ingest/Vuln/Exact.antt =====
-- Which dependencies `Vulnerabilities` adds to the graph.
use minefield.Prelude.{
  ℕ, ◌+◌, ◌*◌, ◌^◌, ◌<◌, String, ◌≡◌, refl, subst, ◌↔◌, ◌⊎◌, Bool, true, false, Option, some, List,
  [], ◌∷◌, length, Map, lookup, keys, nat_eq, string_eq, Outcome, ok, arith,
}
use minefield.Bitmap.{Bitmap}
use minefield.Graph.Node.{Node}
use minefield.Graph.Storage.{Bytes}
use minefield.Graph.Mock.{mock_storage, pick}
use minefield.Graph.Mock.Quiet.{get_all_keys-quiet}
use minefield.Graph.Mock.Picked.{get_nodes-quiet}
use minefield.Graph.Mock.State.{MockStorage, no_faults}
use minefield.Graph.Build.Invariant.{IsWellFormed}
use minefield.Graph.Build.Drawn.{DependsOn, Draws-iff}
use minefield.Ingest.Purl.{PackageUrl, PackageInfo, has_prefix}
use minefield.Ingest.Visited.{Few, none-Few, none-Left, Reading, next, read_all}
use minefield.Ingest.Drawn.{
  Settles, Drawn, purl_to_package-Settles, idle-Drawn, Among, Draws-first, Among-all,
}
use minefield.Ingest.Vuln.{Vulnerability, Event, Order, is_package_affected}
use minefield.Ingest.Vuln.Add.{index_vulns, visit_nodes, vulnerabilities}
use minefield.Ingest.Vuln.Affects.{is_package_affected_iff}
use minefield.Ingest.Vuln.Kept.{index_vulns-Few}
use minefield.Ingest.Vuln.Listed.{IsListed, index_vulns-IsListed}
use minefield.Ingest.Vuln.Hits.{IsHit, visit_node-Drawn}

module _ {B M V : Type 0} ⦃bm : Bitmap B⦄ (matches : String → String → Outcome Bool)
    (from_string : String → Outcome PackageUrl) (new_version : String → Option V)
    (compare_semver : V → V → Order) (sort_slice : (ℕ → ℕ → Bool) → List Event → List Event)
    (marshal : Vulnerability → Option M) (before : MockStorage B M) (v : Vulnerability)
    (other : has_prefix v.id "pkg:" ≡ false) (metadata : M) (marshalled : marshal v ≡ some metadata)
    (settles : (name : String) → Settles (from_string name)) where
  abbrev Given : Node B M → String → Type 0
  Given n x = IsHit from_string new_version compare_semver sort_slice v n × (v.id ≡ x)

  abbrev vulns : Map String (List Vulnerability)
  vulns = index_vulns v v.affected []

  few : Few (λ w. w ≡ v) (length v.affected) vulns
  few name vs found =
      let (less, all) =
        index_vulns-Few (λ w. w ≡ v) v v.affected 0 [] refl (none-Few _) name vs found in
      (omega (arith, less), all)

  hit-IsListed :
      (info : PackageInfo)
      → is_package_affected new_version compare_semver sort_slice v info ≡ true
      → IsListed info.name vulns
  hit-IsListed info hit =
      let (a, there, (named, _, _)) =
        (is_package_affected_iff new_version compare_semver sort_slice v info).0 hit in
      subst (λ name. IsListed name vulns) named (index_vulns-IsListed v v.affected a [] there)

  visit_nodes-Drawn :
      (nodes : Map ℕ (Node B M)) (s : MockStorage B M)
      → Reading matches before (length v.affected) nodes s
      → Drawn matches before 0 [] (Among Given nodes) s (
          visit_nodes from_string new_version compare_semver sort_slice marshal
            (mock_storage matches)
            vulns
            nodes
            s)
  unfolding visit_nodes
  visit_nodes-Drawn [] s r =
      idle-Drawn matches before s (ok tt, s) refl (λ a x (_, there, _, _). absurd there)
        (none-Left matches before s r.left)
  visit_nodes-Drawn ((id, n) ∷ nodes) s r =
      let c = length v.affected in
      let m = next matches before s r in
      let d =
        visit_node-Drawn matches from_string new_version compare_semver sort_slice marshal before v
          other metadata marshalled vulns c (length nodes * c) id n nodes s few hit-IsListed
          (λ name. purl_to_package-Settles from_string name (settles name)) m.later m.left in
      let e = visit_nodes-Drawn nodes d.state (m.reading d.state d.left) in
      record {
        value = tt;
        state = e.state;
        returns = rw d.returns e.returns;
        left = e.left;
        draws = Draws-first Given id n nodes d.draws e.draws;
      }

-- Where what is read is a vulnerability that is not named like a package and that is marshalled, the
-- package URLs parse or fail without a panic, and an id is left for each of its entries at each node,
-- `Vulnerabilities` on a well-formed storage in memory that injects no error succeeds. Afterwards a
-- node depends on a name exactly where it did before, or where it is a library, named by a package URL
-- that parses, which the vulnerability affects, and the name is the vulnerability's id.
pub vulnerabilities-DependsOn :
    {B M V : Type 0} ⦃bm : Bitmap B⦄ (matches : String → String → Outcome Bool)
    (from_string : String → Outcome PackageUrl) (new_version : String → Option V)
    (compare_semver : V → V → Order) (sort_slice : (ℕ → ℕ → Bool) → List Event → List Event)
    (marshal : Vulnerability → Option M) (unmarshal : Bytes → Outcome Vulnerability) (b : ℕ)
    (bytes : Bytes) (v : Vulnerability) (metadata : M) (s : MockStorage B M)
    → unmarshal (b ∷ bytes) ≡ ok v
    → has_prefix v.id "pkg:" ≡ false
    → marshal v ≡ some metadata
    → ((name : String) → Settles (from_string name))
    → IsWellFormed s
    → s.faults ≡ no_faults
    → s.id_counter + length s.nodes * length v.affected < 2 ^ 32
    → let r =
        vulnerabilities from_string new_version compare_semver sort_slice marshal
          (mock_storage matches)
          unmarshal
          (b ∷ bytes)
          s in
      (r.0 ≡ ok tt)
      × ((a : ℕ) (x : String)
          → DependsOn r.1 a x ↔ (
              DependsOn s a x
              ⊎ ((n : Node B M) × (lookup a s.nodes ≡ some n)
                  × (IsHit from_string new_version compare_semver sort_slice v n × (v.id ≡ x)))))
unfolding vulnerabilities
vulnerabilities-DependsOn matches from_string new_version compare_semver sort_slice marshal
      unmarshal b bytes v metadata s h other marshalled settles w quiet room =
    let d =
      visit_nodes-Drawn matches from_string new_version compare_semver sort_slice marshal s v other
        metadata marshalled settles (pick s.nodes (keys s.nodes) []) s
        (read_all matches (length v.affected) s w quiet room) in
    rw (h, get_all_keys-quiet s quiet, get_nodes-quiet s quiet (keys s.nodes), d.returns)
      (
        refl,
        (Draws-iff d.draws (
            Among-all
              (λ n x. IsHit from_string new_version compare_semver sort_slice v n × (v.id ≡ x)) s
              w)).exactly,
      )
