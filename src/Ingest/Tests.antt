-- ===== src/Ingest/Tests.antt =====
-- Runs and witnesses for the ingestion.
use Prim.Native.String.{String}
use minefield.Prelude.{
  ℕ, List, [], ◌∷◌, ◌≡◌, refl, ◌↔◌, ◌⊎◌, nat_eq, string_eq, Bool, true, Option, some, none, Outcome,
  ok, arith, ◌∈◌, map, length, lookup, insert, ◌+◌, ◌*◌, ◌^◌, ◌<◌,
}
use minefield.Bitmap.Listed.{listed}
use minefield.Graph.Storage.{Bytes}
use minefield.Graph.Mock.{
  mock_storage, name_to_id, get_node, save_node, save_cache, generate_id, get_all_keys, get_nodes,
}
use minefield.Graph.Build.{add_node, create_node, set_dependency}
use minefield.Graph.Mock.State.{new_mock_storage, MockStorage, no_faults}
use minefield.Graph.Build.Invariant.{IsWellFormed, Edge}
use minefield.Graph.Build.Runs.{Run-IsWellFormed, new}
use minefield.Ingest.Purl.{PackageInfo, PackageUrl, has_prefix, purl_to_package}
use minefield.Ingest.Sbom.{NodeList, sbom}
use minefield.Ingest.Sbom.Kept.{NamedAt, sbom_lem}
use minefield.Ingest.Sbom.Filled.{purls}
use minefield.Ingest.Sbom.Exact.{IsStated, sbom-DependsOn}
use minefield.Ingest.Sbom.Queried.{Chain, sbom-query_dependencies}
use minefield.Graph.Query.{query_bitmap}
use minefield.Graph.Query.Reach.{degree_sum}
use minefield.Ingest.Vuln.{
  Order, same, Event, Affected, Vulnerability, is_package_affected, is_affected_by,
  is_version_in_range, compare_versions,
}
use minefield.Ingest.Vuln.Add.{vulnerabilities}
use minefield.Ingest.Vuln.Kept.{vulnerabilities_lem}
use minefield.Ingest.Vuln.Exact.{vulnerabilities-DependsOn}
use minefield.Ingest.Vuln.Hits.{IsHit}
use minefield.Graph.Build.Drawn.{DependsOn}
use minefield.Graph.Node.{Node, children_direction}
use minefield.Ingest.Scorecard.{ScorecardResult, scorecards, get_scorecard_node_name}
use minefield.Ingest.Scorecard.Exact.{IsScoredBy, scorecards-DependsOn}
use minefield.Ingest.Scorecard.Kept.{scorecards_lem}
use minefield.Ingest.Vuln.Affects.{Covers, is_package_affected_iff}

abbrev Meta : Type 0
Meta = Unit {0}

abbrev all_match : String → String → Outcome Bool
all_match pattern_text name = ok true

-- two packages, of which the first depends on the second
abbrev document : NodeList Meta
document = record {
  nodes =
      record { metadata = tt; id = "1"; purl = "pkg:a"; name = "a"; version = "1" }
      ∷ record { metadata = tt; id = "2"; purl = ""; name = "b"; version = "2" }
      ∷ [];
  edges = record { from = "1"; to = "2" ∷ [] } ∷ [];
}

abbrev read : Bytes → Outcome (Option (NodeList Meta))
read bytes = ok (some document)

abbrev empty_storage : MockStorage (List ℕ) Meta
empty_storage = new_mock_storage

abbrev after_sbom : Outcome (Unit {0}) × MockStorage (List ℕ) Meta
after_sbom = sbom (mock_storage all_match) read (7 ∷ []) empty_storage

abbrev after : MockStorage (List ℕ) Meta
after = (sbom (mock_storage all_match) read (7 ∷ []) new_mock_storage).1

sbom_lem_example :
    IsWellFormed after
    × ((a b : ℕ) → Edge {B = List ℕ} {M = Meta} new_mock_storage a b → Edge after a b)
sbom_lem_example =
    sbom_lem all_match read (7 ∷ []) document new_mock_storage refl (Run-IsWellFormed all_match new)
      refl (omega arith)

sbom-DependsOn_example :
    (after_sbom.0 ≡ ok tt)
    × ((id p : String) → lookup id (purls document.nodes []) ≡ some p → (a : ℕ) × NamedAt after a p)
    × ((a : ℕ) (x : String)
        → DependsOn after a x ↔ (
            DependsOn empty_storage a x
            ⊎ ((n : Node (List ℕ) Meta) × (lookup a after.nodes ≡ some n)
                × IsStated document n.name x)))
unfolding lookup insert
sbom-DependsOn_example =
    sbom-DependsOn all_match read 7 [] document empty_storage refl
      (((("pkg:a", refl), (("pkg:b@2", refl), tt)), tt)) (Run-IsWellFormed all_match new) refl
      (omega arith)

-- the first package, as it is stored
abbrev stored_package : Node (List ℕ) Meta
stored_package = record {
  metadata = tt;
  children = 2 ∷ [];
  parents = [];
  type = "library";
  name = "pkg:a";
  id = 1;
}

sbom-query_dependencies_example :
    (out : List ℕ) × (query_bitmap 2
        (some stored_package)
        (some (mock_storage all_match))
        children_direction
        after
      ≡ (ok out, after))
    × ((v : ℕ)
        → (listed.contains out v ≡ true) ↔ (
            (m : Node (List ℕ) Meta) × (lookup v after.nodes ≡ some m)
            × Chain document "pkg:a" m.name))
unfolding sbom add_node name_to_id lookup create_node generate_id save_node save_cache insert
    get_node set_dependency degree_sum
sbom-query_dependencies_example =
    sbom-query_dependencies all_match read 7 [] document after stored_package 2 refl
      ((("pkg:a", refl), (("pkg:b@2", refl), tt)), tt) (omega arith) refl refl (omega arith)

abbrev no_semver : String → Option Meta
no_semver version = none

abbrev all_same : Meta → Meta → Order
all_same a b = same

abbrev unsorted : (ℕ → ℕ → Bool) → List Event → List Event
unsorted less events = events

abbrev installed : PackageInfo
installed = record { name = "a"; version = "3"; ecosystem = "Go" }

abbrev flaw : Vulnerability
flaw = record {
  id = "GHSA-1";
  affected =
      record {
        name = "a";
        ecosystem = "Go";
        ranges =
            record {
              type = "ECOSYSTEM";
              events =
                  record { introduced = "2"; fixed = ""; last_affected = "" }
                  ∷ record { introduced = ""; fixed = "4"; last_affected = "" }
                  ∷ [];
            }
            ∷ [];
        versions = [];
      }
      ∷ [];
}

is_package_affected_iff_example :
    (is_package_affected no_semver all_same unsorted flaw installed ≡ true)
    ↔ ((a : Affected) × (a ∈ flaw.affected) × Covers no_semver all_same unsorted a installed)
is_package_affected_iff_example = is_package_affected_iff no_semver all_same unsorted flaw installed

after_quiet : after.faults ≡ no_faults
unfolding sbom add_node name_to_id lookup create_node generate_id save_node save_cache insert
    get_node set_dependency
after_quiet = refl

after_room : after.id_counter + length after.nodes * 1 < 2 ^ 32
unfolding sbom add_node name_to_id lookup create_node generate_id save_node save_cache insert
    get_node set_dependency
after_room = omega arith

abbrev package_a : String → Outcome PackageUrl
package_a text = ok (record { type = "golang"; namespace = ""; name = "a"; version = "3" })

abbrev flaw_read : Bytes → Outcome Vulnerability
flaw_read bytes = ok flaw

abbrev with_flaw : MockStorage (List ℕ) Meta
with_flaw =
    (vulnerabilities package_a no_semver all_same unsorted (λ v. some tt) (mock_storage all_match)
      flaw_read (7 ∷ []) after).1

vulnerabilities_lem_example :
    IsWellFormed with_flaw × ((a b : ℕ) → Edge after a b → Edge with_flaw a b)
unfolding has_prefix
vulnerabilities_lem_example =
    vulnerabilities_lem all_match package_a no_semver all_same unsorted (λ v. some tt) flaw_read
      (7 ∷ []) flaw after refl refl sbom_lem_example.0 after_quiet after_room

vulnerabilities-DependsOn_example :
    let r =
      vulnerabilities package_a no_semver all_same unsorted
        (λ v. some tt)
        (mock_storage all_match)
        flaw_read
        (7 ∷ [])
        after in
    (r.0 ≡ ok tt)
    × ((a : ℕ) (x : String)
        → DependsOn r.1 a x ↔ (
            DependsOn after a x
            ⊎ ((n : Node (List ℕ) Meta) × (lookup a after.nodes ≡ some n)
                × (IsHit package_a no_semver all_same unsorted flaw n × (flaw.id ≡ x)))))
unfolding has_prefix
vulnerabilities-DependsOn_example =
    vulnerabilities-DependsOn all_match package_a no_semver all_same unsorted (λ v. some tt)
      flaw_read 7 [] flaw tt after refl refl refl (λ text. tt) sbom_lem_example.0 after_quiet
      after_room

abbrev drawn : MockStorage (List ℕ) Meta → List (ℕ × String × List ℕ)
drawn s = map (λ e. (e.0, e.1.name, e.1.children)) s.nodes

-- Both packages are affected, and get an edge to the vulnerability.
flaw_found :
    drawn with_flaw ≡ (1, "pkg:a", 3 ∷ 2 ∷ []) ∷ (2, "pkg:b@2", 3 ∷ []) ∷ (3, "GHSA-1", []) ∷ []
unfolding sbom vulnerabilities has_prefix get_all_keys add_node name_to_id lookup create_node
    generate_id save_node save_cache insert get_node set_dependency get_nodes purl_to_package
    is_affected_by is_version_in_range compare_versions
flaw_found = refl

abbrev result : ScorecardResult Meta
result = record { metadata = tt; purl = "pkg:golang/a@3"; success = true }

abbrev results_read : Bytes → Outcome (List (ScorecardResult Meta))
results_read bytes = ok (result ∷ [])

abbrev with_score : MockStorage (List ℕ) Meta
with_score = (scorecards package_a (mock_storage all_match) results_read (7 ∷ []) after).1

scorecards_lem_example :
    IsWellFormed with_score × ((a b : ℕ) → Edge after a b → Edge with_score a b)
scorecards_lem_example =
    scorecards_lem all_match package_a results_read (7 ∷ []) (result ∷ []) after refl
      sbom_lem_example.0 after_quiet after_room

scorecards-DependsOn_example :
    let r = scorecards package_a (mock_storage all_match) results_read (7 ∷ []) after in
    (r.0 ≡ ok tt)
    × ((a : ℕ) (x : String)
        → DependsOn r.1 a x ↔ (
            DependsOn after a x
            ⊎ ((n : Node (List ℕ) Meta) × (lookup a after.nodes ≡ some n)
                × ((p : ScorecardResult Meta) × (p ∈ result ∷ [])
                    × (IsScoredBy package_a n p × (get_scorecard_node_name p.purl ≡ x))))))
scorecards-DependsOn_example =
    scorecards-DependsOn all_match package_a results_read 7 [] (result ∷ []) after refl (λ text. tt)
      sbom_lem_example.0 after_quiet after_room

-- Both packages have the name and the version of the result, and get an edge to its scorecard.
score_found :
    drawn with_score
    ≡ (1, "pkg:a", 3 ∷ 2 ∷ []) ∷ (2, "pkg:b@2", 3 ∷ []) ∷ (3, "scorecard:pkg:golang/a@3", []) ∷ []
unfolding sbom scorecards has_prefix get_all_keys add_node name_to_id lookup create_node generate_id
    save_node save_cache insert get_node set_dependency get_nodes purl_to_package
score_found = refl
