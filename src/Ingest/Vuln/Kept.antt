-- ===== src/Ingest/Vuln/Kept.antt =====
-- `Vulnerabilities` keeps the invariant and the edges of the graph.
use minefield.Prelude.{
  ℕ, suc, ◌+◌, ◌*◌, ◌^◌, ◌<◌, String, ◌≡◌, ◌≢◌, inl, inr, Bool, false, Bool-cases, ◌&&◌, ◌==◌,
  Option, Option-cases, List, [], ◌∷◌, length, All, Map, lookup, keys, nat_eq, string_eq, Outcome,
  ok, arith, continue-keeps, continue-leads,
}
use minefield.Bitmap.{Bitmap}
use minefield.Graph.Node.{Node}
use minefield.Graph.Storage.{Bytes}
use minefield.Graph.Mock.{mock_storage}
use minefield.Graph.Mock.Quiet.{get_all_keys-quiet}
use minefield.Graph.Mock.Picked.{get_nodes-quiet}
use minefield.Graph.Mock.State.{MockStorage, no_faults}
use minefield.Graph.Build.{add_child}
use minefield.Graph.Build.Linked.{linked}
use minefield.Graph.Build.Invariant.{IsWellFormed, Edge}
use minefield.Ingest.Purl.{PackageUrl, PackageInfo, has_prefix, purl_to_package}
use minefield.Ingest.Attached.{Visits, attach}
use minefield.Ingest.Visited.{
  Few, none-Few, insert-Few, or_skip-keeps, Left, behind-Left, none-Left, Visits-Left, fewer-Visits,
  visit, Reading, next, read_all,
}
use minefield.Ingest.Vuln.{Vulnerability, Affected, Event, Order, is_package_affected}
use minefield.Ingest.Vuln.Add.{index_vulns, add_vulns, visit_node, visit_nodes, vulnerabilities}

-- no name of a package
abbrev IsOther : Vulnerability → Type 0
IsOther v = has_prefix v.id "pkg:" ≡ false

-- Each entry of a vulnerability lists it once more, under one name.
pub index_vulns-Few :
    (P : Vulnerability → Type 0) (v : Vulnerability) (affected : List Affected) (c : ℕ)
    (m : Map String (List Vulnerability))
    → P v
    → Few P c m
    → Few P (length affected + c) (index_vulns v affected m)
unfolding index_vulns
index_vulns-Few P v [] c m p few name vs h =
    let (less, all) = few name vs h in (omega (arith, less), all)
index_vulns-Few P v (a ∷ affected) c m p few name vs h =
    let (less, all) =
      index_vulns-Few P v affected (suc c) _ p (insert-Few P v a.name c m p few) name vs h in
    (omega (arith, less), all)

module _ {B M V : Type 0} ⦃bm : Bitmap B⦄ (matches : String → String → Outcome Bool)
    (from_string : String → Outcome PackageUrl) (new_version : String → Option V)
    (compare_semver : V → V → Order) (sort_slice : (ℕ → ℕ → Bool) → List Event → List Event)
    (marshal : Vulnerability → Option M) (before : MockStorage B M) where
  add_vulns-Left :
      (info : PackageInfo) (vs : List Vulnerability) (k : ℕ) (n : Node B M)
      (rest : Map ℕ (Node B M)) (s : MockStorage B M)
      → All IsOther vs
      → Visits matches before (length vs + k) n rest s
      → Left matches before k rest
          (add_vulns from_string new_version compare_semver sort_slice marshal
            (mock_storage matches)
            info
            n
            vs
            s).1
  unfolding add_vulns
  add_vulns-Left info [] k n rest s others v =
      Visits-Left matches before s (fewer-Visits matches before s (omega arith) v)
  add_vulns-Left info (v ∷ vs) k n rest s (other, others) r =
      let skip =
        add_vulns-Left info vs k n rest s others (fewer-Visits matches before s (omega arith) r) in
      elim (Option-cases (marshal v)) [
        | inl unmarshalled ↦ rw (unmarshalled, add_vulns) skip
        | inr (metadata, marshalled) ↦
            elim (Bool-cases (is_package_affected new_version compare_semver sort_slice v info)) [
              | inr spared ↦ rw (add_vulns, marshalled, spared) skip
              | inl affected ↦
                  let a =
                    attach matches before {k = length vs + k} n rest "vuln" metadata v.id other
                      (fewer-Visits matches before s (omega arith) r) in
                  rw (add_vulns, marshalled, affected, a.adds, a.links)
                    (add_vulns-Left info vs k (add_child a.node.id n) rest (linked n a.node a.made)
                      others a.visits)
            ]
      ]

  visit_node-Left :
      (vulns : Map String (List Vulnerability)) (c k id : ℕ) (n : Node B M)
      (rest : Map ℕ (Node B M)) (s : MockStorage B M)
      → Few IsOther c vulns
      → All (λ e. n.id ≢ e.1.id) rest
      → Left matches before (c + k) ((id, n) ∷ rest) s
      → Left matches before k rest
          (visit_node from_string new_version compare_semver sort_slice marshal
            (mock_storage matches)
            vulns
            n
            s).1
  unfolding visit_node
  visit_node-Left vulns c k id n rest s few later l =
      let left : Left matches before k rest s = behind-Left matches before s (omega arith) l in
      elim (Bool-cases (n.type == "library" && has_prefix n.name "pkg:")) [
        | inr passed ↦ rw passed left
        | inl visited ↦ rw visited (
            or_skip-keeps (Left matches before k rest) (purl_to_package from_string n.name) _ s left
              λ info. elim (Option-cases (lookup info.name vulns)) [
                | inl unlisted ↦ rw unlisted left
                | inr (vs, found) ↦
                    let (less, others) = few info.name vs found in
                    let v = visit matches before s l (ground (arith, visited)) later in
                    rw found (
                      continue-keeps (Left matches before k rest) _ _
                        (add_vulns-Left info vs k n rest s others
                          (fewer-Visits matches before s (omega (arith, less)) v))
                        (λ _ t p. p))
              ])
      ]

  visit_nodes-Left :
      (vulns : Map String (List Vulnerability)) (c : ℕ) (nodes : Map ℕ (Node B M))
      (s : MockStorage B M)
      → Few IsOther c vulns
      → Reading matches before c nodes s
      → Left matches before 0 []
          (visit_nodes from_string new_version compare_semver sort_slice marshal
            (mock_storage matches)
            vulns
            nodes
            s).1
  unfolding visit_nodes
  visit_nodes-Left vulns c [] s few r = none-Left matches before s r.left
  visit_nodes-Left vulns c ((id, n) ∷ nodes) s few r =
      let m = next matches before s r in
      continue-leads (Left matches before (length nodes * c) nodes) (Left matches before 0 []) _ _
        (visit_node-Left vulns c (length nodes * c) id n nodes s few m.later m.left)
        (λ t p. none-Left matches before t p)
        (λ _ t p. visit_nodes-Left vulns c nodes t few (m.reading t p))

-- Where what is read is a vulnerability that is not named like a package, and an id is left for each
-- of its entries at each node, a well-formed storage in memory that injects no error stays
-- well-formed and keeps all of its edges, whichever packages are affected.
pub vulnerabilities_lem :
    {B M V : Type 0} ⦃bm : Bitmap B⦄ (matches : String → String → Outcome Bool)
    (from_string : String → Outcome PackageUrl) (new_version : String → Option V)
    (compare_semver : V → V → Order) (sort_slice : (ℕ → ℕ → Bool) → List Event → List Event)
    (marshal : Vulnerability → Option M) (unmarshal : Bytes → Outcome Vulnerability) (bytes : Bytes)
    (v : Vulnerability) (s : MockStorage B M)
    → unmarshal bytes ≡ ok v
    → has_prefix v.id "pkg:" ≡ false
    → IsWellFormed s
    → s.faults ≡ no_faults
    → s.id_counter + length s.nodes * length v.affected < 2 ^ 32
    → let after =
        (vulnerabilities from_string new_version compare_semver sort_slice marshal
          (mock_storage matches)
          unmarshal
          bytes
          s).1 in
      IsWellFormed after × ((a b : ℕ) → Edge s a b → Edge after a b)
unfolding vulnerabilities
vulnerabilities_lem matches from_string new_version compare_semver sort_slice marshal unmarshal [] v
      s h other w quiet room =
    (w, λ a b e. e)
vulnerabilities_lem matches from_string new_version compare_semver sort_slice marshal unmarshal
      (b ∷ bytes) v s h other w quiet room =
    let c = length v.affected in
    let few = index_vulns-Few IsOther v v.affected 0 [] other (none-Few IsOther) in
    let few' : Few IsOther c (index_vulns v v.affected []) =
      λ name vs found. let (less, others) = few name vs found in (omega (arith, less), others) in
    let end =
      visit_nodes-Left matches from_string new_version compare_semver sort_slice marshal s
        (index_vulns v v.affected []) c _ s few' (read_all matches c s w quiet room) in
    rw (h, get_all_keys-quiet s quiet, get_nodes-quiet s quiet (keys s.nodes))
      (end.ready.well_formed, end.ready.kept)
