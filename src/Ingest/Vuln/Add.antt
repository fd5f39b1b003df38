-- ===== src/Ingest/Vuln/Add.antt =====
-- pkg/tools/ingest/vuln.go: `Vulnerabilities`. The package encoding/json is the pair of parameters
-- `unmarshal`, `marshal`.
use minefield.Prelude.{
  ℕ, String, Bool, ◌&&◌, Option, none, some, List, [], ◌∷◌, ◌++◌, ◌==◌, string_eq, if◌then◌else◌,
  Map, lookup, insert, errorf, Outcome, ok, err, panic, out_of_fuel, Action, ◌>>=◌, ◌>>◌, pure,
  throw, lift, context,
}
use minefield.Bitmap.{Bitmap}
use minefield.Graph.Node.{Node}
use minefield.Graph.Storage.{Storage, Bytes}
use minefield.Graph.Build.{add_node, set_dependency}
use minefield.Ingest.Purl.{PackageUrl, PackageInfo, has_prefix, purl_to_package}
use minefield.Ingest.Vuln.{Vulnerability, Affected, Event, Order, is_package_affected}

-- the loop that fills `vulnMap`
unfoldable pub index_vulns :
    Vulnerability
    → List Affected
    → Map String (List Vulnerability)
    → Map String (List Vulnerability)
index_vulns vuln [] vuln_map = vuln_map
index_vulns vuln (a ∷ others) vuln_map =
    let old : List Vulnerability = elim (lookup a.name vuln_map) [ none ↦ [] | some vs ↦ vs ] in
    index_vulns vuln others (insert a.name (old ++ vuln ∷ []) vuln_map)

-- `if err != nil { continue }`
abbrev pub or_skip : {S A : Type 0} → Outcome A → (A → Action S (Unit {0})) → Action S (Unit {0})
or_skip (ok a) next = next a
or_skip (err _) next = pure tt
or_skip panic next = lift panic
or_skip out_of_fuel next = lift out_of_fuel

module _ {S B M V : Type 0} ⦃bm : Bitmap B⦄ (from_string : String → Outcome PackageUrl)
    (new_version : String → Option V) (compare_semver : V → V → Order)
    (sort_slice : (ℕ → ℕ → Bool) → List Event → List Event) (marshal : Vulnerability → Option M)
    (storage : Storage S B M) where
  -- The loop over the vulnerabilities of one node, which is returned as it is left. An error of
  -- `marshal` is kept in a list that is not read again.
  unfoldable pub add_vulns : PackageInfo → Node B M → List Vulnerability → Action S (Node B M)
  add_vulns info node [] s = (ok node, s)
  add_vulns info node (v ∷ vs) s =
      let skip = add_vulns info node vs s in
      elim (marshal v) [
        | none ↦ skip
        | some metadata ↦
            let add =
              (do
                vuln_node ←
                    context "failed to add vulnerabilityType node to storage: %w"
                      (add_node storage "vuln" metadata v.id)
                (n, _) ←
                    context "failed to add dependency edge to vulnerabilityType node: %w"
                      (set_dependency (some node) (some storage) (some vuln_node))
                add_vulns info n vs)
                s in
            if is_package_affected new_version compare_semver sort_slice v info then add else skip
      ]

  -- the body of the loop over the nodes
  unfoldable pub visit_node : Map String (List Vulnerability) → Node B M → Action S (Unit {0})
  unfolding add_vulns
  visit_node vuln_map node =
      if node.type == "library" && has_prefix node.name "pkg:"
      then or_skip (purl_to_package from_string node.name) (λ info.
        elim (lookup info.name vuln_map) [
          | none ↦ pure tt
          | some vulns ↦ (do _ ← add_vulns info node vulns; pure tt)
        ])
      else pure tt

  unfoldable pub visit_nodes :
      Map String (List Vulnerability) → Map ℕ (Node B M) → Action S (Unit {0})
  unfolding visit_node
  visit_nodes vuln_map [] = pure tt
  visit_nodes vuln_map ((_, node) ∷ nodes) = do visit_node vuln_map node; visit_nodes vuln_map nodes

  unfoldable pub vulnerabilities : (Bytes → Outcome Vulnerability) → Bytes → Action S (Unit {0})
  unfolding visit_nodes index_vulns
  vulnerabilities unmarshal [] = throw (errorf "data is empty")
  vulnerabilities unmarshal (b ∷ bytes) = do
    vuln ← context "failed to unmarshal vulnerabilityType data: %w" (lift (unmarshal (b ∷ bytes)))
    keys ← context "failed to get all keys: %w" storage.get_all_keys
    nodes ← context "failed to get nodes from storage: %w" (storage.get_nodes keys)
    visit_nodes (index_vulns vuln vuln.affected []) nodes
