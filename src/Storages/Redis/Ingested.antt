-- ===== src/Storages/Redis/Ingested.antt =====
-- `SBOM` over Redis, against the same call over the storage in memory.
use minefield.Prelude.{
  ℕ, ◌+◌, ◌^◌, ◌<◌, ◌≡◌, subst, arith, String, Bool, some, List, [], inl, inr, ◌∷◌, ◌==◌,
  Bool-cases, length, insert, Map, nat_eq, string_eq, Option, Outcome, ok,
}
use minefield.Bitmap.{Bitmap}
use minefield.Graph.Node.{Node}
use minefield.Graph.Storage.{Storage, Bytes}
use minefield.Graph.Mock.{mock_storage, get_node}
use minefield.Graph.Mock.State.{MockStorage}
use minefield.Graph.Build.{set_dependency}
use minefield.Graph.Encode.{Format, NodeFormat}
use minefield.Ingest.Ready.{IsReady, IsStored, add_node-IsReady}
use minefield.Ingest.Attached.{add_node-Added}
use minefield.Ingest.Sbom.{
  SbomNode, SbomEdge, NodeList, purl_of, id_of, add_nodes, add_edge, add_targets, add_edges,
  add_document, sbom,
}
use minefield.Ingest.Sbom.Kept.{add_edge-Joined, get_cases, add_targets-IsReady, add_nodes-IsReady}
use minefield.Storages.Agree.{
  Agrees, both_ok, continue-Agrees, context-Agrees, context-ok, ok-Agrees,
}
use minefield.Storages.Refine.{Refines}
use minefield.Storages.Refine.Graph.{add_node-Agrees, set_dependency-Agrees}
use minefield.Storages.Redis.{redis_storage}
use minefield.Storages.Redis.Commands.{Client}
use minefield.Storages.Redis.Server.{Server}
use minefield.Storages.Redis.Related.{Related, HasRoom}
use minefield.Storages.Redis.Refined.{redis_storage-Refines}

module _ {R B M : Type 0} ⦃format : Format B⦄ ⦃json : NodeFormat M⦄ ⦃bm : Bitmap B⦄
    (client : Client R) (server : Server client) (matches : String → String → Outcome Bool)
    (scans : ℕ) (before : MockStorage B M) where
  abbrev in_memory : Storage (MockStorage B M) B M
  in_memory = mock_storage matches

  abbrev in_redis : Storage R B M
  in_redis = redis_storage client scans

  abbrev Rel : MockStorage B M → R → Type 0
  Rel = Related client server

  abbrev Same : {A : Type 0} → Outcome A × MockStorage B M → Outcome A × R → Type 0
  Same = Agrees Rel

  abbrev Room : MockStorage B M → Type 0
  Room = HasRoom client server

  refines : Refines Rel Room in_memory in_redis
  refines = redis_storage-Refines client server matches scans

  -- Where the call in memory returns, so does the one over Redis.
  pub follows :
      {A : Type 0} (a : A) (m : MockStorage B M) (x : Outcome A × MockStorage B M)
      (y : Outcome A × R)
      → x ≡ (ok a, m)
      → Same x y
      → (r : R) × (y ≡ (ok a, r)) × Rel m r
  follows a m x y e agree = ok-Agrees Rel a m y (subst (λ z. Same z y) e agree)

  add_nodes-Same :
      (ns : List (SbomNode M)) (ids : Map String ℕ) (m : MockStorage B M) (r : R)
      → IsReady matches before (length ns) m
      → Rel m r
      → Same (add_nodes in_memory ns ids m) (add_nodes in_redis ns ids r)
  unfolding add_nodes
  add_nodes-Same [] ids m r ready rel = both_ok rel
  add_nodes-Same (n ∷ ns) ids m r ready rel =
      let room : m.id_counter + 1 < 2 ^ 32 = omega (arith, ready.room) in
      let a =
        add_node-Added matches before {k = length ns} "library" n.metadata (purl_of n) ready in
      let (r', returns, rel') = follows a.node a.state _ _ a.returns (
        add_node-Agrees Rel Room in_memory in_redis refines "library" (purl_of n) n.metadata m r
          room rel) in
      let ready' =
        subst (λ (z : Outcome (Node B M) × MockStorage B M). IsReady matches before (length ns) z.1)
          a.returns (add_node-IsReady matches before "library" n.metadata (purl_of n) ready) in
      rw (a.returns, returns) (add_nodes-Same ns (insert n.id a.node.id ids) a.state r' ready' rel')

  add_edge-Same :
      (n k : Node B M) (m : MockStorage B M) (r : R)
      → IsStored matches before n m
      → IsStored matches before k m
      → Rel m r
      → Same (add_edge in_memory n k m) (add_edge in_redis n k r)
  unfolding add_edge
  add_edge-Same n k m r stored stored' rel = elim (Bool-cases (n.id == k.id)) [
    | inl same ↦ rw same (both_ok rel)
    | inr differ ↦ rw differ (
        continue-Agrees Rel _ _ _ _
          (context-Agrees Rel "failed to add edge %s -> %s: %w"
            (set_dependency (some n) (some in_memory) (some k))
            (set_dependency (some n) (some in_redis) (some k)) m r
            (set_dependency-Agrees Rel Room in_memory in_redis refines n k m r
              (rel.small n.id n stored) (rel.small k.id k stored') rel))
          (λ p m r _ rel. both_ok rel))
  ]

  add_targets-Same :
      (ids : Map String ℕ) (tos : List String) (n : Node B M) (m : MockStorage B M) (r : R)
      → IsReady matches before 0 m
      → IsStored matches before n m
      → Rel m r
      → Same (add_targets in_memory ids n tos m) (add_targets in_redis ids n tos r)
  unfolding add_targets
  add_targets-Same ids [] n m r ready stored rel = both_ok rel
  add_targets-Same ids (to ∷ tos) n m r ready stored rel =
      let agree = refines.get_node (id_of ids to) m r rel in
      elim (get_cases matches before (id_of ids to) ready) [
        | inl missing ↦
            continue-Agrees Rel _ _ _ _
              (context-Agrees Rel "failed to to get node %s: %w" (get_node (id_of ids to))
                (in_redis.get_node (id_of ids to)) m r agree)
              (λ k m' r' e _.
                let found =
                  context-ok "failed to to get node %s: %w" k m' (get_node (id_of ids to) m) e in
                absurd (ground (arith, found, missing)))
        | inr (k, found, stored') ↦
            let (r', returns, rel') = follows k m _ _ found agree in
            let j = add_edge-Joined matches before n k ready stored stored' in
            let (r'', joins, rel'') =
              follows j.start j.state _ _ j.returns (add_edge-Same n k m r' stored stored' rel') in
            rw (found, returns, j.returns, joins)
              (add_targets-Same ids tos j.start j.state r'' j.ready j.stored rel'')
      ]

  add_edges-Same :
      (ids : Map String ℕ) (es : List SbomEdge) (m : MockStorage B M) (r : R)
      → IsReady matches before 0 m
      → Rel m r
      → Same (add_edges in_memory ids es m) (add_edges in_redis ids es r)
  unfolding add_edges
  add_edges-Same ids [] m r ready rel = both_ok rel
  add_edges-Same ids (e ∷ es) m r ready rel =
      let agree = refines.get_node (id_of ids e.from) m r rel in
      elim (get_cases matches before (id_of ids e.from) ready) [
        | inl missing ↦
            continue-Agrees Rel _ _ _ _
              (context-Agrees Rel "failed to get from node %s: %w" (get_node (id_of ids e.from))
                (in_redis.get_node (id_of ids e.from)) m r agree)
              (λ k m' r' e' _.
                let found =
                  context-ok "failed to get from node %s: %w" k m' (get_node (id_of ids e.from) m)
                    e' in
                absurd (ground (arith, found, missing)))
        | inr (n, found, stored) ↦
            let (r', returns, rel') = follows n m _ _ found agree in
            rw (found, returns)
              (continue-Agrees Rel _ _ _ _ (add_targets-Same ids e.to n m r' ready stored rel')
                (λ _ m' r'' ended rel''.
                  add_edges-Same ids es m' r''
                    (subst
                      (λ (z : Outcome (Unit {0}) × MockStorage B M). IsReady matches before 0 z.1)
                      ended (add_targets-IsReady matches before ids e.to m n ready stored))
                    rel''))
      ]

  pub sbom-Same :
      (parse : Bytes → Outcome (Option (NodeList M))) (b : ℕ) (bytes : Bytes) (l : NodeList M)
      (m : MockStorage B M) (r : R)
      → parse (b ∷ bytes) ≡ ok (some l)
      → IsReady matches before (length l.nodes) m
      → Rel m r
      → Same (sbom in_memory parse (b ∷ bytes) m) (sbom in_redis parse (b ∷ bytes) r)
  unfolding sbom add_document
  sbom-Same parse b bytes l m r h ready rel = rw h (
      continue-Agrees Rel _ _ _ _ (add_nodes-Same l.nodes [] m r ready rel) (λ ids m' r' ended rel'.
        add_edges-Same ids l.edges m' r'
          (subst (λ (z : Outcome (Map String ℕ) × MockStorage B M). IsReady matches before 0 z.1)
            ended (add_nodes-IsReady matches before l.nodes m [] ready))
          rel'))
