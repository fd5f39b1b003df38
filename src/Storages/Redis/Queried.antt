-- ===== src/Storages/Redis/Queried.antt =====
-- What `QueryDependencies` answers over Redis on the graph of a document that `SBOM` has ingested.
use minefield.Prelude.{
  ℕ, suc, ◌^◌, ◌<◌, ◌≤◌, ◌≡◌, ◌↔◌, refl, ap, arith, String, Bool, true, none, some, [], ◌∷◌, All,
  length, lookup, nat_eq, string_eq, Text, Option, Outcome, ok,
}
use minefield.Bitmap.{Bitmap}
use minefield.Graph.Node.{Node, children_direction}
use minefield.Graph.Storage.{Storage, Bytes}
use minefield.Graph.Mock.{mock_storage}
use minefield.Graph.Mock.State.{MockStorage, new_mock_storage}
use minefield.Graph.Encode.{Format, NodeFormat}
use minefield.Graph.Build.Runs.{new-IsWellFormed}
use minefield.Graph.Query.{query_bitmap}
use minefield.Graph.Query.Reach.{degree_sum}
use minefield.Ingest.Ready.{IsReady}
use minefield.Ingest.Sbom.{NodeList, sbom}
use minefield.Ingest.Sbom.Filled.{purls}
use minefield.Ingest.Sbom.Edged.{IsGiven}
use minefield.Ingest.Sbom.Exact.{sbom-DependsOn}
use minefield.Ingest.Sbom.Queried.{Chain, sbom-query_dependencies}
use minefield.Storages.Agree.{Agrees-states}
use minefield.Storages.Refine.Graph.{query_bitmap-Agrees}
use minefield.Storages.Redis.{redis_storage}
use minefield.Storages.Redis.Commands.{Client}
use minefield.Storages.Redis.Server.{Server}
use minefield.Storages.Redis.Related.{Related, new-Related}
use minefield.Storages.Redis.Refined.{redis_storage-Refines}
use minefield.Storages.Redis.Ingested.{follows, sbom-Same}

-- what a document leaves in memory
abbrev pub ingested :
    {B M : Type 0} ⦃bm : Bitmap B⦄
    → (String → String → Outcome Bool)
    → (Bytes → Outcome (Option (NodeList M)))
    → Bytes
    → MockStorage B M
ingested matches parse bytes = (sbom (mock_storage matches) parse bytes new_mock_storage).1

module _ {R B M : Type 0} ⦃format : Format B⦄ ⦃json : NodeFormat M⦄ ⦃bm : Bitmap B⦄
    (client : Client R) (server : Server client) (matches : String → String → Outcome Bool)
    (scans : ℕ) (parse : Bytes → Outcome (Option (NodeList M))) (b : ℕ) (bytes : Bytes)
    (l : NodeList M) (r : R) where
  abbrev in_redis : Storage R B M
  in_redis = redis_storage client scans

  abbrev in_memory : MockStorage B M
  in_memory = ingested matches parse (b ∷ bytes)

  -- After a document whose edges join ids of its nodes is ingested over Redis, from an empty server
  -- that answers, which succeeds with an id for each of its nodes, the query of the dependencies of a
  -- stored node over Redis returns, with fuel above the number of edges, the ids of the nodes whose
  -- package URL the edges of the document lead to from the node's, itself among them, and no others.
  -- The ids are those that the document gets in memory.
  pub redis_sbom-query_dependencies :
      (n : Node B M) (fuel : ℕ)
      → parse (b ∷ bytes) ≡ ok (some l)
      → All (λ e. IsGiven (purls l.nodes []) e.from × All (IsGiven (purls l.nodes [])) e.to) l.edges
      → length l.nodes < 2 ^ 32
      → server.views.is_up r ≡ true
      → ((key : Text) → server.views.value r key ≡ none)
      → ((key : Text) → server.views.items r key ≡ [])
      → lookup n.id in_memory.nodes ≡ some n
      → suc (degree_sum (λ (m : Node B M). m.children) in_memory.nodes) ≤ fuel
      → ((sbom in_redis parse (b ∷ bytes) r).0 ≡ ok tt)
        × ((out : B) × (end : R) × (query_bitmap fuel
                (some n)
                (some in_redis)
                children_direction
                (sbom in_redis parse (b ∷ bytes) r).1
              ≡ (ok out, end))
            × ((v : ℕ)
                → (bm.contains out v ≡ true)
                  ↔ ((m : Node B M) × (lookup v in_memory.nodes ≡ some m) × Chain l n.name m.name)))
  redis_sbom-query_dependencies n fuel h given room up no_value no_items stored enough =
      let w = new-IsWellFormed {B = B} {M = M} matches in
      let (succeeds, _, _) =
        sbom-DependsOn matches parse b bytes l new_mock_storage h given w refl
          (omega (arith, room)) in
      let ready : IsReady matches new_mock_storage (length l.nodes) new_mock_storage = record {
        well_formed = w;
        quiet = refl;
        room = omega (arith, room);
        kept = λ a b e. e;
      } in
      let same =
        sbom-Same client server matches scans new_mock_storage parse b bytes l new_mock_storage r h
          ready (new-Related client server r up no_value no_items) in
      let (r', returns, _) =
        follows client server matches scans new_mock_storage tt in_memory _ _
          (ap (λ o. (o, in_memory)) succeeds) same in
      let (out, answers, exactly) =
        sbom-query_dependencies matches parse b bytes l in_memory n fuel h given room refl stored
          enough in
      let (end, query, _) =
        follows client server matches scans new_mock_storage out in_memory _ _ answers (
          query_bitmap-Agrees _ _ (mock_storage matches) in_redis
            (redis_storage-Refines client server matches scans) children_direction fuel (some n)
            in_memory (sbom in_redis parse (b ∷ bytes) r).1
            (Agrees-states (Related client server) _ _ same)) in
      (ap (λ o. o.0) returns, (out, end, query, exactly))
