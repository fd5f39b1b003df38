-- ===== src/Storages/Tests/Ingested.antt =====
-- A document that is ingested over Redis, and the query of its first package.
use minefield.Prelude.{
  ℕ, List, [], ◌∷◌, ◌≡◌, refl, ◌↔◌, nat_eq, true, Option, some, Outcome, ok, arith, lookup, insert,
}
use minefield.Bitmap.Listed.{listed}
use minefield.Graph.Node.{Node, children_direction}
use minefield.Graph.Storage.{Storage, Bytes}
use minefield.Graph.Mock.{name_to_id, get_node, generate_id, save_node, save_cache}
use minefield.Graph.Mock.State.{MockStorage}
use minefield.Graph.Build.{add_node, set_dependency, create_node}
use minefield.Graph.Query.{query_bitmap}
use minefield.Graph.Query.Reach.{degree_sum}
use minefield.Graph.Tests.Data.{Meta, all_match}
use minefield.Ingest.Sbom.{NodeList, sbom}
use minefield.Ingest.Sbom.Queried.{Chain}
use minefield.Storages.Redis.{redis_storage}
use minefield.Storages.Redis.Queried.{ingested, redis_sbom-query_dependencies}
use minefield.Storages.Tests.Data.{
  Keyspace, no_keys, keyspace_client, keyspace_server, listed_format, unit_format,
}

-- two packages, of which the first depends on the second
abbrev document : NodeList Meta
document = record {
  nodes =
      record { metadata = tt; id = "1"; purl = "pkg:a"; name = "a"; version = "1" }
      ∷ record { metadata = tt; id = "2"; purl = ""; name = "b"; version = "2" }
      ∷ [];
  edges = record { from = "1"; to = "2" ∷ [] } ∷ [];
}

abbrev read : Bytes → Outcome (Option (NodeList Meta))
read bytes = ok (some document)

abbrev stored_package : Node (List ℕ) Meta
stored_package = record {
  metadata = tt;
  children = 2 ∷ [];
  parents = [];
  type = "library";
  name = "pkg:a";
  id = 1;
}

abbrev in_redis : Storage Keyspace (List ℕ) Meta
in_redis = redis_storage keyspace_client 9

abbrev in_memory : MockStorage (List ℕ) Meta
in_memory = ingested all_match read (7 ∷ [])

redis_sbom-query_dependencies_example :
    ((sbom in_redis read (7 ∷ []) no_keys).0 ≡ ok tt)
    × ((out : List ℕ) × (end : Keyspace) × (query_bitmap 2
            (some stored_package)
            (some in_redis)
            children_direction
            (sbom in_redis read (7 ∷ []) no_keys).1
          ≡ (ok out, end))
        × ((v : ℕ)
            → (listed.contains out v ≡ true) ↔ (
                (m : Node (List ℕ) Meta) × (lookup v in_memory.nodes ≡ some m)
                × Chain document "pkg:a" m.name)))
unfolding sbom add_node name_to_id lookup create_node generate_id save_node save_cache insert
    get_node set_dependency degree_sum
redis_sbom-query_dependencies_example =
    redis_sbom-query_dependencies keyspace_client keyspace_server all_match 9 read 7 [] document
      no_keys stored_package 2 refl ((("pkg:a", refl), (("pkg:b@2", refl), tt)), tt) (omega arith)
      refl (λ key. refl) (λ key. refl) refl (omega arith)
