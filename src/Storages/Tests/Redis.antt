-- ===== src/Storages/Tests/Redis.antt =====
-- Runs and witnesses for the storage in Redis.
use minefield.Prelude.{
  ℕ, ◌-◌, ◌+◌, ◌^◌, none, if◌then◌else◌, ◌==◌, text_eq, text_of, Error, err, String, ◌≤◌, suc, ◌≡◌,
  refl, arith, List, [], ◌∷◌, some, lookup, insert, nat_eq, string_eq, Outcome, ok,
}
use minefield.Bitmap.Listed.{listed}
use minefield.Graph.Node.{Node, children_direction}
use minefield.Graph.Storage.{Bytes}
use minefield.Graph.Mock.{mock_storage, name_to_id, get_node, generate_id, save_node, save_cache}
use minefield.Graph.Mock.State.{MockStorage}
use minefield.Graph.Query.{query_bitmap}
use minefield.Graph.Query.Reach.{degree_sum}
use minefield.Graph.Build.Invariant.{IsWellFormed}
use minefield.Graph.Build.{add_node, set_dependency, create_node, add_child}
use minefield.Graph.Tests.Data.{Meta, all_match, node_a}
use minefield.Service
use minefield.Service.{ServiceNode}
use minefield.Storages.Refine.{Refines}
use minefield.Storages.Redis.{redis_storage}
use minefield.Storages.{name_key, id_counter_key}
use minefield.Storages.Redis.Exhausted.{add_node_exhausted}
use minefield.Storages.Redis.Server.{Writes}
use minefield.Storages.Redis.Related.{Related, HasRoom}
use minefield.Storages.Redis.Refined.{redis_storage-Refines}
use minefield.Storages.Redis.Served.{Request, adding, depending, serve, handle}
use minefield.Storages.Redis.Answers.{
  serve-Related, AnswersFrom, redis_query_dependencies_correct, memory,
}
use minefield.Utils.{uint32_to_str}
use minefield.Storages.Tests.Data.{
  listed_format, unit_format, Keyspace, no_keys, keyspace_client, keyspace_server,
}

redis_storage-Refines_example :
    Refines
      (Related {B = List ℕ} {M = Meta} keyspace_client keyspace_server)
      (HasRoom keyspace_client keyspace_server)
      (mock_storage all_match)
      (redis_storage keyspace_client 9)
redis_storage-Refines_example = redis_storage-Refines keyspace_client keyspace_server all_match 9

abbrev named : String → ServiceNode
named name = record {
  id = 0;
  name = name;
  type = "library";
  metadata = [];
  dependencies = [];
  dependents = [];
}

-- `a` and `b` are added, and `a` depends on `b`.
abbrev requests : List Request
requests = adding (named "a") ∷ adding (named "b") ∷ depending 1 2 ∷ []

abbrev no_bytes : Meta → Outcome Bytes
no_bytes _ = ok []

abbrev no_metadata : Bytes → Meta
no_metadata _ = tt

abbrev stored : MockStorage (List ℕ) Meta
stored = memory all_match no_bytes no_metadata requests

serve-Related_example :
    Related keyspace_client keyspace_server stored
      (serve {B = List ℕ} (redis_storage keyspace_client 9) no_bytes no_metadata requests no_keys)
    × IsWellFormed stored
serve-Related_example =
    serve-Related keyspace_client keyspace_server all_match no_bytes no_metadata 9 requests no_keys
      (omega arith) refl (λ _. refl) (λ _. refl)

abbrev served : Keyspace
served = serve {B = List ℕ} (redis_storage keyspace_client 9) no_bytes no_metadata requests no_keys

a_stored : lookup 1 stored.nodes ≡ some (add_child 2 node_a)
unfolding serve handle Service.add_node Service.set_dependency add_node set_dependency create_node
    name_to_id get_node generate_id save_node save_cache lookup insert
a_stored = refl

few_edges : suc (degree_sum (λ (m : Node (List ℕ) Meta). m.children) stored.nodes) ≤ 9
unfolding serve handle Service.add_node Service.set_dependency add_node set_dependency create_node
    name_to_id get_node generate_id save_node save_cache lookup insert degree_sum
few_edges = omega arith

redis_query_dependencies_correct_example :
    AnswersFrom {B = List ℕ} {M = Meta} keyspace_client keyspace_server all_match no_bytes
      no_metadata 9 requests no_keys
      (omega arith)
      refl
      (λ _. refl)
      (λ _. refl)
      (add_child 2 node_a)
      9
      a_stored
      (λ m. m.children)
      (query_bitmap 9
        (some (add_child 2 node_a))
        (some (redis_storage keyspace_client 9))
        children_direction
        served)
redis_query_dependencies_correct_example =
    redis_query_dependencies_correct keyspace_client keyspace_server all_match no_bytes no_metadata
      9 requests no_keys (omega arith) refl (λ _. refl) (λ _. refl) (add_child 2 node_a) 9 a_stored
      few_edges

-- All ids of 32 bits have been given.
abbrev all_counted : Keyspace
all_counted = record no_keys {
  strings = λ k. if k == id_counter_key then some (uint32_to_str (2 ^ 32 - 1)) else none;
}

add_node_exhausted_example :
    (e : Error) × (after : Keyspace) × Path
      (Outcome (Node (List ℕ) Meta) × Keyspace)
      (add_node (redis_storage keyspace_client 9) "library" tt "a" all_counted)
      (err e, after)
    × Writes keyspace_server.views id_counter_key
        (some (uint32_to_str (2 ^ 32 - 1 + 1)))
        []
        all_counted
        after
unfolding name_key id_counter_key text_of
add_node_exhausted_example =
    add_node_exhausted keyspace_client keyspace_server 9 (2 ^ 32 - 1) "library" tt "a" all_counted
      refl refl refl refl (omega arith) (omega arith)
