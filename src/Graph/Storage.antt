-- ===== src/Graph/Storage.antt =====
-- The interface of pkg/graph/storage.go, over a state `S` of the backend.
use minefield.Prelude.{ℕ, String, Option, List, Map, Action}
use minefield.Graph.Node.{Node, NodeCache}

abbrev pub Bytes : Type 0
Bytes = List ℕ

pub record Storage (S B M : Type 0) : Type 0 where
  pub name_to_id : String → Action S ℕ
  pub save_node : Node B M → Action S (Unit {0})
  pub get_node : ℕ → Action S (Node B M)
  pub get_nodes : List ℕ → Action S (Map ℕ (Node B M))
  pub get_nodes_by_glob : String → Action S (List (Node B M))
  pub get_all_keys : Action S (List ℕ)
  pub save_cache : NodeCache B → Action S (Unit {0})
  pub save_caches : List (NodeCache B) → Action S (Unit {0})
  pub remove_all_caches : Action S (Unit {0})
  pub to_be_cached : Action S (List ℕ)
  pub add_node_to_cached_stack : ℕ → Action S (Unit {0})
  -- `SQLStorage.GetCache` returns a nil pointer and no error for a missing cache.
  pub get_cache : ℕ → Action S (Option (NodeCache B))
  pub get_caches : List ℕ → Action S (Map ℕ (NodeCache B))
  pub clear_cache_stack : Action S (Unit {0})
  pub generate_id : Action S ℕ
  pub get_custom_data : String → String → Action S (Map String Bytes)
  pub add_or_update_custom_data : String → String → String → Bytes → Action S (Unit {0})
