-- ===== src/Graph/Mock/State.antt =====
-- The state of pkg/graph/mockGraph.go. The fields `dependencies`, `dependents` and `fullyCached`
-- are never read, and are left out.
use minefield.Prelude.{ℕ, String, Option, none, List, [], Map, Error}
use minefield.Graph.Node.{Node, NodeCache}
use minefield.Graph.Storage.{Bytes}

-- The fields for error injection.
pub record Faults : Type 0 where
  pub save_node_err : Option Error
  pub get_node_err : Option Error
  pub get_nodes_by_glob_err : Option Error
  pub get_all_keys_err : Option Error
  pub save_cache_err : Option Error
  pub to_be_cached_err : Option Error
  pub add_node_to_cached_stack_err : Option Error
  pub clear_cache_stack_err : Option Error
  pub get_cache_err : Option Error
  pub generate_id_err : Option Error
  pub name_to_id_err : Option Error
  pub get_nodes_err : Option Error
  pub save_caches_err : Option Error
  pub get_caches_err : Option Error
  pub remove_all_caches_err : Option Error
  pub add_or_update_custom_data_err : Option Error
  pub get_custom_data_err : Option Error

abbrev pub no_faults : Faults
no_faults = record {
  save_node_err = none;
  get_node_err = none;
  get_nodes_by_glob_err = none;
  get_all_keys_err = none;
  save_cache_err = none;
  to_be_cached_err = none;
  add_node_to_cached_stack_err = none;
  clear_cache_stack_err = none;
  get_cache_err = none;
  generate_id_err = none;
  name_to_id_err = none;
  get_nodes_err = none;
  save_caches_err = none;
  get_caches_err = none;
  remove_all_caches_err = none;
  add_or_update_custom_data_err = none;
  get_custom_data_err = none;
}

pub record MockStorage (B M : Type 0) : Type 0 where
  pub nodes : Map ℕ (Node B M)
  pub name_ids : Map String ℕ
  pub cache : Map ℕ (NodeCache B)
  pub stack : List ℕ
  pub id_counter : ℕ
  pub db : Map String (Map String Bytes)
  pub faults : Faults

module _ {B M : Type 0} where
  -- `NewMockStorage`
  abbrev pub new_mock_storage : MockStorage B M
  new_mock_storage = record {
    nodes = [];
    name_ids = [];
    cache = [];
    stack = [];
    id_counter = 0;
    db = [];
    faults = no_faults;
  }
