-- ===== src/Service/Tests.antt =====
-- Runs and witnesses for the service.
use minefield.Prelude.{ℕ, List, [], ◌∷◌, ◌≡◌, refl, String, Bool, true, Outcome, ok}
use minefield.Bitmap.Listed.{listed}
use minefield.Graph.Storage.{Bytes}
use minefield.Graph.Mock.{mock_storage}
use minefield.Graph.Mock.State.{new_mock_storage}
use minefield.Graph.Build.Runs.{Run-IsWellFormed, new}
use minefield.Service.{ServiceNode, add_node, get_node_by_name}
use minefield.Service.Names.{get_node_by_name-add_node}

abbrev all_match : String → String → Outcome Bool
all_match pattern_text name = ok true

abbrev marshal : Bytes → Outcome Bytes
marshal bytes = ok bytes

abbrev unpack : Bytes → Bytes
unpack bytes = bytes

abbrev request : ServiceNode
request = record {
  id = 0;
  name = "a";
  type = "library";
  metadata = 5 ∷ [];
  dependencies = [];
  dependents = [];
}

get_node_by_name-add_node_example :
    get_node_by_name {B = List ℕ}
      (mock_storage all_match)
      marshal
      "a"
      (add_node (mock_storage all_match) marshal unpack request new_mock_storage).1
    ≡ add_node (mock_storage all_match) marshal unpack request new_mock_storage
get_node_by_name-add_node_example =
    get_node_by_name-add_node all_match marshal unpack request new_mock_storage
      (Run-IsWellFormed all_match new) refl
