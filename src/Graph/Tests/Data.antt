-- ===== src/Graph/Tests/Data.antt =====
-- The data of the tests.
use minefield.Prelude.{
  ℕ, String, List, [], ◌∷◌, Bool, true, some, Text, Outcome, ok, Action, ◌>>=◌, pure,
}
use minefield.Bitmap.Listed.{listed}
use minefield.Graph.Node.{Node, new_node_cache}
use minefield.Graph.Mock.{mock_storage, get_node}
use minefield.Graph.Mock.State.{MockStorage, no_faults}
use minefield.Graph.Build.{new_node, add_node, set_dependency, add_child, add_parent}

abbrev pub Meta : Type 0
Meta = Unit {0}

abbrev pub Store : Type 0
Store = MockStorage (List ℕ) Meta

abbrev pub all_match : String → String → Outcome Bool
all_match pattern_text name = ok true

-- a digest that keeps all of its text
abbrev pub digest : Text → List ℕ
digest t = t

abbrev pub node_a : Node (List ℕ) Meta
node_a = new_node 1 "library" tt "a"

abbrev pub node_b : Node (List ℕ) Meta
node_b = new_node 2 "library" tt "b"

abbrev pub one : Store
one = record {
  nodes = (1, node_a) ∷ [];
  name_ids = ("a", 1) ∷ [];
  cache = (1, new_node_cache 1 [] []) ∷ [];
  stack = 1 ∷ [];
  id_counter = 1;
  db = [];
  faults = no_faults;
}

abbrev pub two : Store
two = record {
  nodes = (1, node_a) ∷ (2, node_b) ∷ [];
  name_ids = ("a", 1) ∷ ("b", 2) ∷ [];
  cache = (1, new_node_cache 1 [] []) ∷ (2, new_node_cache 2 [] []) ∷ [];
  stack = 1 ∷ 2 ∷ [];
  id_counter = 2;
  db = [];
  faults = no_faults;
}

-- `a` depends on `b`.
abbrev pub chain : Store
chain = record two {
  nodes = (1, add_child 2 node_a) ∷ (2, add_parent 1 node_b) ∷ [];
  stack = 1 ∷ 2 ∷ 1 ∷ 2 ∷ [];
}

abbrev pub add : String → Action Store (Node (List ℕ) Meta)
add name = add_node (mock_storage all_match) "library" tt name

abbrev pub depend : ℕ → ℕ → Action Store (Unit {0})
depend a b = do
  n ← get_node a
  m ← get_node b
  _ ← set_dependency (some n) (some (mock_storage all_match)) (some m)
  pure tt
