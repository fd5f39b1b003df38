-- ===== src/Graph/Tests/Build.antt =====
-- Runs and witnesses for `AddNode` and `SetDependency`.
use minefield.Prelude.{
  ℕ, String, ◌≡◌, refl, ◌≢◌, ◌↔◌, ◌⊎◌, List, [], ◌∷◌, some, lookup, insert, nat_eq, string_eq, ◌==◌,
  if◌then◌else◌, Outcome, ok, errorf, arith,
}
use minefield.Bitmap.Listed.{listed}
use minefield.Graph.Node.{Node, new_node_cache}
use minefield.Graph.Mock.{mock_storage, name_to_id, generate_id, save_node, save_cache}
use minefield.Graph.Mock.State.{no_faults}
use minefield.Graph.Build.{add_node, create_node, set_dependency, new_node}
use minefield.Graph.Build.Invariant.{IsWellFormed, Edge}
use minefield.Graph.Build.AddNode.{add_node_fresh, add_node_duplicate}
use minefield.Graph.Build.SetDependency.{Edge-set_dependency}
use minefield.Graph.Build.Runs.{Run, new, adding, depending, Run-IsWellFormed}
use minefield.Graph.Tests.Data.{Meta, Store, all_match, node_a, node_b, one, two, chain}

one-Run : Run all_match one
unfolding add_node create_node name_to_id generate_id save_node save_cache lookup insert
one-Run = adding "library" tt "a" new refl (omega arith)

two-Run : Run all_match two
unfolding add_node create_node name_to_id generate_id save_node save_cache lookup insert
two-Run = adding "library" tt "b" one-Run refl (omega arith)

chain-Run : Run all_match chain
unfolding set_dependency save_node lookup insert
chain-Run = depending node_a node_b two-Run refl refl refl

one-IsWellFormed : IsWellFormed one
one-IsWellFormed = Run-IsWellFormed all_match one-Run

two-IsWellFormed : IsWellFormed two
two-IsWellFormed = Run-IsWellFormed all_match two-Run

pub chain-IsWellFormed : IsWellFormed chain
chain-IsWellFormed = Run-IsWellFormed all_match chain-Run

Run-IsWellFormed_example : IsWellFormed chain
Run-IsWellFormed_example = Run-IsWellFormed all_match chain-Run

Edge-set_dependency_example :
    Edge (set_dependency (some node_a) (some (mock_storage all_match)) (some node_b) two).1 1 2
    ↔ (Edge two 1 2 ⊎ (◌≡◌ {A = ℕ} 1 1) × (◌≡◌ {A = ℕ} 2 2))
unfolding lookup
Edge-set_dependency_example =
    Edge-set_dependency all_match node_a node_b two refl refl refl (omega arith) 1 2

abbrev grown : Outcome (Node (List ℕ) Meta) × Store
grown = add_node (mock_storage all_match) "library" tt "c" two

abbrev node_c : Node (List ℕ) Meta
node_c = new_node 3 "library" tt "c"

add_node_fresh_example :
    (grown.0 ≡ ok node_c)
    × ((id : ℕ) → lookup id grown.1.nodes ≡ (if 3 == id then some node_c else lookup id two.nodes))
    × ((k : String)
        → lookup k grown.1.name_ids ≡ (if "c" == k then some 3 else lookup k two.name_ids))
    × ((id : ℕ)
        → lookup id grown.1.cache
          ≡ (if 3 == id then some (new_node_cache 3 [] []) else lookup id two.cache))
    × (grown.1.stack ≡ 1 ∷ 2 ∷ 3 ∷ [])
    × (grown.1.id_counter ≡ 3)
    × (grown.1.db ≡ two.db)
    × (grown.1.faults ≡ two.faults)
unfolding lookup
add_node_fresh_example = add_node_fresh all_match "library" tt "c" two refl refl refl refl refl

-- the lookup by name fails, as on a lost connection
abbrev failing : Store
failing = record two { faults = record no_faults { name_to_id_err = some (errorf "timeout") } }

failing-IsWellFormed : IsWellFormed failing
failing-IsWellFormed =
    Run-IsWellFormed all_match
      (Run.inject (record no_faults { name_to_id_err = some (errorf "timeout") }) two-Run)

abbrev doubled : Outcome (Node (List ℕ) Meta) × Store
doubled = add_node (mock_storage all_match) "library" tt "b" failing

add_node_duplicate_example :
    (old : Node (List ℕ) Meta) × (lookup 2 doubled.1.nodes ≡ some old)
    × (old.name ≡ "b")
    × (lookup 3 doubled.1.nodes ≡ some (new_node 3 "library" tt "b"))
    × (◌≢◌ {A = ℕ} 2 3)
    × (lookup "b" doubled.1.name_ids ≡ some 3)
unfolding lookup
add_node_duplicate_example =
    add_node_duplicate all_match "library" tt "b" failing refl refl refl 2 (errorf "timeout")
      failing-IsWellFormed (omega arith) refl refl
