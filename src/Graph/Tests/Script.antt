-- ===== src/Graph/Tests/Script.antt =====
-- Runs and witnesses for whole scripts.
use minefield.Prelude.{
  ℕ, String, List, [], ◌∷◌, ◌≡◌, refl, true, false, ◌&&◌, Option, some, none, Map, insert, Outcome,
  ok, lookup, nat_eq, string_eq, arith,
}
use minefield.Bitmap.Listed.{listed}
use minefield.Graph.Node.{Node, NodeCache, new_node_cache, children_direction, parents_direction}
use minefield.Graph.Mock.{mock_storage}
use minefield.Graph.Query.Reach.{degree_sum}
use minefield.Graph.Build.{add_child, add_parent}
use minefield.Graph.Parser.{
  Query, Expression, expression, nil_expression, query, parse_and_execute, index_names,
}
use minefield.Graph.Parser.Evaluate.{has_type, and_operator}
use minefield.Graph.Parser.Asked.{alone, combined, asks_dependencies, asks_dependents}
use minefield.Graph.Parser.Searched.{searched, IsReached}
use minefield.Graph.Parser.Execute.{parse_and_execute_cached, parse_and_execute_uncached}
use minefield.Graph.Tests.Data.{Meta, all_match, node_a, node_b, chain}
use minefield.Graph.Tests.Build.{chain-IsWellFormed}

abbrev stored_a : Node (List ℕ) Meta
stored_a = add_child 2 node_a

abbrev stored_b : Node (List ℕ) Meta
stored_b = add_parent 1 node_b

abbrev nodes : Map ℕ (Option (Node (List ℕ) Meta))
nodes = (1, some stored_a) ∷ (2, some stored_b) ∷ []

abbrev names : Map String ℕ
names = ("a", 1) ∷ ("b", 2) ∷ []

abbrev caches : Map ℕ (Option (NodeCache (List ℕ)))
caches =
    (1, some (new_node_cache 1 (1 ∷ []) (1 ∷ 2 ∷ [])))
    ∷ (2, some (new_node_cache 2 (1 ∷ 2 ∷ []) (2 ∷ [])))
    ∷ []

abbrev dependencies_of_default : Query
dependencies_of_default = record {
  query_type = "dependencies";
  node_type = "library";
  node_name = none;
}

abbrev dependents_of_b : Query
dependents_of_b = record { query_type = "dependents"; node_type = "library"; node_name = some "b" }

-- `dependencies library and dependents library b`
abbrev script : Expression
script =
    expression (query dependencies_of_default) (some "and")
      (expression (query dependents_of_b) none nil_expression)

abbrev parsed : String → Outcome Expression
parsed text = ok script

parse_and_execute_cached_example :
    (b : List ℕ) × (parse_and_execute parsed 9 ""
        (some (mock_storage all_match))
        "a"
        nodes
        caches
        true
        chain
      ≡ (ok b, chain))
    × ((v : ℕ)
        → listed.contains b v ≡ (
            listed.contains (1 ∷ 2 ∷ []) v
            && has_type nodes "library" v
            && (listed.contains (1 ∷ 2 ∷ []) v && has_type nodes "library" v)))
unfolding lookup insert index_names
parse_and_execute_cached_example =
    parse_and_execute_cached parsed 9 "" (some (mock_storage all_match)) "a" nodes caches names
      script
      (λ v.
        listed.contains (1 ∷ 2 ∷ []) v
        && has_type nodes "library" v
        && (listed.contains (1 ∷ 2 ∷ []) v && has_type nodes "library" v))
      chain refl refl
      (combined
        (asks_dependencies dependencies_of_default refl
          (stored_a, refl, refl, (new_node_cache 1 (1 ∷ []) (1 ∷ 2 ∷ []), refl)))
        and_operator
        (alone (
          asks_dependents dependents_of_b refl
            (stored_b, refl, refl, (new_node_cache 2 (1 ∷ 2 ∷ []) (2 ∷ []), refl)))))

parse_and_execute_uncached_example :
    (b : List ℕ) × (parse_and_execute parsed 9 ""
        (some (mock_storage all_match))
        "a"
        nodes
        []
        false
        chain
      ≡ (ok b, chain))
    × ((v : ℕ)
        → listed.contains b v ≡ (
            listed.contains (searched all_match chain 9 children_direction 1) v
            && has_type nodes "library" v
            && (listed.contains (searched all_match chain 9 parents_direction 2) v
                && has_type nodes "library" v)))
    × IsReached all_match chain 9 (λ m. m.children) children_direction
    × IsReached all_match chain 9 (λ m. m.parents) parents_direction
unfolding lookup insert index_names degree_sum
parse_and_execute_uncached_example =
    parse_and_execute_uncached parsed 9 "" all_match "a" nodes [] names script
      (λ v.
        listed.contains (searched all_match chain 9 children_direction 1) v
        && has_type nodes "library" v
        && (listed.contains (searched all_match chain 9 parents_direction 2) v
            && has_type nodes "library" v))
      chain chain-IsWellFormed refl (omega arith) (omega arith) refl refl
      (combined (asks_dependencies dependencies_of_default refl (stored_a, refl, refl, refl))
        and_operator (alone (asks_dependents dependents_of_b refl (stored_b, refl, refl, refl))))
