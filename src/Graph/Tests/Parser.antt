-- ===== src/Graph/Tests/Parser.antt =====
-- Runs and witnesses for the script queries.
use minefield.Prelude.{
  ℕ, String, List, [], ◌∷◌, ◌≡◌, refl, ◌||◌, ◌&&◌, Option, some, none, Map, ok, lookup, nat_eq,
  string_eq,
}
use minefield.Bitmap.Listed.{listed}
use minefield.Graph.Node.{Node}
use minefield.Graph.Parser.{
  Query, Expression, expression, nil_expression, query, iterate_expression,
}
use minefield.Graph.Parser.Evaluate.{
  has_type, single, joined, dependencies_of, dependents_of, or_operator, iterate_expression-Means,
}
use minefield.Graph.Tests.Data.{Meta, node_a, node_b}

abbrev nodes : Map ℕ (Option (Node (List ℕ) Meta))
nodes = (1, some node_a) ∷ (2, some node_b) ∷ []

abbrev names : Map String ℕ
names = ("a", 1) ∷ ("b", 2) ∷ []

abbrev dependencies_of_a : Query
dependencies_of_a = record {
  query_type = "dependencies";
  node_type = "library";
  node_name = some "a";
}

abbrev dependents_of_b : Query
dependents_of_b = record { query_type = "dependents"; node_type = "library"; node_name = some "b" }

-- `dependencies library a or dependents library b`
abbrev either : Expression
either =
    expression (query dependencies_of_a) (some "or")
      (expression (query dependents_of_b) none nil_expression)

abbrev found_dependencies : Map ℕ (List ℕ)
found_dependencies = (1, 1 ∷ 2 ∷ []) ∷ []

abbrev found_dependents : Map ℕ (List ℕ)
found_dependents = (2, 2 ∷ 1 ∷ []) ∷ []

iterate_expression-Means_example :
    (b : List ℕ) × (iterate_expression found_dependencies found_dependents names nodes "" either
      ≡ ok (some b))
    × ((v : ℕ)
        → listed.contains b v ≡ (
            listed.contains (1 ∷ 2 ∷ []) v && has_type nodes "library" v
            || listed.contains (2 ∷ 1 ∷ []) v && has_type nodes "library" v))
unfolding lookup
iterate_expression-Means_example =
    iterate_expression-Means found_dependencies found_dependents names nodes "" (
      joined (dependencies_of dependencies_of_a (1 ∷ 2 ∷ []) refl refl) or_operator
        (single nil_expression (dependents_of dependents_of_b (2 ∷ 1 ∷ []) refl refl)))
