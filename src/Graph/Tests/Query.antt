-- ===== src/Graph/Tests/Query.antt =====
-- Runs and witnesses for the queries.
use minefield.Prelude.{refl, some, lookup, nat_eq, arith}
use minefield.Bitmap.Listed.{listed}
use minefield.Graph.Mock.{mock_storage}
use minefield.Graph.Node.{children_direction, parents_direction}
use minefield.Graph.Query.{query_bitmap}
use minefield.Graph.Query.Reach.{degree_sum}
use minefield.Graph.Query.Correct.{Answers, query_dependencies_correct, query_dependents_correct}
use minefield.Graph.Build.{add_child, add_parent}
use minefield.Graph.Tests.Data.{all_match, node_a, node_b, chain}
use minefield.Graph.Tests.Build.{chain-IsWellFormed}

query_dependencies_correct_example :
    Answers all_match chain
      (add_child 2 node_a)
      9
      (λ m. m.children)
      (query_bitmap 9
        (some (add_child 2 node_a))
        (some (mock_storage all_match))
        children_direction
        chain)
unfolding lookup degree_sum
query_dependencies_correct_example =
    query_dependencies_correct all_match chain (add_child 2 node_a) 9 chain-IsWellFormed refl refl
      (omega arith)

query_dependents_correct_example :
    Answers all_match chain
      (add_parent 1 node_b)
      9
      (λ m. m.parents)
      (query_bitmap 9
        (some (add_parent 1 node_b))
        (some (mock_storage all_match))
        parents_direction
        chain)
unfolding lookup degree_sum
query_dependents_correct_example =
    query_dependents_correct all_match chain (add_parent 1 node_b) 9 chain-IsWellFormed refl refl
      (omega arith)
