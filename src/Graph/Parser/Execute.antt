-- ===== src/Graph/Parser/Execute.antt =====
-- What `ParseAndExecute` returns for a script with no brackets.
use minefield.Prelude.{
  ℕ, suc, ◌≤◌, String, ◌≡◌, refl, Bool, true, false, Option, none, some, [], string_eq, nat_eq, Map,
  Outcome, ok,
}
use minefield.Bitmap.{Bitmap}
use minefield.Graph.Node.{Node, NodeCache, children_direction, parents_direction}
use minefield.Graph.Storage.{Storage}
use minefield.Graph.Mock.{mock_storage}
use minefield.Graph.Mock.State.{MockStorage}
use minefield.Graph.Build.Invariant.{IsWellFormed}
use minefield.Graph.Query.Reach.{degree_sum}
use minefield.Graph.Parser.Searched.{
  searched, IsStored, IsReached, searched-children, searched-parents, batch_dependencies-searched,
  batch_dependents-searched,
}
use minefield.Graph.Query.{
  batch_dependencies, batch_dependents, batch_query_dependencies, batch_query_dependents,
}
use minefield.Graph.Parser.{Expression, index_names, collect_packages, parse_and_execute}
use minefield.Graph.Parser.Evaluate.{iterate_expression-Means}
use minefield.Graph.Parser.Asked.{asked, collected, asked-IsKnown, Denotes, Denotes-Means}
use minefield.Graph.Parser.Answered.{
  loop-Batched, Batched, cached_children, cached_parents, IsCached, batch_dependencies-nil,
  batch_dependents-nil, batch_dependencies-cached, batch_dependents-cached,
}

module _ {S B M : Type 0} ⦃bm : Bitmap B⦄ (parse : String → Outcome Expression) (fuel : ℕ)
    (script : String) (storage : Option (Storage S B M)) (default_node_name : String)
    (nodes : Map ℕ (Option (Node B M))) (caches : Map ℕ (Option (NodeCache B)))
    (names : Map String ℕ) (e : Expression) (p : ℕ → Bool) (s : S) where
  module _ (is_cached : Bool) (dependencies dependents : ℕ → B)
      (IsAnswered : Node B M → Type 0) where
    executed :
        parse script ≡ ok e
        → index_names nodes [] ≡ ok names
        → Denotes names nodes default_node_name dependencies dependents IsAnswered e p
        → Batched names nodes dependencies "dependency not found: %s"
            (λ ns before. batch_dependencies fuel storage ns caches is_cached before)
            s
            (asked "dependencies" default_node_name e)
            []
        → Batched names nodes dependents "dependent not found: %s"
            (λ ns before. batch_dependents fuel storage ns caches is_cached before)
            s
            (asked "dependents" default_node_name e)
            []
        → (b : B) × (parse_and_execute parse fuel script storage default_node_name nodes caches
              is_cached s
            ≡ (ok b, s))
          × ((v : ℕ) → bm.contains b v ≡ p v)
    unfolding parse_and_execute collect_packages batch_query_dependencies batch_query_dependents
    executed parsed indexed d x y =
        let means =
          Denotes-Means names nodes default_node_name dependencies dependents IsAnswered x.out y.out
            d x.holds y.holds in
        let (b, r, h) = iterate_expression-Means x.out y.out names nodes default_node_name means in
        (
          b,
          rw
              (
                indexed,
                parsed,
                collected names nodes default_node_name dependencies dependents IsAnswered
                    (record { dependencies_to_query = []; dependents_to_query = [] }) d,
                x.resolves,
                y.resolves,
                x.returns,
                y.returns,
                r,
              )
              refl,
          h,
        )

  -- With caches given, a script with no brackets, each of whose packages is known and has a cache,
  -- gives the union, intersection or symmetric difference of the caches' bitmaps, of the children
  -- for dependencies and of the parents for dependents, restricted to the nodes of the type asked
  -- for; the storage is not changed.
  pub parse_and_execute_cached :
      parse script ≡ ok e
      → index_names nodes [] ≡ ok names
      → Denotes names nodes default_node_name
          (cached_children caches)
          (cached_parents caches)
          (IsCached caches)
          e
          p
      → (b : B) × (parse_and_execute parse fuel script storage default_node_name nodes caches true s
          ≡ (ok b, s))
        × ((v : ℕ) → bm.contains b v ≡ p v)
  parse_and_execute_cached parsed indexed d =
      executed true (cached_children caches) (cached_parents caches) (IsCached caches) parsed
        indexed d
        (loop-Batched names nodes (cached_children caches) (IsCached caches)
          "dependency not found: %s"
          (λ ns before. batch_dependencies fuel storage ns caches true before) s
          (batch_dependencies-nil fuel storage caches s true)
          (batch_dependencies-cached fuel storage caches s)
          (asked "dependencies" default_node_name e)
          (asked-IsKnown names nodes default_node_name (cached_children caches)
            (cached_parents caches) (IsCached caches) "dependencies" d)
          [])
        (loop-Batched names nodes (cached_parents caches) (IsCached caches)
          "dependent not found: %s"
          (λ ns before. batch_dependents fuel storage ns caches true before) s
          (batch_dependents-nil fuel storage caches s true)
          (batch_dependents-cached fuel storage caches s) (asked "dependents" default_node_name e)
          (asked-IsKnown names nodes default_node_name (cached_children caches)
            (cached_parents caches) (IsCached caches) "dependents" d)
          [])

-- With no caches used, on the storage in memory, which is well-formed and can be read, and with fuel
-- above the number of edges, a script with no brackets, each of whose packages is known and stored,
-- gives the union, intersection or symmetric difference of the sets of ids reached along children
-- for dependencies and along parents for dependents, restricted to the nodes of the type asked for;
-- the storage is not changed.
pub parse_and_execute_uncached :
    {B M : Type 0} ⦃bm : Bitmap B⦄ (parse : String → Outcome Expression) (fuel : ℕ)
    (script : String) (matches : String → String → Outcome Bool) (default_node_name : String)
    (nodes : Map ℕ (Option (Node B M))) (caches : Map ℕ (Option (NodeCache B)))
    (names : Map String ℕ) (e : Expression) (p : ℕ → Bool) (s : MockStorage B M)
    → IsWellFormed s
    → s.faults.get_node_err ≡ none
    → suc (degree_sum (λ m. m.children) s.nodes) ≤ fuel
    → suc (degree_sum (λ m. m.parents) s.nodes) ≤ fuel
    → parse script ≡ ok e
    → index_names nodes [] ≡ ok names
    → Denotes names nodes default_node_name
        (searched matches s fuel children_direction)
        (searched matches s fuel parents_direction)
        (IsStored matches s fuel)
        e
        p
    → (b : B) × (parse_and_execute parse fuel script
          (some (mock_storage matches))
          default_node_name
          nodes
          caches
          false
          s
        ≡ (ok b, s))
      × ((v : ℕ) → bm.contains b v ≡ p v)
      × IsReached matches s fuel (λ m. m.children) children_direction
      × IsReached matches s fuel (λ m. m.parents) parents_direction
parse_and_execute_uncached parse fuel script matches default_node_name nodes caches names e p s w up
      enough enough' parsed indexed d =
    let storage = some (mock_storage matches) in
    let ds = searched matches s fuel children_direction in
    let dd = searched matches s fuel parents_direction in
    let known = λ (type : String).
      asked-IsKnown names nodes default_node_name ds dd (IsStored matches s fuel) type d in
    let (b, r, h) =
      executed parse fuel script storage default_node_name nodes caches names e p s false ds dd
        (IsStored matches s fuel) parsed indexed d
        (loop-Batched names nodes ds (IsStored matches s fuel) "dependency not found: %s"
          (λ ns before. batch_dependencies fuel storage ns caches false before) s
          (batch_dependencies-nil fuel storage caches s false)
          (batch_dependencies-searched matches s fuel w up enough enough' caches)
          (asked "dependencies" default_node_name e) (known "dependencies") [])
        (loop-Batched names nodes dd (IsStored matches s fuel) "dependent not found: %s"
          (λ ns before. batch_dependents fuel storage ns caches false before) s
          (batch_dependents-nil fuel storage caches s false)
          (batch_dependents-searched matches s fuel w up enough enough' caches)
          (asked "dependents" default_node_name e) (known "dependents") []) in
    (
      b,
      r,
      h,
      searched-children matches s fuel w up enough enough',
      searched-parents matches s fuel w up enough enough',
    )
