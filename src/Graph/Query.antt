-- ===== src/Graph/Query.antt =====
-- pkg/graph/graph.go: the queries. `fuel` bounds the rounds of the loop of `queryBitmap`.
pub mod Reach
pub mod Fetch
pub mod Loop
pub mod Correct
use minefield.Prelude.{
  ℕ, zero, suc, String, Bool, true, false, Option, none, some, List, [], ◌∷◌, ◌++◌, if◌then◌else◌,
  ◌==◌, nat_eq, Map, lookup, insert, Error, errorf, Outcome, ok, err, panic, out_of_fuel, Action,
  ◌>>=◌, ◌>>◌, pure, throw, context, deref, require,
}
use minefield.Bitmap.{Bitmap}
use minefield.Graph.Node.{Direction, parents_direction, children_direction, other, Node, NodeCache}
use minefield.Graph.Storage.{Storage}

abbrev pub is_visited : ℕ → Map ℕ Bool → Bool
is_visited id visited = elim (lookup id visited) [ none ↦ false | some b ↦ b ]

module _ {B M : Type 0} where
  abbrev pub neighbours : Direction → Node B M → Option B
  neighbours children_direction n = some n.children
  neighbours parents_direction n = some n.parents
  neighbours (other _) n = none

module _ {S B M : Type 0} where
  -- the inner loop: the nodes that the ids name, in their order
  unfoldable pub fetch : Storage S B M → List ℕ → Action S (List (Node B M))
  fetch storage [] = pure []
  fetch storage (id ∷ ids) = do
    node ← context "failed to get node: %w" (storage.get_node id)
    rest ← fetch storage ids
    pure (node ∷ rest)

module _ {S B M : Type 0} ⦃bm : Bitmap B⦄ (storage : Storage S B M) (direction : Direction) where
  unfoldable pub query_loop : ℕ → Map ℕ Bool → B → List (Node B M) → Action S B
  query_loop fuel visited result [] s = (ok result, s)
  query_loop zero visited result (cur ∷ queue) s = (out_of_fuel, s)
  query_loop (suc fuel) visited result (cur ∷ queue) s =
      let skip = query_loop fuel visited result queue s in
      let expand =
        (do
          bitmap ← require (neighbours direction cur) (errorf "invalid direction during query: %s")
          nodes ← fetch storage (bm.to_array bitmap)
          query_loop fuel (insert cur.id true visited) (bm.or result bitmap) (queue ++ nodes))
          s in
      if is_visited cur.id visited then skip else expand

module _ {S B M : Type 0} ⦃bm : Bitmap B⦄ (fuel : ℕ) where
  unfoldable pub query_bitmap : Option (Node B M) → Option (Storage S B M) → Direction → Action S B
  unfolding query_loop
  query_bitmap n? storage? direction = do
    n ← require n? (errorf "cannot query bitmap of nil node")
    storage ← require storage? (errorf "storages cannot be nil")
    result ← query_loop storage direction fuel [] bm.empty (n ∷ [])
    pure (bm.add n.id result)

  abbrev pub query_dependents_no_cache : Option (Node B M) → Option (Storage S B M) → Action S B
  query_dependents_no_cache n storage = query_bitmap n storage parents_direction

  abbrev pub query_dependencies_no_cache : Option (Node B M) → Option (Storage S B M) → Action S B
  query_dependencies_no_cache n storage = query_bitmap n storage children_direction

  -- `QueryDependents` and `QueryDependencies` differ in the uncached query and in the field read.
  abbrev pub query_cached :
      (Option (Node B M) → Option (Storage S B M) → Action S B)
      → (NodeCache B → B)
      → Option (Node B M)
      → Option (Storage S B M)
      → Action S B
  query_cached no_cache field n? storage? = do
    storage ← deref storage?
    uncached_nodes ← storage.to_be_cached
    elim uncached_nodes [
      | [] ↦ (do
        n ← deref n?
        cache? ← storage.get_cache n.id
        cache ← deref cache?
        pure (field cache))
      | _ ∷ _ ↦ no_cache n? storage?
    ]

  unfoldable pub query_dependents : Option (Node B M) → Option (Storage S B M) → Action S B
  query_dependents = query_cached query_dependents_no_cache (λ c. c.all_parents)

  unfoldable pub query_dependencies : Option (Node B M) → Option (Storage S B M) → Action S B
  query_dependencies = query_cached query_dependencies_no_cache (λ c. c.all_children)

  -- the loop body and the loop of `BatchQueryDependents`
  unfoldable pub batch_dependents :
      Option (Storage S B M)
      → List (Option (Node B M))
      → Map ℕ (Option (NodeCache B))
      → Bool
      → Map ℕ B
      → Action S (Map ℕ B)
  batch_dependents storage [] caches is_cached result = pure result
  batch_dependents storage (node? ∷ nodes) caches false result = do
    ans ← query_dependents_no_cache node? storage
    node ← deref node?
    batch_dependents storage nodes caches false (insert node.id ans result)
  batch_dependents storage (node? ∷ nodes) caches true result = do
    node ← require node? (
        errorf
          "node is nil is because the node was not found in the cache. Please check the cache for the node before querying dependents.")
    cache? ←
        require (lookup node.id caches) (errorf "cache for node ID %d is nil or does not exist")
    cache ← require cache? (errorf "cache for node ID %d is nil or does not exist")
    batch_dependents storage nodes caches true (insert node.id cache.all_parents result)

  unfoldable pub batch_query_dependents :
      Option (Storage S B M)
      → List (Option (Node B M))
      → Map ℕ (Option (NodeCache B))
      → Bool
      → Action S (Map ℕ B)
  unfolding batch_dependents
  batch_query_dependents storage nodes caches is_cached =
      batch_dependents storage nodes caches is_cached []

  unfoldable pub batch_dependencies :
      Option (Storage S B M)
      → List (Option (Node B M))
      → Map ℕ (Option (NodeCache B))
      → Bool
      → Map ℕ B
      → Action S (Map ℕ B)
  batch_dependencies storage [] caches is_cached result = pure result
  batch_dependencies storage (node? ∷ nodes) caches is_cached result = do
    node ← require node? (
        errorf
          "node is nil is because the node was not found in the cache. Please check the cache for the node before querying dependencies")
    ans ← elim is_cached [
      | false ↦ query_dependencies_no_cache node? storage
      | true ↦ (do
        cache? ← deref (lookup node.id caches)
        cache ← deref cache?
        pure cache.all_children)
    ]
    batch_dependencies storage nodes caches is_cached (insert node.id ans result)

  unfoldable pub batch_query_dependencies :
      Option (Storage S B M)
      → List (Option (Node B M))
      → Map ℕ (Option (NodeCache B))
      → Bool
      → Action S (Map ℕ B)
  unfolding batch_dependencies
  batch_query_dependencies storage nodes caches is_cached =
      batch_dependencies storage nodes caches is_cached []
