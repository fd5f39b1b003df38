-- ===== src/Graph/Caching.antt =====
-- pkg/graph/cache.go: `Cache`.
pub mod Groups
pub mod BuildCache
use minefield.Prelude.{
  ℕ, List, [], ◌∷◌, length, Option, none, some, Map, Text, Outcome, ok, err, panic, out_of_fuel,
  Action, ◌>>=◌, ◌>>◌, pure, lift, context, wrapping, bind,
}
use minefield.Bitmap.{Bitmap}
use minefield.Utils.{uint32_to_str, str_to_uint32}
use minefield.Graph.Node.{NodeCache, new_node_cache, children_direction, parents_direction}
use minefield.Graph.Storage.{Storage}
use minefield.Graph.BindMap.{NativeKeyManagement, get, get_all_keys_and_values}
use minefield.Graph.Cycles.{find_cycles}
use minefield.Graph.Caching.BuildCache.{build_cache}

module _ {B : Type 0} ⦃bm : Bitmap B⦄ where
  -- the loop that pairs the children with the parents
  unfoldable pair_caches : NativeKeyManagement B → List (Text × B) → Outcome (List (NodeCache B))
  pair_caches cached_parents [] = ok []
  pair_caches cached_parents ((child_id, child_value) ∷ pairs) =
      bind (wrapping "error converting child key %s: %w" (str_to_uint32 child_id)) λ id.
        bind
          (wrapping "error getting value for key %s: %w" (get (uint32_to_str id) cached_parents).0)
          λ parent_value. bind (pair_caches cached_parents pairs) λ caches.
            ok (new_node_cache id (bm.add id parent_value) (bm.add id child_value) ∷ caches)

-- `fuel` bounds the depth of `findCycles` and the rounds of `buildCache`.
module _ {S B M : Type 0} ⦃bm : Bitmap B⦄ (sum256 : Text → List ℕ) (fuel : ℕ)
    (storage : Storage S B M) where
  unfoldable pub cache_nodes : List ℕ → Action S (Unit {0})
  unfolding pair_caches
  cache_nodes uncached_nodes = do
    keys ← context "error getting keys: %w" storage.get_all_keys
    all_nodes ← context "error getting all nodes: %w" (storage.get_nodes keys)
    scc ← lift (find_cycles all_nodes fuel (length keys))
    cached_children ←
        context "error building cached children: %w"
          (lift (build_cache sum256 fuel uncached_nodes children_direction scc all_nodes))
    cached_parents ←
        context "error building cached parents: %w"
          (lift (build_cache sum256 fuel uncached_nodes parents_direction scc all_nodes))
    pairs ←
        context "error getting cached child keys and values: %w"
          (lift (get_all_keys_and_values cached_children))
    caches ← lift (pair_caches cached_parents pairs)
    context "error saving caches: %w" (storage.save_caches caches)
    storage.clear_cache_stack

  unfoldable pub cache : Action S (Unit {0})
  cache = do
    uncached_nodes ← context "error getting uncached nodes: %w" storage.to_be_cached
    elim uncached_nodes [ [] ↦ pure tt | id ∷ ids ↦ cache_nodes (id ∷ ids) ]
