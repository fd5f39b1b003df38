-- ===== src/Graph/Tests/Caching.antt =====
-- Runs of `Cache`.
use minefield.Prelude.{
  ℕ, List, [], ◌∷◌, map, ◌≡◌, refl, lookup, insert, nat_eq, Action, ◌>>=◌, ◌>>◌,
}
use minefield.Bitmap.Listed.{listed}
use minefield.Graph.Mock.{
  mock_storage, save_node, save_cache, get_node, name_to_id, generate_id, to_be_cached,
  get_all_keys, get_nodes, save_caches, clear_cache_stack,
}
use minefield.Graph.Mock.State.{new_mock_storage}
use minefield.Graph.Caching.{cache, cache_nodes}
use minefield.Utils.{str_to_uint32, parse_uint, parse_digits, uint32_to_str, format_uint}
use minefield.Graph.BindMap.{bind_keys, set, get, get_all_keys_and_values}
use minefield.Graph.Cycles.{find_cycles, pop_component}
use minefield.Graph.Caching.BuildCache.{build_cache}
use minefield.Graph.Build.{add_node, create_node, set_dependency}
use minefield.Graph.Tests.Data.{Store, all_match, digest, add, depend}

-- a → b ⇄ c → d, all to be cached
abbrev cycle : Action Store (Unit {0})
cycle = do
  _ ← add "a"
  _ ← add "b"
  _ ← add "c"
  _ ← add "d"
  depend 1 2
  depend 2 3
  depend 3 2
  depend 3 4
  cache digest 40 (mock_storage all_match)

-- ... and then a node that nothing depends on
abbrev late : Action Store (Unit {0})
late = do cycle; _ ← add "e"; cache digest 40 (mock_storage all_match)

-- the id, the dependencies and the dependents of each cache
abbrev show : Store → List (ℕ × List ℕ × List ℕ)
show s =
    map (λ (_, c). (c.id, listed.to_array c.all_children, listed.to_array c.all_parents)) s.cache

-- Each cache holds what is reached; a later `Cache` call for the new node alone overwrites the
-- caches of all the others with incomplete ones.
caches_lost :
    (show (cycle new_mock_storage).1
      ≡ (1, 1 ∷ 2 ∷ 3 ∷ 4 ∷ [], 1 ∷ [])
        ∷ (2, 2 ∷ 3 ∷ 4 ∷ [], 1 ∷ 2 ∷ 3 ∷ [])
        ∷ (3, 2 ∷ 3 ∷ 4 ∷ [], 1 ∷ 2 ∷ 3 ∷ [])
        ∷ (4, 4 ∷ [], 1 ∷ 2 ∷ 3 ∷ 4 ∷ [])
        ∷ [])
    × (show (late new_mock_storage).1
        ≡ (1, 1 ∷ [], 1 ∷ [])
          ∷ (2, 2 ∷ 3 ∷ [], 2 ∷ 3 ∷ [])
          ∷ (3, 2 ∷ 3 ∷ [], 2 ∷ 3 ∷ [])
          ∷ (4, 4 ∷ [], 4 ∷ [])
          ∷ (5, 5 ∷ [], 5 ∷ [])
          ∷ [])
unfolding lookup insert add_node create_node set_dependency save_node save_cache get_node name_to_id
    generate_id to_be_cached get_all_keys get_nodes save_caches clear_cache_stack cache cache_nodes
    find_cycles pop_component build_cache bind_keys set get get_all_keys_and_values str_to_uint32
    parse_uint parse_digits uint32_to_str format_uint
caches_lost = (refl, refl)
