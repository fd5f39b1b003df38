-- ===== src/Graph/Mock/Quiet.antt =====
-- The storage in memory where no error is injected.
use minefield.Prelude.{
  ℕ, ◌+◌, ◌%◌, ◌^◌, ◌<◌, ◌≡◌, String, some, [], ◌∷◌, ◌++◌, lookup, insert, keys, nat_eq, string_eq,
  ok, arith, or_error, ◌>>=◌, pure,
}
use minefield.Graph.Node.{Node, NodeCache}
use minefield.Graph.Mock.{
  name_to_id, save_node, get_node, save_cache, get_cache, to_be_cached, add_node_to_cached_stack,
  clear_cache_stack, generate_id, get_all_keys,
}
use minefield.Graph.Mock.State.{MockStorage, no_faults}

module _ {B M : Type 0} (m : MockStorage B M) (h : m.faults ≡ no_faults) where
  pub name_to_id-quiet :
      (name : String)
      → name_to_id name m ≡ or_error "node with name not found" (lookup name m.name_ids) m
  unfolding name_to_id
  name_to_id-quiet name = ground (arith, h)

  pub get_node-quiet : (id : ℕ) → get_node id m ≡ or_error "node %v not found" (lookup id m.nodes) m
  unfolding get_node
  get_node-quiet id = ground (arith, h)

  pub get_cache-quiet :
      (id : ℕ)
      → get_cache id m
        ≡ (or_error "cache not found" (lookup id m.cache) >>= λ found. pure (some found)) m
  unfolding get_cache
  get_cache-quiet id = ground (arith, h)

  pub to_be_cached-quiet : to_be_cached m ≡ (ok m.stack, m)
  unfolding to_be_cached
  to_be_cached-quiet = ground (arith, h)

  pub get_all_keys-quiet : get_all_keys m ≡ (ok (keys m.nodes), m)
  unfolding get_all_keys
  get_all_keys-quiet = ground (arith, h)

  pub save_node-quiet :
      (n : Node B M)
      → save_node n m ≡ (
        ok tt,
        record m {
          nodes = insert n.id n m.nodes;
          name_ids = insert n.name n.id m.name_ids;
          stack = m.stack ++ n.id ∷ [];
        },
      )
  unfolding save_node
  save_node-quiet n = ground (arith, h)

  pub save_cache-quiet :
      (c : NodeCache B) → save_cache c m ≡ (ok tt, record m { cache = insert c.id c m.cache })
  unfolding save_cache
  save_cache-quiet c = ground (arith, h)

  pub add_node_to_cached_stack-quiet :
      (id : ℕ) → add_node_to_cached_stack id m ≡ (ok tt, record m { stack = m.stack ++ id ∷ [] })
  unfolding add_node_to_cached_stack
  add_node_to_cached_stack-quiet id = ground (arith, h)

  pub clear_cache_stack-quiet : clear_cache_stack m ≡ (ok tt, record m { stack = [] })
  unfolding clear_cache_stack
  clear_cache_stack-quiet = ground (arith, h)

  pub generate_id-quiet :
      m.id_counter + 1 < 2 ^ 32
      → generate_id m ≡ (ok (m.id_counter + 1), record m { id_counter = m.id_counter + 1 })
  unfolding generate_id
  generate_id-quiet room =
      let e : (m.id_counter + 1) % 2 ^ 32 ≡ m.id_counter + 1 = omega arith in ground (arith, h, e)
