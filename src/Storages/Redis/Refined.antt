-- ===== src/Storages/Redis/Refined.antt =====
-- The storage in Redis refines the storage in memory, call by call.
use minefield.Prelude.{
  ℕ, ◌+◌, ◌^◌, ◌<◌, refl, arith, String, Bool, [], nat_eq, string_eq, text_eq, text_of, Outcome,
  pos,
}
use minefield.Utils.{uint32_to_str}
use minefield.Utils.Decimal.{parse_uint-uint32_to_str, str_to_uint32-uint32_to_str}
use minefield.Utils.Bounds.{int_to_uint32_iff}
use minefield.Graph.Node.{Node, NodeCache}
use minefield.Graph.Mock
use minefield.Graph.Mock.{mock_storage}
use minefield.Graph.Mock.State.{MockStorage}
use minefield.Graph.Mock.Quiet.{
  save_node-quiet, save_cache-quiet, add_node_to_cached_stack-quiet, clear_cache_stack-quiet,
  generate_id-quiet,
}
use minefield.Graph.Encode.{Format, NodeFormat}
use minefield.Graph.Encode.RoundTrip.{unmarshal_node-marshal_node, unmarshal_cache-marshal_cache}
use minefield.Storages.{node_key, name_key, cache_key, id_counter_key, cache_stack_key}
use minefield.Storages.Agree.{Agrees, both_ok}
use minefield.Storages.Refine.{Refines}
use minefield.Storages.Redis.{redis_storage}
use minefield.Storages.Redis.Replies.{parse_items}
use minefield.Storages.Redis
use minefield.Storages.Redis.Commands.{Client}
use minefield.Storages.Redis.Server.{Server}
use minefield.Storages.Redis.Related.{Related, HasRoom}
use minefield.Storages.Redis.Written.{
  node-Related, name-Related, cache-Related, stack-Related, push-Related, count-Related,
}
use minefield.Storages.Redis.Reads.{
  name_to_id-Agrees, get_node-Agrees, get_cache-Agrees, to_be_cached-Agrees, generate_id-lt,
  get_node-lt, name_to_id-state,
}

module _ {R B M : Type 0} ⦃format : Format B⦄ ⦃json : NodeFormat M⦄ (client : Client R)
    (server : Server client) where
  abbrev Same : {A : Type 0} → Outcome A × MockStorage B M → Outcome A × R → Type 0
  Same x y = Agrees (Related client server) x y

  save_node-Agrees :
      (n : Node B M) (m : MockStorage B M) (r : R)
      → n.id < 2 ^ 32
      → Related client server m r
      → Same (Mock.save_node n m) (Redis.save_node client n r)
  unfolding Redis.save_node Redis.add_node_to_cached_stack
  save_node-Agrees n m r small rel =
      let (text, write, reads) = unmarshal_node-marshal_node n small in
      let (r₁, set₁, w₁) = server.set-Writes (node_key n.id) text r rel.is_up in
      let rel₁ = node-Related client server m r r₁ rel n text small w₁ reads in
      let (r₂, set₂, w₂) =
        server.set-Writes (name_key (text_of n.name)) (uint32_to_str n.id) r₁ rel₁.is_up in
      let rel₂ =
        name-Related client server _ r₁ r₂ rel₁ n.name n.id (uint32_to_str n.id) w₂
          (str_to_uint32-uint32_to_str n.id small) in
      let (r₃, push₃, w₃) =
        server.rpush-Writes cache_stack_key (uint32_to_str n.id) r₂ rel₂.is_up rel₂.stack_free in
      rw (save_node-quiet m rel.quiet n, write, set₁, set₂, push₃)
        (both_ok (
          push-Related client server _ r₂ r₃ rel₂ (uint32_to_str n.id) n.id w₃
            (parse_uint-uint32_to_str n.id small)))

  save_cache-Agrees :
      (c : NodeCache B) (m : MockStorage B M) (r : R)
      → c.id < 2 ^ 32
      → Related client server m r
      → Same (Mock.save_cache c m) (Redis.save_cache client c r)
  unfolding Redis.save_cache
  save_cache-Agrees c m r small rel =
      let (text, write, reads) = unmarshal_cache-marshal_cache c small in
      let (r', set, w) = server.set-Writes (cache_key c.id) text r rel.is_up in
      rw (save_cache-quiet m rel.quiet c, write, set)
        (both_ok (cache-Related client server m r r' rel c text w reads))

  generate_id-Agrees :
      (m : MockStorage B M) (r : R)
      → HasRoom client server m
      → Related client server m r
      → Same (Mock.generate_id m) (Redis.generate_id client r)
  unfolding Redis.generate_id
  generate_id-Agrees m r room rel =
      let (r', count, w) =
        server.incr-Writes id_counter_key m.id_counter r rel.is_up rel.counter rel.counter_free
          (omega (arith, room)) in
      rw
        (
          generate_id-quiet m rel.quiet room,
          count,
          (int_to_uint32_iff (pos (m.id_counter + 1)) (m.id_counter + 1)).1 (refl, room),
        )
        (both_ok (count-Related client server m r r' rel (m.id_counter + 1) w))

  add_node_to_cached_stack-Agrees :
      (id : ℕ) (m : MockStorage B M) (r : R)
      → id < 2 ^ 32
      → Related client server m r
      → Same (Mock.add_node_to_cached_stack id m) (Redis.add_node_to_cached_stack client id r)
  unfolding Redis.add_node_to_cached_stack
  add_node_to_cached_stack-Agrees id m r small rel =
      let (r', push, w) =
        server.rpush-Writes cache_stack_key (uint32_to_str id) r rel.is_up rel.stack_free in
      rw (add_node_to_cached_stack-quiet m rel.quiet id, push)
        (both_ok (
          push-Related client server m r r' rel (uint32_to_str id) id w
            (parse_uint-uint32_to_str id small)))

  clear_cache_stack-Agrees :
      (m : MockStorage B M) (r : R)
      → Related client server m r
      → Same (Mock.clear_cache_stack m) (Redis.clear_cache_stack client r)
  unfolding Redis.clear_cache_stack parse_items
  clear_cache_stack-Agrees m r rel =
      let (r', del, w) = server.del-Writes cache_stack_key r rel.is_up in
      rw (clear_cache_stack-quiet m rel.quiet, del)
        (both_ok (stack-Related client server m r r' rel [] [] w refl))

  -- Over a server that answers and holds what the storage in memory holds, the storage in Redis
  -- agrees with the one in memory on the calls that build and query the graph: the same values are
  -- returned, a call fails where the other fails, and the server holds afterwards what the storage
  -- in memory holds. A new id is asked for while one more fits in 32 bits.
  pub redis_storage-Refines :
      (matches : String → String → Outcome Bool) (fuel : ℕ)
      → Refines {B = B} {M = M}
          (Related client server)
          (HasRoom client server)
          (mock_storage matches)
          (redis_storage client fuel)
  redis_storage-Refines matches fuel = record {
    name_to_id = name_to_id-Agrees client server;
    name_to_id-state = name_to_id-state client server;
    get_node = get_node-Agrees client server;
    get_node-lt = get_node-lt client server;
    save_node = save_node-Agrees;
    save_cache = save_cache-Agrees;
    generate_id = generate_id-Agrees;
    generate_id-lt = generate_id-lt client server;
    to_be_cached = to_be_cached-Agrees client server;
    get_cache = get_cache-Agrees client server;
    add_node_to_cached_stack = add_node_to_cached_stack-Agrees;
    clear_cache_stack = clear_cache_stack-Agrees;
  }
