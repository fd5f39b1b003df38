-- ===== src/Storages/Redis/Reads.antt =====
-- The reading calls of the storage in Redis agree with those of the storage in memory.
use minefield.Prelude.{
  ℕ, ◌^◌, ◌<◌, ◌≡◌, arith, String, Option-cases, inl, inr, lookup, nat_eq, string_eq, text_eq,
  text_of, Outcome, ok,
}
use minefield.Utils.{str_to_uint32}
use minefield.Graph.Node.{Node}
use minefield.Graph.Mock
use minefield.Graph.Mock.{mock_storage}
use minefield.Graph.Mock.State.{MockStorage}
use minefield.Graph.Mock.Quiet.{
  name_to_id-quiet, get_node-quiet, get_cache-quiet, to_be_cached-quiet,
}
use minefield.Graph.Encode.{Format, NodeFormat, unmarshal_node, unmarshal_cache}
use minefield.Storages.{node_key, name_key, cache_key, cache_stack_key}
use minefield.Storages.Agree.{Agrees, both_ok, both_err}
use minefield.Storages.Redis.{redis_storage}
use minefield.Storages.Redis
use minefield.Storages.Redis.Commands.{Client}
use minefield.Storages.Redis.Server.{Server}
use minefield.Storages.Redis.Related.{Holds-cases, Related}

module _ {R B M : Type 0} ⦃format : Format B⦄ ⦃json : NodeFormat M⦄ (client : Client R)
    (server : Server client) where
  abbrev Same : {A : Type 0} → Outcome A × MockStorage B M → Outcome A × R → Type 0
  Same x y = Agrees (Related client server) x y

  pub name_to_id-Agrees :
      (name : String) (m : MockStorage B M) (r : R)
      → Related client server m r
      → Same (Mock.name_to_id name m) (Redis.name_to_id client name r)
  unfolding Redis.name_to_id Redis.id_of_name
  name_to_id-Agrees name m r rel = elim (Holds-cases str_to_uint32 _ _ (rel.names name)) [
    | inl (no_id, no_text) ↦
        let (_, missing) = server.get-missing (name_key (text_of name)) r rel.is_up no_text in
        rw (name_to_id-quiet m rel.quiet name, no_id, missing) (both_err rel)
    | inr (id, text, has_id, has_text, reads) ↦
        rw
          (
            name_to_id-quiet m rel.quiet name,
            has_id,
            server.get-found (name_key (text_of name)) text r rel.is_up has_text,
            reads,
          )
          (both_ok rel)
  ]

  pub get_node-Agrees :
      (id : ℕ) (m : MockStorage B M) (r : R)
      → Related client server m r
      → Same (Mock.get_node id m) (Redis.get_node client id r)
  unfolding Redis.get_node
  get_node-Agrees id m r rel = elim (Holds-cases unmarshal_node _ _ (rel.nodes id)) [
    | inl (no_node, no_text) ↦
        let (_, missing) = server.get-missing (node_key id) r rel.is_up no_text in
        rw (get_node-quiet m rel.quiet id, no_node, missing) (both_err rel)
    | inr (n, text, has_node, has_text, reads) ↦
        rw
          (
            get_node-quiet m rel.quiet id,
            has_node,
            server.get-found (node_key id) text r rel.is_up has_text,
            reads,
          )
          (both_ok rel)
  ]

  pub get_cache-Agrees :
      (id : ℕ) (m : MockStorage B M) (r : R)
      → Related client server m r
      → Same (Mock.get_cache id m) (Redis.get_cache client id r)
  unfolding Redis.get_cache
  get_cache-Agrees id m r rel = elim (Holds-cases unmarshal_cache _ _ (rel.caches id)) [
    | inl (no_cache, no_text) ↦
        let (_, missing) = server.get-missing (cache_key id) r rel.is_up no_text in
        rw (get_cache-quiet m rel.quiet id, no_cache, missing) (both_err rel)
    | inr (c, text, has_cache, has_text, reads) ↦
        rw
          (
            get_cache-quiet m rel.quiet id,
            has_cache,
            server.get-found (cache_key id) text r rel.is_up has_text,
            reads,
          )
          (both_ok rel)
  ]

  pub to_be_cached-Agrees :
      (m : MockStorage B M) (r : R)
      → Related client server m r
      → Same (Mock.to_be_cached m) (Redis.to_be_cached client r)
  unfolding Redis.to_be_cached
  to_be_cached-Agrees m r rel =
      rw
        (
          to_be_cached-quiet m rel.quiet,
          server.lrange_all cache_stack_key r rel.is_up rel.stack_free,
          rel.stack,
        )
        (both_ok rel)

  -- `GenerateID` in memory wraps, so that its ids always have 32 bits.
  pub generate_id-lt :
      (id : ℕ) (m m' : MockStorage B M)
      → Path (Outcome ℕ × MockStorage B M) (Mock.generate_id m) (ok id, m')
      → id < 2 ^ 32
  unfolding Mock.generate_id
  generate_id-lt id m m' h = ground (arith, h)

  pub get_node-lt :
      (id : ℕ) (n : Node B M) (m m' : MockStorage B M) (r : R)
      → Related client server m r
      → Path (Outcome (Node B M) × MockStorage B M) (Mock.get_node id m) (ok n, m')
      → n.id < 2 ^ 32
  get_node-lt id n m m' r rel h = elim (Option-cases (lookup id m.nodes)) [
    | inl no_node ↦ ground (arith, get_node-quiet m rel.quiet id, h, no_node)
    | inr (k, found) ↦ ground (arith, get_node-quiet m rel.quiet id, h, rel.small id k found)
  ]

  pub name_to_id-state : (name : String) (m : MockStorage B M) → (Mock.name_to_id name m).1 ≡ m
  unfolding Mock.name_to_id
  name_to_id-state name m = ground arith
