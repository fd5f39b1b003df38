-- ===== src/Storages/Redis.antt =====
-- pkg/storages/redis_storage.go: the storage in a Redis server. `fuel` bounds the rounds of the scan
-- of `RemoveAllCaches`.
pub mod Commands
pub mod Replies
pub mod Server
pub mod Related
pub mod Written
pub mod Reads
pub mod Refined
pub mod Exhausted
pub mod Served
pub mod Answers
pub mod Ingested
pub mod Queried
use minefield.Prelude.{
  ℕ, zero, suc, String, ◌+++◌, Option, none, some, List, [], ◌∷◌, ◌++◌, map, if◌then◌else◌, ◌==◌,
  nat_eq, Map, insert, Text, text_of, trim_prefix, pos, negsuc, Error, redis_nil, wrap, Outcome, ok,
  err, panic, out_of_fuel, Action, ◌>>=◌, ◌>>◌, pure, throw, lift, bind, wrapping, context,
}
use minefield.Utils.{uint32_to_str, parse_uint, str_to_uint32, int_to_uint32}
use minefield.Graph.Node.{Node, NodeCache}
use minefield.Graph.Storage.{Storage, Bytes}
use minefield.Graph.Encode.{
  Format, NodeFormat, marshal_node, unmarshal_node, marshal_cache, unmarshal_cache,
}
use minefield.Storages.{node_key, name_key, cache_key, id_counter_key, cache_stack_key}
use Commands.{Client, Command}
use Replies.{parse_items, parse_keys, collect_found, removal, queue_caches}

module _ {R : Type 0} (client : Client R) where
  -- a pipeline whose error is `redis.Nil` at most
  abbrev exec_gets : String → List Command → Action R (List (Outcome Text))
  exec_gets text cmds r =
      let ((e?, answers), r') = client.exec cmds r in
      elim e? [
        | none ↦ (ok answers, r')
        | some e ↦ elim e [ redis_nil ↦ (ok answers, r') | other ↦ (err (wrap text other), r') ]
      ]

  abbrev exec_all : String → List Command → Action R (Unit {0})
  exec_all text cmds r =
      let ((e?, answers), r') = client.exec cmds r in
      elim e? [ none ↦ (ok tt, r') | some e ↦ (err (wrap text e), r') ]

  unfoldable pub generate_id : Action R ℕ
  generate_id = do
    id ← context "failed to generate ID: %w" (client.incr id_counter_key)
    lift (int_to_uint32 id)

  unfoldable pub add_node_to_cached_stack : ℕ → Action R (Unit {0})
  add_node_to_cached_stack node_id =
      context "failed to add node %d to cached stack: %w"
        (client.rpush cache_stack_key (uint32_to_str node_id))

  -- `NameToID`, of the name as it stands in a key
  unfoldable pub id_of_name : Text → Action R ℕ
  id_of_name name = do
    id ← context "failed to get ID for name %s: %w" (client.get (name_key name))
    context "failed to convert ID to integer: %w" (lift (str_to_uint32 id))

  unfoldable pub name_to_id : String → Action R ℕ
  unfolding id_of_name
  name_to_id name = id_of_name (text_of name)

  unfoldable pub get_all_keys : Action R (List ℕ)
  get_all_keys = do
    keys ← context "failed to get all keys: %w" (client.keys (text_of "node:*"))
    lift (parse_keys keys)

  unfoldable pub to_be_cached : Action R (List ℕ)
  unfolding parse_items
  to_be_cached = do
    items ← context "failed to get %s data: %w" (client.lrange cache_stack_key (pos 0) (negsuc 0))
    lift (parse_items items)

  unfoldable pub clear_cache_stack : Action R (Unit {0})
  clear_cache_stack = context "failed to clear cache stack: %w" (client.del cache_stack_key)

  unfoldable pub remove_all_caches : ℕ → ℕ → Action R (Unit {0})
  remove_all_caches zero cursor r = (out_of_fuel, r)
  remove_all_caches (suc fuel) cursor r =
      (do
        (keys, cursor') ←
            context "failed to scan cache keys: %w" (client.scan cursor (text_of "cache:*") 1000)
        elim keys [
          | [] ↦ pure tt
          | key ∷ rest ↦ exec_all "failed to process cache keys: %w" (removal (key ∷ rest))
        ]
        if cursor' == 0 then pure tt else remove_all_caches fuel cursor')
        r

  abbrev custom_key : String → String → Text
  custom_key tag key = text_of (tag +++ ":" +++ key)

  unfoldable pub add_or_update_custom_data : String → String → String → Bytes → Action R (Unit {0})
  add_or_update_custom_data tag key datakey bytes =
      context "failed to set hash field: %w" (client.hset (custom_key tag key) datakey bytes)

  unfoldable pub get_custom_data : String → String → Action R (Map String Bytes)
  get_custom_data tag key =
      context "failed to get data from DB: %w" (client.hget_all (custom_key tag key))

module _ {R B M : Type 0} ⦃format : Format B⦄ ⦃json : NodeFormat M⦄ (client : Client R) where
  unfoldable pub save_node : Node B M → Action R (Unit {0})
  unfolding add_node_to_cached_stack
  save_node node = do
    bytes ← context "failed to marshal node: %w" (lift (marshal_node node))
    context "failed to save node data: %w" (client.set (node_key node.id) bytes)
    context "failed to save node name to ID mapping: %w"
        (client.set (name_key (text_of node.name)) (uint32_to_str node.id))
    context "failed to add node ID to %s set: %w" (add_node_to_cached_stack client node.id)

  unfoldable pub get_node : ℕ → Action R (Node B M)
  get_node id = do
    text ← context "failed to get node data for ID %d: %w" (client.get (node_key id))
    context "failed to unmarshal node data: %w" (lift (unmarshal_node text))

  -- the loop of `GetNodesByGlob`
  unfoldable nodes_of_keys : List Text → Action R (List (Node B M))
  unfolding id_of_name get_node
  nodes_of_keys [] = pure []
  nodes_of_keys (key ∷ keys) = do
    id ←
        context "failed to get ID for name %s: %w"
          (id_of_name client (trim_prefix key (text_of "name_to_id:")))
    node ← context "failed to get node for ID %d: %w" (get_node id)
    nodes ← nodes_of_keys keys
    pure (node ∷ nodes)

  unfoldable pub get_nodes_by_glob : String → Action R (List (Node B M))
  unfolding nodes_of_keys
  get_nodes_by_glob glob = do
    keys ← context "failed to get nodes by pattern %s: %w" (client.keys (name_key (text_of glob)))
    nodes_of_keys keys

  unfoldable pub get_nodes : List ℕ → Action R (Map ℕ (Node B M))
  unfolding collect_found
  get_nodes ids = do
    answers ← exec_gets client "failed to get nodes: %w" (map (λ id. Command.get (node_key id)) ids)
    lift (
        collect_found unmarshal_node "failed to get node data for ID %d: %w"
          "failed to unmarshal node data: %w" ids answers [])

module _ {R B : Type 0} ⦃format : Format B⦄ (client : Client R) where
  unfoldable pub save_cache : NodeCache B → Action R (Unit {0})
  save_cache cache = do
    bytes ← context "failed to marshal cache: %w" (lift (marshal_cache cache))
    client.set (cache_key cache.id) bytes

  -- A missing cache is an error here, and never a nil pointer.
  unfoldable pub get_cache : ℕ → Action R (Option (NodeCache B))
  get_cache node_id = do
    text ← context "failed to get cache for node %d: %w" (client.get (cache_key node_id))
    cache ← context "failed to unmarshal cache data: %w" (lift (unmarshal_cache text))
    pure (some cache)

  unfoldable pub get_caches : List ℕ → Action R (Map ℕ (NodeCache B))
  unfolding collect_found
  get_caches ids = do
    answers ←
        exec_gets client "failed to get caches: %w" (map (λ id. Command.get (cache_key id)) ids)
    lift (
        collect_found unmarshal_cache "failed to get cache data for ID %d: %w"
          "failed to unmarshal cache data: %w" ids answers [])

  unfoldable pub save_caches : List (NodeCache B) → Action R (Unit {0})
  unfolding queue_caches
  save_caches caches = do
    cmds ← lift (queue_caches caches)
    exec_all client "failed to save caches: %w" cmds

module _ {R B M : Type 0} ⦃format : Format B⦄ ⦃json : NodeFormat M⦄ where
  abbrev pub redis_storage : Client R → ℕ → Storage R B M
  redis_storage client fuel = record {
    name_to_id = name_to_id client;
    save_node = save_node client;
    get_node = get_node client;
    get_nodes = get_nodes client;
    get_nodes_by_glob = get_nodes_by_glob client;
    get_all_keys = get_all_keys client;
    save_cache = save_cache client;
    save_caches = save_caches client;
    remove_all_caches = remove_all_caches client fuel 0;
    to_be_cached = to_be_cached client;
    add_node_to_cached_stack = add_node_to_cached_stack client;
    get_cache = get_cache client;
    get_caches = get_caches client;
    clear_cache_stack = clear_cache_stack client;
    generate_id = generate_id client;
    get_custom_data = get_custom_data client;
    add_or_update_custom_data = add_or_update_custom_data client;
  }
