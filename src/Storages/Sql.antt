-- ===== src/Storages/Sql.antt =====
-- pkg/storages/sql.go: the storage in a SQL database. A pointer that a caller passes is not nil.
pub mod Database
pub mod Batches
pub mod Missing
pub mod Rows
use minefield.Prelude.{
  ℕ, zero, suc, ◌+◌, String, Bool, true, false, ◌||◌, ltb, ◌^◌, ◌-◌, Option, none, some, List, [],
  ◌∷◌, map, length, if◌then◌else◌, ◌==◌, nat_eq, Map, insert, Text, text_of, trim_prefix, Error,
  errorf, wrap, node_already_exists, self_dependency, redis_nil, record_not_found, Outcome, ok, err,
  panic, out_of_fuel, Action, ◌>>=◌, ◌>>◌, pure, throw, lift, bind, wrapping, context, attempt,
}
use minefield.Utils.{uint32_to_str, parse_uint}
use minefield.Graph.Node.{Node, NodeCache}
use minefield.Graph.Storage.{Storage, Bytes}
use minefield.Graph.Encode.{
  Format, NodeFormat, marshal_node, unmarshal_node, marshal_cache, unmarshal_cache,
}
use minefield.Storages.{node_key, name_key, cache_key}
use Database.{KvStore}
use Database.{Database as Db}
use Rows.{
  convert_glob_to_sql_pattern, generate_node_keys, in_range, ids_of, is_not_found, first_of, behind,
  keyed_nodes, nodes_of, cache_rows, keyed_caches,
}

module _ {D : Type 0} (db : Db D) where
  unfoldable pub name_to_id : String → Action D ℕ
  name_to_id name = do
    kv ← context "failed to get name-to-ID mapping: %w" (db.first (name_key (text_of name)))
    id ← context "failed to convert ID to integer: %w" (lift (parse_uint kv.value))
    lift (in_range id)

  unfoldable pub remove_all_caches : Action D (Unit {0})
  remove_all_caches = context "failed to remove all caches: %w" (db.delete_like (text_of "cache:%"))

  unfoldable pub to_be_cached : Action D (List ℕ)
  to_be_cached = context "failed to get cache stack: %w" db.find_stack

  unfoldable pub add_node_to_cached_stack : ℕ → Action D (Unit {0})
  add_node_to_cached_stack id = context "failed to add node ID to cache stack: %w" (db.create id)

  unfoldable pub clear_cache_stack : Action D (Unit {0})
  clear_cache_stack = context "failed to clear cache stack: %w" db.delete_stack

  unfoldable pub generate_id : Action D ℕ
  generate_id = context "failed to generate ID: %w" db.create_counter

  unfoldable pub get_custom_data : String → String → Action D (Map String Bytes)
  get_custom_data tag key = throw (errorf "not implemented")

  unfoldable pub add_or_update_custom_data : String → String → String → Bytes → Action D (Unit {0})
  add_or_update_custom_data tag key data_key bytes = throw (errorf "not implemented")

module _ {D B M : Type 0} ⦃format : Format B⦄ ⦃json : NodeFormat M⦄ (db : Db D) where
  unfoldable pub save_node : Node B M → Action D (Unit {0})
  save_node node = do
    bytes ← context "failed to marshal node: %w" (lift (marshal_node node))
    db.transaction (do
      context "failed to save node data: %w"
          (db.save (record { key = node_key node.id; value = bytes }))
      context "failed to save name-to-ID mapping: %w"
          (db.save (record { key = name_key (text_of node.name); value = uint32_to_str node.id }))
      context "failed to add node ID to cache stack: %w" (db.create_or_ignore node.id))

  unfoldable pub get_node : ℕ → Action D (Node B M)
  get_node id = do
    kv ← context "failed to get node data: %w" (db.first (node_key id))
    context "failed to unmarshal node data: %w" (lift (unmarshal_node kv.value))

  unfoldable pub get_nodes : List ℕ → Action D (Map ℕ (Node B M))
  unfolding keyed_nodes
  get_nodes ids = do
    rows ← context "failed to get nodes: %w" (db.find_in (generate_node_keys ids))
    lift (keyed_nodes rows [])

  unfoldable pub get_nodes_by_glob : String → Action D (List (Node B M))
  unfolding ids_of nodes_of
  get_nodes_by_glob glob = do
    mappings ←
        context "failed to get name-to-ID mappings with pattern %s: %w"
          (db.find_like (name_key (convert_glob_to_sql_pattern (text_of glob))))
    elim mappings [
      | [] ↦ pure []
      | m ∷ more ↦ (do
        ids ← lift (ids_of (m ∷ more))
        rows ←
            context "failed to retrieve nodes for IDs %v: %w" (db.find_in (generate_node_keys ids))
        lift (nodes_of rows))
    ]

module _ {D B : Type 0} ⦃format : Format B⦄ (db : Db D) where
  unfoldable pub save_cache : NodeCache B → Action D (Unit {0})
  save_cache cache = do
    bytes ← context "failed to marshal cache: %w" (lift (marshal_cache cache))
    context "failed to save cache: %w"
        (db.save (record { key = cache_key cache.id; value = bytes }))

  -- the loop over the batches of 500; `fuel` bounds their number
  unfoldable pub save_batches : ℕ → List (NodeCache B) → Action D (Unit {0})
  unfolding cache_rows
  save_batches fuel [] = pure tt
  save_batches zero (cache ∷ caches) = lift out_of_fuel
  save_batches (suc fuel) (cache ∷ caches) = do
    rows ← lift (cache_rows (first_of 500 (cache ∷ caches)))
    context "failed to save caches batch: %w" (db.save_all rows)
    save_batches fuel (behind 500 (cache ∷ caches))

  -- A row that is missing gives a nil pointer and no error.
  unfoldable pub get_cache : ℕ → Action D (Option (NodeCache B))
  unfolding is_not_found
  get_cache id s =
      attempt (db.first (cache_key id) s)
        (λ kv. do
          cache ← context "failed to unmarshal cache: %w" (lift (unmarshal_cache kv.value))
          pure (some cache))
        (λ e. if is_not_found e then pure none else throw (wrap "failed to get cache: %w" e))

  unfoldable pub get_caches : List ℕ → Action D (Map ℕ (NodeCache B))
  unfolding keyed_caches
  get_caches ids = do
    rows ← context "failed to get caches: %w" (db.find_in (map cache_key ids))
    lift (keyed_caches rows [])

  -- There are no more batches than caches.
  unfoldable pub save_caches : List (NodeCache B) → Action D (Unit {0})
  unfolding save_batches
  save_caches caches = save_batches (length caches) caches

module _ {D : Type 0} (B M : Type 0) ⦃format : Format B⦄ ⦃json : NodeFormat M⦄ (db : Db D) where
  -- The nodes are read for their ids.
  unfoldable pub get_all_keys : Action D (List ℕ)
  unfolding nodes_of
  get_all_keys = do
    rows ← context "failed to get all node IDs: %w" (db.find_like (text_of "node:%"))
    nodes ← lift (nodes_of rows)
    pure (map (λ (n : Node B M). n.id) nodes)

module _ {D B M : Type 0} ⦃format : Format B⦄ ⦃json : NodeFormat M⦄ where
  abbrev pub sql_storage : Db D → Storage D B M
  sql_storage db = record {
    name_to_id = name_to_id db;
    save_node = save_node db;
    get_node = get_node db;
    get_nodes = get_nodes db;
    get_nodes_by_glob = get_nodes_by_glob db;
    get_all_keys = get_all_keys B M db;
    save_cache = save_cache db;
    save_caches = save_caches db;
    remove_all_caches = remove_all_caches db;
    to_be_cached = to_be_cached db;
    add_node_to_cached_stack = add_node_to_cached_stack db;
    get_cache = get_cache db;
    get_caches = get_caches db;
    clear_cache_stack = clear_cache_stack db;
    generate_id = generate_id db;
    get_custom_data = get_custom_data db;
    add_or_update_custom_data = add_or_update_custom_data db;
  }
