-- ===== src/Graph/Mock.antt =====
-- pkg/graph/mockGraph.go: the storage in memory, with the errors that a test injects. The mutex
-- makes each method one atomic step, as an action is here. `filepath.Match` is the parameter
-- `matches`.
pub mod State
pub mod Quiet
pub mod Picked
use minefield.Prelude.{
  ℕ, suc, ◌+◌, ◌%◌, ◌^◌, String, ◌+++◌, Bool, true, false, Option, none, some, List, [], ◌∷◌, ◌++◌,
  map, if◌then◌else◌, Map, lookup, insert, keys, nat_eq, string_eq, Error, Outcome, ok, err, panic,
  out_of_fuel, Action, ◌>>=◌, ◌>>◌, pure, lift, bind, wrapping, fail_if, or_error, gets, modify,
}
use minefield.Graph.Node.{Node, NodeCache}
use minefield.Graph.Storage.{Storage, Bytes}
use State.{MockStorage}

module _ {B M : Type 0} where
  unfoldable pub save_node : Node B M → Action (MockStorage B M) (Unit {0})
  save_node node = do
    e ← gets (λ m. m.faults.save_node_err)
    fail_if e
    modify (λ m. record m { name_ids = insert node.name node.id m.name_ids })
    modify (λ m. record m { nodes = insert node.id node m.nodes })
    modify (λ m. record m { stack = m.stack ++ node.id ∷ [] })

  unfoldable pub get_node : ℕ → Action (MockStorage B M) (Node B M)
  get_node id = do
    e ← gets (λ m. m.faults.get_node_err)
    fail_if e
    nodes ← gets (λ m. m.nodes)
    or_error "node %v not found" (lookup id nodes)

  -- the loop of `GetNodesByGlob`
  unfoldable filter_glob : (String → Outcome Bool) → Map ℕ (Node B M) → Outcome (List (Node B M))
  filter_glob matches [] = ok []
  filter_glob matches ((_, node) ∷ nodes) =
      bind (wrapping "invalid glob pattern: %v" (matches node.name)) λ matched.
        bind (filter_glob matches nodes) λ rest. ok (if matched then node ∷ rest else rest)

  unfoldable pub get_nodes_by_glob :
      (String → String → Outcome Bool) → String → Action (MockStorage B M) (List (Node B M))
  unfolding filter_glob
  get_nodes_by_glob matches pattern_text = do
    e ← gets (λ m. m.faults.get_nodes_by_glob_err)
    fail_if e
    nodes ← gets (λ m. m.nodes)
    lift (filter_glob (matches pattern_text) nodes)

  unfoldable pub get_all_keys : Action (MockStorage B M) (List ℕ)
  get_all_keys = do e ← gets (λ m. m.faults.get_all_keys_err); fail_if e; gets (λ m. keys m.nodes)

  unfoldable pub save_cache : NodeCache B → Action (MockStorage B M) (Unit {0})
  save_cache cache = do
    e ← gets (λ m. m.faults.save_cache_err)
    fail_if e
    modify (λ m. record m { cache = insert cache.id cache m.cache })

  unfoldable pub to_be_cached : Action (MockStorage B M) (List ℕ)
  to_be_cached = do e ← gets (λ m. m.faults.to_be_cached_err); fail_if e; gets (λ m. m.stack)

  unfoldable pub add_node_to_cached_stack : ℕ → Action (MockStorage B M) (Unit {0})
  add_node_to_cached_stack id = do
    e ← gets (λ m. m.faults.add_node_to_cached_stack_err)
    fail_if e
    modify (λ m. record m { stack = m.stack ++ id ∷ [] })

  unfoldable pub clear_cache_stack : Action (MockStorage B M) (Unit {0})
  clear_cache_stack = do
    e ← gets (λ m. m.faults.clear_cache_stack_err)
    fail_if e
    modify (λ m. record m { stack = [] })

  unfoldable pub get_cache : ℕ → Action (MockStorage B M) (Option (NodeCache B))
  get_cache id = do
    e ← gets (λ m. m.faults.get_cache_err)
    fail_if e
    cache ← gets (λ m. m.cache)
    found ← or_error "cache not found" (lookup id cache)
    pure (some found)

  -- `uint32` wraps round.
  unfoldable pub generate_id : Action (MockStorage B M) ℕ
  generate_id = do
    e ← gets (λ m. m.faults.generate_id_err)
    fail_if e
    modify (λ m. record m { id_counter = (m.id_counter + 1) % 2 ^ 32 })
    gets (λ m. m.id_counter)

  unfoldable pub name_to_id : String → Action (MockStorage B M) ℕ
  name_to_id name = do
    e ← gets (λ m. m.faults.name_to_id_err)
    fail_if e
    name_ids ← gets (λ m. m.name_ids)
    or_error "node with name not found" (lookup name name_ids)

-- The loops of `GetNodes` and `GetCaches`: a missing id is skipped.
unfoldable pub pick : {V : Type 0} → Map ℕ V → List ℕ → Map ℕ V → Map ℕ V
pick m [] picked = picked
pick m (id ∷ ids) picked =
    pick m ids (elim (lookup id m) [ none ↦ picked | some v ↦ insert id v picked ])

-- the loop of `SaveCaches`
unfoldable pub save_all :
    {B : Type 0} → List (NodeCache B) → Map ℕ (NodeCache B) → Map ℕ (NodeCache B)
save_all [] cache = cache
save_all (c ∷ caches) cache = save_all caches (insert c.id c cache)

abbrev or_empty : {K V : Type 0} → Option (Map K V) → Map K V
or_empty none = []
or_empty (some m) = m

module _ {B M : Type 0} where
  unfoldable pub get_nodes : List ℕ → Action (MockStorage B M) (Map ℕ (Node B M))
  unfolding pick
  get_nodes ids = do
    e ← gets (λ m. m.faults.get_nodes_err)
    fail_if e
    gets (λ m. pick m.nodes ids [])

  unfoldable pub save_caches : List (NodeCache B) → Action (MockStorage B M) (Unit {0})
  unfolding save_all
  save_caches caches = do
    e ← gets (λ m. m.faults.save_caches_err)
    fail_if e
    modify (λ m. record m { cache = save_all caches m.cache })

  unfoldable pub get_caches : List ℕ → Action (MockStorage B M) (Map ℕ (NodeCache B))
  unfolding pick
  get_caches ids = do
    e ← gets (λ m. m.faults.get_caches_err)
    fail_if e
    gets (λ m. pick m.cache ids [])

  unfoldable pub remove_all_caches : Action (MockStorage B M) (Unit {0})
  remove_all_caches = do
    e ← gets (λ m. m.faults.remove_all_caches_err)
    fail_if e
    modify (λ m. record m { stack = m.stack ++ keys m.cache })
    modify (λ m. record m { cache = [] })

  unfoldable pub add_or_update_custom_data :
      String → String → String → Bytes → Action (MockStorage B M) (Unit {0})
  add_or_update_custom_data tag key data_key bytes = do
    e ← gets (λ m. m.faults.add_or_update_custom_data_err)
    fail_if e
    let full_key = tag +++ ":" +++ key
    old ← gets (λ m. or_empty (lookup full_key m.db))
    modify (λ m. record m { db = insert full_key (insert data_key bytes old) m.db })

  unfoldable pub get_custom_data : String → String → Action (MockStorage B M) (Map String Bytes)
  get_custom_data tag key = do
    e ← gets (λ m. m.faults.get_custom_data_err)
    fail_if e
    let full_key = tag +++ ":" +++ key
    db ← gets (λ m. m.db)
    or_error "no data found for tag: %s, key: %s" (lookup full_key db)

  abbrev pub mock_storage : (String → String → Outcome Bool) → Storage (MockStorage B M) B M
  mock_storage matches = record {
    name_to_id = name_to_id;
    save_node = save_node;
    get_node = get_node;
    get_nodes = get_nodes;
    get_nodes_by_glob = get_nodes_by_glob matches;
    get_all_keys = get_all_keys;
    save_cache = save_cache;
    save_caches = save_caches;
    remove_all_caches = remove_all_caches;
    to_be_cached = to_be_cached;
    add_node_to_cached_stack = add_node_to_cached_stack;
    get_cache = get_cache;
    get_caches = get_caches;
    clear_cache_stack = clear_cache_stack;
    generate_id = generate_id;
    get_custom_data = get_custom_data;
    add_or_update_custom_data = add_or_update_custom_data;
  }
