-- ===== src/Storages/Sql/Rows.antt =====
-- The pure parts of pkg/storages/sql.go: patterns, keys, and the loops over rows.
use minefield.Prelude.{
  ℕ, zero, suc, Bool, true, false, ◌||◌, ltb, ◌^◌, ◌-◌, List, [], ◌∷◌, map, if◌then◌else◌, ◌==◌,
  nat_eq, Map, insert, Text, text_of, trim_prefix, Error, errorf, wrap, node_already_exists,
  self_dependency, redis_nil, record_not_found, Outcome, ok, err, bind, wrapping,
}
use minefield.Utils.{parse_uint}
use minefield.Graph.Node.{Node, NodeCache}
use minefield.Graph.Encode.{Format, NodeFormat, unmarshal_node, marshal_cache, unmarshal_cache}
use minefield.Storages.{node_key, cache_key}
use minefield.Storages.Sql.Database.{KvStore}

-- `convertGlobToSQLPattern`
unfoldable pub convert_glob_to_sql_pattern : Text → Text
convert_glob_to_sql_pattern [] = []
convert_glob_to_sql_pattern (c ∷ pattern_text) =
    let rest = convert_glob_to_sql_pattern pattern_text in
    if c == b'*'
    then b'%' ∷ rest
    else if c == b'?'
    then b'_' ∷ rest
    else if c == b'%' || c == b'_'
    then b'\\' ∷ c ∷ rest
    else c ∷ rest

-- `generateNodeKeys`
abbrev pub generate_node_keys : List ℕ → List Text
generate_node_keys ids = map node_key ids

-- `if id > math.MaxUint32`, behind `ParseUint` with 32 bits
abbrev pub in_range : ℕ → Outcome ℕ
in_range id = if ltb (2 ^ 32 - 1) id then err (errorf "ID exceeds uint32 maximum value") else ok id

-- the loop of `GetNodesByGlob` over the mappings
unfoldable pub ids_of : List KvStore → Outcome (List ℕ)
ids_of [] = ok []
ids_of (mapping ∷ mappings) =
    bind (wrapping "invalid ID format for key %s: %w" (parse_uint mapping.value))
      λ n. bind (in_range n) λ id. bind (ids_of mappings) λ ids. ok (id ∷ ids)

-- `errors.Is(err, gorm.ErrRecordNotFound)`
unfoldable pub is_not_found : Error → Bool
is_not_found record_not_found = true
is_not_found node_already_exists = false
is_not_found self_dependency = false
is_not_found redis_nil = false
is_not_found (errorf _) = false
is_not_found (wrap _ e) = is_not_found e

abbrev pub first_of : {A : Type 0} → ℕ → List A → List A
first_of zero l = []
first_of (suc n) [] = []
first_of (suc n) (a ∷ l) = a ∷ first_of n l

abbrev pub behind : {A : Type 0} → ℕ → List A → List A
behind zero l = l
behind (suc n) [] = []
behind (suc n) (a ∷ l) = behind n l

module _ {B M : Type 0} ⦃format : Format B⦄ ⦃json : NodeFormat M⦄ where
  -- the loop of `GetNodes`
  unfoldable pub keyed_nodes : List KvStore → Map ℕ (Node B M) → Outcome (Map ℕ (Node B M))
  keyed_nodes [] nodes = ok nodes
  keyed_nodes (kv ∷ rows) nodes =
      bind (wrapping "failed to unmarshal node: %w" (unmarshal_node kv.value)) λ node.
        bind
          (wrapping "failed to parse node ID: %w"
            (parse_uint (trim_prefix kv.key (text_of "node:"))))
          λ id. keyed_nodes rows (insert id node nodes)

  -- the loops of `GetNodesByGlob` and `GetAllKeys` over the rows of nodes
  unfoldable pub nodes_of : List KvStore → Outcome (List (Node B M))
  nodes_of [] = ok []
  nodes_of (kv ∷ rows) =
      bind (wrapping "failed to unmarshal node data: %w" (unmarshal_node kv.value))
        λ node. bind (nodes_of rows) λ nodes. ok (node ∷ nodes)

module _ {B : Type 0} ⦃format : Format B⦄ where
  -- the rows of one batch
  unfoldable pub cache_rows : List (NodeCache B) → Outcome (List KvStore)
  cache_rows [] = ok []
  cache_rows (cache ∷ caches) =
      bind (wrapping "failed to marshal cache: %w" (marshal_cache cache)) λ bytes.
        bind (cache_rows caches)
          λ rows. ok (record { key = cache_key cache.id; value = bytes } ∷ rows)

  -- the loop of `GetCaches`
  unfoldable pub keyed_caches : List KvStore → Map ℕ (NodeCache B) → Outcome (Map ℕ (NodeCache B))
  keyed_caches [] caches = ok caches
  keyed_caches (kv ∷ rows) caches =
      bind (wrapping "failed to unmarshal cache: %w" (unmarshal_cache kv.value)) λ cache.
        bind
          (wrapping "failed to parse ID from key: %w"
            (parse_uint (trim_prefix kv.key (text_of "cache:"))))
          λ n. bind (in_range n) λ id. keyed_caches rows (insert id cache caches)
