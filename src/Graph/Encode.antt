-- ===== src/Graph/Encode.antt =====
-- pkg/graph/graph.go: the JSON of nodes and caches. The parameters are the bytes of a roaring bitmap
-- and the two JSON calls on the anonymous structs; a byte string is a list of numbers.
pub mod RoundTrip
use minefield.Prelude.{ℕ, ◌^◌, ◌<◌, ◌≡◌, String, Outcome, ok, bind, wrapping}
use minefield.Graph.Node.{Node, NodeCache}
use minefield.Graph.Storage.{Bytes}

-- the struct that `Node.MarshalJSON` writes
pub record NodeData (M : Type 0) : Type 0 where
  pub metadata : M
  pub type : String
  pub name : String
  pub child_data : Bytes
  pub parent_data : Bytes
  pub id : ℕ

-- the struct that `NodeCache.MarshalJSON` writes
pub record CacheData : Type 0 where
  pub all_parents_data : Bytes
  pub all_children_data : Bytes
  pub node_id : ℕ

-- The calls of roaring and go-json on bitmaps and caches. Documented behaviour: what is written is
-- read back, where the number fits the field.
pub record Format (B : Type 0) : Type 0 where
  pub to_bytes : B → Outcome Bytes
  pub from_buffer : Bytes → Outcome B
  pub cache_to_json : CacheData → Outcome Bytes
  pub cache_from_json : Bytes → Outcome CacheData
  pub from_buffer-to_bytes : (b : B) → (t : Bytes) × (to_bytes b ≡ ok t) × (from_buffer t ≡ ok b)
  pub cache_from_json-to_json :
      (d : CacheData)
      → d.node_id < 2 ^ 32
      → (t : Bytes) × (cache_to_json d ≡ ok t) × (cache_from_json t ≡ ok d)

-- The calls of go-json on nodes; `M` is the type of the JSON values that `any` is read as.
pub record NodeFormat (M : Type 0) : Type 0 where
  pub node_to_json : NodeData M → Outcome Bytes
  pub node_from_json : Bytes → Outcome (NodeData M)
  pub node_from_json-to_json :
      (d : NodeData M)
      → d.id < 2 ^ 32
      → (t : Bytes) × (node_to_json d ≡ ok t) × (node_from_json t ≡ ok d)

module _ {B M : Type 0} ⦃format : Format B⦄ ⦃json : NodeFormat M⦄ where
  -- `Node.MarshalJSON`
  unfoldable pub marshal_node : Node B M → Outcome Bytes
  marshal_node n =
      bind (wrapping "failed to convert child bitmap to bytes: %w" (format.to_bytes n.children))
        λ child_data.
          bind (wrapping "failed to convert parent bitmap to bytes: %w" (format.to_bytes n.parents))
            λ parent_data. json.node_to_json (record {
              metadata = n.metadata;
              type = n.type;
              name = n.name;
              child_data = child_data;
              parent_data = parent_data;
              id = n.id;
            })

  -- `Node.UnmarshalJSON`
  unfoldable pub unmarshal_node : Bytes → Outcome (Node B M)
  unmarshal_node bytes =
      bind (wrapping "failed to unmarshal node data: %w" (json.node_from_json bytes)) λ aux.
        bind
          (wrapping "failed to convert child data from buffer: %w"
            (format.from_buffer aux.child_data))
          λ children.
            bind
              (wrapping "failed to convert parent data from buffer: %w"
                (format.from_buffer aux.parent_data))
              λ parents. ok (record {
                metadata = aux.metadata;
                children = children;
                parents = parents;
                type = aux.type;
                name = aux.name;
                id = aux.id;
              })

module _ {B : Type 0} ⦃format : Format B⦄ where
  -- `NodeCache.MarshalJSON`
  unfoldable pub marshal_cache : NodeCache B → Outcome Bytes
  marshal_cache nc =
      bind
        (wrapping "failed to convert AllParents bitmap to bytes: %w"
          (format.to_bytes nc.all_parents))
        λ all_parents_data.
          bind
            (wrapping "failed to convert AllChildren bitmap to bytes: %w"
              (format.to_bytes nc.all_children))
            λ all_children_data. format.cache_to_json (record {
              all_parents_data = all_parents_data;
              all_children_data = all_children_data;
              node_id = nc.id;
            })

  -- `NodeCache.UnmarshalJSON`
  unfoldable pub unmarshal_cache : Bytes → Outcome (NodeCache B)
  unmarshal_cache bytes =
      bind (wrapping "failed to unmarshal NodeCache data: %w" (format.cache_from_json bytes)) λ aux.
        bind
          (wrapping "failed to convert AllParents data from buffer: %w"
            (format.from_buffer aux.all_parents_data))
          λ all_parents.
            bind
              (wrapping "failed to convert AllChildren data from buffer: %w"
                (format.from_buffer aux.all_children_data))
              λ all_children. ok (record {
                all_parents = all_parents;
                all_children = all_children;
                id = aux.node_id;
              })
