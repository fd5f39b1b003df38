-- ===== src/Graph/Encode/RoundTrip.antt =====
-- Nodes and caches are read back from their JSON.
use minefield.Prelude.{◌^◌, ◌<◌, ◌≡◌, ok}
use minefield.Graph.Node.{Node, NodeCache}
use minefield.Graph.Storage.{Bytes}
use minefield.Graph.Encode.{
  Format, NodeFormat, marshal_node, unmarshal_node, marshal_cache, unmarshal_cache,
}

module _ {B M : Type 0} ⦃format : Format B⦄ ⦃json : NodeFormat M⦄ where
  -- A node whose id has 32 bits is written as JSON without an error, and is read back from that
  -- text with all its fields.
  pub unmarshal_node-marshal_node :
      (n : Node B M)
      → n.id < 2 ^ 32
      → (t : Bytes) × (marshal_node n ≡ ok t) × (unmarshal_node t ≡ ok n)
  unfolding marshal_node unmarshal_node
  unmarshal_node-marshal_node n small =
      let (child_data, write_children, read_children) = format.from_buffer-to_bytes n.children in
      let (parent_data, write_parents, read_parents) = format.from_buffer-to_bytes n.parents in
      let (t, write, read) =
        json.node_from_json-to_json
          (record {
            metadata = n.metadata;
            type = n.type;
            name = n.name;
            child_data = child_data;
            parent_data = parent_data;
            id = n.id;
          })
          small in
      (t, rw (write_children, write_parents) write, rw (read, read_children, read_parents))

module _ {B : Type 0} ⦃format : Format B⦄ where
  -- A cache whose id has 32 bits is written as JSON without an error, and is read back from that
  -- text with both its bitmaps.
  pub unmarshal_cache-marshal_cache :
      (nc : NodeCache B)
      → nc.id < 2 ^ 32
      → (t : Bytes) × (marshal_cache nc ≡ ok t) × (unmarshal_cache t ≡ ok nc)
  unfolding marshal_cache unmarshal_cache
  unmarshal_cache-marshal_cache nc small =
      let (parents_data, write_parents, read_parents) =
        format.from_buffer-to_bytes nc.all_parents in
      let (children_data, write_children, read_children) =
        format.from_buffer-to_bytes nc.all_children in
      let (t, write, read) =
        format.cache_from_json-to_json
          (record {
            all_parents_data = parents_data;
            all_children_data = children_data;
            node_id = nc.id;
          })
          small in
      (t, rw (write_parents, write_children) write, rw (read, read_parents, read_children))
