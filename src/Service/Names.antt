-- ===== src/Service/Names.antt =====
-- The handlers `AddNode` and `GetNodeByName` together.
use minefield.Prelude.{
  ℕ, String, ◌≡◌, refl, inl, inr, Bool, some, lookup, lookup-insert_self, nat_eq, string_eq,
  Option-cases, Outcome, ok, arith,
}
use minefield.Bitmap.{Bitmap}
use minefield.Graph.Node.{Node}
use minefield.Graph.Storage.{Bytes}
use minefield.Graph.Mock.{mock_storage, name_to_id, get_node}
use minefield.Graph.Mock.State.{MockStorage, no_faults}
use minefield.Graph.Build.{add_node as add_graph_node}
use minefield.Graph.Build.Invariant.{IsWellFormed}
use minefield.Graph.Build.AddNode.{added_fresh, next, with_next_and_cache}
use minefield.Service.{ServiceNode, respond, add_node, get_node_by_name}

module _ {B M : Type 0} ⦃bm : Bitmap B⦄ (matches : String → String → Outcome Bool)
    (marshal : M → Outcome Bytes) (unpack : Bytes → M) where
  found_by_name :
      (name : String) (id : ℕ) (n : Node B M) (t : MockStorage B M)
      → t.faults ≡ no_faults
      → lookup name t.name_ids ≡ some id
      → lookup id t.nodes ≡ some n
      → get_node_by_name (mock_storage matches) marshal name t
        ≡ respond (mock_storage matches) marshal n t
  unfolding get_node_by_name name_to_id get_node
  found_by_name name id n t quiet known there = ground (arith, quiet, known, there)

  added :
      (request : ServiceNode) (s : MockStorage B M) (n : Node B M) (t : MockStorage B M)
      → add_graph_node (mock_storage matches) request.type (unpack request.metadata) request.name s
        ≡ (ok n, t)
      → add_node (mock_storage matches) marshal unpack request s
        ≡ respond (mock_storage matches) marshal n t
  unfolding add_node
  added request s n t h = rw h refl

  known_node :
      (request : ServiceNode) (s : MockStorage B M) (id : ℕ) (n : Node B M)
      → s.faults ≡ no_faults
      → lookup request.name s.name_ids ≡ some id
      → lookup id s.nodes ≡ some n
      → add_graph_node (mock_storage matches) request.type (unpack request.metadata) request.name s
        ≡ (ok n, s)
  unfolding add_graph_node name_to_id get_node
  known_node request s id n quiet known there = ground (arith, quiet, known, there)

  -- On a well-formed storage in memory that injects no error, `GetNodeByName` of the name
  -- that `AddNode` was just asked for gives the response of `AddNode`, the failure of
  -- `marshal` included, whether the name was known before or not, and changes nothing.
  pub get_node_by_name-add_node :
      (request : ServiceNode) (s : MockStorage B M)
      → IsWellFormed s
      → s.faults ≡ no_faults
      → get_node_by_name
          (mock_storage matches)
          marshal
          request.name
          (add_node (mock_storage matches) marshal unpack request s).1
        ≡ add_node (mock_storage matches) marshal unpack request s
  get_node_by_name-add_node request s w quiet =
      elim (Option-cases (lookup request.name s.name_ids)) [
        | inl fresh ↦
            let n = next matches request.type (unpack request.metadata) request.name s in
            let t =
              with_next_and_cache matches request.type (unpack request.metadata) request.name s in
            let made = added request s n t (
              added_fresh matches request.type (unpack request.metadata) request.name s
                (rw quiet refl) (rw quiet refl) (rw quiet refl) fresh) in
            rw made (
              found_by_name request.name n.id n t quiet
                (lookup-insert_self request.name n.id s.name_ids)
                (lookup-insert_self n.id n s.nodes))
        | inr (id, known) ↦
            let (n, there, e) = w.named request.name id known in
            let made = added request s n s (known_node request s id n quiet known there) in
            rw made (found_by_name request.name id n s quiet known there)
      ]
