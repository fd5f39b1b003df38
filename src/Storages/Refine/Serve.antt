-- ===== src/Storages/Refine/Serve.antt =====
-- The handlers of api/v1/service.go over two backends, where one refines the other.
use minefield.Prelude.{ℕ, String, Outcome, wrapping}
use minefield.Bitmap.{Bitmap}
use minefield.Graph.Node.{Node}
use minefield.Graph.Storage.{Storage, Bytes}
use minefield.Graph.Build.{add_node as add_graph_node}
use minefield.Service.{
  ServiceNode, node_to_service_node, get_node, get_node_by_name, add_node, set_dependency,
}
use minefield.Storages.Agree.{Agrees, both_ok, continue-Agrees, context-Agrees, lift-Agrees}
use minefield.Storages.Refine.{Refines}
use minefield.Storages.Refine.Graph.{add_node-Agrees, set_dependency-Agrees}

module _ {S T B M : Type 0} ⦃bm : Bitmap B⦄ (Rel : S → T → Type 0) (HasRoom : S → Type 0)
    (a : Storage S B M) (b : Storage T B M) (r : Refines Rel HasRoom a b)
    (marshal : M → Outcome Bytes) (s : S) (t : T) (rel : Rel s t) where
  respond-Agrees :
      (n : Node B M) (s : S) (t : T)
      → Rel s t
      → Agrees Rel
          (
            wrapping "failed to convert node to service node: %w" (node_to_service_node marshal n),
            s,
          )
          (
            wrapping "failed to convert node to service node: %w" (node_to_service_node marshal n),
            t,
          )
  respond-Agrees n s t rel = lift-Agrees Rel _ s t rel

  -- Over a backend that refines another, `AddNode` of the service answers what it answers over the
  -- other, or fails where it fails, and leaves related states.
  pub handle_add_node-Agrees :
      (unpack : Bytes → M) (request : ServiceNode)
      → HasRoom s
      → Agrees Rel (add_node a marshal unpack request s) (add_node b marshal unpack request t)
  unfolding add_node
  handle_add_node-Agrees unpack request room =
      continue-Agrees Rel _ _ _ _
        (context-Agrees Rel "failed to add node: %w" (add_graph_node a _ _ _)
          (add_graph_node b _ _ _) s t
          (add_node-Agrees Rel HasRoom a b r request.type request.name (unpack request.metadata) s t
            room rel))
        λ n s t _ rel. respond-Agrees n s t rel

  handle_get_node-Agrees : (id : ℕ) → Agrees Rel (get_node a marshal id s) (get_node b marshal id t)
  unfolding get_node
  handle_get_node-Agrees id =
      continue-Agrees Rel _ _ _ _
        (context-Agrees Rel "failed to get node by id: %w" (a.get_node id) (b.get_node id) s t
          (r.get_node id s t rel))
        λ n s t _ rel. respond-Agrees n s t rel

  handle_get_node_by_name-Agrees :
      (name : String)
      → Agrees Rel (get_node_by_name a marshal name s) (get_node_by_name b marshal name t)
  unfolding get_node_by_name
  handle_get_node_by_name-Agrees name =
      continue-Agrees Rel _ _ _ _
        (context-Agrees Rel "failed to get node by name: %w" (a.name_to_id name) (b.name_to_id name)
          s t (r.name_to_id name s t rel))
        λ id s t _ rel.
          continue-Agrees Rel _ _ _ _
            (context-Agrees Rel "failed to get node by id: %w" (a.get_node id) (b.get_node id) s t
              (r.get_node id s t rel))
            λ n s t _ rel. respond-Agrees n s t rel

  -- Over a backend that refines another, `SetDependency` of the service succeeds where it succeeds
  -- over the other, and fails where it fails, and leaves related states.
  pub handle_set_dependency-Agrees :
      (node_id dependency_id : ℕ)
      → Agrees Rel
          (set_dependency a marshal node_id dependency_id s)
          (set_dependency b marshal node_id dependency_id t)
  unfolding set_dependency
  handle_set_dependency-Agrees node_id dependency_id =
      continue-Agrees Rel _ _ _ _ (r.get_node node_id s t rel) λ n s₁ t₁ e₁ rel₁.
        let small = r.get_node-lt node_id n s s₁ t rel e₁ in
        continue-Agrees Rel _ _ _ _ (r.get_node dependency_id s₁ t₁ rel₁) λ m s₂ t₂ e₂ rel₂.
          let small' = r.get_node-lt dependency_id m s₁ s₂ t₁ rel₁ e₂ in
          continue-Agrees Rel _ _ _ _
            (set_dependency-Agrees Rel HasRoom a b r n m s₂ t₂ small small' rel₂)
            λ _ s t _ rel. both_ok rel
