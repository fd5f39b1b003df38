-- ===== src/Storages/Refine/Graph.antt =====
-- `AddNode`, `SetDependency` and `queryBitmap` over two backends, where one refines the other.
use minefield.Prelude.{
  ℕ, zero, suc, ◌^◌, ◌<◌, ap, ◌∙◌, sym, subst, String, Bool, true, Bool-cases, inl, inr, ◌==◌,
  nat_eq, Option, none, some, Option-cases, List, [], ◌∷◌, ◌++◌, Map, insert,
}
use minefield.Bitmap.{Bitmap}
use minefield.Graph.Node.{Direction, Node, new_node_cache}
use minefield.Graph.Storage.{Storage}
use minefield.Graph.Build.{create_node, add_node, set_dependency, new_node, add_child, add_parent}
use minefield.Graph.Query.{fetch, query_loop, query_bitmap, neighbours, is_visited}
use minefield.Storages.Agree.{
  Agrees, both_ok, both_err, both_out_of_fuel, continue-Agrees, context-Agrees, context-ok,
  attempt-Agrees,
}
use minefield.Storages.Refine.{Refines}

module _ {S T B M : Type 0} ⦃bm : Bitmap B⦄ (Rel : S → T → Type 0) (HasRoom : S → Type 0)
    (a : Storage S B M) (b : Storage T B M) (r : Refines Rel HasRoom a b) where
  create_node-Agrees :
      (type name : String) (metadata : M) (s : S) (t : T)
      → HasRoom s
      → Rel s t
      → Agrees Rel (create_node a type metadata name s) (create_node b type metadata name t)
  unfolding create_node
  create_node-Agrees type name metadata s t room rel =
      continue-Agrees Rel _ _ _ _
        (context-Agrees Rel "failed to generate ID: %w" a.generate_id b.generate_id s t
          (r.generate_id s t room rel))
        λ id s' t' e rel.
          let small =
            r.generate_id-lt id s s'
              (context-ok "failed to generate ID: %w" id s' (a.generate_id s) e) in
          continue-Agrees Rel _ _ _ _
            (context-Agrees Rel "failed to save node: %w" (a.save_node _) (b.save_node _) s' t'
              (r.save_node (new_node id type metadata name) s' t' small rel))
            λ _ s t _ rel.
              continue-Agrees Rel _ _ _ _
                (r.save_cache (new_node_cache id bm.empty bm.empty) s t small rel)
                λ _ s t _ rel. both_ok rel

  -- Over a backend that refines another, with room for one more id, `AddNode` returns the same node
  -- as over the other, or fails where it fails, and leaves related states.
  pub add_node-Agrees :
      (type name : String) (metadata : M) (s : S) (t : T)
      → HasRoom s
      → Rel s t
      → Agrees Rel (add_node a type metadata name s) (add_node b type metadata name t)
  unfolding add_node
  add_node-Agrees type name metadata s t room rel =
      attempt-Agrees Rel _ _ _ _ _ _ (r.name_to_id name s t rel)
        (λ id s t _ rel. r.get_node id s t rel)
        λ _ _ s' t' e rel.
          create_node-Agrees type name metadata s' t'
            (subst HasRoom (sym (r.name_to_id-state name s) ∙ ap (λ x. x.1) e) room) rel

  -- Over a backend that refines another, `SetDependency` returns the same two nodes as over the
  -- other, or fails where it fails, and leaves related states.
  pub set_dependency-Agrees :
      (n m : Node B M) (s : S) (t : T)
      → n.id < 2 ^ 32
      → m.id < 2 ^ 32
      → Rel s t
      → Agrees Rel
          (set_dependency (some n) (some a) (some m) s)
          (set_dependency (some n) (some b) (some m) t)
  unfolding set_dependency
  set_dependency-Agrees n m s t small small' rel = elim (Bool-cases (n.id == m.id)) [
    | inl same ↦ rw same (both_err rel)
    | inr differ ↦ rw differ (
        continue-Agrees Rel _ _ _ _
          (context-Agrees Rel "failed to save node: %w" (a.save_node _) (b.save_node _) s t
            (r.save_node (add_child m.id n) s t small rel))
          λ _ s t _ rel.
            continue-Agrees Rel _ _ _ _
              (context-Agrees Rel "failed to save neighbor node: %w" (a.save_node _) (b.save_node _)
                s t (r.save_node (add_parent n.id m) s t small' rel))
              λ _ s t _ rel. both_ok rel)
  ]

  fetch-Agrees :
      (ids : List ℕ) (s : S) (t : T) → Rel s t → Agrees Rel (fetch a ids s) (fetch b ids t)
  unfolding fetch
  fetch-Agrees [] s t rel = both_ok rel
  fetch-Agrees (id ∷ ids) s t rel =
      continue-Agrees Rel _ _ _ _
        (context-Agrees Rel "failed to get node: %w" (a.get_node id) (b.get_node id) s t
          (r.get_node id s t rel))
        λ _ s t _ rel.
          continue-Agrees Rel _ _ _ _ (fetch-Agrees ids s t rel) λ _ s t _ rel. both_ok rel

  query_loop-Agrees :
      (direction : Direction) (fuel : ℕ) (visited : Map ℕ Bool) (result : B)
      (queue : List (Node B M)) (s : S) (t : T)
      → Rel s t
      → Agrees Rel
          (query_loop a direction fuel visited result queue s)
          (query_loop b direction fuel visited result queue t)
  unfolding query_loop
  query_loop-Agrees direction fuel visited result [] s t rel = both_ok rel
  query_loop-Agrees direction zero visited result (cur ∷ queue) s t rel = both_out_of_fuel rel
  query_loop-Agrees direction (suc fuel) visited result (cur ∷ queue) s t rel =
      elim (Bool-cases (is_visited cur.id visited)) [
        | inl old ↦ rw old (query_loop-Agrees direction fuel visited result queue s t rel)
        | inr new ↦ rw new (elim (Option-cases (neighbours direction cur)) [
          | inl none_such ↦ rw none_such (both_err rel)
          | inr (bitmap, e) ↦ rw e (
              continue-Agrees Rel _ _ _ _ (fetch-Agrees (bm.to_array bitmap) s t rel)
                λ nodes s t _ rel.
                  query_loop-Agrees direction fuel (insert cur.id true visited)
                    (bm.or result bitmap) (queue ++ nodes) s t rel)
        ])
      ]

  -- Over a backend that refines another, `queryBitmap` returns the same bitmap as over the other, or
  -- fails where it fails, and leaves related states.
  pub query_bitmap-Agrees :
      (direction : Direction) (fuel : ℕ) (n? : Option (Node B M)) (s : S) (t : T)
      → Rel s t
      → Agrees Rel
          (query_bitmap fuel n? (some a) direction s)
          (query_bitmap fuel n? (some b) direction t)
  unfolding query_bitmap
  query_bitmap-Agrees direction fuel none s t rel = both_err rel
  query_bitmap-Agrees direction fuel (some n) s t rel =
      continue-Agrees Rel _ _ _ _ (query_loop-Agrees direction fuel [] bm.empty (n ∷ []) s t rel)
        λ _ s t _ rel. both_ok rel
