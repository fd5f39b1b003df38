-- ===== src/Graph/Build/Runs.antt =====
-- The storages that a program can build: sequences of calls from `NewMockStorage`.
use minefield.Prelude.{
  ℕ, ◌+◌, ◌^◌, ◌<◌, String, ◌≡◌, refl, sym, subst, Bool, none, some, List, Map, lookup, nat_eq,
  Outcome, arith,
}
use minefield.Bitmap.{Bitmap}
use minefield.Graph.Node.{Node, NodeCache}
use minefield.Graph.Mock.{
  mock_storage, save_caches, remove_all_caches, clear_cache_stack, add_node_to_cached_stack,
}
use minefield.Graph.Mock.State.{MockStorage, Faults, new_mock_storage}
use minefield.Graph.Build.{add_node, set_dependency}
use minefield.Graph.Build.Invariant.{IsWellFormed}
use minefield.Graph.Build.AddNode.{add_node-IsWellFormed}
use minefield.Graph.Build.SetDependency.{set_dependency-IsWellFormed}

module _ {B M : Type 0} ⦃bm : Bitmap B⦄ (matches : String → String → Outcome Bool) where
  -- Errors may be injected and withdrawn between the calls (`inject`). A call of `AddNode` finds
  -- its lookup by name working and an id left; one of `SetDependency` takes nodes as they are
  -- stored, and finds the writes working.
  pub data Run : MockStorage B M → Type 0 where
    new : Run new_mock_storage
    inject : {s : MockStorage B M} (f : Faults) → Run s → Run (record s { faults = f })
    adding :
        {s : MockStorage B M} (type : String) (metadata : M) (name : String)
        → Run s
        → s.faults.name_to_id_err ≡ none
        → s.id_counter + 1 < 2 ^ 32
        → Run (add_node (mock_storage matches) type metadata name s).1
    depending :
        {s : MockStorage B M} (n m : Node B M)
        → Run s
        → s.faults.save_node_err ≡ none
        → lookup n.id s.nodes ≡ some n
        → lookup m.id s.nodes ≡ some m
        → Run (set_dependency (some n) (some (mock_storage matches)) (some m) s).1
    caching : {s : MockStorage B M} (cs : List (NodeCache B)) → Run s → Run (save_caches cs s).1
    uncaching : {s : MockStorage B M} → Run s → Run (remove_all_caches s).1
    clearing : {s : MockStorage B M} → Run s → Run (clear_cache_stack s).1
    stacking : {s : MockStorage B M} (id : ℕ) → Run s → Run (add_node_to_cached_stack id s).1

  pub new-IsWellFormed : IsWellFormed {B = B} {M = M} new_mock_storage
  unfolding lookup
  new-IsWellFormed = record {
    named = λ name id h. cc;
    keyed = λ id n h. cc;
    has_parent = λ a b n h e. cc;
    has_child = λ a b m h e. cc;
    loop_free = λ id n h. cc;
  }

  -- Only the nodes, the names and the counter matter.
  same_graph-IsWellFormed :
      (s t : MockStorage B M)
      → t.nodes ≡ s.nodes
      → t.name_ids ≡ s.name_ids
      → t.id_counter ≡ s.id_counter
      → IsWellFormed s
      → IsWellFormed t
  same_graph-IsWellFormed s t p q r w =
      let same : ◌≡◌ {A = Map ℕ (Node B M) × Map String ℕ × ℕ} (s.nodes, s.name_ids, s.id_counter)
          (t.nodes, t.name_ids, t.id_counter) =
        λ i. (sym p i, sym q i, sym r i) in
      subst {A = Map ℕ (Node B M) × Map String ℕ × ℕ}
        (λ x. IsWellFormed (record t { nodes = x.0; name_ids = x.1; id_counter = x.2 })) same
        (record {
          named = w.named;
          keyed = w.keyed;
          has_parent = w.has_parent;
          has_child = w.has_child;
          loop_free = w.loop_free;
        })

  -- Every storage that such a sequence of calls leaves satisfies the invariant of the graph.
  pub Run-IsWellFormed : {s : MockStorage B M} → Run s → IsWellFormed s
  unfolding save_caches remove_all_caches clear_cache_stack add_node_to_cached_stack
  Run-IsWellFormed new = new-IsWellFormed
  Run-IsWellFormed (inject f r) = same_graph-IsWellFormed _ _ refl refl refl (Run-IsWellFormed r)
  Run-IsWellFormed (adding {s} type metadata name r up room) =
      add_node-IsWellFormed matches type metadata name s (Run-IsWellFormed r) room up
  Run-IsWellFormed (depending {s} n m r up stored stored') =
      set_dependency-IsWellFormed matches n m s up stored stored' (Run-IsWellFormed r)
  Run-IsWellFormed (caching {s} cs r) =
      same_graph-IsWellFormed s _ (ground arith) (ground arith) (ground arith) (Run-IsWellFormed r)
  Run-IsWellFormed (uncaching {s} r) =
      same_graph-IsWellFormed s _ (ground arith) (ground arith) (ground arith) (Run-IsWellFormed r)
  Run-IsWellFormed (clearing {s} r) =
      same_graph-IsWellFormed s _ (ground arith) (ground arith) (ground arith) (Run-IsWellFormed r)
  Run-IsWellFormed (stacking {s} id r) =
      same_graph-IsWellFormed s _ (ground arith) (ground arith) (ground arith) (Run-IsWellFormed r)
