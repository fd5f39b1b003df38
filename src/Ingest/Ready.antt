-- ===== src/Ingest/Ready.antt =====
-- What the loops of pkg/tools/ingest keep of the storage in memory.
use minefield.Prelude.{
  ℕ, suc, ◌+◌, ◌^◌, ◌<◌, ◌≤◌, String, ◌≡◌, refl, ◌∙◌, ◌≢◌, Bool, none, some, lookup, nat_eq,
  Outcome, arith,
}
use minefield.Bitmap.{Bitmap}
use minefield.Graph.Node.{Node}
use minefield.Graph.Mock.{mock_storage}
use minefield.Graph.Mock.State.{MockStorage, no_faults}
use minefield.Graph.Build.{add_node}
use minefield.Graph.Build.Invariant.{IsWellFormed, Edge}
use minefield.Graph.Build.AddNode.{add_node-IsWellFormed, add_node_keeps, add_node_nodes}
use minefield.Graph.Build.Linked.{linked, linked-IsWellFormed, updated}

module _ {B M : Type 0} ⦃bm : Bitmap B⦄ (matches : String → String → Outcome Bool)
    (before : MockStorage B M) where
  -- The storage is well-formed, injects no error, has `k` ids left, and has all edges of `before`.
  pub record IsReady (k : ℕ) (s : MockStorage B M) : Type 0 where
    pub well_formed : IsWellFormed s
    pub quiet : s.faults ≡ no_faults
    pub room : s.id_counter + k < 2 ^ 32
    pub kept : (a b : ℕ) → Edge before a b → Edge s a b

  pub add_node-IsReady :
      {k : ℕ} {s : MockStorage B M} (type : String) (metadata : M) (name : String)
      → IsReady (suc k) s
      → IsReady k (add_node (mock_storage matches) type metadata name s).1
  add_node-IsReady {k} {s} type metadata name r =
      let up : s.faults.name_to_id_err ≡ none = rw r.quiet refl in
      let room : s.id_counter + 1 < 2 ^ 32 = omega (arith, r.room) in
      let (faults, counted) = add_node_keeps matches type metadata name s up room in
      record {
        well_formed = add_node-IsWellFormed matches type metadata name s r.well_formed room up;
        quiet = faults ∙ r.quiet;
        room = omega (arith, r.room, counted);
        kept = λ a b e.
            let (n, there, has) = r.kept a b e in
            (n, add_node_nodes matches type metadata name s r.well_formed up room a n there, has);
      }

  pub fewer_left : {j k : ℕ} (s : MockStorage B M) → j ≤ k → IsReady k s → IsReady j s
  fewer_left s less r = record {
    well_formed = r.well_formed;
    quiet = r.quiet;
    room = omega (arith, r.room, less);
    kept = r.kept;
  }

  abbrev pub IsStored : Node B M → MockStorage B M → Type 0
  IsStored n s = lookup n.id s.nodes ≡ some n

  -- The nodes that `SetDependency` returns and links.
  pub linked-IsReady :
      {k : ℕ} {s : MockStorage B M} (n m : Node B M)
      → IsReady k s
      → IsStored n s
      → IsStored m s
      → n.id ≢ m.id
      → IsReady k (linked n m s)
  linked-IsReady {k} {s} n m r stored stored' ne = record {
    well_formed = linked-IsWellFormed n m s stored stored' ne r.well_formed;
    quiet = r.quiet;
    room = r.room;
    kept = λ a b e.
        let (o, there, has) = r.kept a b e in
        let (p, now, u) = updated n m s stored stored' ne a o there in
        (p, now, ground (arith, u.child b, has));
  }
