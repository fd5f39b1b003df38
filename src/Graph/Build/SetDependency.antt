-- ===== src/Graph/Build/SetDependency.antt =====
-- `SetDependency` of pkg/graph/graph.go on the storage in memory: its errors, the edge that it
-- adds, and the invariant.
use minefield.Prelude.{
  ℕ, String, ◌≡◌, refl, sym, ap, subst, ◌≢◌, ◌↔◌, ◌⊎◌, inl, inr, ⊎_elim, Bool, Option, none, some,
  lookup, ◌==◌, nat_eq, string_eq, Bool-cases, if◌then◌else◌, Outcome, ok, err, errorf,
  self_dependency, arith,
}
use native.Mathlib.Decide.{ℕ_discrete}
use minefield.Bitmap.{Bitmap}
use minefield.Graph.Node.{Node}
use minefield.Graph.Storage.{Storage}
use minefield.Graph.Mock.{mock_storage, save_node}
use minefield.Graph.Mock.State.{MockStorage}
use minefield.Graph.Build.{add_child, add_parent, set_dependency}
use minefield.Graph.Build.Invariant.{Edge, IsWellFormed}
use minefield.Graph.Build.Linked.{linked, linked-IsWellFormed, origin, updated}

-- On every storage a nil node, a dependency of a node on itself and a nil storage are refused, the
-- self-dependency before the nil storage, and the storage is left as it was.
set_dependency_refused :
    {S B M : Type 0} ⦃bm : Bitmap B⦄ (n m : Node B M) (n? m? : Option (Node B M))
    (storage? : Option (Storage S B M)) (s : S)
    → (set_dependency none storage? m? s ≡ (err (errorf "cannot add dependency to nil node"), s))
      × (set_dependency n? storage? none s ≡ (err (errorf "cannot add dependency to nil node"), s))
      × (set_dependency (some n) storage? (some (record m { id = n.id })) s
          ≡ (err self_dependency, s))
      × (set_dependency {S = S} (some n) none (some m) s
          ≡ (err (if n.id == m.id then self_dependency else errorf "storages cannot be nil"), s))
unfolding set_dependency
set_dependency_refused n m n? m? storage? s = (refl, ground arith, ground arith, ground arith)

module _ {B M : Type 0} ⦃bm : Bitmap B⦄ (matches : String → String → Outcome Bool) (n m : Node B M)
    (s : MockStorage B M) where
  abbrev depend : Outcome (Node B M × Node B M) × MockStorage B M
  depend = set_dependency (some n) (some (mock_storage matches)) (some m) s

  -- Two nodes with different ids, and a storage that fails no write: both nodes are returned as
  -- they are saved, first the dependent with the new child, then the neighbor with the new parent.
  pub set_dependency_lem :
      s.faults.save_node_err ≡ none
      → n.id ≢ m.id
      → depend ≡ (ok (add_child m.id n, add_parent n.id m), linked n m s)
  unfolding set_dependency save_node
  set_dependency_lem up ne = ground arith

  pub set_dependency_self : n.id ≡ m.id → depend ≡ (err self_dependency, s)
  unfolding set_dependency
  set_dependency_self e = ground arith

  module _ (up : s.faults.save_node_err ≡ none) (stored : lookup n.id s.nodes ≡ some n)
      (stored' : lookup m.id s.nodes ≡ some m) where
    -- For two nodes as they are stored, equal or not, the invariant is kept.
    pub set_dependency-IsWellFormed : IsWellFormed s → IsWellFormed depend.1
    set_dependency-IsWellFormed w = elim (ℕ_discrete n.id m.id) [
      | yes e ↦ subst IsWellFormed (sym (ap (λ r. r.1) (set_dependency_self e))) w
      | no ne ↦
          subst IsWellFormed (sym (ap (λ r. r.1) (set_dependency_lem up ne)))
            (linked-IsWellFormed n m s stored stored' ne w)
    ]

    -- For two different nodes as they are stored, the edges are those from before and the new one.
    pub Edge-set_dependency :
        n.id ≢ m.id → (a b : ℕ) → Edge depend.1 a b ↔ (Edge s a b ⊎ (n.id ≡ a) × (m.id ≡ b))
    Edge-set_dependency ne a b =
        subst (λ t. Edge t a b ↔ (Edge s a b ⊎ (n.id ≡ a) × (m.id ≡ b)))
          (sym (ap (λ r. r.1) (set_dependency_lem up ne)))
          (forth, ⊎_elim back (λ (e, f). added e f))
      where
        forth : Edge (linked n m s) a b → Edge s a b ⊎ (n.id ≡ a) × (m.id ≡ b)
        forth (p, found, e) =
            let (o, there, u) = origin n m s stored stored' ne a p found in
            elim (Bool-cases (bm.contains o.children b)) [
              | inl old ↦ inl (o, there, old)
              | inr new ↦ inr (ground (arith, u.child b))
            ]

        back : Edge s a b → Edge (linked n m s) a b
        back (o, there, e) =
            let (p, now, u) = updated n m s stored stored' ne a o there in
            (p, now, ground (arith, u.child b))

        added : n.id ≡ a → m.id ≡ b → Edge (linked n m s) a b
        added e f =
            let (p, now, u) = updated n m s stored stored' ne a n (ground arith) in
            (p, now, ground (arith, u.child b))
