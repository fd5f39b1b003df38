-- ===== src/Graph/Build/Invariant.antt =====
-- The invariant of the graph in the storage: the name index and the nodes agree, and each edge is
-- recorded at both of its ends.
use minefield.Prelude.{
  ℕ, suc, ◌≤◌, String, ◌≡◌, ap, ◌≢◌, inl, inr, ◌∙◌, true, false, none, some, [], ◌∷◌, ◌++◌, lookup,
  insert, lookup-insert_at, lookup-insert_ne, lookup-insert_cases, nat_eq, string_eq, arith,
}
use minefield.Bitmap.{Bitmap}
use minefield.Graph.Node.{Node}
use minefield.Graph.Mock.State.{MockStorage}

module _ {B M : Type 0} ⦃bm : Bitmap B⦄ where
  -- `a` depends on `b`, as the node at `a` records it.
  abbrev pub Edge : MockStorage B M → ℕ → ℕ → Type 0
  Edge s a b = (n : Node B M) × (lookup a s.nodes ≡ some n) × (bm.contains n.children b ≡ true)

  pub record IsWellFormed (s : MockStorage B M) : Type 0 where
    pub named :
        (name : String) (id : ℕ)
        → lookup name s.name_ids ≡ some id
        → (n : Node B M) × (lookup id s.nodes ≡ some n) × (n.name ≡ name)
    pub keyed :
        (id : ℕ) (n : Node B M)
        → lookup id s.nodes ≡ some n
        → (n.id ≡ id) × (id ≤ s.id_counter) × (lookup n.name s.name_ids ≡ some id)
    pub has_parent :
        (a b : ℕ) (n : Node B M)
        → lookup a s.nodes ≡ some n
        → bm.contains n.children b ≡ true
        → (m : Node B M) × (lookup b s.nodes ≡ some m) × (bm.contains m.parents a ≡ true)
    pub has_child :
        (a b : ℕ) (m : Node B M)
        → lookup b s.nodes ≡ some m
        → bm.contains m.parents a ≡ true
        → (n : Node B M) × (lookup a s.nodes ≡ some n) × (bm.contains n.children b ≡ true)
    pub loop_free :
        (id : ℕ) (n : Node B M) → lookup id s.nodes ≡ some n → bm.contains n.children id ≡ false

  -- A write of a node under its own name and id, with the same edges or with none.
  abbrev pub saved : Node B M → MockStorage B M → MockStorage B M
  saved n s = record s {
    nodes = insert n.id n s.nodes;
    name_ids = insert n.name n.id s.name_ids;
    stack = s.stack ++ n.id ∷ [];
  }

  -- A new node has no edges, a fresh name and the next id.
  pub saved-IsWellFormed :
      (s : MockStorage B M) (n : Node B M)
      → IsWellFormed s
      → lookup n.name s.name_ids ≡ none
      → n.id ≡ suc s.id_counter
      → n.children ≡ bm.empty
      → n.parents ≡ bm.empty
      → IsWellFormed (saved n (record s { id_counter = n.id }))
  saved-IsWellFormed s n w fresh next no_children no_parents = record {
    named = λ name id h. elim (lookup-insert_cases n.name name n.id id s.name_ids h) [
      | inl (e, i) ↦ (n, lookup-insert_at n.id id n s.nodes i, e)
      | inr (_, old) ↦
          let (m, found, e) = w.named name id old in
          (m, lookup-insert_ne n.id id n s.nodes (unused id m found) ∙ found, e)
    ];
    keyed = λ id m h. elim (lookup-insert_cases n.id id n m s.nodes h) [
      | inl (e, same) ↦ (
        ground arith,
        omega (arith, e),
        lookup-insert_at n.name m.name n.id s.name_ids (ap (λ (x : Node B M). x.name) same)
            ∙ ground arith,
      )
      | inr (_, old) ↦
          let (i, bound, index) = w.keyed id m old in
          (
            i,
            omega (arith, bound),
            lookup-insert_ne n.name m.name n.id s.name_ids (λ p. ground (arith, p, index, fresh))
                ∙ index,
          )
    ];
    has_parent = λ a b m h e. elim (lookup-insert_cases n.id a n m s.nodes h) [
      | inl (_, same) ↦ cc (childless m same b)
      | inr (_, old) ↦
          let (p, found, back) = w.has_parent a b m old e in
          (p, lookup-insert_ne n.id b n s.nodes (unused b p found) ∙ found, back)
    ];
    has_child = λ a b m h e. elim (lookup-insert_cases n.id b n m s.nodes h) [
      | inl (_, same) ↦ cc (parentless m same a)
      | inr (_, old) ↦
          let (p, found, back) = w.has_child a b m old e in
          (p, lookup-insert_ne n.id a n s.nodes (unused a p found) ∙ found, back)
    ];
    loop_free = λ id m h. elim (lookup-insert_cases n.id id n m s.nodes h) [
      | inl (_, same) ↦ childless m same id
      | inr (_, old) ↦ w.loop_free id m old
    ];
  }
    where
      childless : (m : Node B M) → n ≡ m → (b : ℕ) → bm.contains m.children b ≡ false
      childless m same b = ground (arith, bm.contains-empty b)

      parentless : (m : Node B M) → n ≡ m → (b : ℕ) → bm.contains m.parents b ≡ false
      parentless m same b = ground (arith, bm.contains-empty b)

      unused : (id : ℕ) (m : Node B M) → lookup id s.nodes ≡ some m → n.id ≢ id
      unused id m found = omega (arith, (w.keyed id m found).1)
