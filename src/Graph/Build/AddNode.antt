-- ===== src/Graph/Build/AddNode.antt =====
-- `AddNode` of pkg/graph/graph.go on the storage in memory.
use minefield.Prelude.{
  if◌then◌else◌, ◌==◌, [], ◌∷◌, ◌++◌, ℕ, suc, ◌+◌, ◌%◌, ◌^◌, ◌≤◌, ◌<◌, String, ◌≡◌, refl, sym, ap,
  subst, ◌≢◌, ◌⊎◌, inl, inr, ◌∙◌, Bool, none, some, lookup, insert, lookup-insert, lookup-insert_at,
  lookup-insert_ne, nat_eq, string_eq, Option-cases, Outcome, ok, Error, arith,
}
use native.Mathlib.Nat.{mod-eq_of_lt}
use native.Mathlib.Numerals.{add-one}
use minefield.Bitmap.{Bitmap}
use minefield.Graph.Node.{Node, new_node_cache}
use minefield.Graph.Mock.{mock_storage, save_node, name_to_id, get_node, generate_id, save_cache}
use minefield.Graph.Mock.State.{MockStorage}
use minefield.Graph.Build.{new_node, create_node, add_node}
use minefield.Graph.Build.Invariant.{IsWellFormed, saved, saved-IsWellFormed}

module _ {B M : Type 0} ⦃bm : Bitmap B⦄ (matches : String → String → Outcome Bool) (type : String)
    (metadata : M) (name : String) (s : MockStorage B M) where
  abbrev add : Outcome (Node B M) × MockStorage B M
  add = add_node (mock_storage matches) type metadata name s

  abbrev create : Outcome (Node B M) × MockStorage B M
  create = create_node (mock_storage matches) type metadata name s

  -- the node that is created next
  abbrev pub next : Node B M
  next = new_node ((s.id_counter + 1) % 2 ^ 32) type metadata name

  abbrev with_next : MockStorage B M
  with_next = saved next (record s { id_counter = next.id })

  -- Any error of the lookup by name is taken for a missing name.
  add-create :
      (lookup name s.name_ids ≡ none) ⊎ ((e : Error) × (s.faults.name_to_id_err ≡ some e))
      → add ≡ create
  unfolding add_node name_to_id
  add-create h = ground arith

  known_kept :
      (id : ℕ) → s.faults.name_to_id_err ≡ none → lookup name s.name_ids ≡ some id → add.1 ≡ s
  unfolding add_node name_to_id get_node
  known_kept id up h = ground arith

  -- A name that is known: its node is returned as it is stored, and nothing is written.
  add_node_known :
      IsWellFormed s
      → s.faults.name_to_id_err ≡ none
      → s.faults.get_node_err ≡ none
      → (id : ℕ) → lookup name s.name_ids ≡ some id
      → (n : Node B M) × (add ≡ (ok n, s)) × (n.id ≡ id) × (n.name ≡ name)
  unfolding add_node name_to_id get_node
  add_node_known w up up' id known =
      let (n, found, e) = w.named name id known in (n, ground arith, (w.keyed id n found).0, e)

  abbrev pub with_next_and_cache : MockStorage B M
  with_next_and_cache = record with_next {
    cache = insert next.id (new_node_cache next.id bm.empty bm.empty) s.cache;
  }

  -- What creating a node leaves in the storage, on each of its error paths.
  create_cases :
      (create.1 ≡ s)
      ⊎ (create.1 ≡ record s { id_counter = next.id })
      ⊎ (create.1 ≡ with_next)
      ⊎ (create.1 ≡ with_next_and_cache)
  unfolding create_node save_node generate_id save_cache
  create_cases = ground arith

  module _ (w : IsWellFormed s) (room : s.id_counter + 1 < 2 ^ 32) where
    pub next_id : next.id ≡ suc s.id_counter
    next_id = mod-eq_of_lt room ∙ add-one s.id_counter

    counted-IsWellFormed : IsWellFormed (record s { id_counter = next.id })
    counted-IsWellFormed = record {
      named = w.named;
      keyed = λ id n h.
          let (i, bound, index) = w.keyed id n h in (i, omega (arith, bound, next_id), index);
      has_parent = w.has_parent;
      has_child = w.has_child;
      loop_free = w.loop_free;
    }

    module _ (fresh : lookup name s.name_ids ≡ none) where
      with_next-IsWellFormed : IsWellFormed with_next
      with_next-IsWellFormed = saved-IsWellFormed s next w fresh next_id refl refl

      create-IsWellFormed : IsWellFormed create.1
      create-IsWellFormed = elim create_cases [
        | inl e ↦ subst IsWellFormed (sym e) w
        | inr (inl e) ↦ subst IsWellFormed (sym e) counted-IsWellFormed
        | inr (inr (inl e)) ↦ subst IsWellFormed (sym e) with_next-IsWellFormed
        | inr (inr (inr e)) ↦ subst IsWellFormed (sym e) (record {
          named = with_next-IsWellFormed.named;
          keyed = with_next-IsWellFormed.keyed;
          has_parent = with_next-IsWellFormed.has_parent;
          has_child = with_next-IsWellFormed.has_child;
          loop_free = with_next-IsWellFormed.loop_free;
        })
      ]

    -- While ids are left and lookups by name do not fail, the invariant is kept, whichever of the
    -- other calls of the storage fails.
    pub add_node-IsWellFormed : s.faults.name_to_id_err ≡ none → IsWellFormed add.1
    add_node-IsWellFormed up = elim (Option-cases (lookup name s.name_ids)) [
      | inl fresh ↦
          subst IsWellFormed (ap (λ r. r.1) (sym (add-create (inl fresh))))
            (create-IsWellFormed fresh)
      | inr (id, found) ↦ subst IsWellFormed (sym (known_kept id up found)) w
    ]

  -- what `AddNode` leaves of the injected errors and the counter
  pub add_node_keeps :
      s.faults.name_to_id_err ≡ none
      → s.id_counter + 1 < 2 ^ 32
      → (add.1.faults ≡ s.faults) × (add.1.id_counter ≤ s.id_counter + 1)
  add_node_keeps up room = elim (Option-cases (lookup name s.name_ids)) [
    | inl fresh ↦ rw (add-create (inl fresh)) (elim create_cases [
      | inl e ↦ rw e (refl, omega arith)
      | inr (inl e) ↦ rw e (refl, omega arith)
      | inr (inr (inl e)) ↦ rw e (refl, omega arith)
      | inr (inr (inr e)) ↦ rw e (refl, omega arith)
    ])
    | inr (id, found) ↦ rw (known_kept id up found) (refl, omega arith)
  ]

  -- the nodes that were stored stay as they are
  pub add_node_nodes :
      IsWellFormed s
      → s.faults.name_to_id_err ≡ none
      → s.id_counter + 1 < 2 ^ 32
      → (id : ℕ) (n : Node B M) → lookup id s.nodes ≡ some n
      → lookup id add.1.nodes ≡ some n
  add_node_nodes w up room id n h =
      let (_, bound, _) = w.keyed id n h in
      let apart : next.id ≢ id = omega (arith, next_id w room) in
      let added = lookup-insert_ne next.id id next s.nodes apart ∙ h in
      elim (Option-cases (lookup name s.name_ids)) [
        | inl fresh ↦ rw (add-create (inl fresh)) (elim create_cases [
          | inl e ↦ rw e h
          | inr (inl e) ↦ rw e h
          | inr (inr (inl e)) ↦ rw e added
          | inr (inr (inr e)) ↦ rw e added
        ])
        | inr (i, found) ↦ rw (known_kept i up found) h
      ]

  created :
      s.faults.generate_id_err ≡ none
      → s.faults.save_node_err ≡ none
      → s.faults.save_cache_err ≡ none
      → create ≡ (ok next, with_next_and_cache)
  unfolding create_node generate_id save_node save_cache
  created a b c = ground arith

  -- `AddNode` of a name that is not known, with no call failing
  pub added_fresh :
      s.faults.generate_id_err ≡ none
      → s.faults.save_node_err ≡ none
      → s.faults.save_cache_err ≡ none
      → lookup name s.name_ids ≡ none
      → add ≡ (ok next, with_next_and_cache)
  added_fresh a b c fresh = add-create (inl fresh) ∙ created a b c

  module _ (up₁ : s.faults.generate_id_err ≡ none) (up₂ : s.faults.save_node_err ≡ none)
      (up₃ : s.faults.save_cache_err ≡ none) where
    -- A name that is not known, on a storage that fails none of the calls: the node of the next id
    -- is returned, and a lookup by that id or by the name finds it; the node waits to be cached, its
    -- cache is empty, and the counter is its id. All other nodes, names and caches, the custom data
    -- and the injected errors stay as they were.
    pub add_node_fresh :
        s.faults.name_to_id_err ≡ none
        → lookup name s.name_ids ≡ none
        → (add.0 ≡ ok next)
          × ((id : ℕ)
              → lookup id add.1.nodes ≡ (if next.id == id then some next else lookup id s.nodes))
          × ((k : String)
              → lookup k add.1.name_ids ≡ (if name == k then some next.id else lookup k s.name_ids))
          × ((id : ℕ)
              → lookup id add.1.cache ≡ (
                  if next.id == id
                  then some (new_node_cache next.id bm.empty bm.empty)
                  else lookup id s.cache))
          × (add.1.stack ≡ s.stack ++ next.id ∷ [])
          × (add.1.id_counter ≡ next.id)
          × (add.1.db ≡ s.db)
          × (add.1.faults ≡ s.faults)
    add_node_fresh up fresh = rw (add-create (inl fresh) ∙ created up₁ up₂ up₃) (
      refl,
      λ id. lookup-insert next.id id next s.nodes,
      λ k. lookup-insert name k next.id s.name_ids,
      λ id. lookup-insert next.id id (new_node_cache next.id bm.empty bm.empty) s.cache,
      refl,
      refl,
      refl,
      refl,
    )

    -- A lookup by name that fails for any reason makes `AddNode` create a node, also where the name
    -- is stored: then two nodes have the name, and the index forgets the older one.
    pub add_node_duplicate :
        (id : ℕ) (e : Error)
        → IsWellFormed s
        → s.id_counter + 1 < 2 ^ 32
        → s.faults.name_to_id_err ≡ some e
        → lookup name s.name_ids ≡ some id
        → (old : Node B M) × (lookup id add.1.nodes ≡ some old)
          × (old.name ≡ name)
          × (lookup next.id add.1.nodes ≡ some next)
          × (id ≢ next.id)
          × (lookup name add.1.name_ids ≡ some next.id)
    add_node_duplicate id e w room down known =
        let (old, found, named) = w.named name id known in
        let (_, bound, _) = w.keyed id old found in
        let ne : next.id ≢ id = omega (arith, next_id w room) in
        rw (add-create (inr (e, down)) ∙ created up₁ up₂ up₃) (
          old,
          lookup-insert_ne next.id id next s.nodes ne ∙ found,
          named,
          lookup-insert_at next.id next.id next s.nodes refl,
          λ p. ne (sym p),
          lookup-insert_at name name next.id s.name_ids refl,
        )
