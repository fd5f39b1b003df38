-- ===== src/Graph/Build/Linked.antt =====
-- What `SetDependency` leaves in the storage, and that it keeps the invariant.
use minefield.Prelude.{
  ℕ, String, ◌≡◌, refl, sym, ap, ◌∙◌, ◌≢◌, inl, inr, ◌&&◌, ◌||◌, none, some, lookup, insert,
  lookup-insert, lookup-insert_at, lookup-insert_ne, ◌==◌, nat_eq, string_eq, Option-cases,
  Bool-cases, subst, arith,
}
use native.Mathlib.Decide.{ℕ_discrete}
use minefield.Bitmap.{Bitmap}
use minefield.Graph.Node.{Node}
use minefield.Graph.Mock.State.{MockStorage}
use minefield.Graph.Build.{add_child, add_parent}
use minefield.Graph.Build.Invariant.{IsWellFormed, saved}

module _ {B M : Type 0} ⦃bm : Bitmap B⦄ where
  abbrev pub linked : Node B M → Node B M → MockStorage B M → MockStorage B M
  linked n m s = saved (add_parent n.id m) (saved (add_child m.id n) s)

module _ {B M : Type 0} ⦃bm : Bitmap B⦄ (n m : Node B M) (s : MockStorage B M)
    (stored : lookup n.id s.nodes ≡ some n) (stored' : lookup m.id s.nodes ≡ some m)
    (apart : n.id ≢ m.id) where
  -- `p` is `o`, the node at `x`, with the new edge at its ends.
  pub record IsUpdate (x : ℕ) (o p : Node B M) : Type 0 where
    pub same_id : p.id ≡ o.id
    pub same_name : p.name ≡ o.name
    pub child :
        (b : ℕ) → bm.contains p.children b ≡ (bm.contains o.children b || (n.id == x && m.id == b))
    pub parent :
        (a : ℕ) → bm.contains p.parents a ≡ (bm.contains o.parents a || (m.id == x && n.id == a))

  IsUpdate-neighbor : (x : ℕ) (o : Node B M) → m.id ≡ x → o ≡ m → IsUpdate x o (add_parent n.id m)
  IsUpdate-neighbor x o e same = record {
    same_id = ground arith;
    same_name = ground arith;
    child = λ b. ground arith;
    parent = λ a. ground (arith, bm.contains-add n.id m.parents a);
  }

  IsUpdate-node : (x : ℕ) (o : Node B M) → n.id ≡ x → o ≡ n → IsUpdate x o (add_child m.id n)
  IsUpdate-node x o e same = record {
    same_id = ground arith;
    same_name = ground arith;
    child = λ b. ground (arith, bm.contains-add m.id n.children b);
    parent = λ a. ground arith;
  }

  IsUpdate-other : (x : ℕ) (o : Node B M) → n.id ≢ x → m.id ≢ x → IsUpdate x o o
  IsUpdate-other x o hn hm = record {
    same_id = refl;
    same_name = refl;
    child = λ b. ground arith;
    parent = λ a. ground arith;
  }

  -- each node that was stored is stored updated
  pub updated :
      (x : ℕ) (o : Node B M)
      → lookup x s.nodes ≡ some o
      → (p : Node B M) × (lookup x (linked n m s).nodes ≡ some p) × IsUpdate x o p
  updated x o h = elim (ℕ_discrete m.id x) [
    | yes e ↦ (
      add_parent n.id m,
      lookup-insert_at m.id x (add_parent n.id m) _ e,
      IsUpdate-neighbor x o e (ground arith),
    )
    | no ne ↦ elim (ℕ_discrete n.id x) [
      | yes e ↦ (
        add_child m.id n,
        lookup-insert_ne m.id x (add_parent n.id m) _ ne
            ∙ lookup-insert_at n.id x (add_child m.id n) s.nodes e,
        IsUpdate-node x o e (ground arith),
      )
      | no ne' ↦ (
        o,
        lookup-insert_ne m.id x (add_parent n.id m) _ ne
            ∙ lookup-insert_ne n.id x (add_child m.id n) s.nodes ne'
            ∙ h,
        IsUpdate-other x o ne' ne,
      )
    ]
  ]

  -- and nothing else is stored
  pub origin :
      (x : ℕ) (p : Node B M)
      → lookup x (linked n m s).nodes ≡ some p
      → (o : Node B M) × (lookup x s.nodes ≡ some o) × IsUpdate x o p
  origin x p h = elim (Option-cases (lookup x s.nodes)) [
    | inr (o, found) ↦
        let (q, now, update) = updated x o found in
        let same : q ≡ p = ground arith in (o, found, subst (IsUpdate x o) same update)
    | inl nothing ↦ absurd (missing nothing)
  ]
    where
      missing : lookup x s.nodes ≡ none → ⊥
      missing nothing = ground (
        arith,
        lookup-insert m.id x (add_parent n.id m) (insert n.id (add_child m.id n) s.nodes),
        lookup-insert n.id x (add_child m.id n) s.nodes,
      )

  same_index :
      IsWellFormed s
      → (name : String) → lookup name (linked n m s).name_ids ≡ lookup name s.name_ids
  same_index w name = ground (
    arith,
    lookup-insert m.name name m.id (insert n.name n.id s.name_ids),
    lookup-insert n.name name n.id s.name_ids,
    string_eq.beq_iff m.name name,
    string_eq.beq_iff n.name name,
    w.keyed n.id n stored,
    w.keyed m.id m stored',
  )

  pub linked-IsWellFormed : IsWellFormed s → IsWellFormed (linked n m s)
  linked-IsWellFormed w = record {
    named = λ name id h.
        let (o, found, e) = w.named name id (sym (same_index w name) ∙ h) in
        let (p, now, u) = updated id o found in (p, now, u.same_name ∙ e);
    keyed = λ id p h.
        let (o, found, u) = origin id p h in
        let (i, bound, index) = w.keyed id o found in
        (
          u.same_id ∙ i,
          bound,
          same_index w p.name ∙ ap (λ (name : String). lookup name s.name_ids) u.same_name ∙ index,
        );
    has_parent = λ a b p h e.
        let (o, found, u) = origin a p h in
        elim (Bool-cases (bm.contains o.children b)) [
          | inl old ↦
              let (q, there, back) = w.has_parent a b o found old in
              let (q', now, u') = updated b q there in (q', now, ground (arith, u'.parent a))
          | inr new ↦
              let (q', now, u') = updated b m (ground (arith, u.child b)) in
              (q', now, ground (arith, u'.parent a, u.child b))
        ];
    has_child = λ a b p h e.
        let (o, found, u) = origin b p h in
        elim (Bool-cases (bm.contains o.parents a)) [
          | inl old ↦
              let (q, there, back) = w.has_child a b o found old in
              let (q', now, u') = updated a q there in (q', now, ground (arith, u'.child b))
          | inr new ↦
              let (q', now, u') = updated a n (ground (arith, u.parent a)) in
              (q', now, ground (arith, u'.child b, u.parent a))
        ];
    loop_free = λ id p h.
        let (o, found, u) = origin id p h in ground (arith, u.child id, w.loop_free id o found);
  }
