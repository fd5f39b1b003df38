-- ===== src/Graph/Build/Drawn.antt =====
-- The edges of the graph as they are seen from outside: a node depends on a node of some name. What an
-- operation draws is a relation that is added to them.
use minefield.Prelude.{
  ℕ, suc, ◌≡◌, ◌≢◌, sym, ap, ◌∙◌, ◌↔◌, ◌⊎◌, inl, inr, String, Bool, Bool-cases, some, lookup,
  lookup-insert_ne, lookup-insert_cases, nat_eq, string_eq, Outcome, arith,
}
use minefield.Bitmap.{Bitmap}
use minefield.Graph.Node.{Node}
use minefield.Graph.Mock.State.{MockStorage}
use minefield.Graph.Build.Invariant.{Edge, IsWellFormed}
use minefield.Graph.Build.AddNode.{next, with_next_and_cache}
use minefield.Graph.Build.Linked.{linked, origin, updated}

module _ {B M : Type 0} ⦃bm : Bitmap B⦄ where
  -- The node with the id depends on the node of the name.
  abbrev pub DependsOn : MockStorage B M → ℕ → String → Type 0
  DependsOn s a x =
      (b : ℕ) × (m : Node B M) × Edge s a b × (lookup b s.nodes ≡ some m) × (m.name ≡ x)

  -- From `s` to `t` exactly the dependencies of `R` are drawn.
  pub record Draws (R : ℕ → String → Type 0) (s t : MockStorage B M) : Type 0 where
    pub exactly : (a : ℕ) (x : String) → DependsOn t a x ↔ (DependsOn s a x ⊎ R a x)

  pub Draws-none : (s : MockStorage B M) → Draws (λ a x. ⊥) s s
  Draws-none s = record { exactly = λ a x. (inl, λ d. elim d [ inl e ↦ e | inr e ↦ absurd e ]) }

  pub Draws-both :
      {R Q : ℕ → String → Type 0} {s t u : MockStorage B M}
      → Draws R s t
      → Draws Q t u
      → Draws (λ a x. R a x ⊎ Q a x) s u
  Draws-both d e = record {
    exactly = λ a x. (
      λ u. elim ((e.exactly a x).0 u) [
        | inl t ↦ elim ((d.exactly a x).0 t) [ inl s ↦ inl s | inr r ↦ inr (inl r) ]
        | inr q ↦ inr (inr q)
      ],
      λ h. elim h [
        | inl s ↦ (e.exactly a x).1 (inl ((d.exactly a x).1 (inl s)))
        | inr (inl r) ↦ (e.exactly a x).1 (inl ((d.exactly a x).1 (inr r)))
        | inr (inr q) ↦ (e.exactly a x).1 (inr q)
      ],
    );
  }

  pub Draws-iff :
      {R Q : ℕ → String → Type 0} {s t : MockStorage B M}
      → Draws R s t
      → ((a : ℕ) (x : String) → R a x ↔ Q a x)
      → Draws Q s t
  Draws-iff d same = record {
    exactly = λ a x. (
      λ t. elim ((d.exactly a x).0 t) [ inl s ↦ inl s | inr r ↦ inr ((same a x).0 r) ],
      λ h. elim h [
        | inl s ↦ (d.exactly a x).1 (inl s)
        | inr q ↦ (d.exactly a x).1 (inr ((same a x).1 q))
      ],
    );
  }

  -- `SetDependency` draws one dependency.
  pub linked-Draws :
      (n m : Node B M) (s : MockStorage B M)
      → lookup n.id s.nodes ≡ some n
      → lookup m.id s.nodes ≡ some m
      → n.id ≢ m.id
      → Draws (λ a x. (n.id ≡ a) × (m.name ≡ x)) s (linked n m s)
  linked-Draws n m s stored stored' ne = record { exactly = λ a x. (forth a x, back a x) }
    where
      forth :
          (a : ℕ) (x : String)
          → DependsOn (linked n m s) a x
          → DependsOn s a x ⊎ (n.id ≡ a) × (m.name ≡ x)
      forth a x (b, q, (p, found, e), there, named) =
          let (o, at, u) = origin n m s stored stored' ne a p found in
          let (o', at', u') = origin n m s stored stored' ne b q there in
          let name : o'.name ≡ x = sym u'.same_name ∙ named in
          elim (Bool-cases (bm.contains o.children b)) [
            | inl old ↦ inl (b, o', (o, at, old), at', name)
            | inr new ↦
                let ends : (n.id ≡ a) × (m.id ≡ b) = ground (arith, u.child b, e, new) in
                let same : m ≡ o' = ground (arith, ends, stored', at') in
                inr (ends.0, ap (λ (k : Node B M). k.name) same ∙ name)
          ]

      back :
          (a : ℕ) (x : String)
          → DependsOn s a x ⊎ (n.id ≡ a) × (m.name ≡ x)
          → DependsOn (linked n m s) a x
      back a x (inl (b, o', (o, at, e), there, named)) =
          let (p, now, u) = updated n m s stored stored' ne a o at in
          let (q, now', u') = updated n m s stored stored' ne b o' there in
          (b, q, (p, now, ground (arith, u.child b, e)), now', u'.same_name ∙ named)
      back a x (inr (from, to)) =
          let (p, now, u) = updated n m s stored stored' ne a n (ground (arith, from, stored)) in
          let (q, now', u') = updated n m s stored stored' ne m.id m stored' in
          (m.id, q, (p, now, ground (arith, u.child m.id, from)), now', u'.same_name ∙ to)

module _ {B M : Type 0} ⦃bm : Bitmap B⦄ (matches : String → String → Outcome Bool) (type : String)
    (metadata : M) (name : String) (s : MockStorage B M) (w : IsWellFormed s)
    (fresh : (next matches type metadata name s).id ≡ suc s.id_counter) where
  abbrev new : Node B M
  new = next matches type metadata name s

  abbrev after : MockStorage B M
  after = with_next_and_cache matches type metadata name s

  old_kept : (id : ℕ) (n : Node B M) → lookup id s.nodes ≡ some n → lookup id after.nodes ≡ some n
  old_kept id n h =
      let (_, bound, _) = w.keyed id n h in
      lookup-insert_ne new.id id new s.nodes (omega (arith, fresh, bound)) ∙ h

  old_dependency : (a : ℕ) (x : String) → DependsOn after a x → DependsOn s a x
  old_dependency a x (b, m, (n, found, e), there, named) =
      elim (lookup-insert_cases new.id a new n s.nodes found) [
        | inl (_, same) ↦ absurd (ground (arith, e, same, bm.contains-empty b))
        | inr (_, old) ↦
            let (o, at, _) = w.has_parent a b n old e in
            let same : o ≡ m = ground (arith, old_kept b o at, there) in
            (b, o, (n, old, e), at, ap (λ (k : Node B M). k.name) same ∙ named)
      ]

  -- `AddNode` of a new name draws none.
  pub added-Draws : Draws (λ a x. ⊥) s after
  added-Draws = record {
    exactly = λ a x. (
      λ d. inl (old_dependency a x d),
      λ d. elim d [
        | inl (b, m, (n, found, e), there, named) ↦
            (b, m, (n, old_kept a n found, e), old_kept b m there, named)
        | inr none_new ↦ absurd none_new
      ],
    );
  }
