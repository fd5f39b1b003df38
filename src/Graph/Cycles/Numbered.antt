-- ===== src/Graph/Cycles/Numbered.antt =====
-- The nodes that `findCycles` has not numbered yet.
use minefield.Prelude.{
  ℕ, ◌+◌, ◌≤◌, ◌≡◌, refl, arith, Bool-cases, none, some, Option-cases, inl, inr, List, [], ◌∷◌,
  length, ◌==◌, nat_eq, nat_beq_iff, Map, lookup, insert, lookup-insert, Outcome, ok, if◌then◌else◌,
}
use minefield.Bitmap.{Bitmap}
use minefield.Graph.Cycles.{Tarjan, leave, pop_component}

abbrev pub HasNumber : ℕ → Map ℕ ℕ → Type 0
HasNumber k numbers = (v : ℕ) × (lookup k numbers ≡ some v)

-- the entries of a map whose keys have no number
unfoldable pub unnumbered : {V : Type 0} → Map ℕ ℕ → Map ℕ V → ℕ
unnumbered numbers [] = 0
unnumbered numbers ((k, _) ∷ m) =
    elim (lookup k numbers) [ none ↦ 1 | some _ ↦ 0 ] + unnumbered numbers m

pub unnumbered-le :
    {V : Type 0} (numbers more : Map ℕ ℕ) (m : Map ℕ V)
    → ((k : ℕ) → HasNumber k numbers → HasNumber k more)
    → unnumbered more m ≤ unnumbered numbers m
unfolding unnumbered
unnumbered-le numbers more [] grows = omega arith
unnumbered-le numbers more ((k, _) ∷ m) grows = elim (Option-cases (lookup k numbers)) [
  | inl fresh ↦ ground (arith, fresh, unnumbered-le numbers more m grows)
  | inr (v, old) ↦
      let (v', new) = grows k (v, old) in
      ground (arith, old, new, unnumbered-le numbers more m grows)
]

pub insert-grows :
    (u v : ℕ) (numbers : Map ℕ ℕ) (k : ℕ) → HasNumber k numbers → HasNumber k (insert u v numbers)
insert-grows u v numbers k (w, h) =
    (if u == k then v else w, ground (arith, lookup-insert u k v numbers))

-- A number for a key of the map leaves fewer without.
pub unnumbered-insert :
    {V : Type 0} (u v : ℕ) (x : V) (numbers : Map ℕ ℕ) (m : Map ℕ V)
    → lookup u m ≡ some x
    → lookup u numbers ≡ none
    → unnumbered (insert u v numbers) m + 1 ≤ unnumbered numbers m
unfolding unnumbered lookup
unnumbered-insert u v x numbers [] h new = ground (arith, h)
unnumbered-insert u v x numbers ((k, w) ∷ m) h new = ground (
  arith,
  nat_beq_iff k u,
  lookup-insert u k v numbers,
  nat_beq_iff u k,
  unnumbered-le numbers (insert u v numbers) m (insert-grows u v numbers),
  unnumbered-insert u v x numbers m,
)

pub unnumbered-start : {V : Type 0} (m : Map ℕ V) → unnumbered [] m ≡ length m
unfolding unnumbered lookup
unnumbered-start [] = refl
unnumbered-start (_ ∷ m) = omega (arith, unnumbered-start m)

module _ {B : Type 0} ⦃bm : Bitmap B⦄ where
  pop_component-numbers :
      (node_id : ℕ) (stack : List ℕ) (t : Tarjan B)
      → (pop_component node_id stack t).node_to_tarjan_id ≡ t.node_to_tarjan_id
  unfolding pop_component
  pop_component-numbers node_id [] t = refl
  pop_component-numbers node_id (id ∷ stack) t = elim (Bool-cases (node_id == id)) [
    | inl last ↦ rw last refl
    | inr more ↦ rw more (pop_component-numbers node_id stack _)
  ]

  pub leave-numbers :
      (node_id : ℕ) (t : Tarjan B) → (leave node_id t).node_to_tarjan_id ≡ t.node_to_tarjan_id
  leave-numbers node_id t = ground (arith, pop_component-numbers node_id t.stack t)

  -- A normal return, with all the numbers that there were.
  pub record Returns (t : Tarjan B) (r : Outcome (Unit {0}) × Tarjan B) : Type 0 where
    pub after : Tarjan B
    pub returns : r ≡ (ok tt, after)
    pub grows : (k : ℕ) → HasNumber k t.node_to_tarjan_id → HasNumber k after.node_to_tarjan_id
