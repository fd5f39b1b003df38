-- ===== src/Graph/Parser/Searched.antt =====
-- The batch queries with no caches, on the storage in memory: each package gets what is reached.
use minefield.Prelude.{
  ℕ, suc, ◌≤◌, String, ◌≡◌, refl, ◌↔◌, Bool, true, false, Option, none, some, List, ◌∷◌, nat_eq,
  Map, lookup, insert, Outcome, ok, err, panic, out_of_fuel, arith,
}
use minefield.Bitmap.{Bitmap}
use minefield.Graph.Node.{Node, NodeCache, Direction, children_direction, parents_direction}
use minefield.Graph.Mock.{mock_storage}
use minefield.Graph.Mock.State.{MockStorage}
use minefield.Graph.Build.Invariant.{IsWellFormed}
use minefield.Graph.Query.{query_bitmap, batch_dependencies, batch_dependents}
use minefield.Graph.Query.Reach.{Reach, degree_sum}
use minefield.Graph.Query.Correct.{Answers, query_dependencies_correct, query_dependents_correct}

abbrev or_nothing : {B : Type 0} ⦃bm : Bitmap B⦄ → Outcome B → B
or_nothing (ok b) = b
or_nothing ⦃bm⦄ (err _) = bm.empty
or_nothing ⦃bm⦄ panic = bm.empty
or_nothing ⦃bm⦄ out_of_fuel = bm.empty

module _ {B M : Type 0} ⦃bm : Bitmap B⦄ (matches : String → String → Outcome Bool)
    (s : MockStorage B M) (fuel : ℕ) where
  -- what the query of the stored node returns
  abbrev pub searched : Direction → ℕ → B
  searched direction id = elim (lookup id s.nodes) [
    | none ↦ bm.empty
    | some n ↦ or_nothing (query_bitmap fuel (some n) (some (mock_storage matches)) direction s).0
  ]

  abbrev pub IsStored : Node B M → Type 0
  IsStored n = lookup n.id s.nodes ≡ some n

  abbrev pub IsReached : (Node B M → B) → Direction → Type 0
  IsReached field direction =
      (n : Node B M)
      → IsStored n
      → (v : ℕ) → (bm.contains (searched direction n.id) v ≡ true) ↔ Reach field s.nodes n.id v

  searched-out :
      (direction : Direction) (field : Node B M → B) (n : Node B M)
      → IsStored n
      → (a : Answers matches s n fuel field
          (query_bitmap fuel (some n) (some (mock_storage matches)) direction s))
      → searched direction n.id ≡ a.out
  searched-out direction field n stored a = ground (arith, stored, a.returns)

  module _ (w : IsWellFormed s) (up : s.faults.get_node_err ≡ none)
      (children_enough : suc (degree_sum (λ m. m.children) s.nodes) ≤ fuel)
      (parents_enough : suc (degree_sum (λ m. m.parents) s.nodes) ≤ fuel) where
    found_children :
        (n : Node B M)
        → IsStored n
        → Answers matches s n fuel
            (λ m. m.children)
            (query_bitmap fuel (some n) (some (mock_storage matches)) children_direction s)
    found_children n stored =
        query_dependencies_correct matches s n fuel w up stored children_enough

    pub searched-children : IsReached (λ m. m.children) children_direction
    searched-children n stored v =
        let a = found_children n stored in
        rw (searched-out children_direction (λ m. m.children) n stored a) (a.answer v)

    pub batch_dependencies-searched :
        (caches : Map ℕ (Option (NodeCache B))) (n : Node B M) (ns : List (Option (Node B M)))
        (before : Map ℕ B)
        → IsStored n
        → batch_dependencies fuel (some (mock_storage matches)) (some n ∷ ns) caches false before s
          ≡ batch_dependencies fuel
              (some (mock_storage matches))
              ns
              caches
              false
              (insert n.id (searched children_direction n.id) before)
              s
    unfolding batch_dependencies
    batch_dependencies-searched caches n ns before stored =
        let a = found_children n stored in
        rw (searched-out children_direction (λ m. m.children) n stored a, a.returns) refl

    found_parents :
        (n : Node B M)
        → IsStored n
        → Answers matches s n fuel
            (λ m. m.parents)
            (query_bitmap fuel (some n) (some (mock_storage matches)) parents_direction s)
    found_parents n stored = query_dependents_correct matches s n fuel w up stored parents_enough

    pub searched-parents : IsReached (λ m. m.parents) parents_direction
    searched-parents n stored v =
        let a = found_parents n stored in
        rw (searched-out parents_direction (λ m. m.parents) n stored a) (a.answer v)

    pub batch_dependents-searched :
        (caches : Map ℕ (Option (NodeCache B))) (n : Node B M) (ns : List (Option (Node B M)))
        (before : Map ℕ B)
        → IsStored n
        → batch_dependents fuel (some (mock_storage matches)) (some n ∷ ns) caches false before s
          ≡ batch_dependents fuel
              (some (mock_storage matches))
              ns
              caches
              false
              (insert n.id (searched parents_direction n.id) before)
              s
    unfolding batch_dependents
    batch_dependents-searched caches n ns before stored =
        let a = found_parents n stored in
        rw (searched-out parents_direction (λ m. m.parents) n stored a, a.returns) refl
