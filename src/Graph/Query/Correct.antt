-- ===== src/Graph/Query/Correct.antt =====
-- `queryBitmap` returns, with what the stored edges lead to.
use minefield.Prelude.{
  ℕ, suc, ◌≤◌, String, ◌≡◌, refl, subst, ◌↔◌, Bool, true, none, some, [], ◌∷◌, lookup, nat_eq,
  Outcome, ok, arith,
}
use native.Mathlib.Decide.{ℕ_discrete}
use minefield.Bitmap.{Bitmap}
use minefield.Graph.Node.{Node, Direction, children_direction, parents_direction}
use minefield.Graph.Mock.{mock_storage}
use minefield.Graph.Mock.State.{MockStorage}
use minefield.Graph.Build.Invariant.{IsWellFormed}
use minefield.Graph.Query.{query_bitmap, neighbours}
use minefield.Graph.Query.Reach.{Reach, here, degree_sum, remaining-le}
use minefield.Graph.Query.Loop.{loop-Ends, Inv-init, reached}

module _ {B M : Type 0} ⦃bm : Bitmap B⦄ (matches : String → String → Outcome Bool)
    (s : MockStorage B M) (n : Node B M) (fuel : ℕ) where
  -- `r` is a normal return, with exactly the ids that are reached from `n`, which is one of them.
  pub record Answers (field : Node B M → B) (r : Outcome B × MockStorage B M) : Type 0 where
    pub out : B
    pub returns : r ≡ (ok out, s)
    pub answer : (v : ℕ) → (bm.contains out v ≡ true) ↔ Reach field s.nodes n.id v

  module _ (w : IsWellFormed s) (up : s.faults.get_node_err ≡ none)
      (stored : lookup n.id s.nodes ≡ some n) where
    answers :
        (direction : Direction) (field : Node B M → B)
        → ((n : Node B M) → neighbours direction n ≡ some (field n))
        → ((u v : ℕ) (n : Node B M)
            → lookup u s.nodes ≡ some n
            → bm.contains (field n) v ≡ true
            → (m : Node B M) × (lookup v s.nodes ≡ some m))
        → suc (degree_sum field s.nodes) ≤ fuel
        → Answers field (query_bitmap fuel (some n) (some (mock_storage matches)) direction s)
    unfolding query_bitmap
    answers direction field follow total enough =
        let keyed =
          λ (id : ℕ) (m : Node B M) (h : lookup id s.nodes ≡ some m). (w.keyed id m h).0 in
        let init = Inv-init matches s up keyed field n.id n refl stored in
        let run =
          loop-Ends matches s up keyed field n.id direction follow total fuel [] bm.empty (n ∷ [])
            init (omega (arith, remaining-le field [] s.nodes)) in
        record {
          out = bm.add n.id run.out;
          returns = rw run.returns;
          answer = λ v. (
            λ h. elim (ℕ_discrete n.id v) [
              | yes e ↦ subst (Reach field s.nodes n.id) e here
              | no ne ↦ run.inv.sound v (ground (arith, bm.contains-add n.id run.out v))
            ],
            λ r. ground (
              arith,
              bm.contains-add n.id run.out v,
              reached matches s up keyed field n.id run.inv r,
            ),
          );
        }

    -- In a well-formed storage that can be read, with fuel above the number of edges, the query of
    -- the dependencies of a stored node returns the ids that chains of children lead to from it,
    -- its own among them, and no others.
    pub query_dependencies_correct :
        suc (degree_sum (λ m. m.children) s.nodes) ≤ fuel
        → Answers
            (λ m. m.children)
            (query_bitmap fuel (some n) (some (mock_storage matches)) children_direction s)
    query_dependencies_correct =
        answers children_direction (λ m. m.children) (λ m. refl)
          (λ u v m found has. let (p, there, _) = w.has_parent u v m found has in (p, there))

    -- In a well-formed storage that can be read, with fuel above the number of edges, the query of
    -- the dependents of a stored node returns the ids that chains of parents lead to from it, its
    -- own among them, and no others.
    pub query_dependents_correct :
        suc (degree_sum (λ m. m.parents) s.nodes) ≤ fuel
        → Answers
            (λ m. m.parents)
            (query_bitmap fuel (some n) (some (mock_storage matches)) parents_direction s)
    query_dependents_correct =
        answers parents_direction (λ m. m.parents) (λ m. refl)
          (λ u v m found has. let (p, there, _) = w.has_child v u m found has in (p, there))
