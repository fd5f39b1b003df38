-- ===== src/Service/QueryHeap.antt =====
-- api/v1/service.go: `queryHeap`, the list that container/heap keeps in order. The package is the
-- parameter `Heap`, which is given the methods of the list; an index out of range panics.
pub mod Sequence
use minefield.Prelude.{
  ℕ, zero, suc, Bool, List, [], ◌∷◌, ◌++◌, length, ltb, Outcome, ok, panic, bind,
}
use minefield.Graph.Node.{Node}

-- `type Query`
pub record Ranking (B M : Type 0) : Type 0 where
  pub node : Node B M
  pub output : List ℕ

-- `l[i]`
abbrev pub at : {A : Type 0} → List A → ℕ → Outcome A
at [] i = panic
at (a ∷ l) zero = ok a
at (a ∷ l) (suc i) = at l i

-- `l[i] = a`, where there is an `i`th element
abbrev pub put : {A : Type 0} → ℕ → A → List A → List A
put i a [] = []
put zero a (_ ∷ l) = a ∷ l
put (suc i) a (b ∷ l) = b ∷ put i a l

-- `heap.Interface`, on a list behind a pointer
pub record Interface (Q : Type 0) : Type 0 where
  pub len : List Q → ℕ
  pub less : List Q → ℕ → ℕ → Outcome Bool
  pub swap : List Q → ℕ → ℕ → Outcome (List Q)
  pub push : List Q → Q → List Q
  pub pop : List Q → Outcome (Q × List Q)

abbrev pub shorter : {B M : Type 0} → Ranking B M → Ranking B M → Bool
shorter p q = ltb (length p.output) (length q.output)

module _ {B M : Type 0} where
  abbrev pub heap_len : List (Ranking B M) → ℕ
  heap_len h = length h

  abbrev pub heap_less : List (Ranking B M) → ℕ → ℕ → Outcome Bool
  heap_less h i j = bind (at h i) λ p. bind (at h j) λ q. ok (shorter p q)

  abbrev pub heap_swap : List (Ranking B M) → ℕ → ℕ → Outcome (List (Ranking B M))
  heap_swap h i j = bind (at h j) λ q. bind (at h i) λ p. ok (put j p (put i q h))

  abbrev pub heap_push : List (Ranking B M) → Ranking B M → List (Ranking B M)
  heap_push h x = h ++ x ∷ []

  -- `old[n-1]` and `old[0 : n-1]`
  abbrev pub heap_pop : List (Ranking B M) → Outcome (Ranking B M × List (Ranking B M))
  heap_pop [] = panic
  heap_pop (x ∷ []) = ok (x, [])
  heap_pop (x ∷ y ∷ h) = bind (heap_pop (y ∷ h)) λ (last, rest). ok (last, x ∷ rest)

  abbrev pub query_heap : Interface (Ranking B M)
  query_heap = record {
    len = heap_len;
    less = heap_less;
    swap = heap_swap;
    push = heap_push;
    pop = heap_pop;
  }

-- `heap.Init`, `heap.Push` and `heap.Pop`
pub record Heap (Q : Type 0) : Type 0 where
  pub init : Interface Q → List Q → Outcome (List Q)
  pub push : Interface Q → List Q → Q → Outcome (List Q)
  pub pop : Interface Q → List Q → Outcome (Q × List Q)
