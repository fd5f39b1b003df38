-- ===== src/Service/QueryHeap/Sequence.antt =====
-- The methods of `queryHeap` are what container/heap asks for, and what it does with them.
use minefield.Prelude.{
  ℕ, suc, Bool, false, List, [], ◌∷◌, ◌++◌, ◌∈◌, length, ◌≡◌, refl, ◌↔◌, ◌⊎◌, arith, ok,
}
use minefield.Service.QueryHeap.{Ranking, at, put, Interface, Heap, shorter, query_heap, heap_pop}

-- The methods are those of a sequence whose elements `before` compares.
pub record IsSequence {Q : Type 0} (i : Interface Q) (before : Q → Q → Bool) : Type 0 where
  pub len_lem : (l : List Q) → i.len l ≡ length l
  pub less_lem :
      (l : List Q) (a b : ℕ) (p q : Q)
      → at l a ≡ ok p
      → at l b ≡ ok q
      → i.less l a b ≡ ok (before p q)
  pub swap_lem :
      (l : List Q) (a b : ℕ) (p q : Q)
      → at l a ≡ ok p
      → at l b ≡ ok q
      → i.swap l a b ≡ ok (put b p (put a q l))
  pub push_lem : (l : List Q) (q : Q) → i.push l q ≡ l ++ q ∷ []
  pub pop_lem : (l : List Q) (q : Q) → i.pop (l ++ q ∷ []) ≡ ok (q, l)

-- The order that `sort.Interface` asks for: what is not before is transitive, and nothing is before
-- itself.
pub record IsWeakOrder {Q : Type 0} (before : Q → Q → Bool) : Type 0 where
  pub irreflexive : (x : Q) → before x x ≡ false
  pub transitive : (x y z : Q) → before x y ≡ false → before y z ≡ false → before x z ≡ false

-- Documented behaviour of container/heap, over methods of a sequence with an order: it keeps the
-- elements in a list that is a heap, and `Pop` takes out one that none is before.
pub record KeepsHeaps {Q : Type 0} (heap : Heap Q) (i : Interface Q) (before : Q → Q → Bool)
    : Type 1 where
  pub IsHeap : List Q → Type 0
  pub init_lem : IsSequence i before → IsWeakOrder before → (heap.init i [] ≡ ok []) × IsHeap []
  pub push_lem :
      IsSequence i before
      → IsWeakOrder before
      → (l : List Q) (q : Q) → IsHeap l
      → (l' : List Q) × (heap.push i l q ≡ ok l')
        × IsHeap l'
        × (length l' ≡ suc (length l))
        × ((x : Q) → (x ∈ l') ↔ ((x ≡ q) ⊎ (x ∈ l)))
  pub pop_lem :
      IsSequence i before
      → IsWeakOrder before
      → (l : List Q) (n : ℕ) → IsHeap l
      → length l ≡ suc n
      → (q : Q) × (l' : List Q) × (heap.pop i l ≡ ok (q, l'))
        × IsHeap l'
        × (length l' ≡ n)
        × ((x : Q) → (x ∈ l) ↔ ((x ≡ q) ⊎ (x ∈ l')))
        × ((x : Q) → x ∈ l' → before x q ≡ false)

module _ {B M : Type 0} where
  pop-concat : (l : List (Ranking B M)) (q : Ranking B M) → heap_pop (l ++ q ∷ []) ≡ ok (q, l)
  pop-concat [] q = refl
  pop-concat (x ∷ []) q = refl
  pop-concat (x ∷ y ∷ l) q = rw (pop-concat (y ∷ l) q) refl

  pub query_heap-IsSequence : IsSequence (query_heap {B = B} {M = M}) shorter
  query_heap-IsSequence = record {
    len_lem = λ l. refl;
    less_lem = λ l a b p q e f. rw (e, f) refl;
    swap_lem = λ l a b p q e f. rw (f, e) refl;
    push_lem = λ l q. refl;
    pop_lem = pop-concat;
  }

  pub shorter-IsWeakOrder : IsWeakOrder (shorter {B = B} {M = M})
  shorter-IsWeakOrder = record {
    irreflexive = λ x. ground arith;
    transitive = λ x y z e f. ground (arith, e, f);
  }
