-- ===== src/Graph/Query/Reach.antt =====
-- What `queryBitmap` computes: the ids that chains of stored edges lead to. `field` is the bitmap
-- that a direction follows.
use minefield.Prelude.{
  ℕ, ◌+◌, ◌≤◌, ◌≡◌, Bool, true, false, some, [], ◌∷◌, length, if◌then◌else◌, Map, lookup, insert,
  lookup-insert, nat_eq, nat_beq_iff, ◌==◌, arith,
}
use minefield.Bitmap.{Bitmap}
use minefield.Graph.Node.{Node}
use minefield.Graph.Query.{is_visited}

module _ {B M : Type 0} ⦃bm : Bitmap B⦄ (field : Node B M → B) (nodes : Map ℕ (Node B M)) where
  abbrev pub Arc : ℕ → ℕ → Type 0
  Arc u v = (n : Node B M) × (lookup u nodes ≡ some n) × (bm.contains (field n) v ≡ true)

  pub data Reach (start : ℕ) : ℕ → Type 0 where
    here : Reach start start
    step : {u v : ℕ} → Reach start u → Arc u v → Reach start v

pub is_visited-insert :
    (u k : ℕ) (visited : Map ℕ Bool)
    → is_visited k (insert u true visited) ≡ (if u == k then true else is_visited k visited)
is_visited-insert u k visited = ground (arith, lookup-insert u k true visited)

module _ {B M : Type 0} ⦃bm : Bitmap B⦄ (field : Node B M → B) where
  abbrev degree : Node B M → ℕ
  degree n = length (bm.to_array (field n))

  -- the edges at all nodes
  unfoldable pub degree_sum : Map ℕ (Node B M) → ℕ
  degree_sum [] = 0
  degree_sum ((_, n) ∷ m) = degree n + degree_sum m

  -- the edges at the nodes that are not visited yet
  unfoldable pub remaining : Map ℕ Bool → Map ℕ (Node B M) → ℕ
  remaining visited [] = 0
  remaining visited ((k, n) ∷ m) =
      (if is_visited k visited then 0 else degree n) + remaining visited m

  pub remaining-le :
      (visited : Map ℕ Bool) (m : Map ℕ (Node B M)) → remaining visited m ≤ degree_sum m
  unfolding remaining degree_sum
  remaining-le visited [] = omega arith
  remaining-le visited ((k, n) ∷ m) = ground (arith, remaining-le visited m)

  remaining-insert-le :
      (u : ℕ) (visited : Map ℕ Bool) (m : Map ℕ (Node B M))
      → remaining (insert u true visited) m ≤ remaining visited m
  unfolding remaining
  remaining-insert-le u visited [] = omega arith
  remaining-insert-le u visited ((k, n) ∷ m) =
      ground (arith, is_visited-insert u k visited, remaining-insert-le u visited m)

  -- A visit takes the edges of its node away.
  pub remaining-insert :
      (u : ℕ) (n : Node B M) (visited : Map ℕ Bool) (m : Map ℕ (Node B M))
      → lookup u m ≡ some n
      → is_visited u visited ≡ false
      → remaining (insert u true visited) m + degree n ≤ remaining visited m
  unfolding remaining lookup
  remaining-insert u n visited [] h new = ground arith
  remaining-insert u n visited ((k, w) ∷ m) h new = ground (
    arith,
    nat_beq_iff k u,
    is_visited-insert u k visited,
    remaining-insert-le u visited m,
    remaining-insert u n visited m,
  )
