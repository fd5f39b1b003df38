-- ===== src/Bitmap.antt =====
-- roaring.Bitmap.
pub mod Listed
use minefield.Prelude.{
  ℕ, ◌<◌, ◌≡◌, ◌↔◌, Bool, true, false, not, ◌&&◌, ◌||◌, xor, List, [], ◌∷◌, ◌∈◌, ◌==◌, nat_eq,
}

-- strictly ascending
abbrev pub IsAscending : List ℕ → Type 0
IsAscending [] = Unit
IsAscending (x ∷ []) = Unit
IsAscending (x ∷ y ∷ l) = (x < y) × IsAscending (y ∷ l)

-- The package's documented behaviour: a set of numbers, listed in ascending order.
pub record Bitmap (B : Type 0) : Type 0 where
  pub empty : B
  pub add : ℕ → B → B
  pub remove : ℕ → B → B
  pub or : B → B → B
  pub and : B → B → B
  pub xor_with : B → B → B
  pub and_not : B → B → B
  pub contains : B → ℕ → Bool
  pub to_array : B → List ℕ
  pub contains-empty : (x : ℕ) → contains empty x ≡ false
  pub contains-add : (x : ℕ) (b : B) (y : ℕ) → contains (add x b) y ≡ (x == y || contains b y)
  pub contains-remove :
      (x : ℕ) (b : B) (y : ℕ) → contains (remove x b) y ≡ (not (x == y) && contains b y)
  pub contains-or : (a b : B) (y : ℕ) → contains (or a b) y ≡ (contains a y || contains b y)
  pub contains-and : (a b : B) (y : ℕ) → contains (and a b) y ≡ (contains a y && contains b y)
  pub contains-xor_with :
      (a b : B) (y : ℕ) → contains (xor_with a b) y ≡ xor (contains a y) (contains b y)
  pub contains-and_not :
      (a b : B) (y : ℕ) → contains (and_not a b) y ≡ (contains a y && not (contains b y))
  pub mem-to_array : (b : B) (x : ℕ) → (x ∈ to_array b) ↔ (contains b x ≡ true)
  pub to_array-IsAscending : (b : B) → IsAscending (to_array b)
