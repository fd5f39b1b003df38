-- ===== src/Bitmap/Listed.antt =====
-- Bitmaps as lists in any order: the laws of `Bitmap` can be met.
use minefield.Prelude.{
  ℕ, ◌≡◌, refl, ◌↔◌, ◌⊎◌, Bool, true, false, not, ◌&&◌, ◌||◌, xor, List, [], ◌∷◌, ◌++◌, ◌∈◌, ◌==◌,
  nat_eq, ltb, if◌then◌else◌, arith,
}
use minefield.Bitmap.{Bitmap, IsAscending}

abbrev contains : List ℕ → ℕ → Bool
contains [] y = false
contains (x ∷ l) y = x == y || contains l y

abbrev keep : (ℕ → Bool) → List ℕ → List ℕ
keep p [] = []
keep p (x ∷ l) = if p x then x ∷ keep p l else keep p l

-- insertion into an ascending list, once
abbrev put : ℕ → List ℕ → List ℕ
put x [] = x ∷ []
put x (y ∷ l) = if ltb x y then x ∷ y ∷ l else if x == y then y ∷ l else y ∷ put x l

abbrev to_array : List ℕ → List ℕ
to_array [] = []
to_array (x ∷ l) = put x (to_array l)

pub contains-append : (a b : List ℕ) (y : ℕ) → contains (a ++ b) y ≡ (contains a y || contains b y)
contains-append [] b y = refl
contains-append (x ∷ a) b y = ground (arith, contains-append a b y)

contains-keep : (p : ℕ → Bool) (l : List ℕ) (y : ℕ) → contains (keep p l) y ≡ (p y && contains l y)
contains-keep p [] y = ground arith
contains-keep p (x ∷ l) y = ground (arith, contains-keep p l y)

pub contains-remove :
    (x : ℕ) (l : List ℕ) (y : ℕ)
    → contains (keep (λ z. not (x == z)) l) y ≡ (not (x == y) && contains l y)
contains-remove x l y = contains-keep (λ z. not (x == z)) l y

pub contains-and :
    (a b : List ℕ) (y : ℕ) → contains (keep (contains b) a) y ≡ (contains a y && contains b y)
contains-and a b y = ground (arith, contains-keep (contains b) a y)

pub contains-and_not :
    (a b : List ℕ) (y : ℕ)
    → contains (keep (λ z. not (contains b z)) a) y ≡ (contains a y && not (contains b y))
contains-and_not a b y = ground (arith, contains-keep (λ z. not (contains b z)) a y)

pub contains-xor :
    (a b : List ℕ) (y : ℕ)
    → contains (keep (λ z. not (contains b z)) a ++ keep (λ z. not (contains a z)) b) y
      ≡ xor (contains a y) (contains b y)
contains-xor a b y = ground (
  arith,
  contains-append (keep (λ z. not (contains b z)) a) (keep (λ z. not (contains a z)) b) y,
  contains-and_not a b y,
  contains-and_not b a y,
)

mem-put : (x : ℕ) (l : List ℕ) (a : ℕ) → (a ∈ put x l) ↔ ((a ≡ x) ⊎ (a ∈ l))
mem-put x [] a = ground arith
mem-put x (y ∷ l) a = ground (arith, mem-put x l a)

pub mem-to_array : (l : List ℕ) (a : ℕ) → (a ∈ to_array l) ↔ (contains l a ≡ true)
mem-to_array [] a = ground arith
mem-to_array (x ∷ l) a = ground (arith, mem-put x (to_array l) a, mem-to_array l a)

put-IsAscending : (x : ℕ) (l : List ℕ) → IsAscending l → IsAscending (put x l)
put-IsAscending x [] h = tt
put-IsAscending x (y ∷ []) h = ground arith
put-IsAscending x (y ∷ z ∷ l) h = ground (arith, put-IsAscending x (z ∷ l))

pub to_array-IsAscending : (l : List ℕ) → IsAscending (to_array l)
to_array-IsAscending [] = tt
to_array-IsAscending (x ∷ l) = put-IsAscending x (to_array l) (to_array-IsAscending l)

instance abbrev pub listed : Bitmap (List ℕ)
listed = record {
  empty = [];
  add = λ x l. x ∷ l;
  remove = λ x. keep (λ z. not (x == z));
  or = ◌++◌;
  and = λ a b. keep (contains b) a;
  xor_with = λ a b. keep (λ z. not (contains b z)) a ++ keep (λ z. not (contains a z)) b;
  and_not = λ a b. keep (λ z. not (contains b z)) a;
  contains = contains;
  to_array = to_array;
  contains-empty = λ x. refl;
  contains-add = λ x b y. refl;
  contains-remove = contains-remove;
  contains-or = contains-append;
  contains-and = contains-and;
  contains-xor_with = contains-xor;
  contains-and_not = contains-and_not;
  mem-to_array = mem-to_array;
  to_array-IsAscending = to_array-IsAscending;
}
