-- ===== src/Storages/Sql/Batches.antt =====
-- Saving in batches is saving at once.
use minefield.Prelude.{
  ℕ, zero, suc, ◌<◌, sym, ◌≤◌, ◌≡◌, ◌∙◌, refl, ap, arith, List, [], ◌∷◌, ◌++◌, length, Outcome, ok,
  err, panic, out_of_fuel, bind, wrapping,
}
use minefield.Graph.Node.{NodeCache}
use minefield.Graph.Encode.{Format, marshal_cache}
use minefield.Storages.{cache_key}
use minefield.Storages.Sql.{save_batches, save_caches}
use minefield.Storages.Sql.Rows.{first_of, behind, cache_rows}
use minefield.Storages.Sql.Database.{KvStore}
use minefield.Storages.Sql.Database.{Database as Db}

first_of-behind : {A : Type 0} (n : ℕ) (l : List A) → first_of n l ++ behind n l ≡ l
first_of-behind zero l = refl
first_of-behind (suc n) [] = refl
first_of-behind (suc n) (a ∷ l) = ap (λ k. a ∷ k) (first_of-behind n l)

length-behind : {A : Type 0} (n : ℕ) (l : List A) → length (behind n l) ≤ length l
length-behind zero l = omega arith
length-behind (suc n) [] = omega arith
length-behind (suc n) (a ∷ l) = omega (arith, length-behind n l)

length-first_of : {A : Type 0} (n : ℕ) (l : List A) → length (first_of n l) ≤ n
length-first_of zero l = omega arith
length-first_of (suc n) [] = omega arith
length-first_of (suc n) (a ∷ l) = omega (arith, length-first_of n l)

bind-ok :
    {A C : Type 0} (x : Outcome A) (f : A → Outcome C) (c : C)
    → bind x f ≡ ok c
    → (a : A) × (x ≡ ok a) × (f a ≡ ok c)
bind-ok (ok a) f c h = (a, refl, h)
bind-ok (err e) f c h = ground (arith, h)
bind-ok panic f c h = ground (arith, h)
bind-ok out_of_fuel f c h = ground (arith, h)

module _ {D B : Type 0} ⦃format : Format B⦄ (db : Db D) where
  record Split (a b : List (NodeCache B)) (rows : List KvStore) : Type 0 where
    pub left : List KvStore
    pub right : List KvStore
    pub left_rows : cache_rows a ≡ ok left
    pub right_rows : cache_rows b ≡ ok right
    pub joined : rows ≡ left ++ right

  cache_rows-Split :
      (a b : List (NodeCache B)) (rows : List KvStore)
      → cache_rows (a ++ b) ≡ ok rows
      → Split a b rows
  unfolding cache_rows
  cache_rows-Split [] b rows h = record {
    left = [];
    right = rows;
    left_rows = refl;
    right_rows = h;
    joined = refl;
  }
  cache_rows-Split (cache ∷ a) b rows h =
      let (bytes, wrote, h₁) =
        bind-ok (wrapping "failed to marshal cache: %w" (marshal_cache cache))
          (λ bytes.
            bind (cache_rows (a ++ b))
              λ others. ok (record { key = cache_key cache.id; value = bytes } ∷ others))
          rows h in
      let row : KvStore = record { key = cache_key cache.id; value = bytes } in
      let (rest, others, h₂) =
        bind-ok (cache_rows (a ++ b)) (λ others. ok (row ∷ others)) rows h₁ in
      let further = cache_rows-Split a b rest others in
      record {
        left = row ∷ further.left;
        right = further.right;
        left_rows = rw (wrote, further.left_rows) refl;
        right_rows = further.right_rows;
        joined = cc (h₂, further.joined);
      }

  length-cache_rows :
      (caches : List (NodeCache B)) (rows : List KvStore)
      → cache_rows caches ≡ ok rows
      → length rows ≡ length caches
  unfolding cache_rows
  length-cache_rows [] rows h = let e : [] ≡ rows = ground (arith, h) in ap length (sym e)
  length-cache_rows (cache ∷ caches) rows h =
      let (bytes, wrote, h₁) =
        bind-ok (wrapping "failed to marshal cache: %w" (marshal_cache cache))
          (λ bytes.
            bind (cache_rows caches)
              λ others. ok (record { key = cache_key cache.id; value = bytes } ∷ others))
          rows h in
      let row : KvStore = record { key = cache_key cache.id; value = bytes } in
      let (rest, others, h₂) = bind-ok (cache_rows caches) (λ others. ok (row ∷ others)) rows h₁ in
      let e : row ∷ rest ≡ rows = ground (arith, h₂) in
      ap length (sym e) ∙ ap suc (length-cache_rows caches rest others)

  module _ (write : List KvStore → D → D)
      (saves : (row : KvStore) (rows : List KvStore) (s : D)
        → length rows < 500
        → db.save_all (row ∷ rows) s ≡ (ok tt, write (row ∷ rows) s))
      (write_none : (s : D) → write [] s ≡ s)
      (write_twice : (a b : List KvStore) (s : D) → write (a ++ b) s ≡ write b (write a s)) where
    -- A batch that is saved has a row, and no more than 500.
    save_batch :
        (cache : NodeCache B) (caches : List (NodeCache B)) (rows : List KvStore) (s : D)
        → length caches < 500
        → cache_rows (cache ∷ caches) ≡ ok rows
        → db.save_all rows s ≡ (ok tt, write rows s)
    save_batch cache caches [] s few h = ground (arith, length-cache_rows (cache ∷ caches) [] h)
    save_batch cache caches (row ∷ rows) s few h =
        saves row rows s (omega (arith, few, length-cache_rows (cache ∷ caches) (row ∷ rows) h))

    save_batches-lem :
        (fuel : ℕ) (caches : List (NodeCache B)) (rows : List KvStore) (s : D)
        → length caches ≤ fuel
        → cache_rows caches ≡ ok rows
        → save_batches db fuel caches s ≡ (ok tt, write rows s)
    unfolding save_batches cache_rows
    save_batches-lem fuel [] rows s enough h =
        let e : rows ≡ [] = ground (arith, h) in rw (e, write_none s) refl
    save_batches-lem zero (cache ∷ caches) rows s enough h = ground (arith, enough)
    save_batches-lem (suc fuel) (cache ∷ caches) rows s enough h =
        let split =
          cache_rows-Split (first_of 500 (cache ∷ caches)) (behind 500 (cache ∷ caches)) rows
            (ap cache_rows (first_of-behind 500 (cache ∷ caches)) ∙ h) in
        let further =
          save_batches-lem fuel (behind 500 (cache ∷ caches)) split.right (write split.left s)
            (omega (arith, enough, length-behind 499 caches)) split.right_rows in
        rw
          (
            split.left_rows,
            save_batch cache (first_of 499 caches) split.left s
                (omega (arith, length-first_of 499 caches)) split.left_rows,
            further,
            split.joined,
            write_twice split.left split.right s,
          )
          refl

    -- Where the caches can be marshalled, and the database saves from 1 to 500 rows in one statement,
    -- `SaveCaches` of any number of caches, none among them, returns no error, and writes what one
    -- write of all the rows would.
    pub save_caches_lem :
        (caches : List (NodeCache B)) (rows : List KvStore) (s : D)
        → cache_rows caches ≡ ok rows
        → save_caches db caches s ≡ (ok tt, write rows s)
    unfolding save_caches
    save_caches_lem caches rows s h = save_batches-lem (length caches) caches rows s (omega arith) h
