-- ===== src/Prelude/Maps.antt =====
-- Go's `map` as an association list. Each write keeps one entry for its key; the order of the
-- entries stands for the order in which `range` visits them.
use mathlib.Core.Path.{◌≡◌, refl, ◌∙◌}
use mathlib.Core.Logic.{◌≢◌, ◌⊎◌, inl, inr}
use mathlib.Core.Option.{Option, none, some}
use mathlib.Core.List.{List, [], ◌∷◌, map}
use native.Mathlib.Omega.{arith}
use minefield.Prelude.Tests.{if◌then◌else◌, Bool-cases}
use minefield.Prelude.Lists.{◌∈◌, All, All-map}
use minefield.Prelude.Eqs.{Eq, ◌==◌}

abbrev pub Map : Type 0 → Type 0 → Type 0
Map K V = List (K × V)

module _ {K V : Type 0} ⦃e : Eq K⦄ where
  -- `v, exists := m[k]`
  unfoldable pub lookup : K → Map K V → Option V
  lookup key [] = none
  lookup key (entry ∷ rest) = if entry.0 == key then some entry.1 else lookup key rest

  -- `m[k] = v`
  unfoldable pub insert : K → V → Map K V → Map K V
  insert key new [] = (key, new) ∷ []
  insert key new (entry ∷ rest) =
      if entry.0 == key then (key, new) ∷ rest else entry ∷ insert key new rest

  pub lookup-insert :
      (k j : K) (v : V) (m : Map K V)
      → lookup j (insert k v m) ≡ (if k == j then some v else lookup j m)
  unfolding lookup insert
  lookup-insert key at new [] = refl
  lookup-insert key at new ((old, _) ∷ rest) =
      ground (
        arith,
        lookup-insert key at new rest,
        e.beq_iff old key,
        e.beq_iff old at,
        e.beq_iff key at,
      )

  pub lookup-insert_self : (k : K) (v : V) (m : Map K V) → lookup k (insert k v m) ≡ some v
  lookup-insert_self k v m = ground (arith, lookup-insert k k v m, e.beq_iff k k)

  pub lookup-insert_at : (k j : K) (v : V) (m : Map K V) → k ≡ j → lookup j (insert k v m) ≡ some v
  lookup-insert_at k j v m h = ground (arith, lookup-insert k j v m, e.beq_iff k j)

  pub lookup-insert_ne :
      (k j : K) (v : V) (m : Map K V) → k ≢ j → lookup j (insert k v m) ≡ lookup j m
  lookup-insert_ne k j v m h = ground (arith, lookup-insert k j v m, e.beq_iff k j)

  -- A lookup that finds something after a write finds what was written, or what was there.
  pub lookup-insert_cases :
      (k j : K) (v w : V) (m : Map K V)
      → lookup j (insert k v m) ≡ some w
      → (k ≡ j) × (v ≡ w) ⊎ (k ≢ j) × (lookup j m ≡ some w)
  lookup-insert_cases k j v w m h = elim (Bool-cases (k == j)) [
    | inl t ↦ inl ((e.beq_iff k j).0 t, ground (arith, lookup-insert k j v m))
    | inr f ↦ inr (λ p. ground (arith, (e.beq_iff k j).1 p), ground (arith, lookup-insert k j v m))
  ]

  -- What a lookup finds is an entry.
  pub mem_of_lookup : (k : K) (v : V) (m : Map K V) → lookup k m ≡ some v → (k, v) ∈ m
  unfolding lookup
  mem_of_lookup k v [] h = ground arith
  mem_of_lookup k v ((j, w) ∷ m) h = ground (arith, e.beq_iff j k, mem_of_lookup k v m)

  -- No two entries have one key.
  abbrev pub Distinct : Map K V → Type 0
  Distinct [] = Unit
  Distinct (entry ∷ rest) = All (λ (f : K × V). entry.0 ≢ f.0) rest × Distinct rest

  pub insert-All :
      (P : K × V → Type 0) (k : K) (v : V) (m : Map K V) → P (k, v) → All P m → All P (insert k v m)
  unfolding insert
  insert-All P k v [] p h = (p, tt)
  insert-All P k v (entry ∷ rest) p (q, h) = elim (Bool-cases (entry.0 == k)) [
    | inl same ↦ rw same (p, h)
    | inr other ↦ rw other (q, insert-All P k v rest p h)
  ]

  pub insert-Distinct : (k : K) (v : V) (m : Map K V) → Distinct m → Distinct (insert k v m)
  unfolding insert
  insert-Distinct k v [] d = (tt, tt)
  insert-Distinct k v (entry ∷ rest) (apart, d) = elim (Bool-cases (entry.0 == k)) [
    | inl same ↦
        let e : entry.0 ≡ k = (e.beq_iff entry.0 k).0 same in
        rw same (All-map (λ f ne p. ne (e ∙ p)) rest apart, d)
    | inr other ↦ rw other (
      insert-All (λ f. entry.0 ≢ f.0) k v rest
          (λ p. ground (arith, other, (e.beq_iff entry.0 k).1 p)) apart,
      insert-Distinct k v rest d,
    )
  ]

abbrev pub keys : {K V : Type 0} → Map K V → List K
keys m = map (λ (k, v). k) m
