-- ===== src/Graph/Mock/Picked.antt =====
-- What `GetNodes` of the storage in memory returns.
use minefield.Prelude.{
  ℕ, suc, ◌+◌, ◌≤◌, ◌≡◌, Option-cases, inl, inr, some, List, [], ◌∷◌, length, All, All-elim, Map,
  lookup, lookup-insert, lookup-insert_at, ◌∈◌, keys, ap, mem_of_lookup, ◌⊎◌, sym, insert, Distinct,
  insert-All, insert-Distinct, Bool-cases, ◌==◌, nat_eq, ok, arith,
}
use minefield.Graph.Mock.{pick, get_nodes}
use minefield.Graph.Mock.State.{MockStorage, no_faults}

key_of_mem : {V : Type 0} (k : ℕ) (v : V) (m : Map ℕ V) → (k, v) ∈ m → k ∈ keys m
key_of_mem k v [] h = elim h [ ]
key_of_mem k v (e ∷ m) (inl same) = inl (ap (λ f. f.0) same)
key_of_mem k v (e ∷ m) (inr h) = inr (key_of_mem k v m h)

module _ {V : Type 0} (m : Map ℕ V) where
  -- the entries are those of the map, and no key occurs twice
  pub record Picked (bound : ℕ) (picked : Map ℕ V) : Type 0 where
    pub found : All (λ e. lookup e.0 m ≡ some e.1) picked
    pub distinct : Distinct picked
    pub few : length picked ≤ bound

  length-insert : (k : ℕ) (v : V) (p : Map ℕ V) → length (insert k v p) ≤ suc (length p)
  unfolding insert
  length-insert k v [] = omega arith
  length-insert k v (e ∷ p) = elim (Bool-cases (e.0 == k)) [
    | inl same ↦ rw same (omega arith)
    | inr other ↦ rw other (omega (arith, length-insert k v p))
  ]

  pub pick-Picked :
      (ids : List ℕ) (j : ℕ) (p : Map ℕ V) → Picked j p → Picked (length ids + j) (pick m ids p)
  unfolding pick
  pick-Picked [] j p h = record {
    found = h.found;
    distinct = h.distinct;
    few = omega (arith, h.few);
  }
  pick-Picked (id ∷ ids) j p h = elim (Option-cases (lookup id m)) [
    | inl missing ↦
        let rest = pick-Picked ids j p h in
        rw missing
          (record { found = rest.found; distinct = rest.distinct; few = omega (arith, rest.few) })
    | inr (v, there) ↦
        let more : Picked (suc j) (insert id v p) = record {
          found = insert-All (λ e. lookup e.0 m ≡ some e.1) id v p there h.found;
          distinct = insert-Distinct id v p h.distinct;
          few = omega (arith, length-insert id v p, h.few);
        } in
        let rest = pick-Picked ids (suc j) (insert id v p) more in
        rw there
          (record { found = rest.found; distinct = rest.distinct; few = omega (arith, rest.few) })
  ]

  pub stored_entry : (k : ℕ) (v : V) → (k, v) ∈ pick m (keys m) [] → lookup k m ≡ some v
  stored_entry k v there =
      let p = pick-Picked (keys m) 0 [] (record { found = tt; distinct = tt; few = omega arith }) in
      All-elim (λ e. lookup e.0 m ≡ some e.1) (pick m (keys m) []) (k, v) there p.found

  -- What is found under an id that is asked for is among what is picked.
  pub among :
      (ids : List ℕ) (p : Map ℕ V) (k : ℕ) (v : V)
      → lookup k m ≡ some v
      → (k ∈ ids) ⊎ (lookup k p ≡ some v)
      → lookup k (pick m ids p) ≡ some v
  unfolding pick
  among [] p k v h (inl e) = elim e [ ]
  among [] p k v h (inr already) = already
  among (id ∷ ids) p k v h (inl (inl e)) =
      let known : lookup id m ≡ some v = ground (arith, e, h) in
      rw known (among ids (insert id v p) k v h (inr (lookup-insert_at id k v p (sym e))))
  among (id ∷ ids) p k v h (inl (inr asked)) = among ids _ k v h (inl asked)
  among (id ∷ ids) p k v h (inr already) = elim (Option-cases (lookup id m)) [
    | inl missing ↦ rw missing (among ids p k v h (inr already))
    | inr (w, there) ↦ rw there (
        among ids (insert id w p) k v h (
          inr (elim (Bool-cases (id == k)) [
            | inl same ↦
                let e : w ≡ v = ground (arith, (nat_eq.beq_iff id k).0 same, h, there) in
                ground (arith, lookup-insert id k w p, same, e)
            | inr other ↦ ground (arith, lookup-insert id k w p, other, already)
          ])))
  ]

  -- All of the entries are picked, where all of the keys are asked for.
  pub picked_entry : (k : ℕ) (v : V) → lookup k m ≡ some v → lookup k (pick m (keys m) []) ≡ some v
  picked_entry k v h = among (keys m) [] k v h (inl (key_of_mem k v m (mem_of_lookup k v m h)))

module _ {B M : Type 0} (s : MockStorage B M) (quiet : s.faults ≡ no_faults) where
  pub get_nodes-quiet : (ids : List ℕ) → get_nodes ids s ≡ (ok (pick s.nodes ids []), s)
  unfolding get_nodes
  get_nodes-quiet ids = ground (arith, quiet)
