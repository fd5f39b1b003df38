-- ===== src/Graph/Query/Loop.antt =====
-- The loop of `queryBitmap`: its invariant, and that it ends.
use minefield.Prelude.{
  ℕ, zero, suc, ◌+◌, ◌≤◌, String, ◌≡◌, refl, sym, ap, subst, ◌⊎◌, inl, inr, Bool, true, none, some,
  List, [], ◌∷◌, ◌++◌, ◌∈◌, All, All-append, All-intro, length, length-append, mem-append, Map,
  lookup, insert, nat_eq, Bool-cases, Outcome, ok, arith,
}
use native.Mathlib.Decide.{ℕ_discrete}
use minefield.Bitmap.{Bitmap}
use minefield.Graph.Node.{Node, Direction}
use minefield.Graph.Mock.{mock_storage}
use minefield.Graph.Mock.State.{MockStorage}
use minefield.Graph.Query.{is_visited, neighbours, query_loop}
use minefield.Graph.Query.Reach.{
  Arc, Reach, here, step, remaining, remaining-insert, is_visited-insert,
}
use minefield.Graph.Query.Fetch.{ids, ids-append, length-ids, Fetched, fetch-Fetched}

module _ {B M : Type 0} ⦃bm : Bitmap B⦄ (matches : String → String → Outcome Bool)
    (s : MockStorage B M) (up : s.faults.get_node_err ≡ none)
    (keyed : (id : ℕ) (n : Node B M) → lookup id s.nodes ≡ some n → n.id ≡ id) where
  abbrev IsStored : Node B M → Type 0
  IsStored n = lookup n.id s.nodes ≡ some n

  module _ (field : Node B M → B) (start : ℕ) where
    abbrev Seen : Map ℕ Bool → List (Node B M) → ℕ → Type 0
    Seen visited queue v = (is_visited v visited ≡ true) ⊎ (v ∈ ids queue)

    abbrev IsQueued : Node B M → Type 0
    IsQueued m = IsStored m × Reach field s.nodes start m.id

    pub record Inv (visited : Map ℕ Bool) (result : B) (queue : List (Node B M)) : Type 0 where
      queued : All IsQueued queue
      pub sound : (v : ℕ) → bm.contains result v ≡ true → Reach field s.nodes start v
      closed :
          (u v : ℕ)
          → is_visited u visited ≡ true
          → Arc field s.nodes u v
          → (bm.contains result v ≡ true) × Seen visited queue v
      begun : Seen visited queue start

    pub Inv-init :
        (n : Node B M) → n.id ≡ start → lookup n.id s.nodes ≡ some n → Inv [] bm.empty (n ∷ [])
    unfolding lookup
    Inv-init n e stored = record {
      queued = ((stored, subst (Reach field s.nodes start) (sym e) here), tt);
      sound = λ v h. cc (bm.contains-empty v);
      closed = λ u v h arc. cc;
      begun = inr (inl (sym e));
    }

    -- the `continue`
    Inv-skip :
        {visited : Map ℕ Bool} {result : B} {cur : Node B M} {queue : List (Node B M)}
        → is_visited cur.id visited ≡ true
        → Inv visited result (cur ∷ queue)
        → Inv visited result queue
    Inv-skip {visited} {result} {cur} {queue} old i = record {
      queued = i.queued.1;
      sound = i.sound;
      closed = λ u v h arc. let (r, seen) = i.closed u v h arc in (r, keeps v seen);
      begun = keeps start i.begun;
    }
      where
        keeps : (v : ℕ) → Seen visited (cur ∷ queue) v → Seen visited queue v
        keeps v seen = ground (arith, seen)

    queue-All :
        (ns : List (Node B M))
        → All IsStored ns
        → ((v : ℕ) → v ∈ ids ns → Reach field s.nodes start v)
        → All IsQueued ns
    queue-All [] h r = tt
    queue-All (n ∷ ns) h r = ((h.0, r n.id (inl refl)), queue-All ns h.1 (λ v m. r v (inr m)))

    Inv-expand :
        {visited : Map ℕ Bool} {result : B} {cur : Node B M} {queue : List (Node B M)}
        (f : Fetched matches s up keyed (bm.to_array (field cur)))
        → Inv visited result (cur ∷ queue)
        → Inv (insert cur.id true visited) (bm.or result (field cur)) (queue ++ f.out)
    Inv-expand {visited} {result} {cur} {queue} f i = record {
      queued = All-append IsQueued queue f.out i.queued.1 (
          queue-All f.out f.stored (λ v m.
            step to_cur (cur, stored, (bm.mem-to_array (field cur) v).0 (rw f.listed at m))));
      sound = λ v h. elim (Bool-cases (bm.contains result v)) [
        | inl old ↦ i.sound v old
        | inr new ↦ step to_cur (cur, stored, ground (arith, bm.contains-or result (field cur) v))
      ];
      closed = λ u v h arc. elim (ℕ_discrete cur.id u) [
        | yes e ↦
            let (n, found, has) = arc in
            let has_cur : bm.contains (field cur) v ≡ true = ground (arith, stored) in
            (
              ground (arith, bm.contains-or result (field cur) v),
              inr (
                  rw (ids-append queue f.out) (
                    (mem-append v (ids queue) (ids f.out)).1
                      (inr (rw f.listed ((bm.mem-to_array (field cur) v).1 has_cur))))),
            )
        | no ne ↦
            let (r, seen) = i.closed u v (ground (arith, is_visited-insert cur.id u visited)) arc in
            (ground (arith, bm.contains-or result (field cur) v), keeps v seen)
      ];
      begun = keeps start i.begun;
    }
      where
        stored : IsStored cur
        stored = i.queued.0.0

        to_cur : Reach field s.nodes start cur.id
        to_cur = i.queued.0.1

        keeps :
            (v : ℕ)
            → Seen visited (cur ∷ queue) v
            → Seen (insert cur.id true visited) (queue ++ f.out) v
        keeps v seen = ground (
          arith,
          seen,
          is_visited-insert cur.id v visited,
          ids-append queue f.out,
          mem-append v (ids queue) (ids f.out),
        )

    -- With the queue empty, the visited ids are closed under edges, so what is reached was visited.
    visited_all :
        {visited : Map ℕ Bool} {result : B} {v : ℕ}
        → Inv visited result []
        → Reach field s.nodes start v
        → is_visited v visited ≡ true
    visited_all i here = ground (arith, i.begun)
    visited_all i (step {u} {v} r arc) = ground (arith, i.closed u v (visited_all i r) arc)

    pub reached :
        {visited : Map ℕ Bool} {result : B} {v : ℕ}
        → Inv visited result []
        → Reach field s.nodes start v
        → (start ≡ v) ⊎ (bm.contains result v ≡ true)
    reached i here = inl refl
    reached i (step {u} {v} r arc) = inr (i.closed u v (visited_all i r) arc).0

    -- What a run of the loop leaves.
    pub record Ends (r : Outcome B × MockStorage B M) : Type 0 where
      pub out : B
      pub returns : r ≡ (ok out, s)
      pub last : Map ℕ Bool
      pub inv : Inv last out []

    module _ (direction : Direction)
        (follow : (n : Node B M) → neighbours direction n ≡ some (field n))
        (total : (u v : ℕ) (n : Node B M)
          → lookup u s.nodes ≡ some n
          → bm.contains (field n) v ≡ true
          → (m : Node B M) × (lookup v s.nodes ≡ some m)) where
      abbrev loop : ℕ → Map ℕ Bool → B → List (Node B M) → Outcome B × MockStorage B M
      loop fuel visited result queue =
          query_loop (mock_storage matches) direction fuel visited result queue s

      targets :
          (cur : Node B M) → IsStored cur → Fetched matches s up keyed (bm.to_array (field cur))
      targets cur stored = fetch-Fetched matches s up keyed (bm.to_array (field cur)) (
          All-intro _ (bm.to_array (field cur))
            (λ v m. total cur.id v cur stored ((bm.mem-to_array (field cur) v).0 m)))

      -- Each round takes a node from the queue, and a visit adds as many as its node has edges.
      pub loop-Ends :
          (fuel : ℕ) (visited : Map ℕ Bool) (result : B) (queue : List (Node B M))
          → Inv visited result queue
          → length queue + remaining field visited s.nodes ≤ fuel
          → Ends (loop fuel visited result queue)
      unfolding query_loop
      loop-Ends fuel visited result [] i h = record {
        out = result;
        returns = refl;
        last = visited;
        inv = i;
      }
      loop-Ends zero visited result (cur ∷ queue) i h = absurd (omega arith)
      loop-Ends (suc fuel) visited result (cur ∷ queue) i h =
          elim (Bool-cases (is_visited cur.id visited)) [
            | inl old ↦ rw old (loop-Ends fuel visited result queue (Inv-skip old i) (omega arith))
            | inr new ↦
                let f = targets cur i.queued.0.0 in
                let next =
                  loop-Ends fuel (insert cur.id true visited) (bm.or result (field cur))
                    (queue ++ f.out) (Inv-expand f i)
                    (omega (
                      arith,
                      length-append queue f.out,
                      length-ids f.out,
                      ap length f.listed,
                      remaining-insert field cur.id cur visited s.nodes i.queued.0.0 new,
                    )) in
                record {
                  out = next.out;
                  returns = ground (arith, follow cur, f.returns, next.returns);
                  last = next.last;
                  inv = next.inv;
                }
          ]
