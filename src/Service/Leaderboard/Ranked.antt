-- ===== src/Service/Leaderboard/Ranked.antt =====
-- The order and the entries of a leaderboard.
use minefield.Prelude.{
  ℕ, zero, suc, ◌+◌, ◌≤◌, ◌≡◌, ◌∙◌, ap, ◌↔◌, ◌⊎◌, refl, sym, subst, inl, inr, ⊎_elim, List, [], ◌∷◌,
  ◌∈◌, length, All, All-intro, arith, Outcome, ok,
}
use minefield.Bitmap.{Bitmap}
use minefield.Graph.Storage.{Bytes}
use minefield.Service.{node_to_service_node}
use minefield.Service.Leaderboard.{ServiceRanking, push_all, pop_all, rank}
use minefield.Service.QueryHeap.{Ranking, Heap, query_heap, shorter}
use minefield.Service.QueryHeap.Sequence.{KeepsHeaps, query_heap-IsSequence, shorter-IsWeakOrder}

abbrev pub IsDescending : List ServiceRanking → Type 0
IsDescending [] = Unit
IsDescending (x ∷ l) = All (λ y. length y.output ≤ length x.output) l × IsDescending l

module _ {B M : Type 0} ⦃bm : Bitmap B⦄ (json : M → Bytes) where
  abbrev pub entry : Ranking B M → ServiceRanking
  entry q = record {
    node = record {
      id = q.node.id;
      name = q.node.name;
      type = q.node.type;
      metadata = json q.node.metadata;
      dependencies = bm.to_array q.node.children;
      dependents = bm.to_array q.node.parents;
    };
    output = q.output;
  }

module _ {B M : Type 0} ⦃bm : Bitmap B⦄ (heap : Heap (Ranking B M))
    (keeps : KeepsHeaps heap query_heap shorter) (marshal : M → Outcome Bytes) (json : M → Bytes)
    (marshals : (m : M) → marshal m ≡ ok (json m)) where
  -- The entries behind those that are there already, the longest output first.
  pub record Ranks (h : List (Ranking B M)) (r : Outcome (List ServiceRanking))
      (acc : List ServiceRanking) (n : ℕ) : Type 0 where
    pub out : List ServiceRanking
    pub returns : r ≡ ok out
    pub descends : IsDescending out
    pub counted : length out ≡ n + length acc
    pub entries :
        (x : ServiceRanking)
        → (x ∈ out) ↔ ((x ∈ acc) ⊎ (q : Ranking B M) × (q ∈ h) × (x ≡ entry json q))

  pop_all-step :
      (n : ℕ) (h h' : List (Ranking B M)) (q : Ranking B M) (acc : List ServiceRanking)
      → heap.pop query_heap h ≡ ok (q, h')
      → pop_all heap marshal (suc n) h acc ≡ pop_all heap marshal n h' (entry json q ∷ acc)
  unfolding pop_all node_to_service_node
  pop_all-step n h h' q acc e = rw (e, marshals q.node.metadata) refl

  pop_all-Ranks :
      (n : ℕ) (h : List (Ranking B M)) (acc : List ServiceRanking)
      → keeps.IsHeap h
      → length h ≡ n
      → IsDescending acc
      → ((q : Ranking B M) (a : ServiceRanking)
          → q ∈ h
          → a ∈ acc
          → length a.output ≤ length q.output)
      → Ranks h (pop_all heap marshal n h acc) acc n
  unfolding pop_all
  pop_all-Ranks zero [] acc kept none_left descends above = record {
    out = acc;
    returns = refl;
    descends = descends;
    counted = omega arith;
    entries = λ x. (inl, ⊎_elim (λ m. m) (λ (q, m, _). elim m [ ]));
  }
  pop_all-Ranks zero (q ∷ h) acc kept none_left descends above = ground (arith, none_left)
  pop_all-Ranks (suc n) h acc kept more descends above =
      let (q, h', popped, kept', left, members, least) =
        keeps.pop_lem query_heap-IsSequence shorter-IsWeakOrder h n kept more in
      let here : q ∈ h = (members q).1 (inl refl) in
      let further =
        pop_all-Ranks n h' (entry json q ∷ acc) kept' left
          (
            All-intro (λ a. length a.output ≤ length q.output) acc (λ a m. above q a here m),
            descends,
          )
          (λ p a m.
            ⊎_elim
              (λ e.
                subst (λ (a : ServiceRanking). length a.output ≤ length p.output) (sym e)
                  (ground (arith, least p m)))
              (λ old. above p a ((members p).1 (inr m)) old)) in
      record {
        out = further.out;
        returns = pop_all-step n h h' q acc popped ∙ further.returns;
        descends = further.descends;
        counted = omega (arith, further.counted);
        entries = λ x. (
          λ m.
              ⊎_elim (⊎_elim (λ e. inr (q, here, e)) inl)
                (λ (p, there, e). inr (p, (members p).1 (inr there), e)) ((further.entries x).0 m),
          ⊎_elim (λ old. (further.entries x).1 (inl (inr old)))
              (λ (p, there, e). (further.entries x).1 (
                ⊎_elim (λ same. inl (inl (e ∙ ap (entry json) same))) (λ m. inr (p, m, e))
                  ((members p).0 there))),
        );
      }

  -- the heap after the queries are pushed
  abbrev Pushed : List (Ranking B M) → List (Ranking B M) → Type 0
  Pushed queries h =
      (h' : List (Ranking B M)) × (push_all heap marshal queries h ≡ ok h')
      × keeps.IsHeap h'
      × (length h' ≡ length queries + length h)
      × ((x : Ranking B M) → (x ∈ h') ↔ ((x ∈ queries) ⊎ (x ∈ h)))

  push_all-Pushed : (queries h : List (Ranking B M)) → keeps.IsHeap h → Pushed queries h
  unfolding push_all
  push_all-Pushed [] h kept =
      (h, refl, kept, omega arith, λ x. (inr, ⊎_elim (λ no. elim no [ ]) (λ m. m)))
  push_all-Pushed (q ∷ queries) h kept =
      let (h₁, pushed, kept₁, size₁, members₁) =
        keeps.push_lem query_heap-IsSequence shorter-IsWeakOrder h q kept in
      let (h₂, all, kept₂, size₂, members₂) = push_all-Pushed queries h₁ kept₁ in
      (
        h₂,
        rw (pushed, all) refl,
        kept₂,
        omega (arith, size₁, size₂),
        λ x. ground (arith, members₁ x, members₂ x),
      )

  rank_pushed :
      (queries h' : List (Ranking B M)) (n : ℕ)
      → push_all heap marshal queries [] ≡ ok h'
      → length h' ≡ n
      → rank heap marshal [] queries ≡ pop_all heap marshal n h' []
  unfolding rank
  rank_pushed queries h' n pushed size = rw (pushed, size) refl

  -- The queries are listed from the empty heap, the longest output first.
  pub rank-Ranks :
      (queries : List (Ranking B M))
      → Ranks queries (rank heap marshal [] queries) [] (length queries)
  rank-Ranks queries =
      let (starts, empty) = keeps.init_lem query_heap-IsSequence shorter-IsWeakOrder in
      let (h, pushed, kept, size, members) = push_all-Pushed queries [] empty in
      let all : length h ≡ length queries = omega (arith, size) in
      let ranked = pop_all-Ranks (length queries) h [] kept all tt (λ q a m no. elim no [ ]) in
      record {
        out = ranked.out;
        returns = rank_pushed queries h (length queries) pushed all ∙ ranked.returns;
        descends = ranked.descends;
        counted = ranked.counted;
        entries = λ x. (
          λ m.
              ⊎_elim (λ no. elim no [ ])
                (λ (q, there, same).
                  inr (q, ⊎_elim (λ m. m) (λ no. elim no [ ]) ((members q).0 there), same))
                ((ranked.entries x).0 m),
          ⊎_elim (λ no. elim no [ ])
              (λ (q, there, same). (ranked.entries x).1 (inr (q, (members q).1 (inl there), same))),
        );
      }
