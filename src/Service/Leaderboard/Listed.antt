-- ===== src/Service/Leaderboard/Listed.antt =====
-- What `CustomLeaderboard` returns.
use minefield.Prelude.{
  ℕ, zero, suc, ◌≡◌, refl, ap, ◌↔◌, inl, inr, String, Bool-cases, true, false, ◌==◌, string_eq,
  Option, none, some, Option-cases, List, [], ◌∷◌, ◌∈◌, length, map, subst, sym, ◌∙◌, ⊎_elim, Map,
  Error, Outcome, ok, err, arith,
}
use minefield.Bitmap.{Bitmap}
use minefield.Graph.Node.{Node, NodeCache}
use minefield.Graph.Storage.{Storage, Bytes}
use minefield.Graph.Parser.{Expression, parse_and_execute}
use minefield.Service.{values, pointers}
use minefield.Service.QueryHeap.{Ranking, Heap, query_heap, shorter}
use minefield.Service.QueryHeap.Sequence.{KeepsHeaps, query_heap-IsSequence, shorter-IsWeakOrder}
use minefield.Service.Leaderboard.{
  ServiceRanking, named_nodes, errors_of, queries_of, first, rank, run_queries, custom_leaderboard,
}
use minefield.Service.Leaderboard.Ranked.{IsDescending, entry, rank-Ranks}

mem-named_nodes :
    {B M : Type 0} (l : List (Node B M)) (n : Node B M)
    → (n ∈ named_nodes l) ↔ ((n ∈ l) × ((n.name == "") ≡ false))
unfolding named_nodes
mem-named_nodes {B = B} {M = M} [] n = ground arith
mem-named_nodes {B = B} {M = M} (m ∷ l) n = elim (Bool-cases (m.name == "")) [
  | inl unnamed ↦
      let ih = mem-named_nodes l n in
      rw unnamed (
        λ i. (inr (ih.0 i).0, (ih.0 i).1),
        λ (i, named).
            ⊎_elim
              (λ e.
                let same : (m.name == "") ≡ false =
                  subst (λ (x : Node B M). (x.name == "") ≡ false) e named in
                ground (arith, same, unnamed))
              (λ k. ih.1 (k, named)) i,
      )
  | inr named ↦
      let ih = mem-named_nodes l n in
      rw named (
        ⊎_elim (λ e. (inl e, subst (λ (x : Node B M). (x.name == "") ≡ false) (sym e) named))
            (λ i. (inr (ih.0 i).0, (ih.0 i).1)),
        λ (i, is_named). ⊎_elim inl (λ k. inr (ih.1 (k, is_named))) i,
      )
]

-- the nodes that have an answer
abbrev pub answered : {B M : Type 0} → (Node B M → Option B) → List (Node B M) → List (Node B M)
answered answer [] = []
answered answer (n ∷ l) =
    let rest = answered answer l in elim (answer n) [ some b ↦ n ∷ rest | none ↦ rest ]

module _ {B M : Type 0} ⦃bm : Bitmap B⦄ (answer : Node B M → Option B)
    (failure : Node B M → Error) where
  -- what the script gives for a node
  abbrev pub replied : Node B M → Outcome B
  replied n = elim (answer n) [ some b ↦ ok b | none ↦ err (failure n) ]

  abbrev ranking : Node B M → B → Ranking B M
  ranking n b = record { node = n; output = bm.to_array b }

  abbrev sent : Node B M → Outcome (Ranking B M)
  sent n = elim (answer n) [ some b ↦ ok (ranking n b) | none ↦ err (failure n) ]

  queries-none :
      (n : Node B M) (l : List (Node B M))
      → answer n ≡ none
      → queries_of (map sent (n ∷ l)) ≡ queries_of (map sent l)
  unfolding queries_of
  queries-none n l e = rw (e, queries_of) refl

  queries-some :
      (n : Node B M) (b : B) (l : List (Node B M))
      → answer n ≡ some b
      → queries_of (map sent (n ∷ l)) ≡ ranking n b ∷ queries_of (map sent l)
  unfolding queries_of
  queries-some n b l e = rw (e, queries_of) refl

  length-queries :
      (l : List (Node B M)) → length (queries_of (map sent l)) ≡ length (answered answer l)
  unfolding queries_of
  length-queries [] = refl
  length-queries (n ∷ l) = elim (Option-cases (answer n)) [
    | inl e ↦
        let left : answered answer (n ∷ l) ≡ answered answer l = rw (e, answered) refl in
        ap length (queries-none n l e) ∙ length-queries l ∙ ap length (sym left)
    | inr (b, e) ↦
        let left : answered answer (n ∷ l) ≡ n ∷ answered answer l = rw (e, answered) refl in
        ap length (queries-some n b l e) ∙ ap suc (length-queries l) ∙ ap length (sym left)
  ]

  abbrev IsSent : List (Node B M) → Ranking B M → Type 0
  IsSent l q = (n : Node B M) × (b : B) × (n ∈ l) × (answer n ≡ some b) × (q ≡ ranking n b)

  mem-queries : (l : List (Node B M)) (q : Ranking B M) → (q ∈ queries_of (map sent l)) ↔ IsSent l q
  unfolding queries_of
  mem-queries [] q = (λ i. elim i [ ], λ (n, b, i, _, _). elim i [ ])
  mem-queries (m ∷ l) q =
      let ih = mem-queries l q in
      elim (Option-cases (answer m)) [
        | inl e ↦ rw (queries-none m l e) (
          λ i. let (n, b, k, a, same) = ih.0 i in (n, b, inr k, a, same),
          λ (n, b, i, a, same).
              ⊎_elim
                (λ here.
                  let gone : answer m ≡ some b = subst (λ x. answer x ≡ some b) here a in
                  ground (arith, gone, e))
                (λ k. ih.1 (n, b, k, a, same)) i,
        )
        | inr (c, e) ↦ rw (queries-some m c l e) (
          ⊎_elim (λ same. (m, c, inl refl, e, same))
              (λ i. let (n, b, k, a, same) = ih.0 i in (n, b, inr k, a, same)),
          λ (n, b, i, a, same).
              ⊎_elim
                (λ here.
                  let found : some c ≡ some b = sym e ∙ subst (λ x. answer x ≡ some b) here a in
                  let same_b : c ≡ b = ground (arith, found) in
                  inl (
                    same
                    ∙ subst (λ x. ranking x b ≡ ranking m c) (sym here)
                        (ap (ranking m) (sym same_b))))
                (λ k. inr (ih.1 (n, b, k, a, same))) i,
        )
      ]

  errors_of-first :
      (checked : ℕ) (l : List (Node B M))
      → ((n : Node B M) → n ∈ first checked l → (b : B) × (answer n ≡ some b))
      → errors_of (first checked (map sent l)) ≡ []
  unfolding errors_of
  errors_of-first zero [] h = refl
  errors_of-first zero (n ∷ l) h = refl
  errors_of-first (suc checked) [] h = refl
  errors_of-first (suc checked) (n ∷ l) h =
      let (b, e) = h n (inl refl) in
      rw (e, errors_of) (errors_of-first checked l (λ m i. h m (inr i)))

module _ {S B M : Type 0} ⦃bm : Bitmap B⦄ (heap : Heap (Ranking B M))
    (keeps : KeepsHeaps heap query_heap shorter) (marshal : M → Outcome Bytes) (json : M → Bytes)
    (marshals : (m : M) → marshal m ≡ ok (json m)) (storage : Storage S B M)
    (parse : String → Outcome Expression) (fuel : ℕ) (order : List (Node B M) → List (Node B M))
    (ordered : (l : List (Node B M)) (n : Node B M) → (n ∈ order l) ↔ (n ∈ l)) (checked : ℕ)
    (script : String) (s : S) (keys : List ℕ) (nodes : Map ℕ (Node B M))
    (caches : Map ℕ (NodeCache B)) (answer : Node B M → Option B) (failure : Node B M → Error) where
  abbrev Replies : Node B M → Type 0
  Replies n =
      parse_and_execute parse fuel script (some storage) n.name (pointers nodes) (pointers caches)
        true s
      ≡ (replied answer failure n, s)

  run_queries-sent :
      (l : List (Node B M))
      → ((n : Node B M) → n ∈ l → Replies n)
      → run_queries parse fuel storage script nodes caches true l s
        ≡ (ok (map (sent answer failure) l), s)
  unfolding run_queries
  run_queries-sent [] h = refl
  run_queries-sent (n ∷ l) h =
      let rest = run_queries-sent l (λ m i. h m (inr i)) in
      elim (Option-cases (answer n)) [
        | inl e ↦
            let fails : replied answer failure n ≡ err (failure n) = rw (e, replied) refl in
            let sends : sent answer failure n ≡ err (failure n) = rw (e, sent) refl in
            rw (h n (inl refl) ∙ ap (λ o. (o, s)) fails, rest, sends) refl
        | inr (b, e) ↦
            let works : replied answer failure n ≡ ok b = rw (e, replied) refl in
            let sends : sent answer failure n ≡ ok (ranking answer failure n b) =
              rw (e, sent) refl in
            rw (h n (inl refl) ∙ ap (λ o. (o, s)) works, rest, sends) refl
      ]

  abbrev named : List (Node B M)
  named = order (named_nodes (values nodes))

  custom_leaderboard-ranks :
      storage.to_be_cached s ≡ (ok [], s)
      → storage.get_all_keys s ≡ (ok keys, s)
      → storage.get_nodes keys s ≡ (ok nodes, s)
      → storage.get_caches keys s ≡ (ok caches, s)
      → ((n : Node B M) → n ∈ named → Replies n)
      → ((n : Node B M) → n ∈ first checked named → (b : B) × (answer n ≡ some b))
      → custom_leaderboard heap marshal storage parse fuel order checked script s
        ≡ (rank heap marshal [] (queries_of (map (sent answer failure) named)), s)
  unfolding custom_leaderboard
  custom_leaderboard-ranks cached has_keys has_nodes has_caches replies in_time =
      let (starts, _) = keeps.init_lem query_heap-IsSequence shorter-IsWeakOrder in
      rw
        (
          cached,
          has_keys,
          has_nodes,
          has_caches,
          cached,
          starts,
          run_queries-sent named replies,
          errors_of-first answer failure checked named in_time,
        )
        refl

  -- Where no node waits to be cached, the storage lists its keys, nodes and caches, the script gives
  -- an answer or an error for each node, the nodes whose goroutines have finished when the errors are
  -- looked for have answers, the metadata can be marshalled, and container/heap does what it
  -- documents over the methods of a sequence with an order, `CustomLeaderboard` returns an entry for
  -- each node that has a name and an answer, with the ids of the answer, and no others, as many as
  -- those nodes, and the longer outputs come first.
  pub custom_leaderboard_lem :
      storage.to_be_cached s ≡ (ok [], s)
      → storage.get_all_keys s ≡ (ok keys, s)
      → storage.get_nodes keys s ≡ (ok nodes, s)
      → storage.get_caches keys s ≡ (ok caches, s)
      → ((n : Node B M) → n ∈ values nodes → Replies n)
      → ((n : Node B M)
          → n ∈ first checked (order (named_nodes (values nodes)))
          → (b : B) × (answer n ≡ some b))
      → (out : List ServiceRanking) × (custom_leaderboard heap marshal storage parse fuel order
            checked script s
          ≡ (ok out, s))
        × IsDescending out
        × (length out ≡ length (answered answer (order (named_nodes (values nodes)))))
        × ((x : ServiceRanking)
            → (x ∈ out) ↔ (
                (n : Node B M) × (b : B) × (n ∈ values nodes)
                × ((n.name == "") ≡ false)
                × (answer n ≡ some b)
                × (x ≡ entry json (record { node = n; output = bm.to_array b }))))
  custom_leaderboard_lem cached has_keys has_nodes has_caches replies in_time =
      let among = λ (n : Node B M) (i : n ∈ named).
        (mem-named_nodes (values nodes) n).0 ((ordered (named_nodes (values nodes)) n).0 i) in
      let ranks =
        custom_leaderboard-ranks cached has_keys has_nodes has_caches
          (λ n i. replies n (among n i).0) in_time in
      let queries = queries_of (map (sent answer failure) named) in
      let r = rank-Ranks heap keeps marshal json marshals queries in
      (
        r.out,
        ranks ∙ ap (λ o. (o, s)) r.returns,
        r.descends,
        omega (arith, r.counted, length-queries answer failure named),
        λ x. (
          λ i.
              ⊎_elim (λ nothing. elim nothing [ ])
                (λ (q, there, same).
                  let (n, b, k, a, made) = (mem-queries answer failure named q).0 there in
                  let (held, has_name) = among n k in
                  (n, b, held, has_name, a, same ∙ ap (entry json) made))
                ((r.entries x).0 i),
          λ (n, b, held, has_name, a, same).
              let k =
                (ordered (named_nodes (values nodes)) n).1
                  ((mem-named_nodes (values nodes) n).1 (held, has_name)) in
              (r.entries x).1
                (inr (_, (mem-queries answer failure named _).1 (n, b, k, a, refl), same)),
        ),
      )
