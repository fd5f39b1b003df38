-- ===== src/Nacd/Ranked.antt =====
-- `WeightedNACD` over the storage in memory.
use minefield.Prelude.{
  ℕ, suc, ◌≤◌, ◌≡◌, ◌↔◌, refl, arith, ap, String, Bool, true, false, Bool-cases, inl, inr, some,
  List, [], ◌∷◌, ◌∈◌, length, ◌==◌, nat_eq, nat_beq_iff, string_eq, Map, lookup, keys, Outcome, ok,
  subst, ◌∙◌,
}
use minefield.Bitmap.{Bitmap}
use minefield.Graph.Node.{Node}
use minefield.Graph.Mock.{mock_storage, to_be_cached}
use minefield.Graph.Mock.State.{MockStorage, Faults, no_faults}
use minefield.Graph.Mock.Quiet.{get_all_keys-quiet, get_node-quiet, to_be_cached-quiet}
use minefield.Graph.Build.Invariant.{IsWellFormed}
use minefield.Graph.Query.{query_dependencies}
use minefield.Graph.Query.Reach.{Reach, degree_sum}
use minefield.Graph.Query.Correct.{query_dependencies_correct}
use minefield.Nacd.{Float, Weights, PkgAndValue, score, ranks_before, score_all, weighted_nacd}

lookup-keys : {V : Type 0} (k : ℕ) (m : Map ℕ V) → k ∈ keys m → (v : V) × (lookup k m ≡ some v)
unfolding lookup
lookup-keys k [] h = elim h [ ]
lookup-keys k ((j, w) ∷ m) h = elim (Bool-cases (j == k)) [
  | inl t ↦ (w, ground (arith, t))
  | inr f ↦ elim h [
    | inl e ↦ let no : ⊥ = ground (arith, nat_beq_iff j k, e, f) in elim no [ ]
    | inr rest ↦ let (v, found) = lookup-keys k m rest in (v, ground (arith, f, found))
  ]
]

module _ {F B M : Type 0} ⦃float : Float F⦄ ⦃bm : Bitmap B⦄ (nodes : Map ℕ (Node B M))
    (weights : Weights F) where
  -- The packages among `ids` in their order, each scored by the number of ids that chains of
  -- children lead to from it.
  pub data Scored : List ℕ → List (PkgAndValue F) → Type 0 where
    end : Scored [] []
    library :
        {id : ℕ} {ids : List ℕ} {scores : List (PkgAndValue F)} (n : Node B M) (deps : B)
        → lookup id nodes ≡ some n
        → (n.type == "library") ≡ true
        → ((v : ℕ) → (bm.contains deps v ≡ true) ↔ Reach (λ m. m.children) nodes id v)
        → Scored ids scores
        → Scored (id ∷ ids) (score weights id (length (bm.to_array deps)) ∷ scores)
    other :
        {id : ℕ} {ids : List ℕ} {scores : List (PkgAndValue F)} (n : Node B M)
        → lookup id nodes ≡ some n
        → (n.type == "library") ≡ false
        → Scored ids scores
        → Scored (id ∷ ids) scores

module _ {F B M : Type 0} ⦃float : Float F⦄ ⦃bm : Bitmap B⦄
    (matches : String → String → Outcome Bool) (weights : Weights F) (s : MockStorage B M)
    (fuel : ℕ) (w : IsWellFormed s) (quiet : s.faults ≡ no_faults) (first : ℕ) (waiting : List ℕ)
    (stack : s.stack ≡ first ∷ waiting)
    (enough : suc (degree_sum (λ m. m.children) s.nodes) ≤ fuel) where
  waits : to_be_cached s ≡ (ok (first ∷ waiting), s)
  waits = to_be_cached-quiet s quiet ∙ ap (λ l. (ok l, s)) stack

  queried :
      (id : ℕ) (n : Node B M)
      → lookup id s.nodes ≡ some n
      → (deps : B) × (query_dependencies fuel (some n) (some (mock_storage matches)) s
          ≡ (ok deps, s))
        × ((v : ℕ) → (bm.contains deps v ≡ true) ↔ Reach (λ m. m.children) s.nodes id v)
  unfolding query_dependencies
  queried id n found =
      let same : n.id ≡ id = (w.keyed id n found).0 in
      let a =
        query_dependencies_correct matches s n fuel w (ap (λ (f : Faults). f.get_node_err) quiet)
          (ground (arith, found, same)) enough in
      (
        a.out,
        rw waits a.returns,
        subst (λ k. (v : ℕ) → (bm.contains a.out v ≡ true) ↔ Reach (λ m. m.children) s.nodes k v)
            same a.answer,
      )

  record Scores (ids : List ℕ) : Type 0 where
    pub scores : List (PkgAndValue F)
    pub returns : score_all fuel (mock_storage matches) weights ids s ≡ (ok scores, s)
    pub scored : Scored s.nodes weights ids scores

  score_all-Scores :
      (ids : List ℕ)
      → ((id : ℕ) → id ∈ ids → (n : Node B M) × (lookup id s.nodes ≡ some n))
      → Scores ids
  unfolding score_all
  score_all-Scores [] stored = record { scores = []; returns = refl; scored = end }
  score_all-Scores (id ∷ ids) stored =
      let (n, found) = stored id (inl refl) in
      let rest = score_all-Scores ids (λ k h. stored k (inr h)) in
      elim (Bool-cases (n.type == "library")) [
        | inl is ↦
            let (deps, answer, exact) = queried id n found in
            record {
              scores = score weights id (length (bm.to_array deps)) ∷ rest.scores;
              returns = rw (get_node-quiet s quiet id, found, is, answer, rest.returns) refl;
              scored = library n deps found is exact rest.scored;
            }
        | inr is_not ↦ record {
          scores = rest.scores;
          returns = rw (get_node-quiet s quiet id, found, is_not, rest.returns) refl;
          scored = other n found is_not rest.scored;
        }
      ]

  -- In a well-formed storage in memory that injects no error and where an id waits to be cached,
  -- with fuel above the number of edges, `WeightedNACD` returns what `sort` makes of one score for
  -- each package, by the number of ids that chains of children lead to from it, and of no other node.
  pub weighted_nacd-Scored :
      (sort : (PkgAndValue F → PkgAndValue F → Bool) → List (PkgAndValue F) → List (PkgAndValue F))
      → (scores : List (PkgAndValue F)) × (weighted_nacd fuel (mock_storage matches) weights sort s
          ≡ (ok (sort ranks_before scores), s))
        × Scored s.nodes weights (keys s.nodes) scores
  unfolding weighted_nacd
  weighted_nacd-Scored sort =
      let run = score_all-Scores (keys s.nodes) (λ k h. lookup-keys k s.nodes h) in
      (run.scores, rw (get_all_keys-quiet s quiet, run.returns) refl, run.scored)
