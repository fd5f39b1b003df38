-- ===== src/Graph/Parser/Answered.antt =====
-- The batch queries for the packages of a script: each gets its answer.
use minefield.Prelude.{
  ℕ, String, ◌≡◌, refl, ◌∙◌, Bool, true, Option, none, some, List, [], ◌∷◌, All, string_eq, nat_eq,
  nat_beq_iff, Map, lookup, insert, lookup-insert, lookup-insert_self, subst, ok, Action, arith,
}
use native.Mathlib.Decide.{ℕ_discrete}
use minefield.Bitmap.{Bitmap}
use minefield.Graph.Node.{Node, NodeCache}
use minefield.Graph.Storage.{Storage}
use minefield.Graph.Query.{batch_dependencies, batch_dependents}
use minefield.Graph.Parser.{PurlData, resolve}
use minefield.Graph.Parser.Asked.{Holds, IsKnown}

-- What a batch query leaves behind `found`, the nodes of the packages `ps`, from the map `before`.
pub record Batched {S B M : Type 0} (names : Map String ℕ) (nodes : Map ℕ (Option (Node B M)))
    (answer : ℕ → B) (text : String)
    (loop : List (Option (Node B M)) → Map ℕ B → Action S (Map ℕ B)) (s : S) (ps : List PurlData)
    (before : Map ℕ B) : Type 0 where
  pub found : List (Option (Node B M))
  pub resolves : resolve text names nodes ps ≡ ok found
  pub out : Map ℕ B
  pub returns : loop found before s ≡ (ok out, s)
  keeps : (id : ℕ) → lookup id before ≡ some (answer id) → lookup id out ≡ some (answer id)
  pub holds : All (Holds names answer out) ps

module _ {S B M : Type 0} (names : Map String ℕ) (nodes : Map ℕ (Option (Node B M)))
    (answer : ℕ → B) (IsAnswered : Node B M → Type 0) (text : String)
    (loop : List (Option (Node B M)) → Map ℕ B → Action S (Map ℕ B)) (s : S)
    (loop-nil : (before : Map ℕ B) → loop [] before s ≡ (ok before, s))
    (loop-cons : (n : Node B M) (ns : List (Option (Node B M))) (before : Map ℕ B)
      → IsAnswered n
      → loop (some n ∷ ns) before s ≡ loop ns (insert n.id (answer n.id) before) s) where
  keeps-insert :
      (id k : ℕ) (before : Map ℕ B)
      → lookup id before ≡ some (answer id)
      → lookup id (insert k (answer k) before) ≡ some (answer id)
  keeps-insert id k before h = elim (ℕ_discrete k id) [
    | yes e ↦
        subst (λ i. lookup i (insert k (answer k) before) ≡ some (answer i)) e
          (lookup-insert_self k (answer k) before)
    | no ne ↦ ground (arith, lookup-insert k id (answer k) before, nat_beq_iff k id)
  ]

  pub loop-Batched :
      (ps : List PurlData)
      → All (IsKnown names nodes IsAnswered) ps
      → (before : Map ℕ B) → Batched names nodes answer text loop s ps before
  unfolding resolve
  loop-Batched [] h before = record {
    found = [];
    resolves = refl;
    out = before;
    returns = loop-nil before;
    keeps = λ id k. k;
    holds = tt;
  }
  loop-Batched (p ∷ ps) ((n, known, there, a), h) before =
      let rest = loop-Batched ps h (insert n.id (answer n.id) before) in
      record {
        found = some n ∷ rest.found;
        resolves = ground (arith, rest.resolves);
        out = rest.out;
        returns = loop-cons n rest.found before a ∙ rest.returns;
        keeps = λ id k. rest.keeps id (keeps-insert id n.id before k);
        holds = (
          λ id k.
              subst (λ i. lookup i rest.out ≡ some (answer i)) (ground (arith, known, k))
                (rest.keeps n.id (lookup-insert_self n.id (answer n.id) before)),
          rest.holds,
        );
      }

-- the cache of a node, where there is one
abbrev pub cached_children : {B : Type 0} ⦃bm : Bitmap B⦄ → Map ℕ (Option (NodeCache B)) → ℕ → B
cached_children ⦃bm⦄ caches id = elim (lookup id caches) [
  | none ↦ bm.empty
  | some c? ↦ elim c? [ none ↦ bm.empty | some c ↦ c.all_children ]
]

abbrev pub cached_parents : {B : Type 0} ⦃bm : Bitmap B⦄ → Map ℕ (Option (NodeCache B)) → ℕ → B
cached_parents ⦃bm⦄ caches id = elim (lookup id caches) [
  | none ↦ bm.empty
  | some c? ↦ elim c? [ none ↦ bm.empty | some c ↦ c.all_parents ]
]

abbrev pub IsCached : {B M : Type 0} → Map ℕ (Option (NodeCache B)) → Node B M → Type 0
IsCached {B} caches n = (c : NodeCache B) × (lookup n.id caches ≡ some (some c))

module _ {S B M : Type 0} ⦃bm : Bitmap B⦄ (fuel : ℕ) (storage : Option (Storage S B M))
    (caches : Map ℕ (Option (NodeCache B))) (s : S) where
  pub batch_dependencies-nil :
      (is_cached : Bool) (before : Map ℕ B)
      → batch_dependencies fuel storage [] caches is_cached before s ≡ (ok before, s)
  unfolding batch_dependencies
  batch_dependencies-nil is_cached before = refl

  pub batch_dependents-nil :
      (is_cached : Bool) (before : Map ℕ B)
      → batch_dependents fuel storage [] caches is_cached before s ≡ (ok before, s)
  unfolding batch_dependents
  batch_dependents-nil is_cached before = refl

  pub batch_dependencies-cached :
      (n : Node B M) (ns : List (Option (Node B M))) (before : Map ℕ B)
      → IsCached caches n
      → batch_dependencies fuel storage (some n ∷ ns) caches true before s
        ≡ batch_dependencies fuel storage ns caches true
            (insert n.id (cached_children caches n.id) before)
            s
  unfolding batch_dependencies
  batch_dependencies-cached n ns before (c, has) =
      let e : cached_children caches n.id ≡ c.all_children = ground (arith, has) in rw (e, has) refl

  pub batch_dependents-cached :
      (n : Node B M) (ns : List (Option (Node B M))) (before : Map ℕ B)
      → IsCached caches n
      → batch_dependents fuel storage (some n ∷ ns) caches true before s
        ≡ batch_dependents fuel storage ns caches true
            (insert n.id (cached_parents caches n.id) before)
            s
  unfolding batch_dependents
  batch_dependents-cached n ns before (c, has) =
      let e : cached_parents caches n.id ≡ c.all_parents = ground (arith, has) in rw (e, has) refl
