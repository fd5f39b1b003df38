-- ===== src/Graph/Parser/Asked.antt =====
-- What `collectPackages` collects: the packages that an expression with no brackets asks for.
use minefield.Prelude.{
  ℕ, String, ◌≡◌, refl, Bool, true, false, ◌&&◌, Option, none, some, List, [], ◌∷◌, ◌++◌, All,
  All-append, All-split, ◌==◌, string_eq, nat_eq, if◌then◌else◌, Map, lookup, arith,
}
use mathlib.Core.List.{append_assoc, append-nil}
use minefield.Bitmap.{Bitmap}
use minefield.Graph.Node.{Node}
use minefield.Graph.Parser.{
  Query, Expression, Term, nil_expression, expression, nil_term, query, group, query_name, query_id,
  PurlData, Packages, collect_packages_from_expression, collect_packages_from_term,
}
use minefield.Graph.Parser.Evaluate.{
  has_type, Operator, Means, MeansTerm, single, joined, dependencies_of, dependents_of,
  dependents-ne-dependencies,
}

abbrev asked_by : String → String → Term → List PurlData
asked_by type name (query q) =
    if q.query_type == type
    then record { purl = query_name name q; type = q.node_type } ∷ []
    else []
asked_by type name nil_term = []
asked_by type name (group e) = []

-- The packages that the queries of one type ask for, from left to right, with no look into brackets.
abbrev pub asked : String → String → Expression → List PurlData
asked type name nil_expression = []
asked type name (expression left op right) = asked_by type name left ++ asked type name right

-- A map holds the answer for a package asked for.
abbrev pub Holds : {B : Type 0} → Map String ℕ → (ℕ → B) → Map ℕ B → PurlData → Type 0
Holds names answer m p = (id : ℕ) → lookup p.purl names ≡ some id → lookup id m ≡ some (answer id)

-- The package is the name of a node of which `IsAnswered` holds.
abbrev pub IsKnown :
    {B M : Type 0}
    → Map String ℕ
    → Map ℕ (Option (Node B M))
    → (Node B M → Type 0)
    → PurlData
    → Type 0
IsKnown {B} {M} names nodes IsAnswered p =
    (n : Node B M) × (lookup p.purl names ≡ some n.id)
    × (lookup n.id nodes ≡ some (some n))
    × IsAnswered n

module _ {B M : Type 0} ⦃bm : Bitmap B⦄ (names : Map String ℕ) (nodes : Map ℕ (Option (Node B M)))
    (name : String) (dependencies dependents : ℕ → B) (IsAnswered : Node B M → Type 0) where
  -- The ids that an expression with no brackets stands for, where its packages are known.
  mutual
    pub data Denotes : Expression → (ℕ → Bool) → Type 0 where
      alone :
          {t : Term} {p : ℕ → Bool} → DenotesTerm t p → Denotes (expression t none nil_expression) p
      combined :
          {t : Term} {e : Expression} {p q : ℕ → Bool} {o : String} {f : Bool → Bool → Bool}
          → DenotesTerm t p
          → Operator o f
          → Denotes e q
          → Denotes (expression t (some o) e) (λ v. f (p v) (q v))

    pub data DenotesTerm : Term → (ℕ → Bool) → Type 0 where
      asks_dependencies :
          (q : Query)
          → q.query_type ≡ "dependencies"
          → IsKnown names nodes IsAnswered (record { purl = query_name name q; type = q.node_type })
          → DenotesTerm (query q) (λ v.
            bm.contains (dependencies (query_id names name q)) v && has_type nodes q.node_type v)
      asks_dependents :
          (q : Query)
          → q.query_type ≡ "dependents"
          → IsKnown names nodes IsAnswered (record { purl = query_name name q; type = q.node_type })
          → DenotesTerm (query q) (λ v.
            bm.contains (dependents (query_id names name q)) v && has_type nodes q.node_type v)

  abbrev pub both : Expression → Packages → Packages
  both e p = record {
    dependencies_to_query = p.dependencies_to_query ++ asked "dependencies" name e;
    dependents_to_query = p.dependents_to_query ++ asked "dependents" name e;
  }

  abbrev both_of : Term → Packages → Packages
  both_of t p = record {
    dependencies_to_query = p.dependencies_to_query ++ asked_by "dependencies" name t;
    dependents_to_query = p.dependents_to_query ++ asked_by "dependents" name t;
  }

  term_collected :
      {t : Term} {p : ℕ → Bool} (pk : Packages)
      → DenotesTerm t p
      → collect_packages_from_term name t pk ≡ both_of t pk
  unfolding collect_packages_from_term
  term_collected pk (asks_dependencies q e k) = ground (
    arith,
    string_eq.beq_iff q.query_type "dependencies",
    string_eq.beq_iff q.query_type "dependents",
    dependents-ne-dependencies,
    append-nil pk.dependents_to_query,
  )
  term_collected pk (asks_dependents q e k) = ground (
    arith,
    string_eq.beq_iff q.query_type "dependencies",
    string_eq.beq_iff q.query_type "dependents",
    dependents-ne-dependencies,
    append-nil pk.dependencies_to_query,
  )

  pub collected :
      {e : Expression} {p : ℕ → Bool} (pk : Packages)
      → Denotes e p
      → collect_packages_from_expression name e pk ≡ both e pk
  unfolding collect_packages_from_expression
  collected pk (alone {t} d) =
      rw
        (
          term_collected pk d,
          append-nil (asked_by "dependencies" name t),
          append-nil (asked_by "dependents" name t),
        )
        refl
  collected pk (combined {t} {e} d op r) =
      rw
        (
          term_collected pk d,
          collected (both_of t pk) r,
          append_assoc pk.dependencies_to_query (asked_by "dependencies" name t)
              (asked "dependencies" name e),
          append_assoc pk.dependents_to_query (asked_by "dependents" name t)
              (asked "dependents" name e),
        )
        refl

  kept :
      (b : Bool) (p : PurlData)
      → IsKnown names nodes IsAnswered p
      → All (IsKnown names nodes IsAnswered) (if b then p ∷ [] else [])
  kept true p h = (h, tt)
  kept false p h = tt

  asked_by-IsKnown :
      {t : Term} {p : ℕ → Bool} (type : String)
      → DenotesTerm t p
      → All (IsKnown names nodes IsAnswered) (asked_by type name t)
  asked_by-IsKnown type (asks_dependencies q e k) =
      kept (q.query_type == type) (record { purl = query_name name q; type = q.node_type }) k
  asked_by-IsKnown type (asks_dependents q e k) =
      kept (q.query_type == type) (record { purl = query_name name q; type = q.node_type }) k

  pub asked-IsKnown :
      {e : Expression} {p : ℕ → Bool} (type : String)
      → Denotes e p
      → All (IsKnown names nodes IsAnswered) (asked type name e)
  asked-IsKnown type (alone d) = rw append-nil (asked_by-IsKnown type d)
  asked-IsKnown type (combined {t} {e} d op r) =
      All-append (IsKnown names nodes IsAnswered) (asked_by type name t) (asked type name e)
        (asked_by-IsKnown type d) (asked-IsKnown type r)

  module _ (ds dd : Map ℕ B) where
    held :
        (answer : ℕ → B) (m : Map ℕ B) (q : Query) (type : String)
        → q.query_type ≡ type
        → IsKnown names nodes IsAnswered (record { purl = query_name name q; type = q.node_type })
        → All (Holds names answer m) (asked_by type name (query q))
        → lookup (query_id names name q) m ≡ some (answer (query_id names name q))
    held answer m q type e (n, known, _, _) h =
        let h' : All (Holds names answer m)
            (record { purl = query_name name q; type = q.node_type } ∷ []) =
          rw ((string_eq.beq_iff q.query_type type).1 e) at h in
        ground (arith, known, h'.0 n.id known)

    term-MeansTerm :
        {t : Term} {p : ℕ → Bool}
        → DenotesTerm t p
        → All (Holds names dependencies ds) (asked_by "dependencies" name t)
        → All (Holds names dependents dd) (asked_by "dependents" name t)
        → MeansTerm ds dd names nodes name t p
    term-MeansTerm (asks_dependencies q e k) h h' =
        dependencies_of q (dependencies (query_id names name q)) e
          (held dependencies ds q "dependencies" e k h)
    term-MeansTerm (asks_dependents q e k) h h' =
        dependents_of q (dependents (query_id names name q)) e
          (held dependents dd q "dependents" e k h')

    pub Denotes-Means :
        {e : Expression} {p : ℕ → Bool}
        → Denotes e p
        → All (Holds names dependencies ds) (asked "dependencies" name e)
        → All (Holds names dependents dd) (asked "dependents" name e)
        → Means ds dd names nodes name e p
    Denotes-Means (alone {t} d) h h' = single nil_expression (
        term-MeansTerm d
          (All-split (Holds names dependencies ds) (asked_by "dependencies" name t) [] h).0
          (All-split (Holds names dependents dd) (asked_by "dependents" name t) [] h').0)
    Denotes-Means (combined {t} {e} d op r) h h' =
        let (l, m) =
          All-split (Holds names dependencies ds) (asked_by "dependencies" name t)
            (asked "dependencies" name e) h in
        let (l', m') =
          All-split (Holds names dependents dd) (asked_by "dependents" name t)
            (asked "dependents" name e) h' in
        joined (term-MeansTerm d l l') op (Denotes-Means r m m')
