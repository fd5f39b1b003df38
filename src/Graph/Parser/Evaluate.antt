-- ===== src/Graph/Parser/Evaluate.antt =====
-- What `iterateExpression` computes: the Boolean combination of the answers to the queries.
use minefield.Prelude.{
  ℕ, String, ◌≡◌, refl, ap, ◌∙◌, ◌↔◌, ◌≢◌, inl, inr, Bool, true, false, ◌&&◌, ◌||◌, xor, Option,
  none, some, List, [], ◌∷◌, ◌∈◌, ◌==◌, nat_eq, nat_beq_iff, string_eq, Bool-cases, Map, lookup,
  Outcome, ok, arith,
}
use minefield.Bitmap.{Bitmap}
use minefield.Graph.Node.{Node}
use minefield.Graph.Parser.{
  Query, Expression, Term, expression, query, query_id, node_at, add_if_typed, of_type, select,
  iterate_query, apply_operator, iterate_expression, iterate_term,
}

pub dependents-ne-dependencies : ◌≢◌ {A = String} "dependents" "dependencies"
dependents-ne-dependencies = ground (arith, string_eq.beq_iff "dependents" "dependencies")

elem : ℕ → List ℕ → Bool
elem v [] = false
elem v (x ∷ xs) = x == v || elem v xs

elem_iff : (v : ℕ) (xs : List ℕ) → (elem v xs ≡ true) ↔ (v ∈ xs)
unfolding elem
elem_iff v [] = ground arith
elem_iff v (x ∷ xs) = ground (arith, elem_iff v xs)

elem-to_array :
    {B : Type 0} ⦃bm : Bitmap B⦄ (b : B) (v : ℕ) → elem v (bm.to_array b) ≡ bm.contains b v
elem-to_array ⦃bm⦄ b v = ground (arith, elem_iff v (bm.to_array b), bm.mem-to_array b v)

-- the operators of the grammar
pub data Operator : String → (Bool → Bool → Bool) → Type 0 where
  or_operator : Operator "or" ◌||◌
  and_operator : Operator "and" ◌&&◌
  xor_operator : Operator "xor" xor

module _ {B M : Type 0} ⦃bm : Bitmap B⦄ (nodes : Map ℕ (Option (Node B M))) where
  abbrev pub has_type : String → ℕ → Bool
  has_type type v = elim (node_at nodes v) [ none ↦ false | some node ↦ node.type == type ]

  contains-add_if_typed :
      (type : String) (id : ℕ) (result : B) (v : ℕ)
      → bm.contains (add_if_typed nodes type id result) v
        ≡ (bm.contains result v || id == v && has_type type v)
  unfolding add_if_typed
  contains-add_if_typed type id result v = elim (Bool-cases (id == v)) [
    | inl e ↦ ground (
      arith,
      bm.contains-add id result v,
      nat_beq_iff id v,
      ap (λ (k : ℕ). lookup k nodes) ((nat_beq_iff id v).0 e),
    )
    | inr ne ↦ ground (arith, bm.contains-add id result v)
  ]

  contains-of_type :
      (type : String) (ids : List ℕ) (result : B) (v : ℕ)
      → bm.contains (of_type nodes type ids result) v
        ≡ (bm.contains result v || elem v ids && has_type type v)
  unfolding of_type elem
  contains-of_type type [] result v = ground arith
  contains-of_type type (id ∷ ids) result v = ground (
    arith,
    contains-of_type type ids (add_if_typed nodes type id result) v,
    contains-add_if_typed type id result v,
  )

  -- `r` is a normal return of a bitmap that holds just the ids of `p`.
  abbrev Yields : Outcome (Option B) → (ℕ → Bool) → Type 0
  Yields r p = (b : B) × (r ≡ ok (some b)) × ((v : ℕ) → bm.contains b v ≡ p v)

  select-Yields :
      (m : Map ℕ B) (id : ℕ) (type : String) (b : B)
      → lookup id m ≡ some b
      → Yields (select nodes m id type) (λ v. bm.contains b v && has_type type v)
  unfolding select
  select-Yields m id type b found = (
    of_type nodes type (bm.to_array b) bm.empty,
    ground arith,
    λ v. ground (
      arith,
      contains-of_type type (bm.to_array b) bm.empty v,
      elem-to_array b v,
      bm.contains-empty v,
    ),
  )

module _ {B M : Type 0} ⦃bm : Bitmap B⦄ (ds dd : Map ℕ B) (names : Map String ℕ)
    (nodes : Map ℕ (Option (Node B M))) (name : String) where
  -- The ids that an expression with no brackets stands for, where its queries were answered.
  mutual
    pub data Means : Expression → (ℕ → Bool) → Type 0 where
      single :
          {t : Term} {p : ℕ → Bool} (e : Expression) → MeansTerm t p → Means (expression t none e) p
      joined :
          {t : Term} {e : Expression} {p q : ℕ → Bool} {o : String} {f : Bool → Bool → Bool}
          → MeansTerm t p
          → Operator o f
          → Means e q
          → Means (expression t (some o) e) (λ v. f (p v) (q v))

    pub data MeansTerm : Term → (ℕ → Bool) → Type 0 where
      dependencies_of :
          (q : Query) (b : B)
          → q.query_type ≡ "dependencies"
          → lookup (query_id names name q) ds ≡ some b
          → MeansTerm (query q) (λ v. bm.contains b v && has_type nodes q.node_type v)
      dependents_of :
          (q : Query) (b : B)
          → q.query_type ≡ "dependents"
          → lookup (query_id names name q) dd ≡ some b
          → MeansTerm (query q) (λ v. bm.contains b v && has_type nodes q.node_type v)

  iterate_dependencies :
      (q : Query)
      → q.query_type ≡ "dependencies"
      → iterate_query ds dd names nodes name q ≡ select nodes ds (query_id names name q) q.node_type
  unfolding iterate_query
  iterate_dependencies q e = ground (arith, string_eq.beq_iff q.query_type "dependencies")

  iterate_dependents :
      (q : Query)
      → q.query_type ≡ "dependents"
      → iterate_query ds dd names nodes name q ≡ select nodes dd (query_id names name q) q.node_type
  unfolding iterate_query
  iterate_dependents q e = ground (
    arith,
    dependents-ne-dependencies,
    string_eq.beq_iff q.query_type "dependents",
    string_eq.beq_iff q.query_type "dependencies",
  )

  apply_operator-Yields :
      {o : String} {f : Bool → Bool → Bool} {p q : ℕ → Bool} (a b : B)
      → Operator o f
      → ((v : ℕ) → bm.contains a v ≡ p v)
      → ((v : ℕ) → bm.contains b v ≡ q v)
      → Yields nodes (apply_operator o (some a) (some b)) (λ v. f (p v) (q v))
  unfolding apply_operator
  apply_operator-Yields a b or_operator ha hb =
      (bm.or a b, refl, λ v. ground (arith, bm.contains-or a b v, ha v, hb v))
  apply_operator-Yields a b and_operator ha hb =
      (bm.and a b, refl, λ v. ground (arith, bm.contains-and a b v, ha v, hb v))
  apply_operator-Yields a b xor_operator ha hb =
      (bm.xor_with a b, refl, λ v. ground (arith, bm.contains-xor_with a b v, ha v, hb v))

  mutual
    unfolding iterate_expression iterate_term

    expression-Yields :
        {e : Expression} {p : ℕ → Bool}
        → Means e p
        → Yields nodes (iterate_expression ds dd names nodes name e) p
    expression-Yields (single e m) = let (b, r, h) = term-Yields m in (b, ground (arith, r), h)
    expression-Yields (joined {o = o} m op n) =
        let (a, r, ha) = term-Yields m in
        let (b, r', hb) = expression-Yields n in
        let (c, r'', hc) = apply_operator-Yields a b op ha hb in (c, ground (arith, r, r', r''), hc)

    term-Yields :
        {t : Term} {p : ℕ → Bool}
        → MeansTerm t p
        → Yields nodes (iterate_term ds dd names nodes name t) p
    term-Yields (dependencies_of q b e found) =
        let (c, r, h) = select-Yields nodes ds (query_id names name q) q.node_type b found in
        (c, iterate_dependencies q e ∙ r, h)
    term-Yields (dependents_of q b e found) =
        let (c, r, h) = select-Yields nodes dd (query_id names name q) q.node_type b found in
        (c, iterate_dependents q e ∙ r, h)

  -- An expression with no brackets, each of whose queries is of a known type and has an answer, is
  -- evaluated without an error or a panic, to the union, intersection or symmetric difference of
  -- the answers, restricted to the nodes of the type asked for; operators associate to the right.
  pub iterate_expression-Means :
      {e : Expression} {p : ℕ → Bool}
      → Means e p
      → (b : B) × (iterate_expression ds dd names nodes name e ≡ ok (some b))
        × ((v : ℕ) → bm.contains b v ≡ p v)
  iterate_expression-Means m = expression-Yields m
