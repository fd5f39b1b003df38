-- ===== src/Graph/Parser.antt =====
-- pkg/graph/parser.go: the queries of a script. The package participle, which builds the parser
-- from the grammar, is the parameter `parse`. A pointer to an expression or a term may be nil.
pub mod Evaluate
pub mod Asked
pub mod Answered
pub mod Searched
pub mod Execute
use minefield.Prelude.{
  ℕ, String, Bool, true, false, Option, none, some, List, [], ◌∷◌, ◌++◌, ◌||◌, ◌==◌, nat_eq,
  string_eq, if◌then◌else◌, Map, lookup, insert, Error, errorf, Outcome, ok, err, panic,
  out_of_fuel, Action, ◌>>=◌, ◌>>◌, pure, lift, context, bind, wrapping,
}
use minefield.Bitmap.{Bitmap}
use minefield.Graph.Node.{Node, NodeCache}
use minefield.Graph.Storage.{Storage}
use minefield.Graph.Query.{batch_query_dependents, batch_query_dependencies}

pub record Query : Type 0 where
  pub query_type : String
  pub node_type : String
  pub node_name : Option String

-- The grammar gives a term a query or an expression, and not both.
mutual
  pub data Expression : Type 0 where
    nil_expression : Expression
    expression : Term → Option String → Expression → Expression

  pub data Term : Type 0 where
    nil_term : Term
    query : Query → Term
    group : Expression → Term

pub record PurlData : Type 0 where
  pub purl : String
  pub type : String

abbrev pub query_name : String → Query → String
query_name default_node_name q = elim q.node_name [ some name ↦ name | none ↦ default_node_name ]

-- The packages of one query: those whose dependencies are asked for, and whose dependents.
pub record Packages : Type 0 where
  pub dependencies_to_query : List PurlData
  pub dependents_to_query : List PurlData

abbrev collect_query : String → Query → Packages → Packages
collect_query default_node_name q p =
    let found : PurlData = record { purl = query_name default_node_name q; type = q.node_type } in
    if q.query_type == "dependencies"
    then record p { dependencies_to_query = p.dependencies_to_query ++ found ∷ [] }
    else if q.query_type == "dependents"
    then record p { dependents_to_query = p.dependents_to_query ++ found ∷ [] }
    else p

unfoldable mutual
  pub collect_packages_from_expression : String → Expression → Packages → Packages
  collect_packages_from_expression name nil_expression p = p
  collect_packages_from_expression name (expression left op right) p =
      collect_packages_from_expression name right (collect_packages_from_term name left p)

  pub collect_packages_from_term : String → Term → Packages → Packages
  collect_packages_from_term name nil_term p = p
  collect_packages_from_term name (query q) p = collect_query name q p
  collect_packages_from_term name (group e) p = collect_packages_from_expression name e p

unfoldable pub collect_packages : Expression → String → Packages
collect_packages expr name =
    collect_packages_from_expression name expr
      (record { dependencies_to_query = []; dependents_to_query = [] })

module _ {B M : Type 0} where
  -- the loop that fills `nameToIDs`, over the nodes in their order
  unfoldable pub index_names : Map ℕ (Option (Node B M)) → Map String ℕ → Outcome (Map String ℕ)
  index_names [] names = ok names
  index_names ((_, none) ∷ nodes) names = err (
      errorf
        "node is nil is because the node was not found in the cache. Please check the cache for the node before querying dependencies.")
  index_names ((_, some node) ∷ nodes) names = index_names nodes (insert node.name node.id names)

  -- `nodes[id]`, nil if there is none
  abbrev pub node_at : Map ℕ (Option (Node B M)) → ℕ → Option (Node B M)
  node_at nodes id = elim (lookup id nodes) [ none ↦ none | some node ↦ node ]

  -- the loops that look the packages up
  unfoldable pub resolve :
      String
      → Map String ℕ
      → Map ℕ (Option (Node B M))
      → List PurlData
      → Outcome (List (Option (Node B M)))
  resolve text names nodes [] = ok []
  resolve text names nodes (p ∷ ps) =
      let rest = resolve text names nodes ps in
      elim (lookup p.purl names) [
        | none ↦ err (errorf text)
        | some id ↦ bind rest (λ found. ok (node_at nodes id ∷ found))
      ]

module _ {B M : Type 0} ⦃bm : Bitmap B⦄ (nodes : Map ℕ (Option (Node B M))) where
  -- the loop over the ids that a query found, and its body
  unfoldable pub add_if_typed : String → ℕ → B → B
  add_if_typed type id result = elim (node_at nodes id) [
    | none ↦ result
    | some node ↦ if node.type == type then bm.add id result else result
  ]

  unfoldable pub of_type : String → List ℕ → B → B
  of_type type [] result = result
  of_type type (id ∷ ids) result = of_type type ids (add_if_typed type id result)

  -- A missing entry is a nil bitmap, and `ToArray` of it panics.
  unfoldable pub select : Map ℕ B → ℕ → String → Outcome (Option B)
  unfolding of_type add_if_typed
  select for_id id type = elim (lookup id for_id) [
    | none ↦ panic
    | some found ↦ ok (some (of_type type (bm.to_array found) bm.empty))
  ]

abbrev pub query_id : Map String ℕ → String → Query → ℕ
query_id names default_node_name q = elim (lookup (query_name default_node_name q) names) [
  | none ↦ 0
  | some id ↦ id
]

module _ {B M : Type 0} ⦃bm : Bitmap B⦄ (dependencies_for_id dependents_for_id : Map ℕ B)
    (names : Map String ℕ) (nodes : Map ℕ (Option (Node B M))) (default_node_name : String) where
  unfoldable pub iterate_query : Query → Outcome (Option B)
  unfolding select
  iterate_query q =
      let id = query_id names default_node_name q in
      if q.query_type == "dependencies"
      then select nodes dependencies_for_id id q.node_type
      else if q.query_type == "dependents"
      then select nodes dependents_for_id id q.node_type
      else err (errorf "unknown query: %s")

module _ {B : Type 0} ⦃bm : Bitmap B⦄ where
  -- A nil bitmap on either side panics.
  unfoldable pub apply_operator : String → Option B → Option B → Outcome (Option B)
  apply_operator op (some a) (some b) =
      if op == "or"
      then ok (some (bm.or a b))
      else if op == "and"
      then ok (some (bm.and a b))
      else if op == "xor"
      then ok (some (bm.xor_with a b))
      else err (errorf "unknown operator: %s")
  apply_operator op _ _ =
      if op == "or" || op == "and" || op == "xor"
      then panic
      else err (errorf "unknown operator: %s")

unfoldable mutual
  pub iterate_expression :
      {B M : Type 0} ⦃bm : Bitmap B⦄ (dependencies_for_id dependents_for_id : Map ℕ B)
      (names : Map String ℕ) (nodes : Map ℕ (Option (Node B M))) (name : String)
      → Expression
      → Outcome (Option B)
  iterate_expression ds dd names nodes name nil_expression = ok none
  iterate_expression ds dd names nodes name (expression left op right) =
      bind (iterate_term ds dd names nodes name left) λ a. elim op [
        | none ↦ ok a
        | some o ↦ bind (iterate_expression ds dd names nodes name right) (apply_operator o a)
      ]

  -- The value of an expression in brackets is computed and dropped.
  pub iterate_term :
      {B M : Type 0} ⦃bm : Bitmap B⦄ (dependencies_for_id dependents_for_id : Map ℕ B)
      (names : Map String ℕ) (nodes : Map ℕ (Option (Node B M))) (name : String)
      → Term
      → Outcome (Option B)
  iterate_term ds dd names nodes name nil_term = ok none
  iterate_term ds dd names nodes name (query q) = iterate_query ds dd names nodes name q
  iterate_term ⦃bm⦄ ds dd names nodes name (group e) =
      bind (iterate_expression ds dd names nodes name e) (λ _. ok (some bm.empty))

-- `fuel` bounds the queries that walk the graph.
module _ {S B M : Type 0} ⦃bm : Bitmap B⦄ (parse : String → Outcome Expression) (fuel : ℕ) where
  unfoldable pub parse_and_execute :
      String
      → Option (Storage S B M)
      → String
      → Map ℕ (Option (Node B M))
      → Map ℕ (Option (NodeCache B))
      → Bool
      → Action S B
  parse_and_execute script storage default_node_name nodes caches is_cached = do
    names ← lift (index_names nodes [])
    expr ← context "Failed to parse expression: %v" (lift (parse script))
    let packages = collect_packages expr default_node_name
    node_dependencies ←
        lift (resolve "dependency not found: %s" names nodes packages.dependencies_to_query)
    node_dependents ←
        lift (resolve "dependent not found: %s" names nodes packages.dependents_to_query)
    dependencies_for_id ←
        context "failed to get dependencies from batch query: %v"
          (batch_query_dependencies fuel storage node_dependencies caches is_cached)
    dependents_for_id ←
        context "failed to get dependents from batch query: %v"
          (batch_query_dependents fuel storage node_dependents caches is_cached)
    found ← context "failed to iterate expression: %v" (
        lift (
          iterate_expression dependencies_for_id dependents_for_id names nodes default_node_name
            expr))
    pure (elim found [ none ↦ bm.empty | some b ↦ b ])
