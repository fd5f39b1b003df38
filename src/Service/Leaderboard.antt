-- ===== src/Service/Leaderboard.antt =====
-- api/v1/service.go: `CustomLeaderboard`. The goroutines run one query each; the model
-- runs each query as one step, in the order in which they finish, which is a parameter, as is the
-- number of them that have finished when the errors are looked for. container/heap is the
-- parameter `Heap` of Service.QueryHeap.
pub mod Ranked
pub mod Listed
use minefield.Prelude.{
  ℕ, zero, suc, String, Bool, true, false, Option, none, some, List, [], ◌∷◌, ◌∈◌, length, map, not,
  ◌==◌, string_eq, ltb, if◌then◌else◌, ◌≡◌, ◌↔◌, ◌⊎◌, Map, Error, errorf, Outcome, ok, err, panic,
  out_of_fuel, bind, Action, ◌>>=◌, ◌>>◌, pure, throw, lift, guard, context, attempt,
}
use minefield.Bitmap.{Bitmap}
use minefield.Graph.Node.{Node, NodeCache}
use minefield.Graph.Storage.{Storage, Bytes}
use minefield.Graph.Parser.{Expression, parse_and_execute}
use minefield.Service.QueryHeap.{Ranking, Heap, query_heap}
use minefield.Service.{ServiceNode, node_to_service_node, values, pointers}

-- `service.Query` of the response
pub record ServiceRanking : Type 0 where
  pub node : ServiceNode
  pub output : List ℕ

-- `if node.Name == "" { continue }`
unfoldable pub named_nodes : {B M : Type 0} → List (Node B M) → List (Node B M)
named_nodes [] = []
named_nodes (node ∷ nodes) =
    let rest = named_nodes nodes in if node.name == "" then rest else node ∷ rest

-- what the goroutines send on the channel of the errors, and on that of the queries
unfoldable pub errors_of : {A : Type 0} → List (Outcome A) → List Error
errors_of [] = []
errors_of (err e ∷ rest) = e ∷ errors_of rest
errors_of (ok a ∷ rest) = errors_of rest
errors_of (panic ∷ rest) = errors_of rest
errors_of (out_of_fuel ∷ rest) = errors_of rest

unfoldable pub queries_of : {A : Type 0} → List (Outcome A) → List A
queries_of [] = []
queries_of (ok a ∷ rest) = a ∷ queries_of rest
queries_of (err e ∷ rest) = queries_of rest
queries_of (panic ∷ rest) = queries_of rest
queries_of (out_of_fuel ∷ rest) = queries_of rest

abbrev pub first : {A : Type 0} → ℕ → List A → List A
first zero l = []
first (suc n) [] = []
first (suc n) (a ∷ l) = a ∷ first n l

module _ {B M : Type 0} ⦃bm : Bitmap B⦄ (heap : Heap (Ranking B M))
    (marshal : M → Outcome Bytes) where
  unfoldable push_all : List (Ranking B M) → List (Ranking B M) → Outcome (List (Ranking B M))
  push_all [] h = ok h
  push_all (q ∷ queries) h = bind (heap.push query_heap h q) λ h'. push_all queries h'

  -- the loop that fills the response from its end, with `left` to go
  unfoldable pop_all : ℕ → List (Ranking B M) → List ServiceRanking → Outcome (List ServiceRanking)
  pop_all zero h queries = ok queries
  pop_all (suc left) h queries = bind (heap.pop query_heap h) λ (q, h').
      bind (node_to_service_node marshal q.node)
        λ node. pop_all left h' (record { node = node; output = q.output } ∷ queries)

  unfoldable rank : List (Ranking B M) → List (Ranking B M) → Outcome (List ServiceRanking)
  unfolding push_all pop_all
  rank h queries = bind (push_all queries h) λ h'. pop_all (query_heap.len h') h' []

module _ {S B M : Type 0} ⦃bm : Bitmap B⦄ (parse : String → Outcome Expression) (fuel : ℕ)
    (storage : Storage S B M) (script : String) (nodes : Map ℕ (Node B M))
    (caches : Map ℕ (NodeCache B)) (is_cached : Bool) where
  -- the goroutines, in the order in which they finish; a panic ends the program
  unfoldable run_queries : List (Node B M) → Action S (List (Outcome (Ranking B M)))
  run_queries [] s = (ok [], s)
  run_queries (node ∷ rest) s =
      attempt
        (parse_and_execute parse fuel script (some storage) node.name (pointers nodes)
          (pointers caches) is_cached s)
        (λ execute. do
          finished ← run_queries rest
          pure (ok (record { node = node; output = bm.to_array execute }) ∷ finished))
        (λ e. do finished ← run_queries rest; pure (err e ∷ finished))

module _ {S B M : Type 0} ⦃bm : Bitmap B⦄ (heap : Heap (Ranking B M)) (marshal : M → Outcome Bytes)
    (storage : Storage S B M) where
  -- `order` is the order in which the goroutines of the nodes finish, and `checked` the number of
  -- them that have when the errors are looked for.
  unfoldable pub custom_leaderboard :
      (String → Outcome Expression)
      → ℕ
      → (List (Node B M) → List (Node B M))
      → ℕ
      → String
      → Action S (List ServiceRanking)
  unfolding run_queries rank
  custom_leaderboard parse fuel order checked script = do
    uncached_nodes ← context "failed to get uncached nodes: %w" storage.to_be_cached
    elim uncached_nodes [
      | [] ↦ pure tt
      | _ ∷ _ ↦ throw (errorf "cannot use sorted leaderboards without caching")
    ]
    keys ← context "failed to Query keys: %w" storage.get_all_keys
    nodes ← context "failed to batch Query nodes from keys: %w" (storage.get_nodes keys)
    caches ← context "failed to batch Query caches from keys: %w" (storage.get_caches keys)
    cache_stack ← storage.to_be_cached
    h ← lift (heap.init query_heap [])
    finished ←
        run_queries parse fuel storage script nodes caches
          (elim cache_stack [ [] ↦ true | _ ∷ _ ↦ false ]) (order (named_nodes (values nodes)))
    elim (errors_of (first checked finished)) [ [] ↦ pure tt | e ∷ _ ↦ throw e ]
    lift (rank heap marshal h (queries_of finished))
