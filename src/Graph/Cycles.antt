-- ===== src/Graph/Cycles.antt =====
-- pkg/graph/cache.go: `findCycles`, Tarjan's algorithm. The captured variables of the closure
-- `tarjanDFS` are the fields of a record. The head of the list `stack` is its last element. `fuel`
-- bounds the depth of the recursion.
pub mod Numbered
pub mod Ends
use minefield.Prelude.{
  ℕ, zero, suc, ◌+◌, ◌%◌, ◌^◌, min, none, some, List, [], ◌∷◌, if◌then◌else◌, ◌==◌, nat_eq, Map,
  lookup, insert, Outcome, ok, out_of_fuel, Action, ◌>>=◌, ◌>>◌, pure, gets, modify, deref, bind,
}
use minefield.Bitmap.{Bitmap}
use minefield.Graph.Node.{Node}

pub record Tarjan (B : Type 0) : Type 0 where
  pub stack : List ℕ
  pub current_tarjan_id : ℕ
  pub node_to_tarjan_id : Map ℕ ℕ
  pub low_link : Map ℕ ℕ
  pub in_stack : B

-- `m[k]` of a map to numbers
abbrev pub read : Map ℕ ℕ → ℕ → ℕ
read m k = elim (lookup k m) [ none ↦ 0 | some v ↦ v ]

module _ {B : Type 0} ⦃bm : Bitmap B⦄ where
  abbrev pub lower : ℕ → ℕ → Tarjan B → Tarjan B
  lower node_id bound t = record t {
    low_link = insert node_id (min (read t.low_link node_id) bound) t.low_link;
  }

  abbrev pub enter : ℕ → Tarjan B → Tarjan B
  enter node_id t =
      let current = t.current_tarjan_id + 1 in
      record {
        stack = node_id ∷ t.stack;
        current_tarjan_id = current;
        node_to_tarjan_id = insert node_id (current % 2 ^ 32) t.node_to_tarjan_id;
        low_link = insert node_id (current % 2 ^ 32) t.low_link;
        in_stack = bm.add node_id t.in_stack;
      }

  -- the loop that takes a component off the stack
  unfoldable pub pop_component : ℕ → List ℕ → Tarjan B → Tarjan B
  pop_component node_id [] t = record t { stack = [] }
  pop_component node_id (id ∷ stack) t =
      let t' = record t {
        stack = stack;
        in_stack = bm.remove id t.in_stack;
        low_link = insert id (read t.node_to_tarjan_id node_id) t.low_link;
      } in
      let rest = pop_component node_id stack t' in if node_id == id then t' else rest

  -- the loop over the children, with `dfs` for the recursive call
  unfoldable pub visit_children :
      (ℕ → Action (Tarjan B) (Unit {0})) → ℕ → List ℕ → Action (Tarjan B) (Unit {0})
  visit_children dfs node_id [] = pure tt
  visit_children dfs node_id (next ∷ rest) = do
    t ← gets (λ t. t)
    elim (lookup next t.node_to_tarjan_id) [
      | none ↦ (do dfs next; modify (λ t'. lower node_id (read t'.low_link next) t'))
      | some index ↦
          modify (λ t'. if bm.contains t'.in_stack next then lower node_id index t' else t')
    ]
    visit_children dfs node_id rest

  abbrev pub leave : ℕ → Tarjan B → Tarjan B
  leave node_id t =
      if read t.node_to_tarjan_id node_id == read t.low_link node_id
      then pop_component node_id t.stack t
      else t

module _ {B M : Type 0} ⦃bm : Bitmap B⦄ (all_nodes : Map ℕ (Node B M)) where
  -- A missing node is a nil pointer, which is read behind the bookkeeping.
  unfoldable pub tarjan_dfs : ℕ → ℕ → Action (Tarjan B) (Unit {0})
  unfolding visit_children
  tarjan_dfs zero node_id t = (out_of_fuel, t)
  tarjan_dfs (suc fuel) node_id t =
      (do
        modify (enter node_id)
        current_node ← deref (lookup node_id all_nodes)
        visit_children (tarjan_dfs fuel) node_id (bm.to_array current_node.children)
        modify (leave node_id))
        t

  -- the loop over the ids from `id`, with `left` to go
  unfoldable pub visit_ids : ℕ → ℕ → ℕ → Action (Tarjan B) (Unit {0})
  unfolding tarjan_dfs
  visit_ids fuel zero id = pure tt
  visit_ids fuel (suc left) id = do
    t ← gets (λ t. t)
    elim (lookup (id % 2 ^ 32) t.node_to_tarjan_id) [
      | none ↦ tarjan_dfs fuel (id % 2 ^ 32)
      | some _ ↦ pure tt
    ]
    visit_ids fuel left (id + 1)

  unfoldable pub find_cycles : ℕ → ℕ → Outcome (Map ℕ ℕ)
  unfolding visit_ids
  find_cycles fuel num_of_nodes =
      let start : Tarjan B = record {
        stack = [];
        current_tarjan_id = 0;
        node_to_tarjan_id = [];
        low_link = [];
        in_stack = bm.empty;
      } in
      let (done, t) = visit_ids fuel num_of_nodes 1 start in bind done (λ _. ok t.low_link)
