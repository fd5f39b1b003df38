-- ===== src/Graph/Caching/BuildCache.antt =====
-- pkg/graph/cache.go: `buildCache`, with the loop over its stack. The head of the list `stack` is
-- its last element. `fuel` bounds the rounds of the loop for one node.
use minefield.Prelude.{
  ℕ, zero, suc, ◌+◌, Option, none, some, List, [], ◌∷◌, length, if◌then◌else◌, ◌==◌, nat_eq, Map,
  lookup, insert, Text, Outcome, ok, out_of_fuel, Action, ◌>>=◌, ◌>>◌, pure, gets, modify, deref,
  context, bind,
}
use minefield.Bitmap.{Bitmap}
use minefield.Utils.{uint32_to_str}
use minefield.Graph.Node.{Node, Direction, children_direction}
use minefield.Graph.Cycles.{read}
use minefield.Graph.BindMap.{NativeKeyManagement, new_native_key_management, get, set}
use minefield.Graph.Caching.Groups.{Groups, on_cache, add_cycles_to_bind_map}

pub record StackElm : Type 0 where
  pub id : ℕ
  pub todo_index : ℕ

pub record TodoFuturePair : Type 0 where
  pub todo_nodes : List ℕ
  pub future_nodes : List ℕ

-- The variables of `buildCache`.
pub record Build (B : Type 0) : Type 0 where
  pub groups : Groups B
  pub already_cached : B
  pub todo_future_cache : Map ℕ TodoFuturePair

abbrev on_groups : {B A : Type 0} → Action (Groups B) A → Action (Build B) A
on_groups m b = let (r, g) = m b.groups in (r, record b { groups = g })

-- `l[i]`
abbrev pub get_elem? : List ℕ → ℕ → Option ℕ
get_elem? [] i = none
get_elem? (x ∷ xs) zero = some x
get_elem? (x ∷ xs) (suc i) = get_elem? xs i

module _ {B : Type 0} ⦃bm : Bitmap B⦄ where
  abbrev peek : Text → NativeKeyManagement B → Outcome B
  peek key nkm = (get key nkm).0

  unfoldable get_todo_and_future_nodes :
      NativeKeyManagement B → NativeKeyManagement B → ℕ → Direction → Outcome TodoFuturePair
  get_todo_and_future_nodes children parents id direction =
      let key = uint32_to_str id in
      let pair = λ (todo future : NativeKeyManagement B). bind (peek key todo) λ t.
        bind (peek key future)
          λ f. ok (record { todo_nodes = bm.to_array t; future_nodes = bm.to_array f }) in
      elim direction [ children_direction ↦ pair children parents | _ ↦ pair parents children ]

  unfoldable get_todo_and_future_nodes_cached : ℕ → Direction → Action (Build B) TodoFuturePair
  unfolding get_todo_and_future_nodes
  get_todo_and_future_nodes_cached id direction b = elim (lookup id b.todo_future_cache) [
    | some pair ↦ (ok pair, b)
    | none ↦
        (do
          pair ←
              λ b'. (get_todo_and_future_nodes b.groups.children b.groups.parents id direction, b')
          modify (λ b'. record b' { todo_future_cache = insert id pair b'.todo_future_cache })
          pure pair)
          b
  ]

  unfoldable add_to_cache : ℕ → ℕ → Action (NativeKeyManagement B) (Unit {0})
  add_to_cache cur_elem todo_elem = do
    cur_elem_val ←
        context "error getting value for curElem key from value %d: %w"
          (get (uint32_to_str cur_elem))
    todo_val ← context "error getting value for todoElem key %d: %w" (get (uint32_to_str todo_elem))
    set (uint32_to_str cur_elem) (bm.add cur_elem (bm.or cur_elem_val todo_val))

-- `append(stack, stackElm{…})` for each of the future nodes
unfoldable pub push_all : List ℕ → List StackElm → List StackElm
push_all [] stack = stack
push_all (id ∷ ids) stack = push_all ids (record { id = id; todo_index = 0 } ∷ stack)

module _ {B M : Type 0} ⦃bm : Bitmap B⦄ (direction : Direction) (scc : Map ℕ ℕ)
    (all_nodes : Map ℕ (Node B M)) where
  -- the part of a round behind `todoIndex == len(todoNodes)`
  unfoldable advance : StackElm → Node B M → ℕ → List StackElm → Action (Build B) (List StackElm)
  unfolding add_to_cache
  advance top cur todo below = if read scc cur.id == read scc todo then pure (top ∷ below) else (do
    b ← gets (λ b. b)
    let moved = record { id = cur.id; todo_index = top.todo_index + 1 } ∷ below
    if bm.contains b.already_cached todo
        then (do on_groups (on_cache (add_to_cache cur.id todo)); pure moved)
        else pure (record { id = todo; todo_index = 0 } ∷ moved))

  -- One round of the inner loop, which returns the new stack.
  unfoldable pub round : StackElm → List StackElm → Action (Build B) (List StackElm)
  unfolding advance push_all get_todo_and_future_nodes_cached
  round top below = do
    cur ← deref (lookup top.id all_nodes)
    b ← gets (λ b. b)
    if bm.contains b.already_cached cur.id then pure below else (do
      pair ← get_todo_and_future_nodes_cached cur.id direction
      if top.todo_index == length pair.todo_nodes
          then (do
            modify (λ b. record b { already_cached = bm.add cur.id b.already_cached })
            pure (push_all pair.future_nodes below))
          else (do
            todo ← deref (get_elem? pair.todo_nodes top.todo_index)
            advance top cur todo below))

  unfoldable stack_loop : ℕ → List StackElm → Action (Build B) (Unit {0})
  unfolding round
  stack_loop fuel [] b = (ok tt, b)
  stack_loop zero (top ∷ below) b = (out_of_fuel, b)
  stack_loop (suc fuel) (top ∷ below) b = (do stack ← round top below; stack_loop fuel stack) b

  -- the loop over `nodesToProcess`
  unfoldable pub process : ℕ → List ℕ → Action (Build B) (Unit {0})
  unfolding stack_loop
  process fuel [] = pure tt
  process fuel (node_id ∷ ids) = do
    stack_loop fuel (record { id = node_id; todo_index = 0 } ∷ [])
    process fuel ids

abbrev add_all : {B : Type 0} ⦃bm : Bitmap B⦄ → List ℕ → B → B
add_all [] b = b
add_all ⦃bm⦄ (id ∷ ids) b = add_all ids (bm.add id b)

module _ {B M : Type 0} ⦃bm : Bitmap B⦄ (sum256 : Text → List ℕ) (fuel : ℕ) where
  unfoldable pub build_cache :
      List ℕ → Direction → Map ℕ ℕ → Map ℕ (Node B M) → Outcome (NativeKeyManagement B)
  unfolding process add_cycles_to_bind_map
  build_cache uncached_nodes direction scc all_nodes =
      let start : Build B = record {
        groups = record {
          cache = new_native_key_management;
          children = new_native_key_management;
          parents = new_native_key_management;
        };
        already_cached = bm.empty;
        todo_future_cache = [];
      } in
      let nodes_to_cache = add_all uncached_nodes bm.empty in
      let (done, b) =
        (do
          context "error adding cycles to bind map: %w"
              (on_groups (add_cycles_to_bind_map all_nodes sum256 scc))
          process direction scc all_nodes fuel (bm.to_array nodes_to_cache))
          start in
      bind done (λ _. ok b.groups.cache)
