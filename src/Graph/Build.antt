-- ===== src/Graph/Build.antt =====
-- pkg/graph/graph.go: `AddNode` and `SetDependency`. A pointer that may be nil is an `Option`.
pub mod Invariant
pub mod AddNode
pub mod Linked
pub mod Drawn
pub mod SetDependency
pub mod Runs
use minefield.Prelude.{
  ℕ, String, Bool, true, false, not, Option, none, some, ◌==◌, nat_eq, Error, errorf,
  self_dependency, Outcome, ok, err, panic, out_of_fuel, Action, ◌>>=◌, ◌>>◌, pure, context,
  attempt, guard, require,
}
use minefield.Bitmap.{Bitmap}
use minefield.Graph.Node.{Node, NodeCache, new_node_cache}
use minefield.Graph.Storage.{Storage}

module _ {B M : Type 0} ⦃bm : Bitmap B⦄ where
  abbrev pub add_child : ℕ → Node B M → Node B M
  add_child id n = record n { children = bm.add id n.children }

  abbrev pub add_parent : ℕ → Node B M → Node B M
  add_parent id n = record n { parents = bm.add id n.parents }

  abbrev pub new_node : ℕ → String → M → String → Node B M
  new_node id type metadata name = record {
    metadata = metadata;
    children = bm.empty;
    parents = bm.empty;
    type = type;
    name = name;
    id = id;
  }

module _ {S B M : Type 0} ⦃bm : Bitmap B⦄ where
  -- the part of `AddNode` behind the failed lookup
  unfoldable pub create_node : Storage S B M → String → M → String → Action S (Node B M)
  create_node storage type metadata name = do
    id ← context "failed to generate ID: %w" storage.generate_id
    let n = new_node id type metadata name
    context "failed to save node: %w" (storage.save_node n)
    storage.save_cache (new_node_cache id bm.empty bm.empty)
    pure n

  unfoldable pub add_node : Storage S B M → String → M → String → Action S (Node B M)
  add_node storage type metadata name s =
      attempt (storage.name_to_id name s) storage.get_node
        (λ _. create_node storage type metadata name)

  -- Returns the two nodes as they are left.
  unfoldable pub set_dependency :
      Option (Node B M)
      → Option (Storage S B M)
      → Option (Node B M)
      → Action S (Node B M × Node B M)
  set_dependency n? storage? neighbor? = do
    n ← require n? (errorf "cannot add dependency to nil node")
    neighbor ← require neighbor? (errorf "cannot add dependency to nil node")
    guard (not (n.id == neighbor.id)) self_dependency
    storage ← require storage? (errorf "storages cannot be nil")
    let n' = add_child neighbor.id n
    let neighbor' = add_parent n.id neighbor
    context "failed to save node: %w" (storage.save_node n')
    context "failed to save neighbor node: %w" (storage.save_node neighbor')
    pure (n', neighbor')
