-- ===== src/Graph/Node.antt =====
-- The types of pkg/graph/graph.go. A node is a value, as a serialising storage returns it; `B` is
-- the type of the bitmaps and `M` that of the metadata. `ChildData` and `ParentData` of the struct
-- are never read or written, and are left out.
use minefield.Prelude.{ℕ, String}

-- `Direction` is a string with two named values.
pub data Direction : Type 0 where
  parents_direction children_direction : Direction
  other : String → Direction

pub record Node (B M : Type 0) : Type 0 where
  pub metadata : M
  pub children : B
  pub parents : B
  pub type : String
  pub name : String
  pub id : ℕ

pub record NodeCache (B : Type 0) : Type 0 where
  pub all_parents : B
  pub all_children : B
  pub id : ℕ

-- `NewNodeCache`
abbrev pub new_node_cache : {B : Type 0} → ℕ → B → B → NodeCache B
new_node_cache id all_parents all_children = record {
  all_parents = all_parents;
  all_children = all_children;
  id = id;
}
