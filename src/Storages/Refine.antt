-- ===== src/Storages/Refine.antt =====
-- One backend refines another: the calls that the graph makes agree on related states. So do then
-- `AddNode`, `SetDependency` and the queries, whatever the backends are.
pub mod Graph
pub mod Serve
use minefield.Prelude.{ℕ, ◌^◌, ◌<◌, ◌≡◌, String, List, Option, Outcome, ok, Action}
use minefield.Graph.Node.{Node, NodeCache}
use minefield.Graph.Storage.{Storage}
use minefield.Storages.Agree.{Agrees}

-- `HasRoom` says of the first backend's state that one more id fits in 32 bits.
pub record Refines {S T B M : Type 0} (Rel : S → T → Type 0) (HasRoom : S → Type 0)
    (a : Storage S B M) (b : Storage T B M) : Type 0 where
  pub name_to_id :
      (name : String) (s : S) (t : T)
      → Rel s t
      → Agrees Rel (a.name_to_id name s) (b.name_to_id name t)
  pub name_to_id-state : (name : String) (s : S) → (a.name_to_id name s).1 ≡ s
  pub get_node : (id : ℕ) (s : S) (t : T) → Rel s t → Agrees Rel (a.get_node id s) (b.get_node id t)
  pub get_node-lt :
      (id : ℕ) (n : Node B M) (s s' : S) (t : T)
      → Rel s t
      → a.get_node id s ≡ (ok n, s')
      → n.id < 2 ^ 32
  pub save_node :
      (n : Node B M) (s : S) (t : T)
      → n.id < 2 ^ 32
      → Rel s t
      → Agrees Rel (a.save_node n s) (b.save_node n t)
  pub save_cache :
      (c : NodeCache B) (s : S) (t : T)
      → c.id < 2 ^ 32
      → Rel s t
      → Agrees Rel (a.save_cache c s) (b.save_cache c t)
  pub generate_id :
      (s : S) (t : T) → HasRoom s → Rel s t → Agrees Rel (a.generate_id s) (b.generate_id t)
  pub generate_id-lt : (id : ℕ) (s s' : S) → a.generate_id s ≡ (ok id, s') → id < 2 ^ 32
  pub to_be_cached : (s : S) (t : T) → Rel s t → Agrees Rel (a.to_be_cached s) (b.to_be_cached t)
  pub get_cache :
      (id : ℕ) (s : S) (t : T) → Rel s t → Agrees Rel (a.get_cache id s) (b.get_cache id t)
  pub add_node_to_cached_stack :
      (id : ℕ) (s : S) (t : T)
      → id < 2 ^ 32
      → Rel s t
      → Agrees Rel (a.add_node_to_cached_stack id s) (b.add_node_to_cached_stack id t)
  pub clear_cache_stack :
      (s : S) (t : T) → Rel s t → Agrees Rel (a.clear_cache_stack s) (b.clear_cache_stack t)
