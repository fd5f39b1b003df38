-- ===== src/Graph/Caching/Groups.antt =====
-- pkg/graph/cache.go: `addCyclesToBindMap`, which gives the nodes of each cycle one cache and one
-- list of outside neighbours. Go visits its maps in an unspecified order; here it is that of their
-- entries.
use minefield.Prelude.{
  ℕ, none, some, List, [], ◌∷◌, ◌++◌, nat_eq, Text, Map, lookup, insert, Action, ◌>>=◌, ◌>>◌, pure,
  lift, deref,
}
use minefield.Bitmap.{Bitmap}
use minefield.Utils.{uint32_to_str, str_to_uint32}
use minefield.Graph.Node.{Node}
use minefield.Graph.BindMap.{NativeKeyManagement, bind_keys, set}

pub record Groups (B : Type 0) : Type 0 where
  pub cache : NativeKeyManagement B
  pub children : NativeKeyManagement B
  pub parents : NativeKeyManagement B

-- An action on one of the three.
module _ {B A : Type 0} where
  abbrev pub on_cache : Action (NativeKeyManagement B) A → Action (Groups B) A
  on_cache m g = let (r, c) = m g.cache in (r, record g { cache = c })

  abbrev on_children : Action (NativeKeyManagement B) A → Action (Groups B) A
  on_children m g = let (r, c) = m g.children in (r, record g { children = c })

  abbrev on_parents : Action (NativeKeyManagement B) A → Action (Groups B) A
  on_parents m g = let (r, c) = m g.parents in (r, record g { parents = c })

-- the loop that fills `parentToKeys`
unfoldable group_keys : Map ℕ ℕ → Map ℕ (List Text) → Map ℕ (List Text)
group_keys [] parent_to_keys = parent_to_keys
group_keys ((k, v) ∷ scc) parent_to_keys =
    let old : List Text = elim (lookup v parent_to_keys) [ none ↦ [] | some ks ↦ ks ] in
    group_keys scc (insert v (old ++ uint32_to_str k ∷ []) parent_to_keys)

-- the three bitmaps of one group
pub record Gathered (B : Type 0) : Type 0 where
  pub keycache : B
  pub children_cache : B
  pub parent_cache : B

module _ {B M : Type 0} ⦃bm : Bitmap B⦄ (all_nodes : Map ℕ (Node B M)) where
  -- the loop over the keys of one group
  unfoldable gather : List Text → Gathered B → Action (Groups B) (Gathered B)
  gather [] g = pure g
  gather (key ∷ keys) g = do
    intkey ← lift (str_to_uint32 key)
    node ← deref (lookup intkey all_nodes)
    gather keys (record {
      keycache = bm.add node.id (bm.add intkey g.keycache);
      children_cache = bm.or g.children_cache node.children;
      parent_cache = bm.or g.parent_cache node.parents;
    })

  abbrev nothing_gathered : Gathered B
  nothing_gathered = record {
    keycache = bm.empty;
    children_cache = bm.empty;
    parent_cache = bm.empty;
  }

  -- the writes behind `if len(keysForAParent) > 0`
  unfoldable store_group : List Text → Gathered B → Action (Groups B) (Unit {0})
  store_group [] g = pure tt
  store_group (key ∷ _) g = do
    on_cache (set key g.keycache)
    on_children (set key (bm.and_not g.children_cache g.keycache))
    on_parents (set key (bm.and_not g.parent_cache g.keycache))

  module _ (sum256 : Text → List ℕ) where
    unfoldable add_group : List Text → Action (Groups B) (Unit {0})
    unfolding gather store_group
    add_group keys = do
      _ ← on_cache (bind_keys sum256 keys)
      _ ← on_children (bind_keys sum256 keys)
      _ ← on_parents (bind_keys sum256 keys)
      g ← gather keys nothing_gathered
      store_group keys g

    unfoldable add_groups : Map ℕ (List Text) → Action (Groups B) (Unit {0})
    unfolding add_group
    add_groups [] = pure tt
    add_groups ((_, keys) ∷ groups) = do add_group keys; add_groups groups

    unfoldable pub add_cycles_to_bind_map : Map ℕ ℕ → Action (Groups B) (Unit {0})
    unfolding group_keys add_groups
    add_cycles_to_bind_map scc = add_groups (group_keys scc [])
