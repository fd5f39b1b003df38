-- ===== src/Storages/Redis/Exhausted.antt =====
-- New nodes where no id of 32 bits is left.
use minefield.Prelude.{
  ℕ, ◌+◌, ◌^◌, ◌≤◌, ◌<◌, ◌≡◌, refl, arith, String, true, none, some, [], text_of, Error, errorf,
  wrap, err, pos, Outcome,
}
use minefield.Bitmap.{Bitmap}
use minefield.Utils.{uint32_to_str, int_to_uint32}
use minefield.Graph.Node.{Node}
use minefield.Graph.Build.{add_node, create_node}
use minefield.Graph.Encode.{Format, NodeFormat}
use minefield.Storages.{name_key, id_counter_key}
use minefield.Storages.Redis.{redis_storage, name_to_id, id_of_name, generate_id}
use minefield.Storages.Redis.Commands.{Client}
use minefield.Storages.Redis.Server.{Server, Counts, Writes}

int_to_uint32_large : (k : ℕ) → 2 ^ 32 ≤ k → (e : Error) × (int_to_uint32 (pos k) ≡ err e)
unfolding int_to_uint32
int_to_uint32_large k large =
    (errorf "value %d exceeds maximum uint32 value", ground (arith, large))

module _ {R B M : Type 0} ⦃bm : Bitmap B⦄ ⦃format : Format B⦄ ⦃json : NodeFormat M⦄
    (client : Client R) (server : Server client) where
  -- Where a server that answers has counted 2 ^ 32 - 1 ids or more, `AddNode` of a name that is not
  -- known fails over Redis, and writes nothing but the counter, which stays below 2 ^ 63.
  pub add_node_exhausted :
      (scans n : ℕ) (type : String) (metadata : M) (name : String) (r : R)
      → server.views.is_up r ≡ true
      → server.views.value r (name_key (text_of name)) ≡ none
      → Counts (server.views.value r id_counter_key) n
      → server.views.items r id_counter_key ≡ []
      → 2 ^ 32 ≤ n + 1
      → n + 1 < 2 ^ 63
      → (e : Error) × (after : R) × Path
          (Outcome (Node B M) × R)
          (add_node (redis_storage client scans) type metadata name r)
          (err e, after)
        × Writes server.views id_counter_key (some (uint32_to_str (n + 1))) [] r after
  unfolding add_node create_node name_to_id id_of_name generate_id
  add_node_exhausted scans n type metadata name r up unknown counted free large small =
      let (_, missing) = server.get-missing (name_key (text_of name)) r up unknown in
      let (after, count, writes) = server.incr-Writes id_counter_key n r up counted free small in
      let (e, refused) = int_to_uint32_large (n + 1) large in
      (wrap "failed to generate ID: %w" e, after, rw (missing, count, refused) refl, writes)
