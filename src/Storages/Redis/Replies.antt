-- ===== src/Storages/Redis/Replies.antt =====
-- The pure parts of pkg/storages/redis_storage.go: the loops over replies, and the commands of pipelines.
use minefield.Prelude.{
  ℕ, String, List, [], ◌∷◌, ◌++◌, map, nat_eq, Map, insert, Text, text_of, trim_prefix, redis_nil,
  wrap, Outcome, ok, err, panic, out_of_fuel, bind, wrapping,
}
use minefield.Utils.{parse_uint}
use minefield.Graph.Node.{NodeCache}
use minefield.Graph.Storage.{Bytes}
use minefield.Graph.Encode.{Format, marshal_cache}
use minefield.Storages.{cache_key, cache_stack_key}
use minefield.Storages.Redis.Commands.{Command}

-- the loop of `ToBeCached`
unfoldable pub parse_items : List Text → Outcome (List ℕ)
parse_items [] = ok []
parse_items (item ∷ items) =
    bind (wrapping "failed to parse item %s in %s: %w" (parse_uint item))
      λ id. bind (parse_items items) λ ids. ok (id ∷ ids)

-- the loop of `GetAllKeys`
unfoldable pub parse_keys : List Text → Outcome (List ℕ)
parse_keys [] = ok []
parse_keys (key ∷ keys) =
    bind (wrapping "failed to parse key %s: %w" (parse_uint (trim_prefix key (text_of "node:"))))
      λ id. bind (parse_keys keys) λ ids. ok (id ∷ ids)

-- The loops of `GetNodes` and `GetCaches` over the answers: `redis.Nil` skips a missing key.
unfoldable pub collect_found :
    {V : Type 0}
    → (Bytes → Outcome V)
    → String
    → String
    → List ℕ
    → List (Outcome Text)
    → Map ℕ V
    → Outcome (Map ℕ V)
collect_found unmarshal failed_get failed_unmarshal (id ∷ ids) (ok text ∷ cmds) found =
    bind (wrapping failed_unmarshal (unmarshal text))
      λ v. collect_found unmarshal failed_get failed_unmarshal ids cmds (insert id v found)
collect_found unmarshal failed_get failed_unmarshal (id ∷ ids) (err redis_nil ∷ cmds) found =
    collect_found unmarshal failed_get failed_unmarshal ids cmds found
collect_found unmarshal failed_get failed_unmarshal (id ∷ ids) (err e ∷ cmds) found =
    err (wrap failed_get e)
collect_found unmarshal failed_get failed_unmarshal (id ∷ ids) (panic ∷ cmds) found = panic
collect_found unmarshal failed_get failed_unmarshal (id ∷ ids) (out_of_fuel ∷ cmds) found =
    out_of_fuel
collect_found unmarshal failed_get failed_unmarshal [] cmds found = ok found
collect_found unmarshal failed_get failed_unmarshal (id ∷ ids) [] found = ok found

-- the commands of one round of `RemoveAllCaches`
abbrev pub removal : List Text → List Command
removal keys =
    map (λ key. Command.rpush cache_stack_key (trim_prefix key (text_of "cache:"))) keys
    ++ Command.unlink keys ∷ []

module _ {B : Type 0} ⦃format : Format B⦄ where
  -- the loop of `SaveCaches`, which queues the commands
  unfoldable pub queue_caches : List (NodeCache B) → Outcome (List Command)
  queue_caches [] = ok []
  queue_caches (cache ∷ caches) =
      bind (wrapping "failed to marshal cache: %w" (marshal_cache cache)) λ bytes.
        bind (queue_caches caches) λ cmds. ok (Command.set (cache_key cache.id) bytes ∷ cmds)
