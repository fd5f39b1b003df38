-- ===== src/Storages/Redis/Commands.antt =====
-- The go-redis client, over a state `R` of the server: the calls that pkg/storages/redis_storage.go
-- makes. A number that is sent is sent in decimal.
use minefield.Prelude.{ℕ, String, Option, List, Map, Text, ℤ, Error, Outcome, Action}
use minefield.Graph.Storage.{Bytes}

-- what a pipeline queues
pub data Command : Type 0 where
  get : Text → Command
  set : Text → Text → Command
  rpush : Text → Text → Command
  unlink : List Text → Command

pub record Client (R : Type 0) : Type 0 where
  -- `INCR` answers an int64.
  pub incr : Text → Action R ℤ
  -- `Get` of a missing key is the error `redis.Nil`.
  pub get : Text → Action R Text
  pub set : Text → Text → Action R (Unit {0})
  pub del : Text → Action R (Unit {0})
  pub rpush : Text → Text → Action R (Unit {0})
  pub lrange : Text → ℤ → ℤ → Action R (List Text)
  pub keys : Text → Action R (List Text)
  -- The cursor, the pattern and the hint; the answer has the next cursor.
  pub scan : ℕ → Text → ℕ → Action R (List Text × ℕ)
  pub hset : Text → String → Bytes → Action R (Unit {0})
  pub hget_all : Text → Action R (Map String Bytes)
  -- `Exec` of a pipeline: its own error, and what each command answers, in their order.
  pub exec : List Command → R → (Option Error × List (Outcome Text)) × R
