-- ===== src/Storages/Sql/Database.antt =====
-- The database behind GORM, over a state `D`: the calls that pkg/storages/sql.go makes on the tables
-- of `KVStore`, `CacheStack` and `GlobalCounter`.
use minefield.Prelude.{ℕ, List, Text, Action}

-- `KVStore`; the two times are written by GORM alone, and are left out.
pub record KvStore : Type 0 where
  pub key : Text
  pub value : Text

pub record Database (D : Type 0) : Type 0 where
  -- `First(&kv, "key = ?", key)`: a missing row is `gorm.ErrRecordNotFound`.
  pub first : Text → Action D KvStore
  -- `Where("key IN ?", keys).Find`
  pub find_in : List Text → Action D (List KvStore)
  -- `Where("key LIKE ?", pattern).Find`
  pub find_like : Text → Action D (List KvStore)
  pub save : KvStore → Action D (Unit {0})
  pub save_all : List KvStore → Action D (Unit {0})
  -- `Delete(&KVStore{}, "key LIKE ?", pattern)`
  pub delete_like : Text → Action D (Unit {0})
  -- `Create` of a `CacheStack` that does nothing on a conflict of the ids
  pub create_or_ignore : ℕ → Action D (Unit {0})
  -- `Create` of a `CacheStack`
  pub create : ℕ → Action D (Unit {0})
  pub find_stack : Action D (List ℕ)
  pub delete_stack : Action D (Unit {0})
  -- `Create` of a `GlobalCounter`, with the id that the database gives it
  pub create_counter : Action D ℕ
  pub transaction : Action D (Unit {0}) → Action D (Unit {0})
