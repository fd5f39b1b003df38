-- ===== src/Storages.antt =====
-- pkg/storages: the keys of pkg/storages/storage.go, under which the backends keep nodes, names and
-- caches.
pub mod Keys
pub mod Agree
pub mod Refine
pub mod Redis
pub mod Sql
mod Tests
use minefield.Prelude.{ℕ, String, ◌++◌, Text, text_of}
use minefield.Utils.{uint32_to_str}

-- `fmt.Sprintf("%s%d", NodeKeyPrefix, id)`
unfoldable pub node_key : ℕ → Text
node_key id = text_of "node:" ++ uint32_to_str id

-- `fmt.Sprintf("%s%s", NameToIDKey, name)`; the name is also a part of a key that is read back
unfoldable pub name_key : Text → Text
name_key name = text_of "name_to_id:" ++ name

-- `fmt.Sprintf("%s%d", CacheKeyPrefix, id)`
unfoldable pub cache_key : ℕ → Text
cache_key id = text_of "cache:" ++ uint32_to_str id

-- `IDCounterKey`
unfoldable pub id_counter_key : Text
id_counter_key = text_of "id_counter"

-- `CacheStackKey`
unfoldable pub cache_stack_key : Text
cache_stack_key = text_of "to_be_cached"
