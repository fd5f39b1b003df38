-- ===== src/Storages/Tests/Sql.antt =====
-- A database in memory, and witnesses for the SQL storage.
use minefield.Prelude.{
  ℕ, ◌+◌, ◌≡◌, refl, ap, sym, List, [], ◌∷◌, ◌++◌, some, if◌then◌else◌, ◌==◌, nat_eq, text_eq, Text,
  errorf, record_not_found, Outcome, ok, err, panic, Action,
}
use mathlib.Core.List.{append_assoc, append-nil}
use minefield.Bitmap.Listed.{listed}
use minefield.Graph.Node.{new_node_cache, NodeCache}
use minefield.Graph.Encode.{marshal_cache}
use minefield.Graph.Query.{query_dependents, query_dependencies}
use minefield.Graph.Tests.Data.{node_b}
use minefield.Storages.{cache_key}
use minefield.Storages.Sql.{sql_storage, save_caches}
use minefield.Storages.Sql.Rows.{cache_rows, convert_glob_to_sql_pattern}
use minefield.Storages.Sql.Database.{KvStore}
use minefield.Storages.Sql.Database.{Database as Db}
use minefield.Storages.Sql.Missing.{missing_cache_panics}
use minefield.Storages.Sql.Batches.{save_caches_lem}
use minefield.Storages.Tests.Data.{listed_format, unit_format}

record Tables : Type 0 where
  kvs : List KvStore
  stack : List ℕ
  counter : ℕ

abbrev find_first : Text → List KvStore → Outcome KvStore
find_first key [] = err record_not_found
find_first key (kv ∷ rows) = if kv.key == key then ok kv else find_first key rows

abbrev write : List KvStore → Tables → Tables
write rows s = record s { kvs = s.kvs ++ rows }

abbrev unsupported : {A : Type 0} → Action Tables A
unsupported s = (err (errorf "no such statement"), s)

-- The statements that the witnesses do not send fail.
abbrev tables : Db Tables
tables = record {
  first = λ key s. (find_first key s.kvs, s);
  find_in = λ _. unsupported;
  find_like = λ _. unsupported;
  save = λ kv s. (ok tt, write (kv ∷ []) s);
  save_all = λ rows s. (ok tt, write rows s);
  delete_like = λ _. unsupported;
  create_or_ignore = λ _. unsupported;
  create = λ _. unsupported;
  find_stack = λ s. (ok s.stack, s);
  delete_stack = λ s. (ok tt, record s { stack = [] });
  create_counter = λ s. (ok (s.counter + 1), record s { counter = s.counter + 1 });
  transaction = λ m. m;
}

abbrev empty_tables : Tables
empty_tables = record { kvs = []; stack = []; counter = 0 }

missing_cache_panics_example :
    (query_dependents 9 (some node_b) (some (sql_storage tables)) empty_tables
      ≡ (panic, empty_tables))
    × (query_dependencies 9 (some node_b) (some (sql_storage tables)) empty_tables
        ≡ (panic, empty_tables))
missing_cache_panics_example =
    missing_cache_panics tables 9 node_b empty_tables empty_tables empty_tables refl refl

abbrev caches : List (NodeCache (List ℕ))
caches = new_node_cache 1 (2 ∷ []) [] ∷ new_node_cache 2 [] (1 ∷ []) ∷ []

abbrev rows : List KvStore
rows =
    record { key = cache_key 1; value = 1 ∷ 1 ∷ 2 ∷ [] }
    ∷ record { key = cache_key 2; value = 2 ∷ 0 ∷ 1 ∷ [] }
    ∷ []

save_caches_lem_example :
    save_caches tables caches empty_tables ≡ (ok tt, record empty_tables { kvs = rows })
unfolding cache_rows marshal_cache
save_caches_lem_example =
    save_caches_lem tables write (λ row rows s few. refl)
      (λ s. ap (λ l. record s { kvs = l }) (append-nil s.kvs))
      (λ a b s. ap (λ l. record s { kvs = l }) (sym (append_assoc s.kvs a b))) caches rows
      empty_tables refl

-- `a*_?` becomes `a%\__`
glob :
    convert_glob_to_sql_pattern (b'a' ∷ b'*' ∷ b'_' ∷ b'?' ∷ [])
    ≡ b'a' ∷ b'%' ∷ b'\\' ∷ b'_' ∷ b'_' ∷ []
unfolding convert_glob_to_sql_pattern
glob = refl
