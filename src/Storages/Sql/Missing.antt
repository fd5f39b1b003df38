-- ===== src/Storages/Sql/Missing.antt =====
-- A missing cache in the SQL storage.
use minefield.Prelude.{ℕ, ◌≡◌, refl, some, [], record_not_found, ok, err, panic}
use minefield.Bitmap.{Bitmap}
use minefield.Graph.Node.{Node}
use minefield.Graph.Encode.{Format, NodeFormat}
use minefield.Graph.Query.{query_dependents, query_dependencies}
use minefield.Storages.{cache_key}
use minefield.Storages.Sql.{sql_storage, to_be_cached, get_cache}
use minefield.Storages.Sql.Rows.{is_not_found}
use minefield.Storages.Sql.Database.{Database as Db}

module _ {D B M : Type 0} ⦃format : Format B⦄ ⦃json : NodeFormat M⦄ ⦃bm : Bitmap B⦄ (db : Db D)
    (fuel : ℕ) (n : Node B M) (s s₁ s₂ : D) where
  -- Where nothing waits to be cached and the row of the cache of a node is missing, both cached
  -- queries of the node panic over the SQL storage: `GetCache` gives them a nil pointer.
  pub missing_cache_panics :
      db.find_stack s ≡ (ok [], s₁)
      → db.first (cache_key n.id) s₁ ≡ (err record_not_found, s₂)
      → (query_dependents fuel (some n) (some (sql_storage db)) s ≡ (panic, s₂))
        × (query_dependencies fuel (some n) (some (sql_storage db)) s ≡ (panic, s₂))
  unfolding query_dependents query_dependencies to_be_cached get_cache is_not_found
  missing_cache_panics no_stack missing = (rw (no_stack, missing) refl, rw (no_stack, missing) refl)
