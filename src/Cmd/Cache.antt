-- ===== src/Cmd/Cache.antt =====
-- cmd/cache/cache.go: the command cache, over its client
use minefield.Prelude.{Bool, [], if◌then◌else◌, Action, ◌>>◌, modify, context}
use minefield.Cmd.Terminal.{Terminal}

-- `CacheServiceClient`
pub record CacheServiceClient (W : Type 0) : Type 0 where
  pub cache : Action W (Unit {0})
  pub clear : Action W (Unit {0})

module _ {W : Type 0} (terminal : Terminal W) (client : CacheServiceClient W) where
  unfoldable clear_cache : Action W (Unit {0})
  clear_cache = do
    context "failed to clear cache: %w" client.clear
    modify (terminal.printf "Cache cleared successfully\n" [])

  unfoldable populate_cache : Action W (Unit {0})
  populate_cache = do
    context "failed to populate cache: %w" client.cache
    modify (terminal.printf "Graph fully cached\n" [])

  -- `options.Run` with the flag `clear`
  unfoldable pub run : Bool → Action W (Unit {0})
  unfolding clear_cache populate_cache
  run clear = if clear then clear_cache else populate_cache
