-- ===== src/Cmd/Leaderboard.antt =====
-- cmd/leaderboard: what the commands keys and custom share. Their client is a parameter; addresses
-- and the construction of a client are left out.
pub mod Keys
pub mod Custom
use minefield.Prelude.{
  String, Bool, Option, List, ◌++◌, ℤ, Text, Action, context, lift, Outcome, ◌>>=◌,
}
use minefield.Graph.Storage.{Bytes}
use minefield.Service.{ServiceNode}
use minefield.Cmd.Helpers.{QueryMessage}
use minefield.Cmd.Terminal.{Terminal}

-- `LeaderboardServiceClient`; the slices of a response may be nil.
pub record LeaderboardServiceClient (W : Type 0) : Type 0 where
  pub all_keys : Action W (Option (List ServiceNode))
  pub custom_leaderboard : Text → Action W (Option (List QueryMessage))

-- `options`, less the address and the client; keys has no `all`
pub record Options : Type 0 where
  pub all : Bool
  pub max_output : ℤ
  pub show_info : Bool
  pub output : String

module _ {W : Type 0} (terminal : Terminal W) where
  -- the format of JSON, written
  abbrev pub write_json : String → Outcome Bytes → Action W (Unit {0})
  write_json failed json_output = do
    bytes ← context failed (lift json_output)
    context "failed to write JSON output: %w" (terminal.write bytes)
