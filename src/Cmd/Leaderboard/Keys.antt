-- ===== src/Cmd/Leaderboard/Keys.antt =====
-- cmd/leaderboard/keys/keys.go
use minefield.Prelude.{
  Bool, Option, none, some, List, if◌then◌else◌, ◌==◌, string_eq, ℤ, errorf, ok, Action, ◌>>=◌,
  throw, lift, context,
}
use minefield.Service.{ServiceNode}
use minefield.Cmd.Helpers.{Json, nodes_json}
use minefield.Cmd.Terminal.{Terminal, rows_up_to}
use minefield.Cmd.Query.{print_table, row_of, header}
use minefield.Cmd.Leaderboard.{LeaderboardServiceClient, Options, write_json}

module _ {W J F : Type 0} (json : Json J F) (terminal : Terminal W) where
  -- `renderTable`; the writer is there
  unfoldable pub render_table : Option (List ServiceNode) → Bool → ℤ → Action W (Unit {0})
  unfolding rows_up_to
  render_table none show_info max_output = throw (errorf "nodes data is invalid")
  render_table (some nodes) show_info max_output = do
    rows ← lift (rows_up_to (λ node. ok (row_of json terminal show_info node)) max_output 0 nodes)
    print_table json terminal (record { header = header json terminal show_info; rows = rows })

  -- `options.Run`
  unfoldable pub run : LeaderboardServiceClient W → Options → Action W (Unit {0})
  unfolding render_table
  run client o = do
    nodes ← context "failed to retrieve all keys: %w" client.all_keys
    (if o.output == "json"
        then write_json terminal "failed to format nodes as JSON: %w" (nodes_json json nodes)
        else if o.output == "table"
        then context "failed to render table: %w" (render_table nodes o.show_info o.max_output)
        else throw (errorf "invalid output format specified: %s"))
