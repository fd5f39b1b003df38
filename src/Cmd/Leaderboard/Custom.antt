-- ===== src/Cmd/Leaderboard/Custom.antt =====
-- cmd/leaderboard/custom/custom.go
use minefield.Prelude.{
  ℕ, Bool, Option, none, some, List, [], ◌∷◌, ◌++◌, length, if◌then◌else◌, ◌==◌, string_eq, Text,
  text_of, ℤ, errorf, Outcome, ok, panic, Action, ◌>>=◌, throw, lift, modify, report, context,
}
use minefield.Utils.{uint32_to_str}
use minefield.Cmd.Helpers.{Json, QueryMessage, queries_json, additional_info}
use minefield.Cmd.Terminal.{Terminal, rows_up_to}
use minefield.Cmd.Query.{join_args, columns, cells, print_table}
use minefield.Cmd.Leaderboard.{LeaderboardServiceClient, Options, write_json}

-- `fmt.Sprint` of a slice of numbers
unfoldable sprint_items : List ℕ → Text
sprint_items [] = []
sprint_items (n ∷ []) = uint32_to_str n
sprint_items (n ∷ m ∷ l) = uint32_to_str n ++ b' ' ∷ sprint_items (m ∷ l)

module _ {W J F : Type 0} (json : Json J F) (terminal : Terminal W) where
  abbrev pub info_header : Bool → List Text
  info_header show_info =
      columns ++ text_of "Output" ∷ (if show_info then text_of "Info" ∷ [] else [])

  -- A query with no node is a nil pointer that is read.
  unfoldable pub ranking_row : Bool → Bool → QueryMessage → Outcome (List Text)
  unfolding sprint_items
  ranking_row all show_info q = elim q.node [
    | none ↦ panic
    | some node ↦
        let output =
          if all
          then b'[' ∷ sprint_items q.output ++ b']' ∷ []
          else uint32_to_str (length q.output) in
        ok (cells node ++ output ∷ (if show_info then additional_info json node ∷ [] else []))
  ]

  -- `renderTable`; the writer is there
  unfoldable pub render_table : Option (List QueryMessage) → Bool → ℤ → Bool → Action W (Unit {0})
  unfolding rows_up_to ranking_row
  render_table none show_info max_output all = throw (errorf "queries data is invalid")
  render_table (some []) show_info max_output all =
      modify (terminal.printf "No data available\n" [])
  render_table (some (q ∷ queries)) show_info max_output all = do
    rows ← lift (rows_up_to (ranking_row all show_info) max_output 0 (q ∷ queries))
    print_table json terminal (record { header = info_header show_info; rows = rows })

  -- `options.Run`
  unfoldable pub run : LeaderboardServiceClient W → Options → List Text → Action W (Unit {0})
  unfolding join_args render_table
  run client o args = do
    queries ← report "query failed: %v" (client.custom_leaderboard (join_args args))
    (if o.output == "json"
        then write_json terminal "failed to format queries as JSON: %w" (queries_json json queries)
        else if o.output == "table"
        then context "failed to render table: %w"
            (render_table queries o.show_info o.max_output o.all)
        else throw (errorf "invalid output format specified: %s"))
