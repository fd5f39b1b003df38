-- ===== src/Cmd/Llm/Answer.antt =====
-- cmd/llm/llm.go: what is done with the script that the model writes
use minefield.Prelude.{
  String, Bool, Option, none, some, List, [], ◌∷◌, ◌++◌, length, if◌then◌else◌, ◌==◌, string_eq,
  Text, text_of, trim_prefix, ℤ, Error, Outcome, ok, panic, Action, ◌>>=◌, ◌>>◌, pure, lift, modify,
  attempt,
}
use minefield.Utils.{uint32_to_str}
use minefield.Service.{ServiceNode}
use minefield.Graph.Storage.{Bytes}
use minefield.Cmd.Loader.{starts_with}
use minefield.Cmd.Helpers.{Json, QueryMessage, nodes_json, queries_json, additional_info}
use minefield.Cmd.Terminal.{Terminal, rows_up_to}
use minefield.Cmd.Query.{
  QueryServiceClient, GraphServiceClient, items, is_empty, columns, cells, row_of, header,
}
use minefield.Cmd.Leaderboard.{LeaderboardServiceClient}
use minefield.Cmd.Leaderboard.Custom.{info_header}

-- `options`, less the addresses and the clients
pub record Options : Type 0 where
  pub max_output : ℤ
  pub show_info : Bool
  pub output : String

pub record Clients (W : Type 0) : Type 0 where
  pub query : QueryServiceClient W
  pub leaderboard : LeaderboardServiceClient W
  pub graph : GraphServiceClient W
  -- `%v` of an error
  pub error_text : Error → Text

module _ {W J F : Type 0} (json : Json J F) (terminal : Terminal W) (clients : Clients W)
    (o : Options) where
  -- A query with no node is a nil pointer that is read.
  unfoldable pub leaderboard_row : QueryMessage → Outcome (List Text)
  leaderboard_row query = elim query.node [
    | none ↦ panic
    | some node ↦ ok (
        cells node
        ++ uint32_to_str (length query.output)
          ∷ (if o.show_info then additional_info json node ∷ [] else []))
  ]

  -- The three tables are rendered into a buffer.
  abbrev buffered : List Text → Outcome (List (List Text)) → Action W Text
  buffered headers rows = do
    rows' ← lift rows
    pure (terminal.render (record { header = headers; rows = rows' }))

  unfoldable pub format_table : List ServiceNode → Action W Text
  unfolding rows_up_to
  format_table nodes =
      buffered (header json terminal o.show_info)
        (rows_up_to (λ node. ok (row_of json terminal o.show_info node)) o.max_output 0 nodes)

  unfoldable pub format_leaderboard_table : List QueryMessage → Action W Text
  unfolding rows_up_to leaderboard_row
  format_leaderboard_table queries =
      buffered (info_header json terminal o.show_info)
        (rows_up_to leaderboard_row o.max_output 0 queries)

  unfoldable pub format_table_glob_search : List ServiceNode → Action W Text
  unfolding rows_up_to
  format_table_glob_search nodes =
      buffered columns (rows_up_to (λ node. ok (cells node)) o.max_output 0 nodes)

  -- The results in the format asked for, or nothing in a format that is not known.
  abbrev formatted : Outcome Bytes → Action W Text → Action W Text
  formatted json_output table =
      if o.output == "json"
      then (λ s.
          attempt (json_output, s) pure
            (λ e. pure (text_of "Failed to format JSON: " ++ clients.error_text e)))
      else if o.output == "table"
      then table
      else pure []

  abbrev pub results :
      {A : Type 0}
      → String
      → Action W (Option (List A))
      → (Option (List A) → Outcome Bytes)
      → (List A → Action W Text)
      → Action W Text
  results failed request to_json to_table s =
      attempt (request s)
        (λ found.
          if is_empty (items found)
          then pure (text_of "No results found")
          else formatted (to_json found) (to_table (items found)))
        (λ e. pure (text_of failed ++ clients.error_text e))

  abbrev announce : String → Text → W → W
  announce format script = terminal.printf format (script ∷ [])

  -- the part behind the prefix of a script that is trimmed
  unfoldable pub answer_trimmed : Text → Action W Text
  unfolding format_table format_leaderboard_table format_table_glob_search
  answer_trimmed script =
      if starts_with script (text_of "leaderboard:")
      then (do
        let clean_script = trim_prefix script (text_of "leaderboard:")
        modify (
            announce
              "\nAssistant: I'll help you with that. I'm going to use this leaderboard query:\n\"%s\"\n"
              clean_script)
        results "Leaderboard query failed: " (clients.leaderboard.custom_leaderboard clean_script)
            (queries_json json) format_leaderboard_table)
      else if starts_with script (text_of "query:")
      then (do
        let clean_script = trim_prefix script (text_of "query:")
        modify (
            announce "\nAssistant: I'll help you with that. I'm going to use this query:\n\"%s\"\n"
              clean_script)
        results "Query failed: " (clients.query.query clean_script) (nodes_json json) format_table)
      else if starts_with script (text_of "globsearch:")
      then (do
        let glob = trim_prefix script (text_of "globsearch:")
        modify (
            announce
              "\nAssistant: I'll help you with that. I'm going to use this pattern:\n\"%s\"\n" glob)
        results "Query failed: " (clients.graph.get_nodes_by_glob glob) (nodes_json json)
            format_table_glob_search)
      else pure (text_of "Sorry the query failed, please try again.")

  -- the result of a script, empty for one that is blank
  unfoldable pub answer : (Text → Text) → Text → Action W Text
  unfolding answer_trimmed
  answer trim_space script =
      if is_empty (trim_space script) then pure [] else answer_trimmed (trim_space script)
