-- ===== src/Cmd/Query/Globsearch.antt =====
-- cmd/query/globsearch/globsearch.go
use minefield.Prelude.{
  not, List, if◌then◌else◌, ◌==◌, string_eq, text_eq, Text, ℤ, errorf, ok, Action, ◌>>=◌, ◌>>◌,
  throw, lift, guard, context,
}
use minefield.Service.{ServiceNode}
use minefield.Cmd.Terminal.{Terminal, rows_up_to}
use minefield.Cmd.Helpers.{Json, argument}
use minefield.Cmd.Query.{
  GraphServiceClient, Options, items, is_empty, columns, cells, print_table, print_json,
}

module _ {W J F : Type 0} (json : Json J F) (terminal : Terminal W) where
  unfoldable pub format_table : List ServiceNode → ℤ → Action W (Unit {0})
  unfolding rows_up_to
  format_table nodes max_output = do
    rows ← lift (rows_up_to (λ node. ok (cells node)) max_output 0 nodes)
    print_table json terminal (record { header = columns; rows = rows })

  -- `options.Run`
  unfoldable pub run : GraphServiceClient W → Options → List Text → Action W (Unit {0})
  unfolding format_table
  run client o args = do
    glob ← lift (argument args)
    guard (not (is_empty glob)) (errorf "pattern is required")
    nodes ← context "query failed: %w" (client.get_nodes_by_glob glob)
    guard (not (is_empty (items nodes))) (errorf "no nodes found matching pattern: %s")
    (if o.output == "json"
        then print_json json terminal "failed to format nodes as JSON: %w" nodes
        else if o.output == "table"
        then format_table (items nodes) o.max_output
        else throw (errorf "unknown output format: %s"))
