-- ===== src/Cmd/Query/Custom.antt =====
-- cmd/query/custom/custom.go
use minefield.Prelude.{
  Bool, not, List, if◌then◌else◌, ◌==◌, string_eq, text_eq, Text, ℤ, errorf, ok, Action, ◌>>=◌,
  ◌>>◌, throw, lift, guard, report,
}
use minefield.Service.{ServiceNode}
use minefield.Cmd.Terminal.{Terminal, rows_up_to}
use minefield.Cmd.Helpers.{Json}
use minefield.Cmd.Query.{
  QueryServiceClient, Options, items, is_empty, join_args, print_table, row_of, header, print_json,
}

module _ {W J F : Type 0} (json : Json J F) (terminal : Terminal W) where
  unfoldable pub format_table : List ServiceNode → ℤ → Bool → Action W (Unit {0})
  unfolding rows_up_to
  format_table nodes max_output show_info = do
    rows ← lift (rows_up_to (λ node. ok (row_of json terminal show_info node)) max_output 0 nodes)
    print_table json terminal (record { header = header json terminal show_info; rows = rows })

  -- `options.Run`
  unfoldable pub run :
      (Text → Text) → QueryServiceClient W → Options → List Text → Action W (Unit {0})
  unfolding join_args format_table
  run trim_space client o args = do
    let script = join_args args
    guard (not (is_empty (trim_space script))) (errorf "script cannot be empty")
    nodes ← report "query failed: %v" (client.query script)
    guard (not (is_empty (items nodes))) (errorf "no nodes found for script: %s")
    (if o.output == "json"
        then print_json json terminal "failed to format nodes as JSON: %w" nodes
        else if o.output == "table"
        then format_table (items nodes) o.max_output o.show_info
        else throw (errorf "unknown output format: %s"))
