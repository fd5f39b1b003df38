-- ===== src/Cmd/Query/GetMetadata.antt =====
-- cmd/query/getMetadata/getMetadata.go; `write_file` is `os.WriteFile`
use minefield.Prelude.{
  String, not, some, List, [], ◌∷◌, if◌then◌else◌, ◌==◌, string_eq, text_eq, errorf, Action, ◌>>=◌,
  ◌>>◌, throw, lift, guard, modify, report, require,
}
use minefield.Graph.Storage.{Bytes}
use minefield.Service.{ServiceNode}
use minefield.Cmd.Terminal.{Terminal}
use minefield.Cmd.Helpers.{Json, nodes_json, argument}
use minefield.Cmd.Query.{GraphServiceClient, columns, cells, print_table}

-- `options`, less the address and the client
pub record Options : Type 0 where
  pub output_file : String
  pub output : String

module _ {W : Type 0} where
  unfoldable pub fetch_node : GraphServiceClient W → String → Action W ServiceNode
  fetch_node client node_name = do
    guard (not (node_name == "")) (errorf "node name is required")
    node ← report "query failed: %v" (client.get_node_by_name node_name)
    require node (errorf "node not found: %s")

module _ {W J F : Type 0} (json : Json J F) (terminal : Terminal W)
    (write_file : String → Bytes → Action W (Unit {0})) where
  unfoldable pub format_table : ServiceNode → Action W (Unit {0})
  format_table node =
      print_table json terminal (record { header = columns; rows = cells node ∷ [] })

  unfoldable pub handle_json_output : Options → ServiceNode → Action W (Unit {0})
  handle_json_output o node = do
    json_output ←
        report "failed to format node as JSON: %v" (lift (nodes_json json (some (node ∷ []))))
    (if not (o.output_file == "")
        then report "failed to write output file: %v" (write_file o.output_file json_output)
        else modify (terminal.println json_output))

  unfoldable pub format_and_display_output : Options → ServiceNode → Action W (Unit {0})
  unfolding handle_json_output format_table
  format_and_display_output o node =
      if o.output == "json"
      then handle_json_output o node
      else if o.output == "table"
      then format_table node
      else throw (errorf "unknown output format: %s")

  -- `options.Run`
  unfoldable pub run : GraphServiceClient W → Options → List String → Action W (Unit {0})
  unfolding fetch_node format_and_display_output
  run client o args = do
    name ← lift (argument args)
    node ← fetch_node client name
    format_and_display_output o node
