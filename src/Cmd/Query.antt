-- ===== src/Cmd/Query.antt =====
-- cmd/query: what the commands custom, globsearch and get-metadata share. Their clients are parameters, and so
-- are `strings.TrimSpace` and `os.WriteFile`; addresses and the construction of clients are left out.
pub mod Custom
pub mod Globsearch
pub mod GetMetadata
pub mod Shown
pub mod Served
use minefield.Prelude.{
  ℕ, String, Bool, true, false, not, ◌&&◌, Option, none, some, List, [], ◌∷◌, ◌++◌, if◌then◌else◌,
  ◌==◌, string_eq, text_eq, Text, text_of, ℤ, errorf, Outcome, ok, Action, ◌>>=◌, ◌>>◌, pure, throw,
  lift, guard, modify, context, report, require,
}
use minefield.Graph.Storage.{Bytes}
use minefield.Utils.{uint32_to_str}
use minefield.Service.{ServiceNode}
use minefield.Cmd.Terminal.{Terminal, Table, rows_up_to}
use minefield.Cmd.Helpers.{Json, nodes_json, additional_info}

-- `QueryServiceClient`; the nodes of a response may be nil.
pub record QueryServiceClient (W : Type 0) : Type 0 where
  pub query : Text → Action W (Option (List ServiceNode))

-- `GraphServiceClient`: the calls that the commands make
pub record GraphServiceClient (W : Type 0) : Type 0 where
  pub get_node_by_name : String → Action W (Option ServiceNode)
  pub get_nodes_by_glob : Text → Action W (Option (List ServiceNode))

abbrev pub items : {A : Type 0} → Option (List A) → List A
items none = []
items (some l) = l

abbrev pub is_empty : {A : Type 0} → List A → Bool
is_empty [] = true
is_empty (_ ∷ _) = false

-- `strings.Join(args, " ")`
unfoldable pub join_args : List Text → Text
join_args [] = []
join_args (arg ∷ []) = arg
join_args (arg ∷ next ∷ args) = arg ++ b' ' ∷ join_args (next ∷ args)

abbrev pub columns : List Text
columns = text_of "Name" ∷ text_of "Type" ∷ text_of "ID" ∷ []

abbrev pub cells : ServiceNode → List Text
cells node = text_of node.name ∷ text_of node.type ∷ uint32_to_str node.id ∷ []

-- `options`, less the address and the client
pub record Options : Type 0 where
  pub max_output : ℤ
  pub show_info : Bool
  pub output : String

module _ {W J F : Type 0} (json : Json J F) (terminal : Terminal W) where
  abbrev pub print_table : Table → Action W (Unit {0})
  print_table table = modify (terminal.show (terminal.render table))

  abbrev pub row_of : Bool → ServiceNode → List Text
  row_of show_info node = cells node ++ (if show_info then additional_info json node ∷ [] else [])

  abbrev pub header : Bool → List Text
  header show_info = columns ++ (if show_info then text_of "Info" ∷ [] else [])

  -- `cmd.Println(string(jsonOutput))`
  abbrev pub print_json : String → Option (List ServiceNode) → Action W (Unit {0})
  print_json failed nodes = do
    json_output ← context failed (lift (nodes_json json nodes))
    modify (terminal.println json_output)
