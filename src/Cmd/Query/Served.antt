-- ===== src/Cmd/Query/Served.antt =====
-- The command get-metadata against the service.
use minefield.Prelude.{
  ◌≡◌, refl, subst, String, Bool, false, Option, none, some, [], ◌∷◌, ◌==◌, string_eq, Outcome, ok,
  err, panic, out_of_fuel, Action, ap, ◌∙◌, text_of, text_eq, report_state, sym, errorf,
}
use minefield.Utils.{uint32_to_str}
use minefield.Bitmap.{Bitmap}
use minefield.Graph.Storage.{Bytes}
use minefield.Graph.Mock.{mock_storage}
use minefield.Graph.Mock.State.{MockStorage, no_faults}
use minefield.Graph.Build.Invariant.{IsWellFormed}
use minefield.Service.{ServiceNode, add_node, get_node_by_name}
use minefield.Service.Names.{get_node_by_name-add_node}
use minefield.Cmd.Helpers.{Json, format_node_json}
use minefield.Cmd.Terminal.{Terminal}
use minefield.Cmd.Query.{GraphServiceClient}
use minefield.Cmd.Query.GetMetadata.{fetch_node, format_and_display_output, run}

-- The service beside the rest of the world: the node of a response is there.
abbrev pub respond_beside : {S T A : Type 0} → Outcome A × S → T → Outcome (Option A) × (S × T)
respond_beside (ok a, s) t = (ok (some a), (s, t))
respond_beside (err e, s) t = (err e, (s, t))
respond_beside (panic, s) t = (panic, (s, t))
respond_beside (out_of_fuel, s) t = (out_of_fuel, (s, t))

-- The metadata is read as JSON where there is any.
abbrev pub ReadsAs : {J : Type 0} → (Bytes → Outcome J) → Bytes → Option J → Type 0
ReadsAs read [] none = Unit
ReadsAs read [] (some j) = ⊥
ReadsAs read (b ∷ bytes) none = ⊥
ReadsAs read (b ∷ bytes) (some j) = read (b ∷ bytes) ≡ ok j

module _ {T B M J F : Type 0} ⦃bm : Bitmap B⦄ (matches : String → String → Outcome Bool)
    (marshal : M → Outcome Bytes) (unpack : Bytes → M) (json : Json J F)
    (terminal : Terminal (MockStorage B M × T))
    (write_file : String → Bytes → Action (MockStorage B M × T) (Unit {0}))
    (client : GraphServiceClient (MockStorage B M × T))
    (serves : (name : String) (s : MockStorage B M) (t : T)
      → client.get_node_by_name name (s, t)
        ≡ respond_beside (get_node_by_name (mock_storage matches) marshal name s) t) where
  abbrev run_with :
      String → String → String → MockStorage B M × T → Outcome (Unit {0}) × (MockStorage B M × T)
  run_with format file name =
      run json terminal write_file client (record { output_file = file; output = format })
        (name ∷ [])

  abbrev display :
      String
      → String
      → ServiceNode
      → MockStorage B M × T
      → Outcome (Unit {0}) × (MockStorage B M × T)
  display format file node =
      format_and_display_output json terminal write_file
        (record { output_file = file; output = format }) node

  run-displays :
      (request node : ServiceNode) (s s' : MockStorage B M) (t : T) (format file : String)
      → IsWellFormed s
      → s.faults ≡ no_faults
      → (request.name == "") ≡ false
      → add_node (mock_storage matches) marshal unpack request s ≡ (ok node, s')
      → run_with format file request.name (s', t) ≡ display format file node (s', t)
  unfolding run fetch_node
  run-displays request node s s' t format file w quiet named made =
      let again = get_node_by_name-add_node matches marshal unpack request s w quiet in
      let found =
        subst
          (λ (r : Outcome ServiceNode × MockStorage B M).
            get_node_by_name (mock_storage matches) marshal request.name r.1 ≡ r)
          made again in
      rw (named, serves, found) refl

  read_output :
      (node : ServiceNode) (stored : Bytes)
      → stored ≡ node.metadata
      → (metadata : Option J) {text : Bytes} → ReadsAs json.unmarshal_metadata stored metadata
      → json.marshal_indent (
          record {
            name = node.name;
            type = node.type;
            id = uint32_to_str node.id;
            metadata = metadata;
          }
          ∷ [])
        ≡ ok text
      → format_node_json json.unmarshal_metadata json.marshal_indent (some (node ∷ [])) ≡ ok text
  unfolding format_node_json
  read_output node [] e none reads encodes = rw (sym e, encodes) refl
  read_output node [] e (some j) reads encodes = elim reads [ ]
  read_output node (b ∷ bytes) e none reads encodes = elim reads [ ]
  read_output node (b ∷ bytes) e (some j) reads encodes = rw (sym e, reads, encodes) refl

  one_node_json :
      (node : ServiceNode) (metadata : Option J) (text : Bytes)
      → ReadsAs json.unmarshal_metadata node.metadata metadata
      → json.marshal_indent (
          record {
            name = node.name;
            type = node.type;
            id = uint32_to_str node.id;
            metadata = metadata;
          }
          ∷ [])
        ≡ ok text
      → format_node_json json.unmarshal_metadata json.marshal_indent (some (node ∷ [])) ≡ ok text
  one_node_json node metadata text reads encodes =
      read_output node node.metadata refl metadata reads encodes

  -- Where the client reaches the service on a well-formed storage in memory that injects no error,
  -- the metadata of a node reads as JSON, if there is any, and its name, type, id and metadata are
  -- encoded as a text, the command get-metadata of a name that is not empty and was just added
  -- prints that text in the format json, or writes it to the file that is given, shows the table of
  -- the name, the type and the id in the format table, and fails in the format of any other name.
  pub get_metadata-add_node :
      (request node : ServiceNode) (s s' : MockStorage B M) (t : T) (file other : String)
      (metadata : Option J) (text : Bytes)
      → IsWellFormed s
      → s.faults ≡ no_faults
      → (request.name == "") ≡ false
      → (file == "") ≡ false
      → (other == "json") ≡ false
      → (other == "table") ≡ false
      → add_node (mock_storage matches) marshal unpack request s ≡ (ok node, s')
      → ReadsAs json.unmarshal_metadata node.metadata metadata
      → json.marshal_indent (
          record {
            name = node.name;
            type = node.type;
            id = uint32_to_str node.id;
            metadata = metadata;
          }
          ∷ [])
        ≡ ok text
      → (run_with "json" "" request.name (s', t) ≡ (ok tt, terminal.println text (s', t)))
        × ((run_with "json" file request.name (s', t)).1 ≡ (write_file file text (s', t)).1)
        × (run_with "table" file request.name (s', t) ≡ (
          ok tt,
          terminal.show
              (terminal.render (record {
                header = text_of "Name" ∷ text_of "Type" ∷ text_of "ID" ∷ [];
                rows = (text_of node.name ∷ text_of node.type ∷ uint32_to_str node.id ∷ []) ∷ [];
              }))
              (s', t),
        ))
        × (run_with other file request.name (s', t)
            ≡ (err (errorf "unknown output format: %s"), (s', t)))
  unfolding format_and_display_output
  get_metadata-add_node request node s s' t file other metadata text w quiet named unnamed not_json
        not_table made reads encodes =
      let shown =
        λ (format out : String). run-displays request node s s' t format out w quiet named made in
      let coded = one_node_json node metadata text reads encodes in
      (
        shown "json" "" ∙ rw coded refl,
        ap (λ r. r.1) (shown "json" file)
            ∙ rw (unnamed, coded) (report_state _ (write_file file text) (s', t)),
        shown "table" file,
        shown other file ∙ rw (not_json, not_table) refl,
      )
