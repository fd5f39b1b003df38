-- ===== src/Cmd/Tests/Screen.antt =====
-- A terminal that keeps the texts written, in front of those before, and witnesses for the commands.
use minefield.Prelude.{
  ℕ, ◌≡◌, refl, ◌≢◌, ◌⊎◌, arith, String, true, false, none, some, List, [], ◌∷◌, ◌++◌, lookup,
  nat_eq, string_eq, text_eq, Text, text_of, pos, Option, Outcome, ok, err, Error, errorf, ◌==◌,
  Action,
}
use minefield.Graph.Storage.{Bytes}
use minefield.Service.{ServiceNode, node_to_service_node, add_node, get_node_by_name}
use minefield.Bitmap.Listed.{listed}
use minefield.Graph.Mock.{mock_storage, name_to_id, generate_id, save_node, save_cache}
use minefield.Graph.Mock.State.{new_mock_storage}
use minefield.Graph.Build.{add_node as add_graph_node, create_node}
use minefield.Graph.Build.Runs.{Run-IsWellFormed, new}
use minefield.Graph.Tests.Data.{Meta, Store, all_match}
use minefield.Cmd.Terminal.{Terminal}
use minefield.Cmd.Helpers.{Json, NodeOutput}
use minefield.Cmd.Loader.Listing.{Tree, file, dir, end, entry, documents, count, Holds}
use minefield.Cmd.Ingest.{IngestServiceClient, run_osv, run_sbom, run_scorecard}
use minefield.Cmd.Ingest.Sent.{
  DeliversOsv, DeliversSbom, DeliversScorecard, ingest_commands-Deliver,
}
use minefield.Cmd.Ingest.Recorded.{
  Request, vulnerability_request, sbom_request, scorecard_request, Sends, Records,
}
use minefield.Cmd.Loader.{Files}
use minefield.Utils.{uint32_to_str}
use minefield.Cmd.Query.{columns, cells, row_of, header, GraphServiceClient}
use minefield.Cmd.Query.Custom
use minefield.Cmd.Query.Globsearch
use minefield.Cmd.Query.GetMetadata
use minefield.Cmd.Leaderboard.Keys
use minefield.Cmd.Query.Shown.{shows_first, tables_show_first}
use minefield.Cmd.Query.Served.{respond_beside, get_metadata-add_node}
use minefield.Cmd.Server.{Options, Host, persistent_pre_run, provide_storage}
use minefield.Cmd.Server.Validated.{accepted_lem}
use minefield.Cmd.Tests.Disk.{disk}

abbrev join_cells : List Text → Text
join_cells [] = []
join_cells (c ∷ cs) = c ++ b'|' ∷ join_cells cs

abbrev join_rows : List (List Text) → Text
join_rows [] = []
join_rows (r ∷ rs) = join_cells r ++ 10 ∷ join_rows rs

abbrev pub screen : Terminal (List Text)
screen = record {
  printf = λ format args w. join_cells args ∷ w;
  println = λ bytes w. bytes ∷ w;
  write = λ bytes w. (ok tt, bytes ∷ w);
  render = λ table. join_rows (table.header ∷ table.rows);
  show = λ text w. text ∷ w;
}

-- metadata is shown as it is
abbrev output_text : List (NodeOutput Bytes) → Bytes
output_text [] = []
output_text (o ∷ os) = text_of o.name ++ b':' ∷ o.id ++ b' ' ∷ output_text os

abbrev pub json : Json Bytes Text
json = record {
  unmarshal_metadata = λ bytes. ok bytes;
  marshal_indent = λ outputs. ok (output_text outputs);
  format_score = λ score. score;
  unmarshal_scorecard = λ bytes. none;
  unmarshal_vulnerability = λ bytes. none;
}

-- A directory of two JSON files and another file; the state is what the server has recorded.
abbrev plain_files : Files (List Request) Text Bytes Bytes
plain_files = record {
  stat = λ p s. (ok (p == text_of "/plain"), s);
  read_dir = λ p s. (ok (text_of "b.json" ∷ text_of "c.json" ∷ text_of "notes" ∷ []), s);
  read_file = λ p s. (ok (b'{' ∷ []), s);
  open_reader = λ p s. (ok [], s);
  open_file = λ z s. (ok z, s);
  mkdir_temp = λ s. (ok (text_of "/tmp"), s);
  mkdir_all = λ p s. (ok tt, s);
  create = λ p s. (ok p, s);
  copy = λ h r s. (ok tt, s);
  join = disk.join;
  clean = disk.clean;
  is_abs = disk.is_abs;
  abs = disk.abs;
  dir = disk.dir;
  ext = disk.ext;
}

abbrev plain : Tree
plain = dir (
    entry (text_of "b.json") (file (some (b'{' ∷ []))) (
      entry (text_of "c.json") (file (some (b'{' ∷ [])))
        (entry (text_of "notes") (file (some (b'{' ∷ []))) end)))

abbrev quiet : Terminal (List Request)
quiet = record {
  printf = λ format args w. w;
  println = λ bytes w. w;
  write = λ bytes w. (ok tt, w);
  render = screen.render;
  show = λ text w. w;
}

-- all requests but the first are refused
abbrev refuses_second : List Request → Request → Option Error
refuses_second [] request = none
refuses_second (_ ∷ _) request = some (errorf "too many requests")

abbrev take_request : (Bytes → Request) → Bytes → Action (List Request) (Unit {0})
take_request kind content [] = (ok tt, kind content ∷ [])
take_request kind content (r ∷ log) =
    (err (errorf "too many requests"), r ∷ log ++ kind content ∷ [])

abbrev recording : IngestServiceClient (List Request)
recording = record {
  ingest_sbom = take_request sbom_request;
  ingest_vulnerability = take_request vulnerability_request;
  ingest_scorecard = take_request scorecard_request;
}

take_request-Sends :
    (kind : Bytes → Request) → Sends (λ log. log) refuses_second kind (take_request kind)
take_request-Sends kind content [] = (λ e h. ground (arith, h), λ h. refl, refl)
take_request-Sends kind content (r ∷ log) = (λ e h. ground (arith, h), λ h. ground (arith, h), refl)

recording-Records : Records quiet recording (λ log. log) refuses_second
recording-Records = record {
  prints = λ format args w. refl;
  vulnerabilities = take_request-Sends vulnerability_request;
  sboms = take_request-Sends sbom_request;
  scorecards = take_request-Sends scorecard_request;
}

ingest_commands-Deliver_example :
    DeliversOsv plain_files quiet recording
      (λ log. log)
      refuses_second
      recording-Records
      []
      (documents plain_files (text_of "/plain") plain)
      (run_osv plain_files quiet recording 5 (text_of "/plain" ∷ []) [])
    × DeliversSbom plain_files quiet recording
        (λ log. log)
        refuses_second
        recording-Records
        []
        (documents plain_files (text_of "/plain") plain)
        (run_sbom plain_files quiet recording 5 (text_of "/plain" ∷ []) [])
    × DeliversScorecard plain_files quiet recording
        (λ log. log)
        refuses_second
        recording-Records
        []
        (documents plain_files (text_of "/plain") plain)
        (run_scorecard plain_files quiet recording 5 (text_of "/plain" ∷ []) [])
unfolding text_of count Holds
ingest_commands-Deliver_example =
    ingest_commands-Deliver plain_files quiet recording (λ log. log) refuses_second
      recording-Records [] plain 5 (text_of "/plain") (omega arith)
      (refl, refl, ((refl, refl, refl), ((refl, refl, refl), ((refl, refl, refl), tt))))

abbrev a_node : ServiceNode
a_node = record {
  id = 1;
  name = "a";
  type = "library";
  metadata = [];
  dependencies = [];
  dependents = [];
}

abbrev b_node : ServiceNode
b_node = record a_node { id = 2; name = "b" }

tables_show_first_example :
    (Custom.format_table json screen (a_node ∷ b_node ∷ []) (pos 1) true []
      ≡ shows_first json screen
          (pos 1)
          (header json screen true)
          (row_of json screen true)
          (a_node ∷ b_node ∷ [])
          [])
    × (Globsearch.format_table json screen (a_node ∷ b_node ∷ []) (pos 1) []
        ≡ shows_first json screen (pos 1) columns cells (a_node ∷ b_node ∷ []) [])
    × (Keys.render_table json screen (some (a_node ∷ b_node ∷ [])) true (pos 1) []
        ≡ shows_first json screen
            (pos 1)
            (header json screen true)
            (row_of json screen true)
            (a_node ∷ b_node ∷ [])
            [])
tables_show_first_example = tables_show_first json screen (a_node ∷ b_node ∷ []) (pos 1) true []

abbrev World : Type 0
World = Store × List Text

abbrev beside : Terminal World
beside = record {
  printf = λ format args w. (w.0, screen.printf format args w.1);
  println = λ bytes w. (w.0, screen.println bytes w.1);
  write = λ bytes w. (ok tt, (w.0, bytes ∷ w.1));
  render = screen.render;
  show = λ text w. (w.0, screen.show text w.1);
}

abbrev marshal : Meta → Outcome Bytes
marshal m = ok []

abbrev unpack : Bytes → Meta
unpack bytes = tt

abbrev reaching : GraphServiceClient World
reaching = record {
  get_node_by_name = λ name w.
      respond_beside (get_node_by_name {B = List ℕ} (mock_storage all_match) marshal name w.0) w.1;
  get_nodes_by_glob = λ glob w. (ok none, w);
}

abbrev write_file : String → Bytes → Action World (Unit {0})
write_file name bytes w = (ok tt, (w.0, bytes ∷ w.1))

abbrev get_a : String → String → World → Outcome (Unit {0}) × World
get_a format output_file =
    GetMetadata.run json beside write_file reaching
      (record { output_file = output_file; output = format }) ("a" ∷ [])

abbrev stored : Store
stored = (add_node (mock_storage all_match) marshal unpack a_node new_mock_storage).1

abbrev a_text : Text
a_text = text_of "a:" ++ uint32_to_str 1 ++ text_of " "

abbrev a_table : Text
a_table = join_rows (columns ∷ (text_of "a" ∷ text_of "library" ∷ uint32_to_str 1 ∷ []) ∷ [])

get_metadata-add_node_example :
    (get_a "json" "" (stored, []) ≡ (ok tt, (stored, a_text ∷ [])))
    × ((get_a "json" "out" (stored, [])).1 ≡ (stored, a_text ∷ []))
    × (get_a "table" "out" (stored, []) ≡ (ok tt, (stored, a_table ∷ [])))
    × (get_a "yaml" "out" (stored, []) ≡ (err (errorf "unknown output format: %s"), (stored, [])))
unfolding add_node add_graph_node create_node name_to_id lookup generate_id save_node save_cache
    node_to_service_node text_of
get_metadata-add_node_example =
    get_metadata-add_node all_match marshal unpack json beside write_file reaching
      (λ name s t. refl) a_node a_node new_mock_storage stored [] "out" "yaml" none a_text
      (Run-IsWellFormed all_match new) refl refl refl refl refl refl tt refl

abbrev still : Host (List Text) Text Text
still = record {
  new_redis_storage = λ addr w. (ok (text_of addr), w);
  new_sql_storage = λ path in_memory w. (ok (text_of path), w);
  new_persistent_db = λ path w. (ok [], w);
  create_collection = λ c w. (ok c, w);
  add_documents = λ c documents w. (ok tt, w);
  listen = λ server w. text_of server.addr ∷ w;
  await_stop = λ w. w;
  shutdown = λ server w. (ok tt, w);
  log = λ text w. text_of text ∷ w;
}

abbrev on_disk : Options
on_disk = record {
  concurrency = pos 10;
  addr = "";
  storage_type = "sqlite";
  storage_addr = "";
  storage_path = "m.db";
  use_in_memory = false;
  cors = [];
  use_openai_llm = false;
  vector_db_path = "./db";
}

accepted_lem_example :
    ((on_disk.storage_type ≡ "redis")
      × (on_disk.storage_addr ≢ "")
      × (provide_storage still on_disk [] ≡ still.new_redis_storage on_disk.storage_addr []))
    ⊎ ((on_disk.storage_type ≡ "sqlite")
        × ((on_disk.storage_path ≢ "") ⊎ (on_disk.use_in_memory ≡ true))
        × (provide_storage still on_disk []
            ≡ still.new_sql_storage on_disk.storage_path on_disk.use_in_memory []))
unfolding persistent_pre_run
accepted_lem_example = accepted_lem still on_disk [] refl
