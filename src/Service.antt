-- ===== src/Service.antt =====
-- api/v1/service.go: the handlers of the service over a storage. `marshal` is `json.Marshal` of the
-- metadata, and `unpack` stores the bytes of a request as metadata. Of a request and a response the
-- message is modelled.
pub mod Names
pub mod QueryHeap
pub mod Leaderboard
mod Tests
mod HeapTests
use minefield.Prelude.{
  ℕ, String, Bool, true, false, Option, none, some, List, [], ◌∷◌, map, Map, Outcome, ok, bind,
  errorf, Action, ◌>>=◌, ◌>>◌, pure, throw, lift, context,
}
use minefield.Bitmap.{Bitmap}
use minefield.Graph.Node.{Node, NodeCache}
use minefield.Graph.Storage.{Storage, Bytes}
use minefield.Graph.Build.{add_node as add_graph_node, set_dependency as set_graph_dependency}
use minefield.Graph.Caching.{cache as cache_graph}
use minefield.Graph.Parser.{Expression, parse_and_execute}
use minefield.Prelude.{Text}
use minefield.Ingest.Purl.{PackageUrl}
use minefield.Ingest.Sbom.{NodeList, sbom}
use minefield.Ingest.Scorecard.{ScorecardResult, scorecards}
use minefield.Ingest.Vuln.{Order, Event, Vulnerability}
use minefield.Ingest.Vuln.Add.{vulnerabilities}

pub record ServiceNode : Type 0 where
  pub id : ℕ
  pub name : String
  pub type : String
  pub metadata : Bytes
  pub dependencies : List ℕ
  pub dependents : List ℕ

module _ {B M : Type 0} ⦃bm : Bitmap B⦄ (marshal : M → Outcome Bytes) where
  unfoldable pub node_to_service_node : Node B M → Outcome ServiceNode
  node_to_service_node node = bind (marshal node.metadata) λ bytes. ok (record {
    id = node.id;
    name = node.name;
    type = node.type;
    metadata = bytes;
    dependencies = bm.to_array node.children;
    dependents = bm.to_array node.parents;
  })

  -- the loop over the nodes of a response
  unfoldable pub to_service_nodes : List (Node B M) → Outcome (List ServiceNode)
  unfolding node_to_service_node
  to_service_nodes [] = ok []
  to_service_nodes (node ∷ nodes) =
      bind (node_to_service_node node) λ n. bind (to_service_nodes nodes) λ ns. ok (n ∷ ns)

abbrev pub values : {B M : Type 0} → Map ℕ (Node B M) → List (Node B M)
values nodes = map (λ (_, n). n) nodes

abbrev pub pointers : {V : Type 0} → Map ℕ V → Map ℕ (Option V)
pointers m = map (λ (id, v). (id, some v)) m

module _ {S B M : Type 0} ⦃bm : Bitmap B⦄ (storage : Storage S B M)
    (marshal : M → Outcome Bytes) where
  abbrev pub respond : Node B M → Action S ServiceNode
  respond node =
      context "failed to convert node to service node: %w"
        (lift (node_to_service_node marshal node))

  abbrev pub respond_all : List (Node B M) → Action S (List ServiceNode)
  respond_all nodes =
      context "failed to convert node to service node: %w" (lift (to_service_nodes marshal nodes))

  unfoldable pub get_node : ℕ → Action S ServiceNode
  get_node id = do node ← context "failed to get node by id: %w" (storage.get_node id); respond node

  unfoldable pub get_node_by_name : String → Action S ServiceNode
  get_node_by_name name = do
    id ← context "failed to get node by name: %w" (storage.name_to_id name)
    node ← context "failed to get node by id: %w" (storage.get_node id)
    respond node

  unfoldable pub get_nodes_by_glob : String → Action S (List ServiceNode)
  get_nodes_by_glob text = do
    nodes ← context "failed to get nodes by glob: %w" (storage.get_nodes_by_glob text)
    respond_all nodes

  unfoldable pub add_node : (Bytes → M) → ServiceNode → Action S ServiceNode
  add_node unpack request = do
    result_node ←
        context "failed to add node: %w"
          (add_graph_node storage request.type (unpack request.metadata) request.name)
    respond result_node

  unfoldable pub set_dependency : ℕ → ℕ → Action S (Unit {0})
  set_dependency node_id dependency_id = do
    from_node ← storage.get_node node_id
    to_node ← storage.get_node dependency_id
    _ ← set_graph_dependency (some from_node) (some storage) (some to_node)
    pure tt

  unfoldable pub cache : (Text → List ℕ) → ℕ → Action S (Unit {0})
  cache sum256 fuel = context "failed to cache: %w" (cache_graph sum256 fuel storage)

  unfoldable pub clear : Action S (Unit {0})
  clear = context "failed to clear: %w" storage.remove_all_caches

  unfoldable pub all_keys : Action S (List ServiceNode)
  all_keys = do
    keys ← context "failed to get all keys: %w" storage.get_all_keys
    nodes ← context "failed to get nodes by keys: %w" (storage.get_nodes keys)
    respond_all (values nodes)

  -- `fuel` bounds the queries that walk the graph.
  unfoldable pub query : (String → Outcome Expression) → ℕ → String → Action S (List ServiceNode)
  query parse fuel script = do
    keys ← context "failed to get all keys: %w" storage.get_all_keys
    nodes ← context "failed to get nodes by keys: %w" (storage.get_nodes keys)
    caches ← context "failed to get caches by keys: %w" (storage.get_caches keys)
    cache_stack ← context "failed to get to be cached nodes: %w" storage.to_be_cached
    result ← context "failed to parse and execute script: %w" (
        parse_and_execute parse fuel script (some storage) "" (pointers nodes) (pointers caches)
          (elim cache_stack [ [] ↦ true | _ ∷ _ ↦ false ]))
    output_nodes ← context "failed to get nodes by ids: %w" (storage.get_nodes (bm.to_array result))
    respond_all (values output_nodes)

  unfoldable pub ingest_sbom : (Bytes → Outcome (Option (NodeList M))) → Bytes → Action S (Unit {0})
  ingest_sbom parse bytes = context "failed to ingest sbom: %w" (sbom storage parse bytes)

  unfoldable pub ingest_scorecard :
      (String → Outcome PackageUrl)
      → (Bytes → Outcome (List (ScorecardResult M)))
      → Bytes
      → Action S (Unit {0})
  ingest_scorecard from_string unmarshal bytes =
      context "failed to ingest scorecard: %w" (scorecards from_string storage unmarshal bytes)

  unfoldable pub ingest_vulnerability :
      {V : Type 0}
      → (String → Outcome PackageUrl)
      → (String → Option V)
      → (V → V → Order)
      → ((ℕ → ℕ → Bool) → List Event → List Event)
      → (Vulnerability → Option M)
      → (Bytes → Outcome Vulnerability)
      → Bytes
      → Action S (Unit {0})
  ingest_vulnerability from_string new_version compare_semver sort_slice to_metadata unmarshal
        bytes =
      context "failed to ingest vulnerability: %w" (
        vulnerabilities from_string new_version compare_semver sort_slice to_metadata storage
          unmarshal bytes)
