-- ===== src/Ingest/Sbom.antt =====
-- pkg/tools/ingest/sbom.go: `SBOM`. The package protobom, which reads the document, is the parameter
-- `parse`; a document may have no node list.
pub mod Kept
pub mod Filled
pub mod Queried
pub mod Edged
pub mod Exact
use minefield.Prelude.{
  ℕ, String, ◌+++◌, Bool, true, false, Option, none, some, List, [], ◌∷◌, ◌==◌, nat_eq, string_eq,
  if◌then◌else◌, Map, lookup, insert, Error, node_already_exists, self_dependency, redis_nil,
  record_not_found, errorf, wrap, Outcome, ok, err, panic, out_of_fuel, Action, ◌>>=◌, ◌>>◌, pure,
  throw, lift, context, attempt,
}
use minefield.Bitmap.{Bitmap}
use minefield.Graph.Node.{Node}
use minefield.Graph.Storage.{Storage, Bytes}
use minefield.Graph.Build.{add_node, set_dependency}

-- What the code reads of a node of protobom; `metadata` is the whole node.
pub record SbomNode (M : Type 0) : Type 0 where
  pub metadata : M
  pub id : String
  pub purl : String
  pub name : String
  pub version : String

pub record SbomEdge : Type 0 where
  pub from : String
  pub to : List String

pub record NodeList (M : Type 0) : Type 0 where
  pub nodes : List (SbomNode M)
  pub edges : List SbomEdge

abbrev pub purl_of : {M : Type 0} → SbomNode M → String
purl_of n = if n.purl == "" then "pkg:" +++ n.name +++ "@" +++ n.version else n.purl

-- `errors.Is(err, graph.ErrNodeAlreadyExists)`
abbrev pub is_already_exists : Error → Bool
is_already_exists node_already_exists = true
is_already_exists self_dependency = false
is_already_exists redis_nil = false
is_already_exists record_not_found = false
is_already_exists (errorf _) = false
is_already_exists (wrap _ e) = is_already_exists e

-- `nameToId[name]`
abbrev pub id_of : Map String ℕ → String → ℕ
id_of ids name = elim (lookup name ids) [ none ↦ 0 | some id ↦ id ]

module _ {S B M : Type 0} ⦃bm : Bitmap B⦄ (storage : Storage S B M) where
  -- The loop over the nodes. Behind the error that is let pass, the node is nil, and its id is read.
  unfoldable pub add_nodes : List (SbomNode M) → Map String ℕ → Action S (Map String ℕ)
  add_nodes [] ids s = (ok ids, s)
  add_nodes (n ∷ ns) ids s =
      attempt (add_node storage "library" n.metadata (purl_of n) s)
        (λ node. add_nodes ns (insert n.id node.id ids))
        (λ e. if is_already_exists e then lift panic else throw (wrap "failed to add node: %w" e))

  -- The body of the loop over the targets of an edge, which returns the node that it starts from.
  unfoldable pub add_edge : Node B M → Node B M → Action S (Node B M)
  add_edge from_node to_node = if from_node.id == to_node.id then pure from_node else (do
    (n, _) ←
        context "failed to add edge %s -> %s: %w"
          (set_dependency (some from_node) (some storage) (some to_node))
    pure n)

  unfoldable pub add_targets : Map String ℕ → Node B M → List String → Action S (Unit {0})
  unfolding add_edge
  add_targets ids from_node [] = pure tt
  add_targets ids from_node (to ∷ tos) = do
    to_node ← context "failed to to get node %s: %w" (storage.get_node (id_of ids to))
    from_node' ← add_edge from_node to_node
    add_targets ids from_node' tos

  unfoldable pub add_edges : Map String ℕ → List SbomEdge → Action S (Unit {0})
  unfolding add_targets
  add_edges ids [] = pure tt
  add_edges ids (e ∷ es) = do
    from_node ← context "failed to get from node %s: %w" (storage.get_node (id_of ids e.from))
    add_targets ids from_node e.to
    add_edges ids es

  unfoldable pub add_document : NodeList M → Action S (Unit {0})
  unfolding add_nodes add_edges
  add_document list = do ids ← add_nodes list.nodes []; add_edges ids list.edges

  unfoldable pub sbom : (Bytes → Outcome (Option (NodeList M))) → Bytes → Action S (Unit {0})
  unfolding add_document
  sbom parse [] = throw (errorf "data is empty")
  sbom parse (b ∷ bytes) = do
    list? ← context "failed to parse SBOM file: %w" (lift (parse (b ∷ bytes)))
    elim list? [ none ↦ pure tt | some list ↦ add_document list ]
