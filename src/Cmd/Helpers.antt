-- ===== src/Cmd/Helpers.antt =====
-- cmd/helpers: common.go, formatter.go and getAdditionalInfo.go. The calls of encoding/json are
-- parameters, and so is `%.2f`; of what is read from JSON the parts that are shown are modelled. A
-- slice that may be nil is an `Option`.
use minefield.Prelude.{
  ℕ, ◌+◌, ◌-◌, suc, String, Option, none, some, List, [], ◌∷◌, ◌++◌, length, drop, map, ltb, leb,
  if◌then◌else◌, ◌==◌, string_eq, Text, text_of, ℤ, pos, negsuc, errorf, Outcome, ok, err, panic,
  bind, wrapping,
}
use minefield.Utils.{uint32_to_str}
use minefield.Graph.Storage.{Bytes}
use minefield.Service.{ServiceNode}
use minefield.Ingest.Vuln.{Event, Range}

-- `args[0]`; globsearch, get-metadata, sbom and scorecard are run with one argument, osv with any number
abbrev pub argument : {A : Type 0} → List A → Outcome A
argument [] = panic
argument (arg ∷ args) = ok arg

abbrev ellipsis : Text
ellipsis = text_of "..."

-- `TruncateString`
unfoldable pub truncate_string : Text → ℤ → Text
truncate_string str (negsuc _) = str
truncate_string str (pos max_length) =
    if ltb max_length 4
    then str
    else if leb (length str) max_length
    then str
    else ellipsis ++ drop (length str - max_length + length ellipsis) str

-- `nodeOutput`
pub record NodeOutput (J : Type 0) : Type 0 where
  pub name : String
  pub type : String
  pub id : Text
  pub metadata : Option J

-- `Query` of the response of a leaderboard
pub record QueryMessage : Type 0 where
  pub node : Option ServiceNode
  pub output : List ℕ

module _ {J : Type 0} (unmarshal : Bytes → Outcome J)
    (marshal_indent : List (NodeOutput J) → Outcome Bytes) where
  abbrev output_of : ServiceNode → Option J → NodeOutput J
  output_of node metadata = record {
    name = node.name;
    type = node.type;
    id = uint32_to_str node.id;
    metadata = metadata;
  }

  -- the body of the loops over the nodes
  unfoldable to_node_output : ServiceNode → Outcome (NodeOutput J)
  to_node_output node = elim node.metadata [
    | [] ↦ ok (output_of node none)
    | _ ∷ _ ↦
        bind (wrapping "failed to unmarshal metadata for node %s: %w" (unmarshal node.metadata))
          λ metadata. ok (output_of node (some metadata))
  ]

  unfoldable node_outputs : List ServiceNode → Outcome (List (NodeOutput J))
  unfolding to_node_output
  node_outputs [] = ok []
  node_outputs (node ∷ nodes) =
      bind (to_node_output node) λ o. bind (node_outputs nodes) λ os. ok (o ∷ os)

  -- `FormatNodeJSON`
  unfoldable pub format_node_json : Option (List ServiceNode) → Outcome Bytes
  unfolding node_outputs
  format_node_json none = err (errorf "nodes cannot be nil")
  format_node_json (some []) = err (errorf "no nodes found")
  format_node_json (some (node ∷ nodes)) = bind (node_outputs (node ∷ nodes)) marshal_indent

  unfoldable query_outputs : List QueryMessage → Outcome (List (NodeOutput J))
  unfolding to_node_output
  query_outputs [] = ok []
  query_outputs (query ∷ queries) = elim query.node [
    | none ↦ err (errorf "node cannot be nil for query")
    | some node ↦ bind (to_node_output node) λ o. bind (query_outputs queries) λ os. ok (o ∷ os)
  ]

  -- `FormatCustomQueriesJSON`
  unfoldable pub format_custom_queries_json : Option (List QueryMessage) → Outcome Bytes
  unfolding query_outputs
  format_custom_queries_json none = err (errorf "queries cannot be nil")
  format_custom_queries_json (some []) = err (errorf "no queries found")
  format_custom_queries_json (some (query ∷ queries)) =
      bind (query_outputs (query ∷ queries)) marshal_indent

-- `Check`
pub record Check : Type 0 where
  pub name : String
  pub score : ℤ

-- `ScorecardData`
pub record ScorecardData (F : Type 0) : Type 0 where
  pub score : F
  pub checks : List Check

-- `Affected`, with the package URL of its `Package`
pub record AffectedPackage : Type 0 where
  pub purl : String
  pub ranges : List Range

-- `%d` of an `int`
abbrev format_int : ℤ → Text
format_int (pos n) = uint32_to_str n
format_int (negsuc n) = b'-' ∷ uint32_to_str (suc n)

-- `strings.Join(lines, "\n")`
unfoldable join_lines : List Text → Text
join_lines [] = []
join_lines (line ∷ []) = line
join_lines (line ∷ next ∷ lines) = line ++ 10 ∷ join_lines (next ∷ lines)

abbrev check_line : Check → Text
check_line check = text_of "- " ++ text_of check.name ++ text_of ": " ++ format_int check.score

-- the loops over the events of the ranges of a package
unfoldable fixed_events : String → List Event → List Text
fixed_events purl [] = []
fixed_events purl (event ∷ events) =
    let rest = fixed_events purl events in
    if event.fixed == ""
    then rest
    else (text_of purl ++ text_of " : " ++ text_of event.fixed) ∷ rest

unfoldable fixed_ranges : String → List Range → List Text
unfolding fixed_events
fixed_ranges purl [] = []
fixed_ranges purl (range ∷ ranges) = fixed_events purl range.events ++ fixed_ranges purl ranges

unfoldable fixed_info : List AffectedPackage → List Text
unfolding fixed_ranges
fixed_info [] = []
fixed_info (affected ∷ rest) = fixed_ranges affected.purl affected.ranges ++ fixed_info rest

module _ {F : Type 0} (format_score : F → Text)
    (unmarshal_scorecard : Bytes → Option (ScorecardData F))
    (unmarshal_vulnerability : Bytes → Option (List AffectedPackage)) where
  unfoldable scorecard_info : ScorecardData F → Text
  unfolding join_lines
  scorecard_info scorecard =
      let score = text_of "Score: " ++ format_score scorecard.score in
      elim scorecard.checks [
        | [] ↦ join_lines (score ∷ [])
        | _ ∷ _ ↦ join_lines (score ∷ text_of "Checks:" ∷ map check_line scorecard.checks)
      ]

  unfoldable vulnerability_info : List AffectedPackage → Text
  unfolding join_lines fixed_info
  vulnerability_info affected = elim (fixed_info affected) [
    | [] ↦ []
    | line ∷ lines ↦
        text_of "Affected Package PURL (Package URL) : Fixed Version\n\n"
        ++ join_lines (line ∷ lines)
  ]

  -- what is shown of metadata, where it is there and can be read
  abbrev pub shown : {A : Type 0} → (A → Text) → (Bytes → Option A) → Bytes → Text
  shown info unmarshal [] = []
  shown info unmarshal (b ∷ bytes) = elim (unmarshal (b ∷ bytes)) [ none ↦ [] | some a ↦ info a ]

  -- `ComputeAdditionalInfo`; metadata that is empty and not nil is no JSON either
  unfoldable pub compute_additional_info : ServiceNode → Text
  unfolding scorecard_info vulnerability_info
  compute_additional_info node =
      if node.type == "scorecard"
      then shown scorecard_info unmarshal_scorecard node.metadata
      else if node.type == "vuln"
      then shown vulnerability_info unmarshal_vulnerability node.metadata
      else []

-- The calls of encoding/json, and `%.2f`.
pub record Json (J F : Type 0) : Type 0 where
  pub unmarshal_metadata : Bytes → Outcome J
  pub marshal_indent : List (NodeOutput J) → Outcome Bytes
  pub format_score : F → Text
  pub unmarshal_scorecard : Bytes → Option (ScorecardData F)
  pub unmarshal_vulnerability : Bytes → Option (List AffectedPackage)

module _ {J F : Type 0} (json : Json J F) where
  abbrev pub nodes_json : Option (List ServiceNode) → Outcome Bytes
  nodes_json = format_node_json json.unmarshal_metadata json.marshal_indent

  abbrev pub queries_json : Option (List QueryMessage) → Outcome Bytes
  queries_json = format_custom_queries_json json.unmarshal_metadata json.marshal_indent

  abbrev pub additional_info : ServiceNode → Text
  additional_info =
      compute_additional_info json.format_score json.unmarshal_scorecard
        json.unmarshal_vulnerability
