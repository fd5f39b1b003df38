-- ===== src/Storages/Tests/Refine.antt =====
-- A witness for the JSON of nodes.
use minefield.Prelude.{◌≡◌, arith, ok}
use minefield.Bitmap.Listed.{listed}
use minefield.Graph.Storage.{Bytes}
use minefield.Graph.Encode.{marshal_node, unmarshal_node}
use minefield.Graph.Encode.RoundTrip.{unmarshal_node-marshal_node}
use minefield.Graph.Tests.Data.{node_b}
use minefield.Storages.Tests.Data.{listed_format, unit_format}

unmarshal_node-marshal_node_example :
    (t : Bytes) × (marshal_node node_b ≡ ok t) × (unmarshal_node t ≡ ok node_b)
unmarshal_node-marshal_node_example = unmarshal_node-marshal_node node_b (omega arith)
