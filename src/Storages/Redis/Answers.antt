-- ===== src/Storages/Redis/Answers.antt =====
-- What a service over Redis answers, after any requests that build the graph from an empty server.
use minefield.Prelude.{
  ℕ, suc, ◌+◌, ◌^◌, ◌<◌, ◌≤◌, ◌≡◌, ◌↔◌, ap, subst, arith, String, Bool, true, none, some, List, [],
  ◌∷◌, length, lookup, nat_eq, Text, Outcome, ok,
}
use minefield.Bitmap.{Bitmap}
use minefield.Graph.Node.{Direction, Node, children_direction, parents_direction}
use minefield.Graph.Storage.{Storage, Bytes}
use minefield.Graph.Mock.{mock_storage}
use minefield.Graph.Mock.State.{MockStorage, Faults, new_mock_storage}
use minefield.Graph.Encode.{Format, NodeFormat}
use minefield.Graph.Build.Invariant.{IsWellFormed}
use minefield.Graph.Build.Runs.{new-IsWellFormed}
use minefield.Graph.Query.{query_bitmap}
use minefield.Graph.Query.Reach.{Reach, degree_sum}
use minefield.Graph.Query.Correct.{Answers, query_dependencies_correct, query_dependents_correct}
use minefield.Storages.Agree.{Agrees, Agrees-states, ok-Agrees}
use minefield.Storages.Refine.Graph.{query_bitmap-Agrees}
use minefield.Storages.Refine.Serve.{handle_add_node-Agrees, handle_set_dependency-Agrees}
use minefield.Storages.Redis.{redis_storage}
use minefield.Storages.Redis.Commands.{Client}
use minefield.Storages.Redis.Server.{Server}
use minefield.Storages.Redis.Related.{Related, new-Related}
use minefield.Storages.Redis.Refined.{redis_storage-Refines}
use minefield.Storages.Redis.Served.{
  Request, adding, depending, handle, serve, adding-Keeps, depending-Keeps,
}

-- what the requests leave in memory
abbrev pub memory :
    {B M : Type 0} ⦃bm : Bitmap B⦄
    → (String → String → Outcome Bool)
    → (M → Outcome Bytes)
    → (Bytes → M)
    → List Request
    → MockStorage B M
memory matches marshal unpack requests =
    serve (mock_storage matches) marshal unpack requests new_mock_storage

module _ {R B M : Type 0} ⦃format : Format B⦄ ⦃json : NodeFormat M⦄ ⦃bm : Bitmap B⦄
    (client : Client R) (server : Server client) (matches : String → String → Outcome Bool)
    (marshal : M → Outcome Bytes) (unpack : Bytes → M) (scans : ℕ) where
  abbrev in_memory : Storage (MockStorage B M) B M
  in_memory = mock_storage matches

  abbrev in_redis : Storage R B M
  in_redis = redis_storage client scans

  record Holding (m : MockStorage B M) (r : R) (requests : ℕ) : Type 0 where
    pub well_formed : IsWellFormed m
    pub related : Related client server m r
    pub room : m.id_counter + requests < 2 ^ 32

  handle-Holding :
      (request : Request) (m : MockStorage B M) (r : R) (k : ℕ)
      → Holding m r (suc k)
      → Holding
          (handle in_memory marshal unpack request m)
          (handle in_redis marshal unpack request r)
          k
  unfolding handle
  handle-Holding (adding request) m r k h =
      let room : m.id_counter + 1 < 2 ^ 32 = omega (arith, h.room) in
      let (w, count) =
        adding-Keeps matches marshal unpack m h.related.quiet h.well_formed room request in
      record {
        well_formed = w;
        related = Agrees-states (Related client server) _ _ (
            handle_add_node-Agrees _ _ in_memory in_redis
              (redis_storage-Refines client server matches scans) marshal m r h.related unpack
              request room);
        room = omega (arith, h.room, count);
      }
  handle-Holding (depending i j) m r k h =
      let room : m.id_counter + 1 < 2 ^ 32 = omega (arith, h.room) in
      let (w, count) =
        depending-Keeps matches marshal unpack m h.related.quiet h.well_formed room i j in
      record {
        well_formed = w;
        related = Agrees-states (Related client server) _ _ (
            handle_set_dependency-Agrees _ _ in_memory in_redis
              (redis_storage-Refines client server matches scans) marshal m r h.related i j);
        room = omega (arith, h.room, count);
      }

  serve-Holding :
      (requests : List Request) (m : MockStorage B M) (r : R)
      → Holding m r (length requests)
      → Holding
          (serve in_memory marshal unpack requests m)
          (serve in_redis marshal unpack requests r)
          0
  unfolding serve
  serve-Holding [] m r h = h
  serve-Holding (request ∷ requests) m r h =
      serve-Holding requests _ _ (handle-Holding request m r (length requests) h)

  module _ (requests : List Request) (r : R) (bounded : length requests < 2 ^ 32)
      (up : server.views.is_up r ≡ true) (no_value : (key : Text) → server.views.value r key ≡ none)
      (no_items : (key : Text) → server.views.items r key ≡ []) where
    served-Holding :
        Holding
          (memory {B = B} matches marshal unpack requests)
          (serve in_redis marshal unpack requests r)
          0
    served-Holding = serve-Holding requests new_mock_storage r (record {
      well_formed = new-IsWellFormed matches;
      related = new-Related client server r up no_value no_items;
      room = omega (arith, bounded);
    })

    -- From an empty server that answers, fewer than 2 ^ 32 requests to add a node or a dependency,
    -- of which any may fail, leave in Redis what they leave in memory, and that is a well-formed
    -- graph.
    pub serve-Related :
        Related client server
          (memory {B = B} matches marshal unpack requests)
          (serve in_redis marshal unpack requests r)
        × IsWellFormed (memory {B = B} matches marshal unpack requests)
    serve-Related = (served-Holding.related, served-Holding.well_formed)

    module _ (n : Node B M) (fuel : ℕ)
        (stored : lookup n.id (memory {B = B} matches marshal unpack requests).nodes ≡ some n) where
      -- A normal return of a query over Redis, with exactly the ids reached from the node.
      pub record AnswersFrom (field : Node B M → B) (x : Outcome B × R) : Type 0 where
        pub out : B
        pub after : R
        pub returns : x ≡ (ok out, after)
        pub answer :
            (v : ℕ)
            → (bm.contains out v ≡ true)
              ↔ Reach field (memory {B = B} matches marshal unpack requests).nodes n.id v

      quiet_reads : (memory {B = B} matches marshal unpack requests).faults.get_node_err ≡ none
      quiet_reads = ap (λ (f : Faults). f.get_node_err) served-Holding.related.quiet

      -- What the query in memory answers, the one over Redis does.
      carried :
          (direction : Direction) (field : Node B M → B)
          → Answers matches (memory {B = B} matches marshal unpack requests) n fuel field (
              query_bitmap fuel
                (some n)
                (some in_memory)
                direction
                (memory {B = B} matches marshal unpack requests))
          → AnswersFrom field (
              query_bitmap fuel
                (some n)
                (some in_redis)
                direction
                (serve in_redis marshal unpack requests r))
      carried direction field a =
          let agree =
            query_bitmap-Agrees _ _ in_memory in_redis
              (redis_storage-Refines client server matches scans) direction fuel (some n)
              (memory {B = B} matches marshal unpack requests)
              (serve in_redis marshal unpack requests r) served-Holding.related in
          let (after, returns, _) =
            ok-Agrees (Related client server) a.out (memory {B = B} matches marshal unpack requests)
              _
              (subst
                (λ x. Agrees (Related client server) x (
                  query_bitmap fuel (some n) (some in_redis) direction
                    (serve in_redis marshal unpack requests r)))
                a.returns agree) in
          record { out = a.out; after = after; returns = returns; answer = a.answer }

      -- After fewer than 2 ^ 32 such requests from an empty server that answers, the query of the
      -- dependencies of a stored node over Redis returns, with fuel above the number of edges, the
      -- ids that chains of children lead to in the graph that the requests leave in memory, and no
      -- others.
      pub redis_query_dependencies_correct :
          suc (degree_sum (λ m. m.children) (memory {B = B} matches marshal unpack requests).nodes)
            ≤ fuel
          → AnswersFrom
              (λ m. m.children)
              (query_bitmap fuel
                (some n)
                (some in_redis)
                children_direction
                (serve in_redis marshal unpack requests r))
      redis_query_dependencies_correct enough =
          carried children_direction (λ m. m.children)
            (query_dependencies_correct matches (memory {B = B} matches marshal unpack requests) n
              fuel served-Holding.well_formed quiet_reads stored enough)

      -- After fewer than 2 ^ 32 such requests from an empty server that answers, the query of the
      -- dependents of a stored node over Redis returns, with fuel above the number of edges, the ids
      -- that chains of parents lead to in the graph that the requests leave in memory, and no
      -- others.
      redis_query_dependents_correct :
          suc (degree_sum (λ m. m.parents) (memory {B = B} matches marshal unpack requests).nodes)
            ≤ fuel
          → AnswersFrom
              (λ m. m.parents)
              (query_bitmap fuel
                (some n)
                (some in_redis)
                parents_direction
                (serve in_redis marshal unpack requests r))
      redis_query_dependents_correct enough =
          carried parents_direction (λ m. m.parents)
            (query_dependents_correct matches (memory {B = B} matches marshal unpack requests) n
              fuel served-Holding.well_formed quiet_reads stored enough)
