-- ===== src/Lib.antt =====
-- Minefield keeps a graph of software artifacts: nodes for libraries, vulnerabilities and
-- scorecards, with an edge from each node to what it depends on. Ingestion adds nodes and edges to
-- a storage, a caching pass computes what each node reaches, and queries written in a small script
-- language combine sets of dependencies and dependents.
--
-- The parts, the files that model them, and the code they come from:
--
--   Graph.Node, Graph.Storage: the types `Node`, `NodeCache`, `Direction` of pkg/graph/graph.go and
--     the interface `Storage` of pkg/graph/storage.go, a record of operations on a state of the
--     backend.
--   Graph.Encode: the JSON of nodes and caches of pkg/graph/graph.go; RoundTrip holds the theorems.
--   Graph.Mock: the storage in memory of pkg/graph/mockGraph.go, with every method and every
--     injected error.
--   Graph.Build: `AddNode` and `SetDependency` of pkg/graph/graph.go, over any storage. Invariant
--     holds the invariant of the graph, Drawn says which dependencies an operation draws, Linked what
--     the two writes of an edge do, AddNode and SetDependency the theorems on the two operations, and
--     Runs the sequences of calls.
--   Graph.Query: `queryBitmap`, the cached queries and the batch queries of pkg/graph/graph.go.
--     Reach defines what is reached, Fetch is about the inner loop, Loop holds the invariant and
--     the measure of the search, and Correct the theorems.
--   Graph.Cycles: `findCycles` of pkg/graph/cache.go, which Ends shows to end by the nodes of
--     Numbered. Graph.Caching: `Cache`, with `buildCache` in BuildCache and `addCyclesToBindMap` in
--     Groups. Graph.BindMap: pkg/graph/bindMap.go.
--   Graph.Parser: the evaluation of scripts of pkg/graph/parser.go. Evaluate is about
--     `iterateExpression`, Asked about `collectPackages`, Answered and Searched about the batch
--     queries of a script with and without caches, and Execute about `ParseAndExecute`.
--   Ingest: pkg/tools/ingest. Purl models helpers.go, Sbom sbom.go, Vuln vuln.go, with the loops
--     over the graph in Vuln.Add, and Scorecard scorecard.go. Ready says what the three keep of the
--     storage, Attached is about a node that is attached to a package, Visited about the nodes that
--     are read and visited, and Drawn about the dependencies that are drawn. Below Sbom, Vuln and
--     Scorecard, Kept is about what the graph keeps and Exact about what it gains, for which Listed,
--     Filled, Edged, Hits, Grown and Scored hold the steps; Vuln.Within is about the
--     ranges of versions, Vuln.Affects about the affected packages, and Sbom.Queried about the
--     query of an ingested document.
--   Storages: pkg/storages. The keys of storage.go; Redis models redis_storage.go over the client
--     of Redis.Commands, whose documented behaviour is Redis.Server, and its pure parts are in
--     Redis.Replies. Agree says when two backends give the same, Refine when one refines another,
--     with what follows for pkg/graph in Refine.Graph and for the service in Refine.Serve.
--     Redis.Related, Redis.Written, Redis.Reads and Redis.Refined show that the storage in Redis
--     refines the one in memory, and Redis.Served and Redis.Answers what a service over Redis holds
--     and answers after a sequence of requests, Redis.Ingested and Redis.Queried the same for a
--     document that is ingested; Redis.Exhausted is about the end of the ids. Sql
--     models sql.go over the statements of Sql.Database, with its pure parts in Sql.Rows; Sql.Missing
--     and Sql.Batches hold theorems.
--   Nacd: the scores of pkg/tools/weightedNACD, less the callback for the progress; Nacd.Ranked
--     and Nacd.Risk hold theorems.
--   Service: the handlers of api/v1/service.go, with `CustomLeaderboard` in Leaderboard and its
--     `queryHeap` in QueryHeap, which QueryHeap.Sequence shows to be a sequence; Names,
--     Leaderboard.Ranked and Leaderboard.Listed hold theorems.
--   Cmd: the commands of cmd. Loader models cmd/helpers/fileLoader.go; Loader.Extracted is about
--     the extraction of an archive, Loader.Confined about what loading keeps, and Loader.Listing
--     about what is loaded from a tree. Helpers models the rest of cmd/helpers, and Terminal the
--     tables that the commands show. Ingest, Query, Leaderboard and Cache model the commands of those
--     names, Llm the chat session of cmd/llm/llm.go with its answers in Llm.Answer, and Server
--     cmd/server/server.go; Ingest.Recorded, Ingest.Sent, Query.Shown, Query.Served,
--     Llm.Answered, Llm.Ended and Server.Validated hold theorems. The commands reach the handlers of Service through clients.
--   Utils: the conversions of pkg/utils/convert.go. Bitmap: the interface to the package roaring.
--   Prelude: association lists for Go's maps, and actions: functions from a state to an outcome and
--     a new state, where an outcome is a value, an error, a panic or the end of the fuel.
--
-- An error that a method returns is the outcome `err`, with the format string of the message; a
-- dereference of a nil pointer and an index out of range are the outcome `panic`. A uint32 is a
-- number, and its wrap-around is written out. A node is a value, as a storage that serialises
-- returns it: `SetDependency` returns the two nodes as it leaves them in place of changing them
-- behind their pointers. Go visits a map in an unspecified order; the model visits the entries in
-- the order of the association list, which the theorems leave open.
--
-- Loops with no structural argument run on fuel: `queryBitmap` takes a number of rounds, and one
-- more than the number of edges is enough, as the theorems on it show; `findCycles` takes a depth,
-- for which the number of nodes is enough; `buildCache` takes a number of rounds for each node, and
-- the scan of `RemoveAllCaches` over Redis a number of rounds; the batches of `SaveCaches` in SQL
-- are no more than the caches; `LoadDataFromPath` takes a depth, for which the number of files and
-- directories is enough on a tree with no archive; the chat session takes a number of lines, and one
-- more than the lines before `exit` is enough.
--
-- Code from elsewhere is a parameter: the roaring bitmaps are the class `Bitmap`, with the laws of
-- a set of numbers listed in ascending order, and the lists of Bitmap.Listed satisfy them; a state
-- of the Redis server is read through the strings and the lists under its keys, and a function from
-- keys satisfies the laws of the client, which the tests instantiate; the statements of the SQL
-- database are functions without a law; the JSON calls on nodes and caches have the law that they
-- read what they write, where `any` is taken for a JSON value; `float64` is the class `Float`, with
-- laws of IEEE 754 on what is no number; container/heap is the record `Heap`, which is given the
-- methods of `queryHeap`, with the laws `KeepsHeaps` over a sequence with an order; the order in
-- which the goroutines of a leaderboard finish is any; `sha256.Sum256`, `filepath.Match`,
-- `sort.Slice`, the parser that participle builds from the grammar, protobom, packageurl, semver
-- and the JSON packages are functions without a law.
--
-- The commands have as parameters the file system (`Files`: os, path/filepath and archive/zip), the
-- output (`Terminal`: fmt and tablewriter), the JSON that is shown (`Json`), the clients that
-- connect-go generates, the model and its collection (`Session`: go-openai and chromem-go), and the
-- host of the server (`Host`: net/http, the signals and the constructors of the storages). What a
-- theorem uses of them it takes as a hypothesis, such as `Confines` on the file system and `Records`
-- on the server that the documents are sent to.
--
-- Not modelled: the opening of connections in pkg/storages; the flags of the commands, their
-- addresses, the construction of their clients, their registration in cmd/root, cmd/ingest,
-- cmd/query, cmd/leaderboard and main.go and the profiling server of cmd/root, which only pass
-- options to packages from elsewhere; the wiring of cmd/server/wire.go; the code under gen, which
-- protoc generates.
pub mod Bitmap
pub mod Cmd
pub mod Graph
pub mod Ingest
pub mod Nacd
pub mod Prelude
pub mod Service
pub mod Storages
pub mod Utils
