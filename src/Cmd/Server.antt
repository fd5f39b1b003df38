-- ===== src/Cmd/Server.antt =====
-- cmd/server/server.go: the command server. The constructors of the storages, the packages net/http
-- and chromem-go, and the signals are parameters; the headers of CORS are a parameter of `listen`.
pub mod Knowledge
pub mod Validated
use minefield.Prelude.{
  ℕ, suc, String, Bool, true, false, not, ◌&&◌, List, [], ◌∷◌, if◌then◌else◌, ◌==◌, string_eq, ℤ,
  pos, negsuc, nat_beq, errorf, Outcome, ok, err, Action, ◌>>=◌, ◌>>◌, pure, throw, lift, modify,
  context,
}
use Knowledge.{KnowledgeDocument, knowledge}

-- `options`, less the storage
pub record Options : Type 0 where
  pub concurrency : ℤ
  pub addr : String
  pub storage_type : String
  pub storage_addr : String
  pub storage_path : String
  pub use_in_memory : Bool
  pub cors : List String
  pub use_openai_llm : Bool
  pub vector_db_path : String

-- the handlers that are registered
pub data Handler : Type 0 where
  query_service leaderboard_service cache_service graph_service health_service ingest_service :
      Handler

-- `http.Server`, with the service that its handlers serve and the origins that it allows
pub record HttpServer (S : Type 0) : Type 0 where
  pub addr : String
  pub storage : S
  pub concurrency : ℤ
  pub handlers : List Handler
  pub allowed_origins : List String

pub record Host (W S C : Type 0) : Type 0 where
  pub new_redis_storage : String → Action W S
  pub new_sql_storage : String → Bool → Action W S
  -- `NewPersistentDB` and `CreateCollection`
  pub new_persistent_db : String → Action W C
  pub create_collection : C → Action W C
  pub add_documents : C → List KnowledgeDocument → Action W (Unit {0})
  -- the goroutine that calls `ListenAndServe`
  pub listen : HttpServer S → W → W
  -- `<-stop`
  pub await_stop : W → W
  pub shutdown : HttpServer S → Action W (Unit {0})
  -- `log.Println`
  pub log : String → W → W

abbrev default_addr : String
default_addr = "localhost:8089"

-- `PersistentPreRunE`
unfoldable pub persistent_pre_run : Options → Outcome (Unit {0})
persistent_pre_run o =
    if not (o.storage_type == "redis") && not (o.storage_type == "sqlite")
    then err (errorf "invalid storage-type %q: must be one of [redis, sqlite]")
    else if o.storage_type == "sqlite" && (o.storage_path == "" && not o.use_in_memory)
    then err (errorf "storage-path is required when using SQLite with file-based storage")
    else if o.storage_type == "redis" && o.storage_addr == ""
    then err (errorf "storage-addr is required when using Redis (format: host:port)")
    else ok tt

-- `o.concurrency <= 0`
abbrev is_positive : ℤ → Bool
is_positive (negsuc _) = false
is_positive (pos n) = not (nat_beq n 0)

-- `setupServer`
unfoldable setup_server : {S : Type 0} → S → Options → Outcome (HttpServer S)
setup_server storage o =
    if is_positive o.concurrency
    then ok (record {
      addr = if o.addr == "" then default_addr else o.addr;
      storage = storage;
      concurrency = o.concurrency;
      handlers =
          query_service ∷ leaderboard_service ∷ cache_service ∷ graph_service ∷ health_service
          ∷ ingest_service ∷ [];
      allowed_origins = o.cors;
    })
    else err (errorf "concurrency must be greater than zero")

module _ {W S C : Type 0} (host : Host W S C) where
  unfoldable pub provide_storage : Options → Action W S
  provide_storage o =
      if o.storage_type == "redis"
      then host.new_redis_storage o.storage_addr
      else if o.storage_type == "sqlite"
      then host.new_sql_storage o.storage_path o.use_in_memory
      else throw (errorf "unknown storage type: %s")

  -- the part of `startServer` for the language model
  unfoldable pub teach : Options → Action W (Unit {0})
  teach o = do
    db ← context "failed to initialize ChromaDB: %w" (host.new_persistent_db o.vector_db_path)
    c ← context "failed to create collection in ChromaDB: %w" (host.create_collection db)
    context "failed to add documents to ChromaDB: %w" (host.add_documents c knowledge)

  unfoldable start_server : Options → HttpServer S → Action W (Unit {0})
  unfolding teach
  start_server o server = do
    (if o.use_openai_llm then teach o else pure tt)
    modify (host.listen server)
    modify host.await_stop
    modify (host.log "Shutting down the server...")
    context "server shutdown failed: %w" (host.shutdown server)
    modify (host.log "Server gracefully stopped")

  -- `options.Run`
  unfoldable pub run : Options → Action W (Unit {0})
  unfolding provide_storage setup_server start_server
  run o = do
    storage ← context "failed to initialize storage: %w" (provide_storage o)
    server ← context "failed to setup server: %w" (lift (setup_server storage o))
    start_server o server
