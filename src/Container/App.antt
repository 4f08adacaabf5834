-- ===== src/Container/App.antt =====
-- The server of container/src/main.rs: the one database that the container keeps open, and the
-- handlers of its routes. The mutex `active` is held through `database`, `reopen` and
-- `clear_cache`.
pub mod Names
pub mod Clearing
pub mod Sizes
use slatedb_cloudflare.Prelude.{
  ℕ, zero, suc, ◌+◌, ◌-◌, ◌*◌, ◌%◌, Text, Bytes, codes, Bool, true, false, ◌&&◌, ◌||◌, not, Option,
  none, some, List, [], ◌∷◌, ◌++◌, map, Result, ok, err, Exec, ◌>>=◌, ◌>>◌, pure, fail, fail_if,
  lift, map_err, all, ltb, leb, ◌==◌, if◌then◌else◌, text_eq, length, take,
}
use mathlib.Core.Option
use slatedb_cloudflare.Slatedb.{Engine, Settings, KeyValue}
use slatedb_cloudflare.DurableObject.Perf.{u64_mod}
use slatedb_cloudflare.DurableObject.Names.{is_ascii_alphanumeric}
use slatedb_cloudflare.DurableObject.Benchmark.{BenchmarkBatchRequest, BenchmarkBatchResponse}
use slatedb_cloudflare.DurableObject.Web.{ScanItem, ScanResponse}
use slatedb_cloudflare.Container.Files.{
  cache_dir, IoError, not_found, other, Directory, directory_size,
}
use slatedb_cloudflare.Container.Requests.{PutRequest, KeyRequest, ScanQuery, GetQuery}
use slatedb_cloudflare.Container.Status.{StatusResponse, slate_metrics}
use slatedb_cloudflare.Container.Measures.{
  AppError, internal, bad_request, internal_call, run_batch, is_bad_batch,
}
use slatedb_cloudflare.Container.Host.{
  ActiveDb, AppState, validate_database_name, Host, settings, on_world, set_active,
}

module _ {S Store Db Recorder Adapter : Type 0} (engine : Engine S Db Recorder)
    (host : Host S Store Db Recorder Adapter) where
  abbrev pub Handler : Type 0 → Type 0
  Handler A = Exec (AppState S Db Recorder Adapter) AppError A

  unfoldable pub open_database : Text → Exec S AppError (ActiveDb Db Recorder Adapter)
  open_database name s =
      let (adapter, s₁) = host.counters s in
      let (metrics, s₂) = engine.recorder s₁ in
      ((do
        internal_call (host.create_dir_all (cache_dir name))
        db ← internal_call (
            host.build (codes "slatedb") (host.store name adapter) settings (cache_dir name)
              metrics)
        pure (record { name = name; db = db; metrics = metrics; adapter = adapter }))
        s₂)

  abbrev database_of : Text → Option (ActiveDb Db Recorder Adapter) → Handler Db
  database_of name (some current) =
      if text_eq current.name name
      then pure current.db
      else fail (internal (codes "container was routed with two database names"))
  database_of name none = do
    opened ← on_world (open_database name)
    set_active (some opened)
    pure opened.db

  abbrev locked_database : Text → Handler Db
  locked_database name s = database_of name s.active s

  unfoldable pub database : Text → Handler Db
  unfolding open_database
  database name = lift (validate_database_name name) >> locked_database name

  unfoldable pub put : Text → PutRequest → Handler (Unit {0})
  put name body = do
    db ← database name
    on_world (internal_call (engine.put db body.key body.value))

  unfoldable pub get_value : Text → GetQuery → Handler (Text × Option Text)
  get_value name query = do
    db ← database name
    value ← on_world (internal_call (engine.get db query.key))
    pure (query.key, Option.map engine.lossy value)

  unfoldable pub delete : Text → KeyRequest → Handler (Unit {0})
  delete name body = do db ← database name; on_world (internal_call (engine.delete db body.key))

  unfoldable pub flush : Text → Handler (Unit {0})
  flush name = do db ← database name; on_world (internal_call (engine.flush db))

  abbrev read_item :
      (List ScanItem → Exec S AppError (List ScanItem))
      → List ScanItem
      → Option KeyValue
      → Exec S AppError (List ScanItem)
  read_item again items none = pure items
  read_item again items (some item) =
      again (items ++ record { key = engine.lossy item.key; value = engine.lossy item.value } ∷ [])

  -- The loop of `scan`, which runs while `items.len() <= limit`.
  unfoldable pub read_items :
      (room : ℕ) (iterator : ℕ) → List ScanItem → Exec S AppError (List ScanItem)
  read_items zero iterator items = pure items
  read_items (suc room) iterator items = internal_call (engine.next iterator) >>= λ item.
      read_item (read_items room iterator) items item

  abbrev start_scan : Db → Option Text → Exec S AppError ℕ
  start_scan db none = internal_call (engine.scan db)
  start_scan db (some prefix) =
      if length prefix == 0
      then internal_call (engine.scan db)
      else internal_call (engine.scan_prefix db prefix)

  abbrev clamp : ℕ → ℕ
  clamp limit = if ltb limit 1 then 1 else if ltb 1000 limit then 1000 else limit

  abbrev scan_from : Option Text → ℕ → Db → Exec S AppError ScanResponse
  scan_from prefix limit db = do
    iterator ← start_scan db prefix
    items ← read_items (limit + 1) iterator []
    pure (record { items = take limit items; truncated = ltb limit (length items) })

  unfoldable pub scan : Text → ScanQuery → Handler ScanResponse
  unfolding read_items
  scan name query = do
    db ← database name
    on_world (scan_from query.prefix (clamp (Option.get_or query.limit 100)) db)

  abbrev close_taken : Option (ActiveDb Db Recorder Adapter) → Handler (Unit {0})
  close_taken none = pure tt
  close_taken (some current) = on_world (internal_call (engine.close current.db))

  abbrev open_again : Text → Handler (Unit {0})
  open_again name = on_world (open_database name) >>= λ opened. set_active (some opened)

  -- `active.take()`, and what is done with it
  abbrev take_active : Handler (Unit {0})
  take_active s = (set_active none >> close_taken s.active) s

  unfoldable pub reopen : Text → Handler (Unit {0})
  unfolding open_database
  reopen name = lift (validate_database_name name) >> (take_active >> open_again name)

  abbrev unless_missing : Result IoError (Unit {0}) → Result AppError (Unit {0})
  unless_missing (ok _) = ok tt
  unless_missing (err not_found) = ok tt
  unless_missing (err (other error)) = err (internal error)

  abbrev remove_cache : Text → Exec S AppError (Unit {0})
  remove_cache name s =
      let (answer, s') = host.remove_dir_all (cache_dir name) s in (unless_missing answer, s')

  unfoldable pub clear_cache : Text → Handler (Unit {0})
  unfolding open_database
  clear_cache name =
      lift (validate_database_name name)
      >> (take_active >> (on_world (remove_cache name) >> open_again name))

  abbrev accepted_batch : Text → BenchmarkBatchRequest → Handler BenchmarkBatchResponse
  accepted_batch name body = database name >>= λ db. on_world (run_batch engine db body)

  unfoldable pub benchmark_batch : Text → BenchmarkBatchRequest → Handler BenchmarkBatchResponse
  benchmark_batch name body =
      if is_bad_batch body
      then fail (
          bad_request
            (codes "benchmark batch must contain 1 to 256 clients with 1 to 512 operations each"))
      else accepted_batch name body

  abbrev status_of : Option (ActiveDb Db Recorder Adapter) → S → ℕ → StatusResponse
  status_of none w cache_storage_bytes = record {
    runtime = codes "container";
    open_now = false;
    cache_populated = ltb 0 cache_storage_bytes;
    cache_storage_bytes = cache_storage_bytes;
    adapter = [];
    slatedb = [];
  }
  status_of (some active) w cache_storage_bytes = record {
    runtime = codes "container";
    open_now = true;
    cache_populated = ltb 0 cache_storage_bytes;
    cache_storage_bytes = cache_storage_bytes;
    adapter = host.snapshot active.adapter w;
    slatedb = slate_metrics (engine.metrics active.metrics w);
  }

  abbrev read_status : Text → Handler StatusResponse
  read_status name s =
      (lift (map_err internal (directory_size (host.read_dir (cache_dir name) s.world)))
          >>= λ cache_storage_bytes. pure (status_of s.active s.world cache_storage_bytes))
        s

  unfoldable pub stats : Text → Handler StatusResponse
  unfolding directory_size
  stats name = lift (validate_database_name name) >> read_status name

  -- The requests of the routes, and the answers of the handlers.
  pub data Request : Type 0 where
    to_put : (name : Text) (body : PutRequest) → Request
    to_get : (name : Text) (query : GetQuery) → Request
    to_delete : (name : Text) (body : KeyRequest) → Request
    to_scan : (name : Text) (query : ScanQuery) → Request
    to_stats to_reopen to_flush to_clear_cache : (name : Text) → Request
    to_benchmark : (name : Text) (body : BenchmarkBatchRequest) → Request

  pub data Response : Type 0 where
    ok_response : Response
    value_response : Text → Option Text → Response
    scan_response : ScanResponse → Response
    status_response : StatusResponse → Response
    measurements : BenchmarkBatchResponse → Response

  abbrev answer_with : {A : Type 0} → (A → Response) → Handler A → Handler Response
  answer_with f m = m >>= λ a. pure (f a)

  unfoldable pub serve : Request → Handler Response
  serve (to_put name body) = answer_with (λ _. ok_response) (put name body)
  serve (to_get name query) =
      answer_with (λ (found, value). value_response found value) (get_value name query)
  serve (to_delete name body) = answer_with (λ _. ok_response) (delete name body)
  serve (to_scan name query) = answer_with scan_response (scan name query)
  serve (to_stats name) = answer_with status_response (stats name)
  serve (to_reopen name) = answer_with (λ _. ok_response) (reopen name)
  serve (to_flush name) = answer_with (λ _. ok_response) (flush name)
  serve (to_clear_cache name) = answer_with (λ _. ok_response) (clear_cache name)
  serve (to_benchmark name body) = answer_with measurements (benchmark_batch name body)

  -- `close_active` logs an error and goes on.
  unfoldable pub close_active : AppState S Db Recorder Adapter → AppState S Db Recorder Adapter
  close_active s = (take_active s).1
