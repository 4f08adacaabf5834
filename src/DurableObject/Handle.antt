-- ===== src/DurableObject/Handle.antt =====
-- The requests of durable-object/src/lib.rs: `handle` and `fetch` of the Durable Object, and
-- `main`, which sends a request on to the object of its database.
pub mod Forward
pub mod Limits
pub mod Arrival
pub mod Open
use slatedb_cloudflare.Prelude.{
  ℕ, zero, suc, ◌+◌, ◌-◌, ◌*◌, ◌^◌, min, Text, Bytes, String, codes, Bool, true, false, ◌&&◌, ◌||◌,
  not, Option, none, some, List, [], ◌∷◌, ◌++◌, map, Result, ok, err, Exec, ◌>>=◌, ◌>>◌, pure, fail,
  fail_if, lift, map_err, ltb, leb, ◌==◌, if◌then◌else◌, text_eq, to_option, parse_unsigned,
}
use mathlib.Core.Option
use slatedb_cloudflare.Slatedb.{Engine, MetricValue, Metric}
use slatedb_cloudflare.DurableObject.Perf.{snapshot}
use slatedb_cloudflare.DurableObject.State.{Shared}
use slatedb_cloudflare.DurableObject.DoCache.{clear, is_populated, database_size}
use slatedb_cloudflare.DurableObject.DoCache.KeyValue.{Storage, HeadCodec}
use slatedb_cloudflare.DurableObject.Names.{
  validate_database_name, route_segments, find_pair, query, Pairs,
}
use slatedb_cloudflare.DurableObject.Benchmark.{
  engine_call, run_batch, is_bad_batch, BenchmarkBatchRequest,
}
use slatedb_cloudflare.DurableObject.Server.{
  Builder, SlateDbObject, ActiveDb, Method, on_shared, database, reopen, start_scan, scan_up_to,
}
use slatedb_cloudflare.DurableObject.Web.{
  HttpMethod, get, post, other, Request, Response, Content, service, ok_response, value_response,
  scan_response, measurements, status_response, error_text, error_json, ScanResponse, SlateMetric,
  SlateMetricValue, StatusResponse, Env,
}
use slatedb_cloudflare.DurableObject.Routing.{
  from_json, error_response, slate_metrics, scan_limit, Operation, operation_of, database_and_tail,
  to_put, to_benchmark, to_get, to_delete, to_scan, to_reopen, to_flush, to_clear, to_stats,
  to_nothing,
}

module _ {W Store Db Recorder Head Attributes : Type 0} (engine : Engine (Shared W) Db Recorder)
    (builder : Builder (Shared W) Store Db Recorder) (storage : Storage W Head)
    (codec : HeadCodec Head Attributes) where
  abbrev Handler : Type 0
  Handler = Method engine builder Response

  -- a method of the cache, whose errors go on as they are
  abbrev of_cache : {A : Type 0} → Exec (Shared W) String A → Method engine builder A
  of_cache m s =
      let (answer, shared) = m s.shared in (map_err codes answer, record s { shared = shared })

  abbrev metrics_of : Option (ActiveDb Db Recorder) → Shared W → Bool × List SlateMetric
  metrics_of none s = (false, [])
  metrics_of (some active) s = (true, slate_metrics (engine.metrics active.metrics s))

  abbrev status_of : Bool × List SlateMetric → Bool → Handler
  status_of (open_now, slatedb) cache_populated s =
      pure
        (from_json (
          status_response (record {
            runtime = codes "durable-object";
            open_now = open_now;
            cache_populated = cache_populated;
            cache_storage_bytes = database_size storage codec s.shared;
            adapter = snapshot s.shared.perf;
            slatedb = slatedb;
          })))
        s

  abbrev run_stats : Handler
  run_stats s =
      (of_cache (is_populated storage codec) >>= status_of (metrics_of s.active s.shared)) s

  abbrev run_accepted : Text → BenchmarkBatchRequest → Handler
  run_accepted name body = do
    db ← database engine builder name
    m ← on_shared (run_batch engine db body)
    pure (from_json (measurements m))

  abbrev run_benchmark : Text → BenchmarkBatchRequest → Handler
  run_benchmark name body =
      if is_bad_batch body
      then pure (
          error_response
            (codes "benchmark batch must contain 1 to 256 clients with 1 to 512 operations each")
            400)
      else run_accepted name body

  abbrev pub scan_from : Pairs → Db → Exec (Shared W) Text ScanResponse
  scan_from pairs db =
      start_scan engine builder db (Option.get_or (find_pair (codes "prefix") pairs) [])
      >>= scan_up_to engine builder (scan_limit pairs)

  unfoldable pub run_operation_of : Operation → Text → Pairs → Request → Handler
  run_operation_of to_put name pairs req = do
    body ← lift req.put_body
    db ← database engine builder name
    on_shared (engine_call (engine.put db body.key body.value))
    pure (from_json ok_response)
  run_operation_of to_benchmark name pairs req = lift req.benchmark_body >>= run_benchmark name
  run_operation_of to_get name pairs req = do
    key ← lift (query pairs (codes "key"))
    db ← database engine builder name
    value ← on_shared (engine_call (engine.get db key))
    pure (from_json (value_response key (Option.map engine.lossy value)))
  run_operation_of to_delete name pairs req = do
    body ← lift req.key_body
    db ← database engine builder name
    on_shared (engine_call (engine.delete db body.key))
    pure (from_json ok_response)
  run_operation_of to_scan name pairs req = do
    db ← database engine builder name
    found ← on_shared (scan_from pairs db)
    pure (from_json (scan_response found))
  run_operation_of to_reopen name pairs req =
      reopen engine builder name >> pure (from_json ok_response)
  run_operation_of to_flush name pairs req = do
    db ← database engine builder name
    on_shared (engine_call (engine.flush db))
    pure (from_json ok_response)
  run_operation_of to_clear name pairs req =
      of_cache (clear storage codec) >> pure (from_json ok_response)
  run_operation_of to_stats name pairs req = run_stats
  run_operation_of to_nothing name pairs req = pure (error_response (codes "route not found") 404)

  -- Without a third segment the source would panic on its index.
  abbrev pub handle_at : Option (Text × List Text) → Pairs → Request → Handler
  handle_at none pairs req = fail (codes "index out of bounds")
  handle_at (some (name, tail)) pairs req =
      lift (validate_database_name name)
      >> run_operation_of (operation_of req.method tail) name pairs req

  abbrev handle_url : Request → Text × Pairs → Handler
  handle_url req (path, pairs) =
      lift (route_segments path) >>= λ segments. handle_at (database_and_tail segments) pairs req

  unfoldable pub handle : Request → Handler
  handle req = lift req.url >>= handle_url req

  abbrev answered :
      Result Text Response × SlateDbObject (Shared W) Db Recorder
      → Response × SlateDbObject (Shared W) Db Recorder
  answered (ok response, s) = (response, s)
  answered (err error, s) = (record { status = 500; content = error_json error }, s)

  unfoldable pub fetch :
      Request
      → SlateDbObject (Shared W) Db Recorder
      → Response × SlateDbObject (Shared W) Db Recorder
  unfolding handle
  fetch req s = answered (handle req s)

-- `strip_prefix`
abbrev pub strip_prefix : Text → Text → Option Text
strip_prefix [] text = some text
strip_prefix (p ∷ prefix) [] = none
strip_prefix (p ∷ prefix) (b ∷ text) =
    let rest = strip_prefix prefix text in if p == b then rest else none

-- `supplied == Some(expected)`
abbrev pub is_supplied : Option Text → Text → Bool
is_supplied none expected = false
is_supplied (some supplied) expected = text_eq supplied expected

abbrev pub bearer : Text
bearer = codes "Bearer "

module _ {S : Type 0} (env : Env S) where
  unfoldable pub authorized : Request → Exec S Text Bool
  authorized req = do
    expected ← lift (env.secret (codes "PROBE_TOKEN"))
    authorization ← lift req.authorization
    pure (is_supplied (Option.bind authorization (strip_prefix bearer)) expected)

  abbrev pub forward : Option (Text × List Text) → Request → Exec S Text Response
  forward none req = fail (codes "index out of bounds")
  forward (some (name, tail)) req = do
    lift (validate_database_name name)
    lift (env.durable_object (codes "SLATEDB_OBJECTS"))
    lift (env.id_from_name name)
    env.fetch_with_request name req

  abbrev pub route : Text → Request → Bool → Exec S Text Response
  route path req false = pure (error_response (codes "unauthorized") 401)
  route path req true =
      lift (route_segments path) >>= λ segments. forward (database_and_tail segments) req

  unfoldable pub main : Request → Exec S Text Response
  unfolding authorized
  main req = lift req.url >>= λ (path, pairs).
      if text_eq path (codes "/") || text_eq path (codes "/health")
      then pure (from_json (service (codes "slatedb-cloudflare-feasibility")))
      else (authorized req >>= route path req)
