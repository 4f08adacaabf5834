-- ===== src/DurableObject/Tests.antt =====
-- A small engine, in which every key holds itself, and the theorems on the object at concrete inputs.
mod Requests
use slatedb_cloudflare.Prelude.{
  ℕ, ◌≤◌, Text, Bytes, codes, Bool, true, false, Option, none, some, List, [], ◌∷◌, All, Result, ok,
  err, ltb, length, take, map, ◌≡◌, ◌⊎◌, refl, pure,
}
use slatedb_cloudflare.Slatedb.{Engine, KeyValue, Call}
use slatedb_cloudflare.DurableObject.State.{Shared}
use slatedb_cloudflare.DurableObject.DoCache.Tests.{Memory, memory, codec, state}
use slatedb_cloudflare.DurableObject.Names.{validate_database_name, split}
use slatedb_cloudflare.DurableObject.Names.Paths.{
  NameByte, validate_database_name-split, Routed, route_segments-Routed,
}
use slatedb_cloudflare.DurableObject.Benchmark.{
  BenchmarkOperation, BenchmarkOperationKind, BenchmarkBatchRequest, BenchmarkBatchResponse,
  run_batch, is_bad_batch,
}
use slatedb_cloudflare.DurableObject.Benchmark.Totals.{Serves, run_batch-Measures}
use slatedb_cloudflare.DurableObject.Benchmark.Measures.{MeasuresBoth}
use slatedb_cloudflare.DurableObject.Server.{
  ActiveDb, Builder, SlateDbObject, database, reopen, scan_up_to, shown,
}
use slatedb_cloudflare.DurableObject.Server.Active.{
  Guarded, database-Guarded, Reopened, reopen-Reopened, databases, IsOpen, databases-IsOpen,
}
use slatedb_cloudflare.DurableObject.Server.Scan.{Yields, scan_up_to-Yields}
use slatedb_cloudflare.DurableObject.Web.{Request, Env, get}
use slatedb_cloudflare.DurableObject.Handle.{main}
use slatedb_cloudflare.DurableObject.Handle.Forward.{AnsweredHere, IsAuthorized, SentOn, main-Sent}
use slatedb_cloudflare.DurableObject.Handle.Open.{fetches, fetches-open}

abbrev pub engine : {S : Type 0} → Call S (Option KeyValue) → Engine S Text (Unit {0})
engine yield_item = record {
  put = λ db key value s. (ok tt, s);
  put_with_options = λ db key value durable s. (ok tt, s);
  get = λ db key s. (ok (some key), s);
  delete = λ db key s. (ok tt, s);
  flush = λ db s. (ok tt, s);
  scan = λ db s. (ok 0, s);
  scan_prefix = λ db prefix s. (ok 0, s);
  next = λ iterator. yield_item;
  close = λ db s. (ok tt, s);
  recorder = λ s. (tt, s);
  metrics = λ recorder s. [];
  now = λ s. (0, s);
  elapsed = λ started s. (5, s);
  lossy = λ bytes. bytes;
}

abbrev builder : {S : Type 0} → Builder S Text Text (Unit {0})
builder = record {
  from_storage = λ prefix part_size recorder s. (ok prefix, s);
  build = λ root store settings recorder s. (ok store, s);
}

abbrev pub nothing : {S : Type 0} → Call S (Option KeyValue)
nothing s = (ok none, s)

abbrev object_of : Option (ActiveDb Text (Unit {0})) → SlateDbObject ℕ Text (Unit {0})
object_of active = record { shared = 0; active = active }

abbrev open_a : ActiveDb Text (Unit {0})
open_a = record { name = codes "a"; db = codes "a"; metrics = tt }

database-Guarded_example :
    Guarded
      (engine nothing)
      builder
      (codes "b")
      (some open_a)
      (object_of (some open_a))
      (database (engine nothing) builder (codes "b") (object_of (some open_a)))
database-Guarded_example =
    database-Guarded (engine nothing) builder (codes "b") (object_of (some open_a))

reopen-Reopened_example :
    Reopened
      (engine nothing)
      builder
      (codes "b")
      (reopen (engine nothing) builder (codes "b") (object_of (some open_a)))
reopen-Reopened_example =
    reopen-Reopened (engine nothing) builder (codes "b") (object_of (some open_a))

abbrev three_names : List Text
three_names = codes "a" ∷ codes "b" ∷ codes "a" ∷ []

databases-IsOpen_example :
    let (answers, s') = databases (engine nothing) builder three_names (object_of none) in
    All (IsOpen (engine {S = ℕ} nothing) builder s'.active) answers
databases-IsOpen_example = databases-IsOpen (engine nothing) builder three_names (object_of none)

-- An iterator over the items that are left.
abbrev pop_item : Call (List KeyValue) (Option KeyValue)
pop_item [] = (ok none, [])
pop_item (item ∷ items) = (ok (some item), items)

abbrev item_of : Text → KeyValue
item_of key = record { key = key; value = codes "v" }

abbrev two_items : List KeyValue
two_items = item_of (codes "a") ∷ item_of (codes "b") ∷ []

two_items-Yields : Yields (engine pop_item) (builder {S = List KeyValue}) 0 two_items two_items
two_items-Yields = Yields.yields refl (Yields.yields refl (Yields.ends refl))

scan_up_to-Yields_example :
    (scan_up_to (engine pop_item) (builder {S = List KeyValue}) 1 0 two_items).0
    ≡ ok (record {
      items =
          map (shown (engine pop_item) (builder {S = List KeyValue})) (item_of (codes "a") ∷ []);
      truncated = true;
    })
scan_up_to-Yields_example =
    scan_up_to-Yields (engine pop_item) (builder {S = List KeyValue}) 0 1 two_items two_items
      two_items-Yields

abbrev get_path : Text
get_path = codes "/v1/db/a/get"

route_segments-Routed_example : Routed (codes "v1" ∷ codes "db" ∷ codes "a" ∷ codes "get" ∷ [])
unfolding slatedb_cloudflare.DurableObject.Names.route_segments split
    slatedb_cloudflare.Prelude.trim_end_matches slatedb_cloudflare.Prelude.text_eq
route_segments-Routed_example =
    route_segments-Routed get_path (codes "v1" ∷ codes "db" ∷ codes "a" ∷ codes "get" ∷ []) refl

validate_database_name-split_example :
    (1 ≤ 4)
    × (4 ≤ 128)
    × All NameByte (codes "db_1")
    × (split b'/' (codes "db_1") ≡ codes "db_1" ∷ [])
unfolding validate_database_name
validate_database_name-split_example = validate_database_name-split (codes "db_1") refl

engine-Serves : Serves (engine {S = ℕ} nothing)
engine-Serves = record {
  get_finds = λ db key s. (key, refl);
  put_succeeds = λ db key value durable s. refl;
}

abbrev operation : BenchmarkOperationKind → BenchmarkOperation
operation kind = record { operation = kind; key = codes "k" }

abbrev batch : BenchmarkBatchRequest
batch = record {
  value = codes "v";
  clients =
      (operation BenchmarkOperationKind.get ∷ operation BenchmarkOperationKind.put ∷ [])
      ∷ (operation BenchmarkOperationKind.get ∷ [])
      ∷ [];
}

run_batch-Measures_example :
    (m : BenchmarkBatchResponse) × ((run_batch (engine {S = ℕ} nothing) (codes "a") batch 0).0
      ≡ ok m)
    × MeasuresBoth 2 1 m
unfolding is_bad_batch
run_batch-Measures_example = run_batch-Measures engine-Serves (codes "a") batch 0 refl

abbrev request : Text → Request
request path = record {
  method = get;
  url = ok (path, []);
  authorization = ok (some (codes "Bearer t"));
  put_body = err (codes "no body");
  key_body = err (codes "no body");
  benchmark_body = err (codes "no body");
}

abbrev env : Env ℕ
env = record {
  secret = λ name. ok (codes "t");
  durable_object = λ binding. ok tt;
  id_from_name = λ name. ok tt;
  fetch_with_request = λ name req s. (err (codes "not there"), s);
}

main-Sent_example :
    let req = request (codes "/v1/db/a/get") in
    AnsweredHere env req (main env req) ⊎ (IsAuthorized env req × SentOn env req (main env req))
main-Sent_example = main-Sent env (request (codes "/v1/db/a/get"))

abbrev shared_object : SlateDbObject (Shared Memory) Text (Unit {0})
shared_object = record { shared = state (λ j. none); active = some open_a }

abbrev scans : List Request
scans = request (codes "/v1/db/b/scan") ∷ request (codes "/elsewhere") ∷ []

fetches-open_example :
    (fetches (engine nothing) builder memory codec scans shared_object).1.active ≡ some open_a
unfolding slatedb_cloudflare.DurableObject.Names.route_segments split
    slatedb_cloudflare.Prelude.trim_end_matches slatedb_cloudflare.Prelude.text_eq
    slatedb_cloudflare.DurableObject.Routing.database_and_tail
    slatedb_cloudflare.DurableObject.Routing.operation_of
fetches-open_example =
    fetches-open (engine nothing) builder memory codec scans shared_object open_a (refl, (refl, tt))
      refl
