-- ===== src/DurableObject/Routing.antt =====
-- How durable-object/src/lib.rs reads the operation of a request from its method, path and query,
-- and what it answers with.
use slatedb_cloudflare.Prelude.{
  ℕ, ◌^◌, min, Text, codes, Bool, true, false, ◌&&◌, Option, none, some, List, [], ◌∷◌, map, ltb,
  if◌then◌else◌, text_eq, to_option, parse_unsigned,
}
use mathlib.Core.Option
use slatedb_cloudflare.Slatedb.{MetricValue, Metric}
use slatedb_cloudflare.DurableObject.Names.{find_pair, Pairs}
use slatedb_cloudflare.DurableObject.Server.{database}
use slatedb_cloudflare.DurableObject.Web.{
  HttpMethod, get, post, other, Response, Content, error_text, SlateMetric, SlateMetricValue,
}

-- `Response::from_json` and `Response::error`
abbrev pub from_json : Content → Response
from_json content = record { status = 200; content = content }

abbrev pub error_response : Text → ℕ → Response
error_response message status = record { status = status; content = error_text message }

slate_value : MetricValue → SlateMetricValue
slate_value (MetricValue.counter value) = SlateMetricValue.counter value
slate_value (MetricValue.gauge value) = SlateMetricValue.gauge value
slate_value (MetricValue.up_down_counter value) = SlateMetricValue.up_down_counter value
slate_value (MetricValue.histogram count sum min max boundaries bucket_counts) =
    SlateMetricValue.histogram count sum min max boundaries bucket_counts

unfoldable pub slate_metrics : List Metric → List SlateMetric
unfolding slate_value
slate_metrics all =
    map
      (λ (metric : Metric). record {
        name = metric.name;
        labels = metric.labels;
        value = slate_value metric.value;
      })
      all

-- `str::parse::<usize>().ok()`, where `usize` has 32 bits
unfoldable pub parse_usize : Text → Option ℕ
parse_usize text = to_option (parse_unsigned (2 ^ 32) text)

-- `clamp(1, 1000)`
abbrev pub clamp : ℕ → ℕ
clamp limit = if ltb limit 1 then 1 else if ltb 1000 limit then 1000 else limit

unfoldable pub scan_limit : Pairs → ℕ
unfolding parse_usize
scan_limit pairs =
    clamp (Option.get_or (Option.bind (find_pair (codes "limit") pairs) parse_usize) 100)

-- the arms of the `match` of `handle`
pub data Operation : Type 0 where
  to_put to_benchmark to_get to_delete to_scan to_reopen to_flush to_clear to_stats to_nothing :
      Operation

same_segments : List Text → List Text → Bool
same_segments [] [] = true
same_segments [] (t ∷ ts) = false
same_segments (s ∷ ss) [] = false
same_segments (s ∷ ss) (t ∷ ts) = text_eq s t && same_segments ss ts

unfoldable pub operation_of : HttpMethod → List Text → Operation
unfolding same_segments
operation_of post tail =
    if same_segments tail (codes "put" ∷ [])
    then to_put
    else if same_segments tail (codes "admin" ∷ codes "benchmark" ∷ codes "batch" ∷ [])
    then to_benchmark
    else if same_segments tail (codes "delete" ∷ [])
    then to_delete
    else if same_segments tail (codes "admin" ∷ codes "reopen" ∷ [])
    then to_reopen
    else if same_segments tail (codes "admin" ∷ codes "flush" ∷ [])
    then to_flush
    else if same_segments tail (codes "admin" ∷ codes "cache" ∷ codes "clear" ∷ [])
    then to_clear
    else to_nothing
operation_of get tail =
    if same_segments tail (codes "get" ∷ [])
    then to_get
    else if same_segments tail (codes "scan" ∷ [])
    then to_scan
    else if same_segments tail (codes "stats" ∷ [])
    then to_stats
    else to_nothing
operation_of other tail = to_nothing

-- `segments[2]` and `&segments[3..]`
unfoldable pub database_and_tail : List Text → Option (Text × List Text)
database_and_tail (version ∷ db ∷ database ∷ tail) = some (database, tail)
database_and_tail _ = none
