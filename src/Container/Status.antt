-- ===== src/Container/Status.antt =====
-- What container/src/main.rs answers about itself: its health, its status with SlateDB's metrics,
-- and its errors.
use slatedb_cloudflare.Prelude.{ℕ, Text, codes, Bool, true, List, map}
use slatedb_cloudflare.Slatedb.{MetricValue, Metric}
use slatedb_cloudflare.Container.Measures.{AppError}

-- An `f64` and an `i64` are given by their bits.
pub data SlateMetricValue : Type 0 where
  counter gauge up_down_counter : ℕ → SlateMetricValue
  histogram : (count sum min max : ℕ) (boundaries bucket_counts : List ℕ) → SlateMetricValue

pub record SlateMetric : Type 0 where
  pub name : Text
  pub labels : List (Text × Text)
  pub value : SlateMetricValue

pub record StatusResponse : Type 0 where
  pub runtime : Text
  pub open_now : Bool
  pub cache_populated : Bool
  pub cache_storage_bytes : ℕ
  pub adapter : List (Text × ℕ)
  pub slatedb : List SlateMetric

slate_value : MetricValue → SlateMetricValue
slate_value (MetricValue.counter value) = SlateMetricValue.counter value
slate_value (MetricValue.gauge value) = SlateMetricValue.gauge value
slate_value (MetricValue.up_down_counter value) = SlateMetricValue.up_down_counter value
slate_value (MetricValue.histogram count sum min max boundaries bucket_counts) =
    SlateMetricValue.histogram count sum min max boundaries bucket_counts

unfoldable pub slate_metrics : List Metric → List SlateMetric
unfolding slate_value
slate_metrics all =
    map
      (λ (metric : Metric). record {
        name = metric.name;
        labels = metric.labels;
        value = slate_value metric.value;
      })
      all

-- the answer of `health`
pub record Health : Type 0 where
  pub is_ok : Bool
  pub service : Text

abbrev pub health : Health
health = record { is_ok = true; service = codes "slatedb-cloudflare-container" }

-- What an error is answered as: its status, and a body with its message under `error`.
pub record ErrorResponse : Type 0 where
  pub status : ℕ
  pub error : Text

abbrev pub into_response : AppError → ErrorResponse
into_response self = record { status = self.status; error = self.message }
