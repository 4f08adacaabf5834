-- ===== src/DurableObject/State.antt =====
-- The state that the components of the Durable Object share: the counters, an `Arc<PerfCounters>`,
-- and the world beyond the bindings.
use slatedb_cloudflare.Prelude.{ℕ, ok, Exec}
use slatedb_cloudflare.DurableObject.Perf.{Counter, PerfCounters, default, increment}

pub record Shared (W : Type 0) : Type 0 where
  pub perf : PerfCounters
  pub world : W

module _ {W E : Type 0} where
  -- `increment(&self.perf.counter, value)`
  abbrev pub count : Counter → ℕ → Exec (Shared W) E (Unit {0})
  count counter value s = (ok tt, record s { perf = increment counter value s.perf })

-- What `SlateDbObject::new` gives all parts to share: new counters, beside the bindings.
abbrev pub new_shared : {W : Type 0} → W → Shared W
new_shared w = record { perf = default; world = w }
