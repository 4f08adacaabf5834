-- ===== src/DurableObject/Perf/Tests.antt =====
-- The counters of a short run.
use slatedb_cloudflare.Prelude.{ℕ, ◌-◌, ◌%◌, List, [], ◌∷◌, ◌≡◌}
use slatedb_cloudflare.DurableObject.Perf.{
  Counter, r2_puts, r2_written_bytes, snapshot, default, u64_mod,
}
use slatedb_cloudflare.DurableObject.Perf.Laws.{increments, total, field, snapshot-increments}

-- The third increment wraps around.
abbrev run : List (Counter × ℕ)
run = (r2_written_bytes, 5) ∷ (r2_puts, 1) ∷ (r2_written_bytes, u64_mod - 2) ∷ []

snapshot-increments_example :
    field r2_written_bytes (snapshot (increments run default))
    ≡ total r2_written_bytes run % u64_mod
snapshot-increments_example = snapshot-increments run r2_written_bytes
