-- ===== src/DurableObject/Perf/Laws.antt =====
-- What a snapshot shows after increments.
use slatedb_cloudflare.Prelude.{
  ℕ, ◌+◌, ◌<◌, ◌%◌, ◌≡◌, refl, ◌==◌, ==_refl, List, [], ◌∷◌, if◌then◌else◌, arith,
}
use slatedb_cloudflare.DurableObject.Perf.{
  Counter, index, default, PerfCounters, increment, PerfSnapshot, snapshot, u64_mod,
}

-- the field of a snapshot that has a counter's name
unfoldable pub field : Counter → PerfSnapshot → ℕ
field Counter.cache_part_reads s = s.cache_part_reads
field Counter.cache_part_hits s = s.cache_part_hits
field Counter.cache_part_misses s = s.cache_part_misses
field Counter.cache_requested_bytes s = s.cache_requested_bytes
field Counter.cache_loaded_bytes s = s.cache_loaded_bytes
field Counter.cache_returned_bytes s = s.cache_returned_bytes
field Counter.cache_part_writes s = s.cache_part_writes
field Counter.cache_written_bytes s = s.cache_written_bytes
field Counter.cache_head_reads s = s.cache_head_reads
field Counter.cache_head_hits s = s.cache_head_hits
field Counter.cache_head_misses s = s.cache_head_misses
field Counter.cache_head_writes s = s.cache_head_writes
field Counter.cache_errors s = s.cache_errors
field Counter.do_kv_gets s = s.do_kv_gets
field Counter.do_kv_puts s = s.do_kv_puts
field Counter.do_kv_deletes s = s.do_kv_deletes
field Counter.do_kv_delete_alls s = s.do_kv_delete_alls
field Counter.do_kv_lists s = s.do_kv_lists
field Counter.do_kv_rows_read s = s.do_kv_rows_read
field Counter.do_kv_rows_written s = s.do_kv_rows_written
field Counter.r2_gets s = s.r2_gets
field Counter.r2_heads s = s.r2_heads
field Counter.r2_puts s = s.r2_puts
field Counter.r2_lists s = s.r2_lists
field Counter.r2_deletes s = s.r2_deletes
field Counter.r2_read_bytes s = s.r2_read_bytes
field Counter.r2_written_bytes s = s.r2_written_bytes
field Counter.r2_multipart_uploads s = s.r2_multipart_uploads
field Counter.r2_multipart_parts s = s.r2_multipart_parts
field Counter.r2_multipart_completes s = s.r2_multipart_completes
field Counter.r2_errors s = s.r2_errors

pub field-snapshot : (c : Counter) (p : PerfCounters) → field c (snapshot p) ≡ p c
unfolding field snapshot
field-snapshot Counter.cache_part_reads p = refl
field-snapshot Counter.cache_part_hits p = refl
field-snapshot Counter.cache_part_misses p = refl
field-snapshot Counter.cache_requested_bytes p = refl
field-snapshot Counter.cache_loaded_bytes p = refl
field-snapshot Counter.cache_returned_bytes p = refl
field-snapshot Counter.cache_part_writes p = refl
field-snapshot Counter.cache_written_bytes p = refl
field-snapshot Counter.cache_head_reads p = refl
field-snapshot Counter.cache_head_hits p = refl
field-snapshot Counter.cache_head_misses p = refl
field-snapshot Counter.cache_head_writes p = refl
field-snapshot Counter.cache_errors p = refl
field-snapshot Counter.do_kv_gets p = refl
field-snapshot Counter.do_kv_puts p = refl
field-snapshot Counter.do_kv_deletes p = refl
field-snapshot Counter.do_kv_delete_alls p = refl
field-snapshot Counter.do_kv_lists p = refl
field-snapshot Counter.do_kv_rows_read p = refl
field-snapshot Counter.do_kv_rows_written p = refl
field-snapshot Counter.r2_gets p = refl
field-snapshot Counter.r2_heads p = refl
field-snapshot Counter.r2_puts p = refl
field-snapshot Counter.r2_lists p = refl
field-snapshot Counter.r2_deletes p = refl
field-snapshot Counter.r2_read_bytes p = refl
field-snapshot Counter.r2_written_bytes p = refl
field-snapshot Counter.r2_multipart_uploads p = refl
field-snapshot Counter.r2_multipart_parts p = refl
field-snapshot Counter.r2_multipart_completes p = refl
field-snapshot Counter.r2_errors p = refl

-- The field of counter `c` shows what it showed before, plus the value if `c` is the counter that
-- was incremented, modulo 2 ^ 64.
pub snapshot-increment :
    (c d : Counter) (value : ℕ) (p : PerfCounters)
    → field d (snapshot (increment c value p)) ≡ (
        if index c == index d
        then (field d (snapshot p) + value) % u64_mod
        else field d (snapshot p))
unfolding increment
snapshot-increment c d value p = rw (field-snapshot, field-snapshot)

pub increment_self :
    (c : Counter) (value : ℕ) (p : PerfCounters) → increment c value p c ≡ (p c + value) % u64_mod
unfolding increment
increment_self c value p = rw (==_refl (index c))

-- a run of increments, in order
unfoldable pub increments : List (Counter × ℕ) → PerfCounters → PerfCounters
increments [] p = p
increments ((c, value) ∷ rest) p = increments rest (increment c value p)

-- the values that a run adds to one counter
unfoldable pub total : Counter → List (Counter × ℕ) → ℕ
total d [] = 0
total d ((c, value) ∷ rest) = (if index c == index d then value else 0) + total d rest

increments-total_from :
    (run : List (Counter × ℕ)) (d : Counter) (p : PerfCounters)
    → p d < u64_mod
    → increments run p d ≡ (p d + total d run) % u64_mod
unfolding increments total increment
increments-total_from [] d p h = omega arith
increments-total_from ((c, value) ∷ rest) d p h =
    rw (increments-total_from rest d (increment c value p) (ground arith)) (ground arith)

-- Whatever counters were incremented from the start, in whatever order, each field of the snapshot
-- shows the sum of the values that went to its own counter, modulo 2 ^ 64.
pub snapshot-increments :
    (run : List (Counter × ℕ)) (d : Counter)
    → field d (snapshot (increments run default)) ≡ total d run % u64_mod
unfolding default
snapshot-increments run d =
    rw field-snapshot (omega (arith, increments-total_from run d default (omega arith)))
