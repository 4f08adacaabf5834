-- ===== src/DurableObject/DoCache/Accounting/Parts.antt =====
-- The counters of `save_part`, `save_head` and `read_part`.
use slatedb_cloudflare.Prelude.{
  ℕ, ◌-◌, Bytes, Option, none, some, Result, ◌>>◌, pure, continue, length, arith,
}
use slatedb_cloudflare.ObjectStore.{Error, ObjectMeta, ByteRange}
use slatedb_cloudflare.DurableObject.Perf.{
  PerfCounters, increment, cache_part_reads, cache_part_hits, cache_part_writes, cache_head_writes,
  do_kv_gets, do_kv_rows_written, cache_written_bytes, cache_errors, cache_requested_bytes,
  cache_loaded_bytes, do_kv_rows_read,
}
use slatedb_cloudflare.DurableObject.State.{Shared, count}
use slatedb_cloudflare.DurableObject.DoCache.KeyValue.{Storage, HeadCodec}
use slatedb_cloudflare.DurableObject.DoCache.{
  DoCacheEntry, head_key, part_key, save_part, read_part, cached_range, save_head, read_loaded,
  ranged, get_range,
}
use slatedb_cloudflare.DurableObject.DoCache.Accounting.Calls.{
  Failures, Accounted, to_save_part, to_read_part, to_save_head, tell-elim, after, fail_at,
}

module _ {W Head Attributes : Type 0} (storage : Storage W Head)
    (codec : HeadCodec Head Attributes) where
  pub save_part-Accounted :
      (self : DoCacheEntry) (number : ℕ) (bytes : Bytes) (s : Shared W) (failed : Failures)
      → Accounted s.perf failed
      → Accounted
          (after storage codec (to_save_part self number bytes) s).perf
          (fail_at storage codec (to_save_part self number bytes) s failed)
  unfolding after fail_at save_part increment
  save_part-Accounted self number bytes s failed a =
      tell-elim
        (λ (r : Result Error (Unit {0}) × Shared W).
          Accounted r.1.perf (fail_at storage codec (to_save_part self number bytes) s failed))
        (storage.put_bytes (part_key self.prefix number) bytes)
        (λ _.
          count do_kv_rows_written 1
          >> (count cache_part_writes 1 >> count cache_written_bytes (length bytes)))
        (count cache_errors 1) _ (λ answer e. rw e (ground arith)) (λ error e. rw e (ground arith))

  pub save_head-Accounted :
      (self : DoCacheEntry) (meta : ObjectMeta) (attributes : Attributes) (s : Shared W)
      (failed : Failures)
      → Accounted s.perf failed
      → Accounted
          (after storage codec (to_save_head self meta attributes) s).perf
          (fail_at storage codec (to_save_head self meta attributes) s failed)
  unfolding after fail_at save_head increment
  save_head-Accounted self meta attributes s failed a =
      tell-elim
        (λ (r : Result Error (Unit {0}) × Shared W).
          Accounted r.1.perf (fail_at storage codec (to_save_head self meta attributes) s failed))
        (storage.put_head (head_key self.prefix) (codec.from meta attributes))
        (λ _. count do_kv_rows_written 1 >> count cache_head_writes 1) (count cache_errors 1) _
        (λ answer e. rw e (ground arith)) (λ error e. rw e (ground arith))

  -- the counters when a part is asked for
  abbrev part_asked : ByteRange → Shared W → PerfCounters
  part_asked range s =
      increment cache_requested_bytes (range.end - range.start)
        (increment do_kv_gets 1 (increment cache_part_reads 1 s.perf))

  -- the counters when a part has been found
  abbrev part_found : ByteRange → Bytes → Shared W → W → Shared W
  part_found range bytes s w = record {
    perf =
        increment cache_loaded_bytes (length bytes)
          (increment do_kv_rows_read 1 (increment cache_part_hits 1 (part_asked range s)));
    world = w;
  }

  part_found-Accounted :
      (range : ByteRange) (bytes : Bytes) (s : Shared W) (w : W) (failed : Failures)
      → Accounted s.perf failed
      → Accounted (part_found range bytes s w).perf failed
  unfolding increment
  part_found-Accounted range bytes s w failed a = ground arith

  -- Counters that no equation is about.
  ranged-Accounted :
      (wanted : ℕ) (found : Option Bytes) (s : Shared W) (failed : Failures)
      → Accounted s.perf failed
      → Accounted (ranged {W = W} wanted found s).1.perf failed
  unfolding increment
  ranged-Accounted wanted none s failed a = ground arith
  ranged-Accounted wanted (some slice) s failed a = ground arith

  read_loaded-Accounted :
      (range : ByteRange) (found : Option Bytes) (s : Shared W) (w : W) (failed : Failures)
      → Accounted s.perf failed
      → Accounted
          (read_loaded storage codec range found
            (record { perf = part_asked range s; world = w })).1.perf
          failed
  unfolding cached_range
  read_loaded-Accounted range none s w failed a = unfold increment in ground arith
  read_loaded-Accounted range (some bytes) s w failed a =
      ranged-Accounted (range.end - range.start) (get_range bytes range)
        (part_found range bytes s w) failed (part_found-Accounted range bytes s w failed a)

  pub read_part-Accounted :
      (self : DoCacheEntry) (number : ℕ) (range : ByteRange) (s : Shared W) (failed : Failures)
      → Accounted s.perf failed
      → Accounted
          (after storage codec (to_read_part self number range) s).perf
          (fail_at storage codec (to_read_part self number range) s failed)
  unfolding after fail_at read_part
  read_part-Accounted self number range s failed a =
      tell-elim
        (λ (r : Result Error (Option Bytes) × Shared W).
          Accounted (continue r.0 (read_loaded storage codec range) r.1).1.perf
            (fail_at storage codec (to_read_part self number range) s failed))
        (storage.get_bytes (part_key self.prefix number)) (λ _. pure tt) (count cache_errors 1)
        (record s { perf = part_asked range s })
        (λ found e. rw e (read_loaded-Accounted range found s _ failed a))
        (λ error e. rw e (unfold increment in ground arith))
