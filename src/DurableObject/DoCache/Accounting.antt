-- ===== src/DurableObject/DoCache/Accounting.antt =====
-- What the counters of the cache add up to.
pub mod Calls
pub mod Parts
pub mod Heads
use slatedb_cloudflare.Prelude.{
  ℕ, zero, suc, ◌+◌, ◌-◌, ◌%◌, Text, Bytes, String, Option, none, some, List, [], ◌∷◌, Result, ok,
  err, Result-cases, Option-cases, inl, inr, ◌>>=◌, ◌>>◌, pure, continue, continue-elim, Bool,
  map_err, length, ◌≡◌, refl, arith,
}
use mathlib.Core.Option
use slatedb_cloudflare.ObjectStore.{Error, ObjectMeta, ByteRange}
use slatedb_cloudflare.DurableObject.Perf.{
  Counter, PerfCounters, default, increment, u64_mod, cache_part_reads, cache_part_hits,
  cache_part_misses, cache_head_reads, cache_head_hits, cache_head_misses, cache_part_writes,
  cache_head_writes, do_kv_gets, do_kv_puts, do_kv_rows_written, cache_written_bytes, cache_errors,
  cache_requested_bytes, cache_loaded_bytes, do_kv_rows_read, do_kv_deletes,
}
use slatedb_cloudflare.DurableObject.State.{Shared, count, new_shared}
use slatedb_cloudflare.DurableObject.DoCache.KeyValue.{Call, Storage, HeadCodec}
use slatedb_cloudflare.DurableObject.DoCache.{
  DoCacheEntry, head_key, part_key, save_part, read_part, cached_range, save_head, read_head,
  delete, delete_chunks, clear, is_populated, read_loaded, ranged, get_range, count_head, open_head,
  delete_parts, ok_flatten, cache_prefix, count_deleted, tell, call, Method, cache_error,
}
use slatedb_cloudflare.DurableObject.DoCache.Accounting.Calls.{
  Failures, no_failures, Accounted, CacheCall, to_save_part, to_read_part, to_save_head,
  to_read_head, to_delete, to_clear, to_is_populated, tell-elim, after, fail_at,
}
use slatedb_cloudflare.DurableObject.DoCache.Accounting.Parts.{
  save_part-Accounted, save_head-Accounted, read_part-Accounted,
}
use slatedb_cloudflare.DurableObject.DoCache.Accounting.Heads.{
  read_head-Accounted, delete-Accounted, is_populated-Accounted,
}

module _ {W Head Attributes : Type 0} (storage : Storage W Head)
    (codec : HeadCodec Head Attributes) where
  after-Accounted :
      (call : CacheCall Attributes) (s : Shared W) (failed : Failures)
      → Accounted s.perf failed
      → Accounted (after storage codec call s).perf (fail_at storage codec call s failed)
  after-Accounted (to_save_part self number bytes) s failed a =
      save_part-Accounted storage codec self number bytes s failed a
  after-Accounted (to_read_part self number range) s failed a =
      read_part-Accounted storage codec self number range s failed a
  after-Accounted (to_save_head self meta attributes) s failed a =
      save_head-Accounted storage codec self meta attributes s failed a
  after-Accounted (to_read_head self) s failed a = read_head-Accounted storage codec self s failed a
  after-Accounted (to_delete self) s failed a = delete-Accounted storage codec self s failed a
  after-Accounted to_clear s failed a = unfold after fail_at clear increment in ground arith
  after-Accounted to_is_populated s failed a = is_populated-Accounted storage codec s failed a

  unfoldable pub after_all : List (CacheCall Attributes) → Shared W → Shared W
  after_all [] s = s
  after_all (call ∷ calls) s = after_all calls (after storage codec call s)

  unfoldable pub fail_in : List (CacheCall Attributes) → Shared W → Failures → Failures
  fail_in [] s failed = failed
  fail_in (call ∷ calls) s failed =
      fail_in calls (after storage codec call s) (fail_at storage codec call s failed)

  after_all-Accounted_from :
      (calls : List (CacheCall Attributes)) (s : Shared W) (failed : Failures)
      → Accounted s.perf failed
      → Accounted (after_all calls s).perf (fail_in calls s failed)
  unfolding after_all fail_in
  after_all-Accounted_from [] s failed a = a
  after_all-Accounted_from (call ∷ calls) s failed a =
      after_all-Accounted_from calls (after storage codec call s)
        (fail_at storage codec call s failed) (after-Accounted call s failed a)

  -- Whatever calls are made on the cache and its entries from the start, in whatever order and
  -- whatever fails: every read of a part, and every read of a head, is counted as a hit or a miss
  -- or has failed in the storage; the gets of the storage are the reads of both; its puts are the
  -- parts and heads written and those that have failed. All sums are modulo 2 ^ 64.
  pub after_all-Accounted :
      (calls : List (CacheCall Attributes)) (w : W)
      → Accounted (after_all calls (new_shared w)).perf (fail_in calls (new_shared w) no_failures)
  unfolding default
  after_all-Accounted calls w =
      after_all-Accounted_from calls (new_shared w) no_failures (ground arith)
