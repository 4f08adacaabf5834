-- ===== src/DurableObject/DoCache/Accounting/Calls.antt =====
-- The calls on the cache, what fails in them, and the sums that its counters keep.
use slatedb_cloudflare.Prelude.{ℕ, ◌+◌, ◌%◌, Bytes, String, Result, ok, err, map_err, ◌≡◌, refl}
use slatedb_cloudflare.ObjectStore.{Error, ObjectMeta, ByteRange}
use slatedb_cloudflare.DurableObject.Perf.{
  PerfCounters, u64_mod, cache_part_reads, cache_part_hits, cache_part_misses, cache_head_reads,
  cache_head_hits, cache_head_misses, cache_part_writes, cache_head_writes, do_kv_gets, do_kv_puts,
}
use slatedb_cloudflare.DurableObject.State.{Shared}
use slatedb_cloudflare.DurableObject.DoCache.KeyValue.{Call, Storage, HeadCodec}
use slatedb_cloudflare.DurableObject.DoCache.{
  DoCacheEntry, head_key, part_key, save_part, read_part, save_head, read_head, delete, clear,
  is_populated, tell, call, Method, cache_error,
}

-- How many calls of the storage have failed: reads of parts, reads of heads, and writes.
pub record Failures : Type 0 where
  pub parts : ℕ
  pub heads : ℕ
  pub puts : ℕ

abbrev pub no_failures : Failures
no_failures = record { parts = 0; heads = 0; puts = 0 }

-- Every read is a hit, a miss or a failure, each is one get of the storage, and every put is a
-- write or a failure; all modulo 2 ^ 64.
pub record Accounted (perf : PerfCounters) (failed : Failures) : Type 0 where
  pub parts :
      perf cache_part_reads
      ≡ (perf cache_part_hits + perf cache_part_misses + failed.parts) % u64_mod
  pub heads :
      perf cache_head_reads
      ≡ (perf cache_head_hits + perf cache_head_misses + failed.heads) % u64_mod
  pub gets : perf do_kv_gets ≡ (perf cache_part_reads + perf cache_head_reads) % u64_mod
  pub puts :
      perf do_kv_puts ≡ (perf cache_part_writes + perf cache_head_writes + failed.puts) % u64_mod

-- The calls on a cache and on its entries.
pub data CacheCall (Attributes : Type 0) : Type 0 where
  to_save_part : DoCacheEntry → ℕ → Bytes → CacheCall Attributes
  to_read_part : DoCacheEntry → ℕ → ByteRange → CacheCall Attributes
  to_save_head : DoCacheEntry → ObjectMeta → Attributes → CacheCall Attributes
  to_read_head to_delete : DoCacheEntry → CacheCall Attributes
  to_clear to_is_populated : CacheCall Attributes

abbrev and_failure {ℓ} : {A : Type ℓ} → ℕ → Result String A → ℕ
and_failure n (ok a) = n
and_failure n (err e) = n + 1

module _ {W A : Type 0} where
  told-elim :
      (P : Result Error A × Shared W → Type 0) (good : A → Method W (Unit {0}))
      (bad : Method W (Unit {0})) (r : Result String A) (s : Shared W)
      → ((a : A) → r ≡ ok a → P (ok a, (good a s).1))
      → ((e : String) → r ≡ err e → P (err (cache_error e), (bad s).1))
      → P (tell (λ s'. (map_err cache_error r, s')) good bad s)
  told-elim P good bad (ok a) s worked failed = worked a refl
  told-elim P good bad (err e) s worked failed = failed e refl

  -- To show something of a call that is counted by its answer, show it for either answer.
  pub tell-elim :
      (P : Result Error A × Shared W → Type 0) (m : Call W A) (good : A → Method W (Unit {0}))
      (bad : Method W (Unit {0})) (s : Shared W)
      → ((a : A) → (m s.world).0 ≡ ok a → P (ok a, (good a (record s { world = (m s.world).1 })).1))
      → ((e : String)
          → (m s.world).0 ≡ err e
          → P (err (cache_error e), (bad (record s { world = (m s.world).1 })).1))
      → P (tell (call m) good bad s)
  tell-elim P m good bad s worked failed =
      told-elim P good bad (m s.world).0 (record s { world = (m s.world).1 }) worked failed

module _ {W Head Attributes : Type 0} (storage : Storage W Head)
    (codec : HeadCodec Head Attributes) where
  unfoldable pub after : CacheCall Attributes → Shared W → Shared W
  after (to_save_part self number bytes) s = (save_part storage codec self number bytes s).1
  after (to_read_part self number range) s = (read_part storage codec self number range s).1
  after (to_save_head self meta attributes) s = (save_head storage codec self meta attributes s).1
  after (to_read_head self) s = (read_head storage codec self s).1
  after (to_delete self) s = delete storage codec self s
  after to_clear s = (clear storage codec s).1
  after to_is_populated s = (is_populated storage codec s).1

  -- what a call adds to the failures
  unfoldable pub fail_at : CacheCall Attributes → Shared W → Failures → Failures
  fail_at (to_save_part self number bytes) s failed = record failed {
    puts =
        and_failure failed.puts (storage.put_bytes (part_key self.prefix number) bytes s.world).0;
  }
  fail_at (to_read_part self number range) s failed = record failed {
    parts = and_failure failed.parts (storage.get_bytes (part_key self.prefix number) s.world).0;
  }
  fail_at (to_save_head self meta attributes) s failed = record failed {
    puts =
        and_failure failed.puts
          (storage.put_head (head_key self.prefix) (codec.from meta attributes) s.world).0;
  }
  fail_at (to_read_head self) s failed = record failed {
    heads = and_failure failed.heads (storage.get_head (head_key self.prefix) s.world).0;
  }
  fail_at (to_delete self) s failed = record failed {
    heads = and_failure failed.heads (storage.get_head (head_key self.prefix) s.world).0;
  }
  fail_at to_clear s failed = failed
  fail_at to_is_populated s failed = failed
