-- ===== src/DurableObject/DoCache/Accounting/Heads.antt =====
-- The counters of `read_head`, `delete` and `is_populated`.
use slatedb_cloudflare.Prelude.{
  ℕ, Text, String, Option, none, some, List, [], ◌∷◌, Result, ok, err, pure, continue,
  continue-elim, Bool, length, arith,
}
use mathlib.Core.Option
use slatedb_cloudflare.ObjectStore.{Error, ObjectMeta}
use slatedb_cloudflare.DurableObject.Perf.{
  PerfCounters, increment, cache_head_reads, do_kv_gets, cache_errors, do_kv_deletes,
}
use slatedb_cloudflare.DurableObject.State.{Shared, count}
use slatedb_cloudflare.DurableObject.DoCache.KeyValue.{Storage, HeadCodec}
use slatedb_cloudflare.DurableObject.DoCache.{
  DoCacheEntry, head_key, read_head, delete, delete_chunks, is_populated, count_head, open_head,
  delete_parts, ok_flatten, cache_prefix, count_deleted,
}
use slatedb_cloudflare.DurableObject.DoCache.Accounting.Calls.{
  Failures, Accounted, to_read_head, to_delete, to_is_populated, tell-elim, after, fail_at,
}

module _ {W Head Attributes : Type 0} (storage : Storage W Head)
    (codec : HeadCodec Head Attributes) where
  -- the counters when a head is asked for
  abbrev head_asked : Shared W → PerfCounters
  head_asked s = increment do_kv_gets 1 (increment cache_head_reads 1 s.perf)

  counted_head-Accounted :
      (found : Option Head) (s : Shared W) (w : W) (failed : Failures)
      → Accounted s.perf failed
      → Accounted
          (count_head storage codec found (record { perf = head_asked s; world = w })).1.perf
          failed
  unfolding increment
  counted_head-Accounted none s w failed a = ground arith
  counted_head-Accounted (some head) s w failed a = ground arith

  pub read_head-Accounted :
      (self : DoCacheEntry) (s : Shared W) (failed : Failures)
      → Accounted s.perf failed
      → Accounted
          (after storage codec (to_read_head self) s).perf
          (fail_at storage codec (to_read_head self) s failed)
  unfolding after fail_at read_head
  read_head-Accounted self s failed a =
      tell-elim
        (λ (r : Result Error (Option Head) × Shared W).
          Accounted
            (continue r.0 (λ head. pure {E = Error} (Option.map (open_head storage codec) head))
              r.1).1.perf
            (fail_at storage codec (to_read_head self) s failed))
        (storage.get_head (head_key self.prefix)) (count_head storage codec) (count cache_errors 1)
        (record s { perf = head_asked s })
        (λ found e. rw e (counted_head-Accounted found s _ failed a))
        (λ error e. rw e (unfold increment in ground arith))

  -- What `delete` counts beside its read of the head.
  deletes-Accounted :
      (n : ℕ) (perf : PerfCounters) (failed : Failures)
      → Accounted perf failed
      → Accounted (increment do_kv_deletes n perf) failed
  unfolding increment
  deletes-Accounted n perf failed a = ground arith

  deleted-Accounted :
      (answer : Result String ℕ) (s : Shared W) (failed : Failures)
      → Accounted s.perf failed
      → Accounted (count_deleted storage codec (answer, s)).perf failed
  unfolding increment
  deleted-Accounted (ok deleted) s failed a = ground arith
  deleted-Accounted (err error) s failed a = a

  delete_chunks-Accounted :
      (chunks : List (List Text)) (s : Shared W) (failed : Failures)
      → Accounted s.perf failed
      → Accounted (delete_chunks storage codec chunks s).perf failed
  unfolding delete_chunks
  delete_chunks-Accounted [] s failed a = a
  delete_chunks-Accounted (chunk ∷ chunks) s failed a = delete_chunks-Accounted chunks _ failed (
      deleted-Accounted (storage.delete_multiple chunk s.world).0 _ failed
        (deletes-Accounted (length chunk) s.perf failed a))

  delete_parts-Accounted :
      (self : DoCacheEntry) (found : Option (ObjectMeta × Attributes)) (s : Shared W)
      (failed : Failures)
      → Accounted s.perf failed
      → Accounted (delete_parts storage codec self found s).perf failed
  delete_parts-Accounted self none s failed a = a
  delete_parts-Accounted self (some (meta, attributes)) s failed a =
      delete_chunks-Accounted _ s failed a

  pub delete-Accounted :
      (self : DoCacheEntry) (s : Shared W) (failed : Failures)
      → Accounted s.perf failed
      → Accounted
          (after storage codec (to_delete self) s).perf
          (fail_at storage codec (to_delete self) s failed)
  unfolding after fail_at delete
  delete-Accounted self s failed a =
      let (head, s₁) = read_head storage codec self s in
      delete_parts-Accounted self (ok_flatten storage codec head) _ _ (
        deleted-Accounted _ _ _
          (deletes-Accounted 1 s₁.perf _ (read_head-Accounted self s failed a)))

  pub is_populated-Accounted :
      (s : Shared W) (failed : Failures)
      → Accounted s.perf failed
      → Accounted
          (after storage codec to_is_populated s).perf
          (fail_at storage codec to_is_populated s failed)
  unfolding after fail_at is_populated increment
  is_populated-Accounted s failed a =
      continue-elim (λ (r : Result String Bool × Shared W). Accounted r.1.perf failed)
        (storage.list_size cache_prefix 1 s.world).0 _ _ (λ error. ground arith)
        (λ size e. ground arith)
