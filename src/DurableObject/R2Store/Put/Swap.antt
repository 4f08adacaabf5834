-- ===== src/DurableObject/R2Store/Put/Swap.antt =====
-- What `put_opts` of durable-object/src/r2_store.rs promises in each mode, over a bucket that
-- behaves as documented.
use slatedb_cloudflare.Prelude.{
  String, Text, Bytes, true, false, Option, none, some, Result, ok, err, text_eq, if◌then◌else◌,
  Result-cases, inl, inr, ◌≡◌, ◌≢◌, refl, arith,
}
use slatedb_cloudflare.ObjectStore.{
  Error, already_exists, precondition, not_supported, generic, PutMode, PutResult, PutPayload,
}
use slatedb_cloudflare.DurableObject.R2Store.{R2Store, Shared, generic_error}
use slatedb_cloudflare.DurableObject.R2Store.Binding.{Bucket, Object, default_conditional}
use slatedb_cloudflare.DurableObject.R2Store.Documented.{
  EtagCondition, unconditional, empty, absent, is_at, meets, to_conditional, Documented,
}
use slatedb_cloudflare.DurableObject.R2Store.Put.{
  collect_payload, put_conditional, put_opts, put_bytes, failed_put_precondition,
}

-- The condition that a mode asks for. An update that names a version and no ETag asks for what R2
-- cannot test; one that names neither asks for nothing.
abbrev pub update_condition : Option Text → Option Text → Option EtagCondition
update_condition (some etag) version = some (is_at etag)
update_condition none (some version) = none
update_condition none none = some empty

abbrev pub mode_condition : PutMode → Option EtagCondition
mode_condition PutMode.overwrite = some unconditional
mode_condition PutMode.create = some absent
mode_condition (PutMode.update version) = update_condition version.e_tag version.version

module _ {W : Type 0} {bucket : Bucket W} (r2 : Documented bucket) (key : Text) (bytes : Bytes)
    (mode : PutMode) where
  open r2 use {stored}

  abbrev Unchanged : W → W → Type 0
  Unchanged w w' = (j : Text) → stored w' j ≡ stored w j

  abbrev Refused : W → W → Type 0
  Refused w w' =
      (condition : EtagCondition) × (mode_condition mode ≡ some condition)
      × (meets condition (stored w key) ≡ false)
      × Unchanged w w'

  -- What has happened, by the answer.
  abbrev pub Swapped : W → Result Error PutResult × W → Type 0
  Swapped w (ok result, w') =
      (condition : EtagCondition) × (etag : Text) × (mode_condition mode ≡ some condition)
      × (result.e_tag ≡ some etag)
      × (meets condition (stored w key) ≡ true)
      × ((j : Text)
          → stored w' j
            ≡ (if text_eq key j then some (record { etag = etag; bytes = bytes }) else stored w j))
  Swapped w (err (already_exists path source), w') =
      (mode ≡ PutMode.create) × (path ≡ key) × Refused w w'
  Swapped w (err (precondition path source), w') =
      (mode ≢ PutMode.create) × (path ≡ key) × Refused w w'
  Swapped w (err (not_supported source), w') = (mode_condition mode ≡ none) × (w' ≡ w)
  Swapped w (err (generic name source), w') =
      (j : Text) → text_eq key j ≡ false → stored w' j ≡ stored w j
  Swapped w (err _, w') = ⊥

module _ {W : Type 0} {bucket : Bucket W} (r2 : Documented bucket) (key : Text)
    (bytes : Bytes) where
  Refused-Swapped :
      (mode : PutMode) (w w' : W)
      → Refused r2 key bytes mode w w'
      → Swapped r2 key bytes mode w (err (failed_put_precondition key mode), w')
  unfolding failed_put_precondition
  Refused-Swapped PutMode.create w w' h = (refl, refl, h)
  Refused-Swapped PutMode.overwrite w w' h = ((λ e. cc), refl, h)
  Refused-Swapped (PutMode.update version) w w' h = ((λ e. cc), refl, h)

module _ {W : Type 0} {bucket : Bucket W} (r2 : Documented bucket) (store : R2Store W) (key : Text)
    (bytes : Bytes) (mode : PutMode) (s : Shared W)
    (available : store.bucket_of store.binding ≡ ok bucket) where
  open r2 use {put_stored, put_refused, put_failed}

  abbrev PutSwaps : Type 0
  PutSwaps =
      let (answer, s') = put_bytes store key bytes mode s in
      Swapped r2 key bytes mode s.world (answer, s'.world)

  put_bytes-unsupported :
      (source : String)
      → mode_condition mode ≡ none
      → put_conditional mode ≡ err (not_supported source)
      → PutSwaps
  unfolding put_bytes
  put_bytes-unsupported source none_here refused = rw (available, refused) (none_here, refl)

  put_bytes-at :
      (condition : EtagCondition)
      → mode_condition mode ≡ some condition
      → put_conditional mode ≡ ok (to_conditional condition)
      → PutSwaps
  unfolding put_bytes
  put_bytes-at condition here sent =
      elim (Result-cases (bucket.put key bytes (to_conditional condition) s.world).0) [
        | inl (none, e) ↦
            rw (available, sent, e)
              (Refused-Swapped r2 key bytes mode _ _ (
                condition,
                here,
                (put_refused key bytes condition s.world e).0,
                (put_refused key bytes condition s.world e).1,
              ))
        | inl (some object, e) ↦
            rw (available, sent, e)
              (
                condition,
                object.etag,
                here,
                refl,
                (put_stored key bytes condition s.world object e).0,
                (put_stored key bytes condition s.world object e).1,
              )
        | inr (error, e) ↦ rw (available, sent, e) (put_failed key bytes condition s.world error e)
      ]

module _ {W : Type 0} {bucket : Bucket W} (r2 : Documented bucket) (store : R2Store W) (key : Text)
    (s : Shared W) (available : store.bucket_of store.binding ≡ ok bucket) where
  put_bytes-update :
      (bytes : Bytes) (e_tag version : Option Text)
      → PutSwaps r2 store key bytes
          (PutMode.update (record { e_tag = e_tag; version = version }))
          s
          available
  unfolding put_conditional
  put_bytes-update bytes (some etag) version =
      put_bytes-at r2 store key bytes _ s available (is_at etag) refl (ground arith)
  put_bytes-update bytes none (some version) =
      put_bytes-unsupported r2 store key bytes _ s available _ refl refl
  put_bytes-update bytes none none = put_bytes-at r2 store key bytes _ s available empty refl refl

  put_bytes-Swapped :
      (bytes : Bytes) (mode : PutMode) → PutSwaps r2 store key bytes mode s available
  unfolding put_conditional
  put_bytes-Swapped bytes PutMode.overwrite =
      put_bytes-at r2 store key bytes _ s available unconditional refl refl
  put_bytes-Swapped bytes PutMode.create =
      put_bytes-at r2 store key bytes _ s available absent refl refl
  put_bytes-Swapped bytes (PutMode.update version) =
      put_bytes-update bytes version.e_tag version.version

  -- A put is a compare-and-swap of its key. If it succeeds, what the key held met the condition
  -- of the mode (that it be free in mode `create`, the ETag in mode `update`), and the key now
  -- holds the collected payload under the ETag that is answered, and no other key has changed.
  -- `AlreadyExists` is answered in mode `create` alone and `Precondition` in the other modes
  -- alone, each with the key itself, and then the condition failed and nothing has changed.
  -- `NotSupported` is answered only for a mode that R2 cannot test, and nothing was sent. There
  -- is no other answer but a generic error, as when the binding fails, and then no other key has
  -- changed. The binding is available and R2 behaves as documented.
  pub put_opts-Swapped :
      (payload : PutPayload) (mode : PutMode)
      → let (answer, s') = put_opts store key payload mode s in
        Swapped r2 key (collect_payload payload) mode s.world (answer, s'.world)
  unfolding put_opts
  put_opts-Swapped payload mode = put_bytes-Swapped (collect_payload payload) mode

  -- What an unchecked put has done, by what R2 answered to it: it overwrote the key.
  abbrev pub Overwrites :
      Bytes → Result String (Option Object) → Result Error PutResult → W → Type 0
  Overwrites bytes (ok (some object)) answer w' =
      (answer ≡ ok (record { e_tag = some object.etag; version = some object.version }))
      × ((j : Text)
          → r2.stored w' j ≡ (
              if text_eq key j
              then some (record { etag = object.etag; bytes = bytes })
              else r2.stored s.world j))
  Overwrites bytes (ok none) answer w' = ⊥
  Overwrites bytes (err error) answer w' = answer ≡ err (generic_error error)

  -- An update that names neither an ETag nor a version is not checked: it sends R2 a put with an
  -- empty condition, which is never refused; if R2 stores it, the key now holds the payload,
  -- whatever it held before, and that is answered; only if R2 fails does the update fail, with R2's
  -- error. The binding is available and R2 behaves as documented.
  pub put_opts-update_unchecked :
      (payload : PutPayload)
      → let mode = PutMode.update (record { e_tag = none; version = none }) in
        let bytes = collect_payload payload in
        let (sent, w) = bucket.put key bytes (some default_conditional) s.world in
        let (answer, s') = put_opts store key payload mode s in
        (s'.world ≡ w) × Overwrites bytes sent answer s'.world
  unfolding put_opts put_bytes put_conditional
  put_opts-update_unchecked payload =
      let bytes = collect_payload payload in
      elim (Result-cases (bucket.put key bytes (some default_conditional) s.world).0) [
        | inl (none, e) ↦ absurd (ground (arith, (r2.put_refused key bytes empty s.world e).0))
        | inl (some object, e) ↦
            rw (available, e) (refl, (refl, (r2.put_stored key bytes empty s.world object e).1))
        | inr (error, e) ↦ rw (available, e) (refl, refl)
      ]
