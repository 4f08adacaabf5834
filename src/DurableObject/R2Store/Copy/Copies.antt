-- ===== src/DurableObject/R2Store/Copy/Copies.antt =====
-- What a copy leaves behind, over a bucket that behaves as documented.
use slatedb_cloudflare.Prelude.{
  continue, pure, subst, sym, Text, Bytes, Bool, true, false, Option, some, [], ◌∷◌, Result, ok,
  err, Result-cases, inl, inr, ◌≡◌, refl, ◌∙◌, arith, is_none, text_eq, if◌then◌else◌,
}
use slatedb_cloudflare.ObjectStore.{
  Error, already_exists, precondition, not_supported, generic, not_found, not_modified, GetResult,
  PutResult, default_get, CopyMode,
}
use slatedb_cloudflare.DurableObject.R2Store.{R2Store, Shared}
use slatedb_cloudflare.DurableObject.R2Store.Binding.{Bucket}
use slatedb_cloudflare.DurableObject.R2Store.Documented.{Stored, Documented, EtagCondition, meets}
use slatedb_cloudflare.DurableObject.R2Store.Get.{get_opts}
use slatedb_cloudflare.DurableObject.R2Store.Get.Whole.{get_opts-ReadWhole, ReadWhole}
use slatedb_cloudflare.DurableObject.R2Store.Put.{put_opts, collect_payload}
use slatedb_cloudflare.DurableObject.R2Store.Put.Swap.{mode_condition, Swapped, put_opts-Swapped}
use slatedb_cloudflare.DurableObject.R2Store.Copy.{copy_opts, put_mode}

-- Whether a copy in this mode may write to a key that holds this.
abbrev pub allows : CopyMode → Option Stored → Bool
allows CopyMode.overwrite found = true
allows CopyMode.create found = is_none found

allows-meets :
    (mode : CopyMode) (condition : EtagCondition) (found : Option Stored)
    → mode_condition (put_mode mode) ≡ some condition
    → meets condition found ≡ true
    → allows mode found ≡ true
allows-meets CopyMode.overwrite condition found here met = refl
allows-meets CopyMode.create condition found here met = ground arith

module _ {W : Type 0} where
  abbrev ended : Result Error PutResult × W → Result Error (Unit {0}) × W
  ended (ok _, w') = (ok tt, w')
  ended (err error, w') = (err error, w')

module _ {W : Type 0} {bucket : Bucket W} (r2 : Documented bucket) (from to : Text)
    (mode : CopyMode) (w : W) where
  open r2 use {stored}

  -- What a copy has done, by its answer.
  abbrev pub Copied : Result Error (Unit {0}) × W → Type 0
  Copied (ok _, w') =
      (from_etag to_etag : Text) × (bytes : Bytes) × (stored w from
        ≡ some (record { etag = from_etag; bytes = bytes }))
      × (allows mode (stored w to) ≡ true)
      × ((j : Text)
          → stored w' j ≡ (
              if text_eq to j then some (record { etag = to_etag; bytes = bytes }) else stored w j))
  Copied (err error, w') = (j : Text) → text_eq to j ≡ false → stored w' j ≡ stored w j

  Copied-Swapped :
      (from_etag : Text) (bytes : Bytes) (w₁ w' : W) (answer : Result Error PutResult)
      → stored w from ≡ some (record { etag = from_etag; bytes = bytes })
      → ((j : Text) → stored w₁ j ≡ stored w j)
      → Swapped r2 to bytes (put_mode mode) w₁ (answer, w')
      → Copied (ended (answer, w'))
  Copied-Swapped from_etag bytes w₁ w' (ok result) held kept
        (condition, etag, here, _, met, written) =
      (
        from_etag,
        etag,
        bytes,
        held,
        allows-meets mode condition (stored w to) here (rw (← kept to) met),
        λ j. rw (← kept j) (written j),
      )
  Copied-Swapped from_etag bytes w₁ w' (err (already_exists path source)) held kept swapped =
      λ j apart. swapped.2.3 j ∙ kept j
  Copied-Swapped from_etag bytes w₁ w' (err (precondition path source)) held kept swapped =
      λ j apart. swapped.2.3 j ∙ kept j
  Copied-Swapped from_etag bytes w₁ w' (err (not_supported source)) held kept (_, same) =
      λ j apart. rw same (kept j)
  Copied-Swapped from_etag bytes w₁ w' (err (generic name source)) held kept others =
      λ j apart. others j apart ∙ kept j
  Copied-Swapped from_etag bytes w₁ w' (err (not_found path source)) held kept none_here =
      absurd none_here
  Copied-Swapped from_etag bytes w₁ w' (err (not_modified path source)) held kept none_here =
      absurd none_here

module _ {W : Type 0} where
  ended-same :
      (put : Result Error PutResult × Shared W)
      → let (answer, s') = continue put.0 (λ _. pure tt) put.1 in
        (answer, s'.world) ≡ ended (put.0, put.1.world)
  ended-same (ok result, s') = refl
  ended-same (err error, s') = refl

module _ {W : Type 0} {bucket : Bucket W} (r2 : Documented bucket) (store : R2Store W)
    (from to : Text) (mode : CopyMode) (s : Shared W)
    (available : store.bucket_of store.binding ≡ ok bucket)
    (bytes_of_one : (got : GetResult) (chunk : Bytes)
      → got.payload ≡ ok chunk ∷ []
      → store.crate.bytes got ≡ ok chunk) where
  copy_after_read :
      (got : GetResult) (s₁ : Shared W)
      → get_opts store from default_get s ≡ (ok got, s₁)
      → ReadWhole r2 store from s available s.world (ok got, s₁.world)
      → let (answer, s') = copy_opts store from to mode s in
        Copied r2 from to mode s.world (answer, s'.world)
  unfolding copy_opts collect_payload
  copy_after_read got s₁ e (etag, bytes, chunk, _, _, _, _, held, kept) =
      let put = put_opts store to (bytes ∷ []) (put_mode mode) s₁ in
      rw (e, bytes_of_one got bytes chunk)
        (subst (Copied r2 from to mode s.world) (sym (ended-same put)) (
          Copied-Swapped r2 from to mode s.world etag bytes s₁.world put.1.world put.0 held kept
            (put_opts-Swapped r2 store to s₁ available (bytes ∷ []) (put_mode mode))))

  copy_failed_read :
      (error : Error) (s₁ : Shared W)
      → get_opts store from default_get s ≡ (err error, s₁)
      → ReadWhole r2 store from s available s.world (err error, s₁.world)
      → let (answer, s') = copy_opts store from to mode s in
        Copied r2 from to mode s.world (answer, s'.world)
  unfolding copy_opts
  copy_failed_read error s₁ e kept = rw e (λ j _. kept j)

  -- A copy that succeeds has found the source, and the destination free if the mode is `create`;
  -- the destination now holds the bytes of the source, and no other key has changed. A copy that
  -- fails has changed no key but the destination. The binding is available and R2 behaves as
  -- documented.
  pub copy_opts-Copied :
      let (answer, s') = copy_opts store from to mode s in
      Copied r2 from to mode s.world (answer, s'.world)
  copy_opts-Copied =
      let read = get_opts store from default_get s in
      let found : ReadWhole r2 store from s available s.world (read.0, read.1.world) =
        get_opts-ReadWhole r2 store from s available in
      let found_as = λ (answer : Result Error GetResult) (e : read.0 ≡ answer).
        subst (λ r. ReadWhole r2 store from s available s.world (r, read.1.world)) e found in
      elim (Result-cases read.0) [
        | inl (got, e) ↦ copy_after_read got read.1 (λ i. (e i, read.1)) (found_as (ok got) e)
        | inr (error, e) ↦
            copy_failed_read error read.1 (λ i. (e i, read.1)) (found_as (err error) e)
      ]
