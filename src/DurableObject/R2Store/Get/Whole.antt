-- ===== src/DurableObject/R2Store/Get/Whole.antt =====
-- A read without options, over a bucket that behaves as documented.
use slatedb_cloudflare.Prelude.{
  ℕ, Text, Bytes, none, some, [], ◌∷◌, Result, ok, err, Result-cases, Option-cases, inl, inr, ◌≡◌,
  refl, ◌∙◌,
}
use slatedb_cloudflare.ObjectStore.{Error, GetResult, default_get}
use slatedb_cloudflare.DurableObject.R2Store.{R2Store, Shared}
use slatedb_cloudflare.DurableObject.R2Store.Binding.{Object, Bucket}
use slatedb_cloudflare.DurableObject.R2Store.Documented.{Documented}
use slatedb_cloudflare.DurableObject.R2Store.Get.{
  get_opts, object_meta, returned_range, plain_head, get_conditional, result,
}

module _ {W : Type 0} {bucket : Bucket W} (r2 : Documented bucket) (store : R2Store W) (key : Text)
    (s : Shared W) (available : store.bucket_of store.binding ≡ ok bucket) where
  open r2 use {stored, get_keeps, body_keeps, body_whole}

  -- What a whole read has found, by its answer.
  abbrev pub ReadWhole : W → Result Error GetResult × W → Type 0
  ReadWhole w (ok got, w') =
      (etag : Text) × (bytes : Bytes) × (got.payload ≡ ok bytes ∷ [])
      × (got.meta.location ≡ key)
      × (got.meta.e_tag ≡ some etag)
      × (got.range.start ≡ 0)
      × (got.range.end ≡ got.meta.size)
      × (stored w key ≡ some (record { etag = etag; bytes = bytes }))
      × ((j : Text) → stored w' j ≡ stored w j)
  ReadWhole w (err error, w') = (j : Text) → stored w' j ≡ stored w j

  abbrev WholeReads : Type 0
  WholeReads =
      let (answer, s') = get_opts store key default_get s in ReadWhole s.world (answer, s'.world)

  get_opts-body :
      (object : Object) (body : ℕ)
      → (bucket.get key none none s.world).0 ≡ ok (some object)
      → store.crate.check_preconditions default_get (object_meta store.crate key object) ≡ ok tt
      → object.body ≡ some body
      → WholeReads
  unfolding get_opts plain_head get_conditional returned_range result
  get_opts-body object body e checked here =
      let w₁ = (bucket.get key none none s.world).1 in
      let kept : (j : Text) → stored (bucket.body_bytes body w₁).1 j ≡ stored s.world j =
        λ j. body_keeps body w₁ j ∙ get_keeps key s.world j in
      elim (Result-cases (bucket.body_bytes body w₁).0) [
        | inr (error, read) ↦ rw (available, e, checked, here, read) kept
        | inl (bytes, read) ↦
            rw (available, e, checked, here, read)
              (unfold object_meta in
                (
                  object.etag,
                  bytes,
                  refl,
                  refl,
                  refl,
                  refl,
                  refl,
                  body_whole key s.world object body bytes e here read,
                  kept,
                ))
      ]

  get_opts-found :
      (object : Object) → (bucket.get key none none s.world).0 ≡ ok (some object) → WholeReads
  unfolding get_opts plain_head get_conditional returned_range
  get_opts-found object e =
      elim (Result-cases
        (store.crate.check_preconditions default_get (object_meta store.crate key object))) [
          | inr (error, refused) ↦ rw (available, e, refused) (get_keeps key s.world)
          | inl (_, checked) ↦ elim (Option-cases object.body) [
            | inl no_body ↦ rw (available, e, checked, no_body) (get_keeps key s.world)
            | inr (body, here) ↦ get_opts-body object body e checked here
          ]
        ]

  -- A read without options changes nothing that the bucket holds. If it succeeds, its payload is
  -- one chunk with all the bytes that the key held, under the ETag that its metadata names, its
  -- metadata has the location that was asked for, and its range runs from 0 to the size. The
  -- binding is available and R2 behaves as documented.
  pub get_opts-ReadWhole :
      let (answer, s') = get_opts store key default_get s in ReadWhole s.world (answer, s'.world)
  unfolding get_opts plain_head get_conditional
  get_opts-ReadWhole = elim (Result-cases (bucket.get key none none s.world).0) [
    | inr (error, e) ↦ rw (available, e) (get_keeps key s.world)
    | inl (none, e) ↦ rw (available, e) (get_keeps key s.world)
    | inl (some object, e) ↦ get_opts-found object e
  ]
