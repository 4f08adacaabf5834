-- ===== src/Container/BindingStore/Updates.antt =====
-- What a put sends over the bridge, and what its answers mean.
use slatedb_cloudflare.Prelude.{
  ℕ, Text, String, codes, true, false, Option, none, some, Result, ok, err, Result-cases,
  Bool-cases, Option-cases, inl, inr, ==_iff, ◌==◌, ◌>>=◌, lift, pure, ◌≡◌, ◌≢◌, refl, ap, subst,
  arith,
}
use slatedb_cloudflare.ObjectStore.{
  Error, already_exists, precondition, not_supported, generic, PutMode, UpdateVersion, PutResult,
  PutPayload,
}
use slatedb_cloudflare.Container.BindingStore.{
  Shared, generic_error, is_success, check_response, header_value, put_result, put_request,
  transpose, failed_put, finish_put, put_opts, send, fetch_add, written_bytes,
}
use slatedb_cloudflare.Container.BindingStore.Bridge.{Verb, Request, Response, Client}

module _ {W : Type 0} (client : Client W) (location : Text) where
  -- What an answer to a put means, by what the bridge answered.
  abbrev pub AnswerTo : PutMode → Result String Response → Result Error PutResult → Type 0
  AnswerTo mode (err error) answer = answer ≡ err (generic_error error)
  AnswerTo mode (ok response) (ok put) =
      (is_success response.status ≡ true) × (header_value response (codes "etag") ≡ ok put.e_tag)
  AnswerTo mode (ok response) (err (already_exists path source)) =
      (response.status ≡ 412) × (mode ≡ PutMode.create) × (path ≡ location)
  AnswerTo mode (ok response) (err (precondition path source)) =
      (response.status ≡ 412) × (mode ≢ PutMode.create) × (path ≡ location)
  AnswerTo mode (ok response) (err (generic store source)) = response.status ≢ 412
  AnswerTo mode (ok response) (err _) = ⊥

  failed_put-AnswerTo :
      (mode : PutMode) (response : Response)
      → response.status ≡ 412
      → AnswerTo mode (ok response) (err (failed_put client location mode))
  unfolding failed_put
  failed_put-AnswerTo PutMode.create response e = (e, refl, refl)
  failed_put-AnswerTo PutMode.overwrite response e = (e, λ h. cc, refl)
  failed_put-AnswerTo (PutMode.update version) response e = (e, λ h. cc, refl)

  headers-AnswerTo :
      (mode : PutMode) (response : Response) (etag version : Option (Result String Text))
      (s : Shared W)
      → response.header (codes "etag") ≡ etag
      → response.status ≢ 412
      → is_success response.status ≡ true
      → AnswerTo mode
          (ok response)
          ((lift (transpose etag) >>= λ e_tag.
              lift (transpose version) >>= λ v. pure (record { e_tag = e_tag; version = v }))
            s).0
  unfolding header_value
  headers-AnswerTo mode response (some (err error)) version s e other success = other
  headers-AnswerTo mode response none (some (err error)) s e other success = other
  headers-AnswerTo mode response (some (ok etag)) (some (err error)) s e other success = other
  headers-AnswerTo mode response none none s e other success = (success, ap transpose e)
  headers-AnswerTo mode response none (some (ok version)) s e other success =
      (success, ap transpose e)
  headers-AnswerTo mode response (some (ok etag)) none s e other success = (success, ap transpose e)
  headers-AnswerTo mode response (some (ok etag)) (some (ok version)) s e other success =
      (success, ap transpose e)

  not_412 : (response : Response) → (response.status == 412) ≡ false → response.status ≢ 412
  not_412 response other e = absurd (ground (arith, other, e))

  finish_put-AnswerTo :
      (mode : PutMode) (size : ℕ) (response : Response) (s : Shared W)
      → AnswerTo mode (ok response) (finish_put client location size mode response s).0
  unfolding check_response put_result
  finish_put-AnswerTo mode size response s = elim (Bool-cases (response.status == 412)) [
    | inl refused ↦
        simp refused (failed_put-AnswerTo mode response ((==_iff response.status 412).0 refused))
    | inr other ↦ elim (Bool-cases (is_success response.status)) [
      | inl success ↦
          simp (other, success)
            (headers-AnswerTo mode response (response.header (codes "etag"))
              (response.header (codes "x-slate-version")) _ refl (not_412 response other) success)
      | inr failure ↦ simp (other, failure) (not_412 response other)
    ]
  ]

  -- The condition of a mode, in the headers of a request.
  abbrev pub Conditioned : PutMode → Request → Type 0
  Conditioned PutMode.overwrite request = (request.if_match ≡ none) × (request.if_none_match ≡ none)
  Conditioned PutMode.create request =
      (request.if_match ≡ none) × (request.if_none_match ≡ some (codes "*"))
  Conditioned (PutMode.update version) request =
      (etag : Text) × (version.e_tag ≡ some etag)
      × (request.if_match ≡ some etag)
      × (request.if_none_match ≡ none)

  -- The request of a mode; an update without an ETag has none.
  abbrev pub Requested : PutMode → Result Error Request → Type 0
  Requested mode (ok request) =
      (request.verb ≡ Verb.put) × (request.path ≡ some location) × Conditioned mode request
  Requested mode (err error) =
      (version : UpdateVersion) × (source : String) × (mode ≡ PutMode.update version)
      × (version.e_tag ≡ none)
      × (error ≡ not_supported source)

  put_request-Requested : (mode : PutMode) → Requested mode (put_request client location mode)
  unfolding put_request
  put_request-Requested PutMode.overwrite = (refl, refl, (refl, refl))
  put_request-Requested PutMode.create = (refl, refl, (refl, refl))
  put_request-Requested (PutMode.update version) = elim (Option-cases version.e_tag) [
    | inl e ↦ simp e (version, _, refl, e, refl)
    | inr (etag, e) ↦ simp e (refl, refl, (etag, refl, refl, refl))
  ]

  -- What a put has done: which request it has sent, and what its answer means.
  abbrev pub PutSent :
      PutPayload
      → PutMode
      → Shared W
      → Result Error Request
      → Result Error PutResult × Shared W
      → Type 0
  PutSent payload mode s (err error) (answer, s') =
      Requested mode (err error) × (answer ≡ err error) × (s'.world ≡ s.world)
  PutSent payload mode s (ok request) (answer, s') =
      let (response, world) = client.send (record request { body = payload }) s.world in
      Requested mode (ok request) × AnswerTo mode response answer × (s'.world ≡ world)

  headers-world :
      (etag version : Result Error (Option Text)) (s : Shared W)
      → ((lift etag >>= λ e_tag.
            lift version >>= λ v. pure {A = PutResult} (record { e_tag = e_tag; version = v }))
          s).1.world
        ≡ s.world
  headers-world (err error) version s = refl
  headers-world (ok etag) (err error) s = refl
  headers-world (ok etag) (ok version) s = refl

  put_result-world :
      (response : Response) (s : Shared W) → (put_result response s).1.world ≡ s.world
  unfolding put_result
  put_result-world response s = headers-world _ _ s

  finish_put-world :
      (mode : PutMode) (size : ℕ) (response : Response) (s : Shared W)
      → (finish_put client location size mode response s).1.world ≡ s.world
  finish_put-world mode size response s = elim (Bool-cases (response.status == 412)) [
    | inl refused ↦ simp refused refl
    | inr other ↦ elim (Result-cases (check_response response)) [
      | inr (error, e) ↦ simp (other, e) refl
      | inl (checked, e) ↦
          simp (other, e)
            (put_result-world checked
              (record s { counters = fetch_add written_bytes size s.counters }))
    ]
  ]

  -- A put sends nothing, and answers `NotSupported`, in an update without an ETag. Otherwise it
  -- sends one request, which has the payload and the condition of the mode. It succeeds only if the
  -- bridge answers a success, and then with the ETag that it names; it answers `AlreadyExists` only
  -- if the bridge answers 412 in mode `create`, and `Precondition` only if it does in another mode.
  pub put_opts-PutSent :
      (payload : PutPayload) (mode : PutMode) (s : Shared W)
      → PutSent payload mode s
          (put_request client location mode)
          (put_opts client location payload mode s)
  unfolding put_opts send
  put_opts-PutSent payload mode s = elim (Result-cases (put_request client location mode)) [
    | inr (error, e) ↦ rw e (requested (err error) e, refl, refl)
    | inl (request, e) ↦
        elim (Result-cases (client.send (record request { body = payload }) s.world).0) [
          | inr (error, f) ↦ rw (e, f) (requested (ok request) e, refl, refl)
          | inl (response, f) ↦
              rw (e, f)
                (
                  requested (ok request) e,
                  finish_put-AnswerTo mode _ response _,
                  finish_put-world mode _ response _,
                )
        ]
  ]
    where
      requested :
          (r : Result Error Request) → put_request client location mode ≡ r → Requested mode r
      requested r e = subst (Requested mode) e (put_request-Requested mode)
