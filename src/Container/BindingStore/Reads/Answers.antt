-- ===== src/Container/BindingStore/Reads/Answers.antt =====
-- What the answers to a read mean, by the status of the bridge.
use slatedb_cloudflare.Prelude.{
  ℕ, Text, String, true, Option, none, some, [], map, Result, ok, err, Bool-cases, inl, inr, ==_iff,
  ◌==◌, ◌>>=◌, lift-elim, continue, map_err, if◌then◌else◌, ◌≡◌, ◌≢◌, ◌⊎◌, refl, ap, subst, arith,
}
use slatedb_cloudflare.ObjectStore.{
  Error, not_found, precondition, already_exists, not_modified, not_supported, generic, GetRange,
  ObjectMeta, GetOptions, GetResult,
}
use slatedb_cloudflare.Container.BindingStore.{
  Shared, generic_error, is_success, check_response, object_meta, check_read, returned_range,
  read_meta, answer_read,
}
use slatedb_cloudflare.Container.BindingStore.Bridge.{Response, Client}
use slatedb_cloudflare.Container.BindingStore.Reads.Metadata.{
  IsGeneric, IsRefusal, RefusesOnly, map_err-IsGeneric, NamedBy, MetaOf, object_meta-MetaOf,
}

module _ {W : Type 0} (client : Client W) (location : Text) where
  returned_range-IsGeneric :
      (range : Option GetRange) (size : ℕ) (error : Error)
      → returned_range client range size ≡ err error
      → IsGeneric error
  unfolding returned_range
  returned_range-IsGeneric none size error e = cc
  returned_range-IsGeneric (some range) size error e =
      map_err-IsGeneric (client.crate.as_range range size) error e

  -- None of the statuses that a read answers as errors of their own.
  abbrev pub IsPlain : Response → Type 0
  IsPlain response = (response.status ≢ 404) × (response.status ≢ 412) × (response.status ≢ 304)

  -- What an answer to a read means, by what the bridge answered.
  abbrev pub AnswerToRead : GetOptions → Result String Response → Result Error GetResult → Type 0
  AnswerToRead options (err error) answer = answer ≡ err (generic_error error)
  AnswerToRead options (ok response) (ok got) =
      (is_success response.status ≡ true)
      × NamedBy location response got.meta
      × (client.crate.check_preconditions options got.meta ≡ ok tt)
      × (returned_range client options.range got.meta.size ≡ ok got.range)
      × (got.payload ≡ (if options.head then [] else map (map_err generic_error) response.chunks))
  AnswerToRead options (ok response) (err (not_found path source)) =
      (response.status ≡ 404) × (path ≡ location)
  AnswerToRead options (ok response) (err (precondition path source)) =
      (response.status ≡ 412) ⊎ (is_success response.status ≡ true)
  AnswerToRead options (ok response) (err (not_modified path source)) =
      (response.status ≡ 304) ⊎ (is_success response.status ≡ true)
  AnswerToRead options (ok response) (err (generic store source)) = IsPlain response
  AnswerToRead options (ok response) (err _) = ⊥

  module _ (options : GetOptions) (response : Response) where
    generic-AnswerToRead :
        (error : Error)
        → IsPlain response
        → IsGeneric error
        → AnswerToRead options (ok response) (err error)
    generic-AnswerToRead (generic store source) plain e = plain
    generic-AnswerToRead (not_found path source) plain e = absurd e
    generic-AnswerToRead (already_exists path source) plain e = absurd e
    generic-AnswerToRead (precondition path source) plain e = absurd e
    generic-AnswerToRead (not_modified path source) plain e = absurd e
    generic-AnswerToRead (not_supported source) plain e = absurd e

    refusal-AnswerToRead :
        (error : Error)
        → is_success response.status ≡ true
        → IsRefusal error
        → AnswerToRead options (ok response) (err error)
    refusal-AnswerToRead (precondition path source) success e = inr success
    refusal-AnswerToRead (not_modified path source) success e = inr success
    refusal-AnswerToRead (not_found path source) success e = absurd e
    refusal-AnswerToRead (already_exists path source) success e = absurd e
    refusal-AnswerToRead (not_supported source) success e = absurd e
    refusal-AnswerToRead (generic store source) success e = absurd e

    -- What `check_read` and `check_response` say of an answer.
    abbrev CheckedRead : Result Error (Unit {0}) → Type 0
    CheckedRead (ok _) = IsPlain response
    CheckedRead (err error) = AnswerToRead options (ok response) (err error)

    check_read-Checked : CheckedRead (check_read client location response)
    unfolding check_read
    check_read-Checked = elim (Bool-cases (response.status == 404)) [
      | inl e ↦ simp e ((==_iff response.status 404).0 e, refl)
      | inr not_404 ↦ elim (Bool-cases (response.status == 412)) [
        | inl e ↦ simp (not_404, e) (inl ((==_iff response.status 412).0 e))
        | inr not_412 ↦ elim (Bool-cases (response.status == 304)) [
          | inl e ↦ simp (not_404, not_412, e) (inl ((==_iff response.status 304).0 e))
          | inr not_304 ↦
              simp (not_404, not_412, not_304)
                (
                  λ h. absurd (ground (arith, not_404, h)),
                  λ h. absurd (ground (arith, not_412, h)),
                  λ h. absurd (ground (arith, not_304, h)),
                )
        ]
      ]
    ]

    abbrev CheckedResponse : Result Error Response → Type 0
    CheckedResponse (ok checked) = (response ≡ checked) × (is_success response.status ≡ true)
    CheckedResponse (err error) = IsGeneric error

    check_response-Checked : CheckedResponse (check_response response)
    unfolding check_response
    check_response-Checked = elim (Bool-cases (is_success response.status)) [
      | inl success ↦ simp success (refl, refl)
      | inr failure ↦ simp failure tt
    ]

    -- An answer to a read, with the state that it leaves.
    abbrev AnswersRead : Shared W → Result Error GetResult × Shared W → Type 0
    AnswersRead s (answer, s') = AnswerToRead options (ok response) answer × (s'.world ≡ s.world)

    read_meta-AnswersRead :
        (crate_refuses : RefusesOnly client.crate) (meta : ObjectMeta) (s : Shared W)
        → is_success response.status ≡ true
        → IsPlain response
        → NamedBy location response meta
        → AnswersRead s (read_meta client options response meta s)
    unfolding read_meta
    read_meta-AnswersRead crate_refuses meta s success plain named =
        lift-elim (AnswersRead s) (client.crate.check_preconditions options meta) _ s
          (λ error e.
            (refusal-AnswerToRead error success (crate_refuses.refusal options meta error e), refl))
          (λ _ accepted.
            lift-elim (AnswersRead s) (returned_range client options.range meta.size) _ s
              (λ error e. (generic-AnswerToRead error plain (range_error error e), refl))
              (λ range returned. ((success, named, accepted, returned, refl), refl)))
      where
        range_error :
            (error : Error)
            → returned_range client options.range meta.size ≡ err error
            → IsGeneric error
        range_error error e = returned_range-IsGeneric options.range meta.size error e

    checked-AnswersRead :
        (crate_refuses : RefusesOnly client.crate) (s : Shared W)
        → IsPlain response
        → is_success response.status ≡ true
        → AnswersRead s
            ((object_meta client location response >>= read_meta client options response) s)
    checked-AnswersRead crate_refuses s plain success =
        meta_step (object_meta client location response s)
          (object_meta-MetaOf client location response s)
      where
        meta_step :
            (r : Result Error ObjectMeta × Shared W)
            → MetaOf client location response s r
            → AnswersRead s (continue r.0 (read_meta client options response) r.1)
        meta_step (ok meta, s') (named, same) =
            rw same (read_meta-AnswersRead crate_refuses meta s success plain named)
        meta_step (err error, s') (generic_here, same) =
            (generic-AnswerToRead error plain generic_here, ap (λ (t : Shared W). t.world) same)

    pub response-AnswersRead :
        (crate_refuses : RefusesOnly client.crate) (s : Shared W)
        → AnswersRead s (answer_read client location options response s)
    unfolding answer_read
    response-AnswersRead crate_refuses s =
        lift-elim (AnswersRead s) (check_read client location response) _ s
          (λ error e. (subst CheckedRead e check_read-Checked, refl))
          (λ _ passed.
            let plain = subst CheckedRead passed check_read-Checked in
            lift-elim (AnswersRead s) (check_response response) _ s
              (λ error e. (
                generic-AnswerToRead error plain (subst CheckedResponse e check_response-Checked),
                refl,
              ))
              (λ checked e.
                let (same, success) = subst CheckedResponse e check_response-Checked in
                rw (← same) (checked-AnswersRead crate_refuses s plain success)))
