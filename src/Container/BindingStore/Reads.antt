-- ===== src/Container/BindingStore/Reads.antt =====
-- What a read sends over the bridge, and what its answers mean.
pub mod Metadata
pub mod Answers
use slatedb_cloudflare.Prelude.{
  ℕ, Text, String, codes, true, Option, none, some, [], map, Result, ok, err, Result-cases,
  Bool-cases, Option-cases, inl, inr, ==_iff, ◌==◌, ◌>>=◌, lift-elim, continue, map_err,
  parse_unsigned, if◌then◌else◌, ◌≡◌, ◌≢◌, ◌⊎◌, ◌^◌, refl, ap, subst, arith,
}
use mathlib.Core.Option
use slatedb_cloudflare.ObjectStore.{
  Error, not_found, precondition, already_exists, not_modified, not_supported, generic, Crate,
  GetRange, ObjectMeta, GetOptions, GetResult,
}
use slatedb_cloudflare.Container.BindingStore.{
  Shared, generic_error, is_success, check_response, header_value, required_header, required,
  object_meta, get_request, check_read, returned_range, read_meta, answer_read, transpose, range_of,
  range_header, get_opts, send,
}
use slatedb_cloudflare.Container.BindingStore.Bridge.{Verb, Request, Response, Client}
use slatedb_cloudflare.Container.BindingStore.Reads.Metadata.{IsGeneric, RefusesOnly}
use slatedb_cloudflare.Container.BindingStore.Reads.Answers.{AnswerToRead, response-AnswersRead}

module _ {W : Type 0} (client : Client W) (location : Text) where
  -- The request of a read: its verb, its path, the conditions of its options and its range.
  abbrev pub ReadRequested : GetOptions → Result Error Request → Type 0
  ReadRequested options (err error) = IsGeneric error × ¬ (options.range ≡ none)
  ReadRequested options (ok request) =
      (request.verb ≡ (if options.head then Verb.head else Verb.get))
      × (request.path ≡ some location)
      × (request.if_match ≡ options.if_match)
      × (request.if_none_match ≡ options.if_none_match)
      × (request.if_modified_since ≡ Option.map client.to_rfc2822 options.if_modified_since)
      × (request.if_unmodified_since ≡ Option.map client.to_rfc2822 options.if_unmodified_since)
      × (range_of client options.range ≡ ok request.range)

  range_of-IsGeneric :
      (range : Option GetRange) (error : Error)
      → range_of client range ≡ err error
      → IsGeneric error × ¬ (range ≡ none)
  unfolding range_header
  range_of-IsGeneric none error e = cc
  range_of-IsGeneric (some range) error e = elim (Result-cases (client.crate.is_valid range)) [
    | inl (valid, f) ↦ absurd (ground (arith, f, e))
    | inr (text, f) ↦
        let same : generic_error text ≡ error = ground (arith, f, e) in
        (subst IsGeneric same tt, λ h. cc)
  ]

  get_request-ReadRequested :
      (options : GetOptions) → ReadRequested options (get_request client location options)
  unfolding get_request
  get_request-ReadRequested options = elim (Result-cases (range_of client options.range)) [
    | inl (range, e) ↦ simp e (refl, refl, refl, refl, refl, refl, refl)
    | inr (error, e) ↦ simp e (range_of-IsGeneric options.range error e)
  ]

  -- What a read has done: which request it has sent, and what its answer means.
  abbrev pub ReadSent :
      GetOptions
      → Shared W
      → Option Text
      → Result Error Request
      → Result Error GetResult × Shared W
      → Type 0
  ReadSent options s (some version) request (answer, s') =
      (answer ≡ err (not_supported "R2 Workers bindings do not expose versioned GET"))
      × (s'.world ≡ s.world)
  ReadSent options s none (err error) (answer, s') =
      ReadRequested options (err error) × (answer ≡ err error) × (s'.world ≡ s.world)
  ReadSent options s none (ok request) (answer, s') =
      let (response, world) = client.send request s.world in
      ReadRequested options (ok request)
      × AnswerToRead client location options response answer
      × (s'.world ≡ world)

  -- When the crate refuses an object only by its tag or its date: a read of a version sends nothing
  -- and is refused; any other read sends one request, with its verb, conditions and range, or none
  -- if its range is refused. It answers `NotFound` only if the bridge has answered 404,
  -- `Precondition` or `NotModified` only if it has answered 412 or 304 or the crate refuses what it
  -- found, and a generic error in none of these cases. It succeeds only if the bridge answers a
  -- success, with the metadata that the headers name, accepted by the crate, and the chunks of the
  -- body, none for a head.
  pub get_opts-ReadSent :
      (options : GetOptions) (s : Shared W)
      → RefusesOnly client.crate
      → ReadSent options s options.version
          (get_request client location options)
          (get_opts client location options s)
  unfolding get_opts send
  get_opts-ReadSent options s crate_refuses = elim (Option-cases options.version) [
    | inr (version, e) ↦ simp e (refl, refl)
    | inl none_asked ↦ elim (Result-cases (get_request client location options)) [
      | inr (error, e) ↦ simp (none_asked, e) (requested (err error) e, refl, refl)
      | inl (request, e) ↦ elim (Result-cases (client.send request s.world).0) [
        | inr (error, f) ↦ simp (none_asked, e, f) (requested (ok request) e, refl, refl)
        | inl (response, f) ↦
            simp (none_asked, e, f)
              (
                requested (ok request) e,
                (response-AnswersRead client location options response crate_refuses _).0,
                (response-AnswersRead client location options response crate_refuses _).1,
              )
      ]
    ]
  ]
    where
      requested :
          (r : Result Error Request)
          → get_request client location options ≡ r
          → ReadRequested options r
      requested r e = subst (ReadRequested options) e (get_request-ReadRequested options)
