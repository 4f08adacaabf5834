-- ===== src/DurableObject/Handle/Forward.antt =====
-- Which requests `main` sends on to an object.
use slatedb_cloudflare.Prelude.{
  Text, codes, true, ◌||◌, Option, Option-cases, none, some, List, [], ◌∷◌, ◌++◌, Result, ok, err,
  Exec, Result-cases, Bool-cases, inl, inr, ◌⊎◌, ◌>>=◌, ◌==◌, text_eq, text_eq_iff, ◌≡◌, refl, ap,
  ◌∙◌, arith,
}
use mathlib.Core.Option
use slatedb_cloudflare.DurableObject.Names.{validate_database_name, route_segments}
use slatedb_cloudflare.DurableObject.Web.{Request, Response, service, Env}
use slatedb_cloudflare.DurableObject.Handle.{
  bearer, strip_prefix, is_supplied, authorized, forward, route, main,
}
use slatedb_cloudflare.DurableObject.Routing.{from_json, error_response, database_and_tail}

strip_prefix-some :
    (prefix text rest : Text) → strip_prefix prefix text ≡ some rest → text ≡ prefix ++ rest
strip_prefix-some [] text rest e = ground arith
strip_prefix-some (p ∷ prefix) [] rest e = ground arith
strip_prefix-some (p ∷ prefix) (b ∷ text) rest e = elim (Bool-cases (p == b)) [
  | inl same ↦ ground (arith, same, strip_prefix-some prefix text rest)
  | inr other ↦ absurd (ground (arith, other))
]

is_supplied-some :
    (authorization : Option Text) (expected : Text)
    → is_supplied (Option.bind authorization (strip_prefix bearer)) expected ≡ true
    → authorization ≡ some (bearer ++ expected)
unfolding Option.bind
is_supplied-some none expected h = ground arith
is_supplied-some (some value) expected h = elim (Option-cases (strip_prefix bearer value)) [
  | inl e ↦ absurd (ground (arith, e))
  | inr (supplied, e) ↦ ap some (
      strip_prefix-some bearer value supplied e
      ∙ ap (λ t. bearer ++ t) ((text_eq_iff supplied expected).0 (ground (arith, e))))
]

module _ {S : Type 0} (env : Env S) (req : Request) where
  -- An answer that is made without the objects.
  abbrev pub AnsweredHere : Exec S Text Response → Type 0
  AnsweredHere m = (answer : Result Text Response) × ((s : S) → m s ≡ (answer, s))

  abbrev pub IsAuthorized : Type 0
  IsAuthorized =
      (secret : Text) × (env.secret (codes "PROBE_TOKEN") ≡ ok secret)
      × (req.authorization ≡ ok (some (bearer ++ secret)))

  -- An answer that is the object's, under a valid name.
  abbrev pub SentOn : Exec S Text Response → Type 0
  SentOn m =
      (name : Text) × (validate_database_name name ≡ ok tt)
      × ((s : S) → m s ≡ env.fetch_with_request name req s)

  abbrev Sent : Exec S Text Response → Type 0
  Sent m = AnsweredHere m ⊎ (IsAuthorized × SentOn m)

  Sent-same : {m m' : Exec S Text Response} → ((s : S) → m s ≡ m' s) → Sent m' → Sent m
  Sent-same same (inl (answer, h)) = inl (answer, λ s. same s ∙ h s)
  Sent-same same (inr (allowed, (name, valid, h))) = inr (allowed, (name, valid, λ s. same s ∙ h s))

  forward-Sent : (found : Option (Text × List Text)) → IsAuthorized → Sent (forward env found req)
  forward-Sent none allowed = inl (_, λ s. refl)
  forward-Sent (some (name, tail)) allowed = elim (Result-cases (validate_database_name name)) [
    | inr (error, e) ↦ inl (err error, λ s. rw e refl)
    | inl (_, e) ↦ elim (Result-cases (env.durable_object (codes "SLATEDB_OBJECTS"))) [
      | inr (error, f) ↦ inl (err error, λ s. rw (e, f) refl)
      | inl (_, f) ↦ elim (Result-cases (env.id_from_name name)) [
        | inr (error, g) ↦ inl (err error, λ s. rw (e, f, g) refl)
        | inl (_, g) ↦ inr (allowed, (name, e, λ s. rw (e, f, g) refl))
      ]
    ]
  ]

  route-Sent : (path : Text) → IsAuthorized → Sent (route env path req true)
  route-Sent path allowed = elim (Result-cases (route_segments path)) [
    | inr (error, e) ↦ inl (err error, λ s. rw e refl)
    | inl (segments, e) ↦ rw e (forward-Sent (database_and_tail segments) allowed)
  ]

  authorized-Sent : (path : Text) → Sent (authorized env req >>= route env path req)
  unfolding authorized
  authorized-Sent path = elim (Result-cases (env.secret (codes "PROBE_TOKEN"))) [
    | inr (error, e) ↦ inl (err error, λ s. rw e refl)
    | inl (secret, e) ↦ elim (Result-cases req.authorization) [
      | inr (error, f) ↦ inl (err error, λ s. rw (e, f) refl)
      | inl (authorization, f) ↦
          elim (Bool-cases (is_supplied (Option.bind authorization (strip_prefix bearer)) secret)) [
            | inr wrong ↦
                inl (ok (error_response (codes "unauthorized") 401), λ s. rw (e, f, wrong) refl)
            | inl right ↦
                Sent-same (λ s. rw (e, f, right) refl)
                  (route-Sent path
                    (secret, e, f ∙ ap ok (is_supplied-some authorization secret right)))
          ]
    ]
  ]

  -- A request is either answered by `main` itself, in the same way whatever the objects hold and
  -- without touching them, or it carries the secret as its bearer token and is sent, unchanged and
  -- once, to the object of one valid database name, whose answer it has.
  pub main-Sent : AnsweredHere (main env req) ⊎ (IsAuthorized × SentOn (main env req))
  unfolding main
  main-Sent = elim (Result-cases req.url) [
    | inr (error, e) ↦ inl (err error, λ s. rw e refl)
    | inl ((path, pairs), e) ↦
        elim (Bool-cases (text_eq path (codes "/") || text_eq path (codes "/health"))) [
          | inl health ↦ inl (
            ok (from_json (service (codes "slatedb-cloudflare-feasibility"))),
            λ s. rw (e, health) refl,
          )
          | inr other ↦ Sent-same (λ s. rw (e, other) refl) (authorized-Sent path)
        ]
  ]
