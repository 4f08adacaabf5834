-- ===== src/DurableObject/Handle/Arrival.antt =====
-- A request for an operation of a database, from `main` to the operation that its object runs.
use slatedb_cloudflare.Prelude.{
  ℕ, Text, codes, true, some, [], ◌∷◌, ◌++◌, ok, ◌≡◌, ◌≢◌, refl, text_eq_refl, text_eq,
}
use mathlib.Core.Option
use slatedb_cloudflare.Slatedb.{Engine}
use slatedb_cloudflare.DurableObject.State.{Shared}
use slatedb_cloudflare.DurableObject.DoCache.KeyValue.{Storage, HeadCodec}
use slatedb_cloudflare.DurableObject.Names.{validate_database_name, split, Pairs}
use slatedb_cloudflare.DurableObject.Names.Addresses.{address, route_segments-address}
use slatedb_cloudflare.DurableObject.Server.{Builder, SlateDbObject}
use slatedb_cloudflare.DurableObject.Web.{Request, Env}
use slatedb_cloudflare.DurableObject.Handle.{
  bearer, strip_prefix, is_supplied, authorized, main, handle, run_operation_of,
}
use slatedb_cloudflare.DurableObject.Routing.{operation_of, database_and_tail, Operation}

-- a request for the address of an operation
abbrev pub IsFor : Request → Text → Text → ℕ → Pairs → Type 0
IsFor req name operation last pairs = req.url ≡ ok (address name operation last, pairs)

is_supplied-bearer :
    (secret : Text)
    → is_supplied (Option.bind (some (bearer ++ secret)) (strip_prefix bearer)) secret ≡ true
unfolding Option.bind
is_supplied-bearer secret = text_eq_refl secret

module _ {S : Type 0} (env : Env S) (req : Request) (name operation secret : Text) (last : ℕ)
    (pairs : Pairs) (addressed : IsFor req name operation last pairs)
    (valid : validate_database_name name ≡ ok tt) (plain : last ≢ b'/') where
  main-sends :
      env.secret (codes "PROBE_TOKEN") ≡ ok secret
      → req.authorization ≡ ok (some (bearer ++ secret))
      → env.durable_object (codes "SLATEDB_OBJECTS") ≡ ok tt
      → env.id_from_name name ≡ ok tt
      → (s : S) → main env req s ≡ env.fetch_with_request name req s
  unfolding main authorized database_and_tail text_eq
  main-sends known bears bound named s =
      rw (addressed, known, bears, is_supplied-bearer secret)
        (rw (route_segments-address name operation last valid plain)
          (rw (valid, bound, named) refl))

  module _ {W Store Db Recorder Head Attributes : Type 0} (engine : Engine (Shared W) Db Recorder)
      (builder : Builder (Shared W) Store Db Recorder) (storage : Storage W Head)
      (codec : HeadCodec Head Attributes) where
    -- the operation that the path asks for
    abbrev pub addressed_operation : Operation
    addressed_operation = operation_of req.method (split b'/' (operation ++ last ∷ []))

    handle-runs :
        (object : SlateDbObject (Shared W) Db Recorder)
        → handle engine builder storage codec req object
          ≡ run_operation_of engine builder storage codec addressed_operation name pairs req object
    unfolding handle database_and_tail
    handle-runs object =
        rw (addressed, route_segments-address name operation last valid plain) (rw valid refl)

    -- A request whose path is `/v1/db/`, a name that is accepted, a slash and an operation that does
    -- not end with a slash, and which bears the secret as its token, is sent by `main` to the object of
    -- that name, when the bindings are there; and the object then runs the operation of its method
    -- and of the segments after the name, on the database of that name.
    pub main-handle-Arrives :
        env.secret (codes "PROBE_TOKEN") ≡ ok secret
        → req.authorization ≡ ok (some (bearer ++ secret))
        → env.durable_object (codes "SLATEDB_OBJECTS") ≡ ok tt
        → env.id_from_name name ≡ ok tt
        → (s : S) (object : SlateDbObject (Shared W) Db Recorder)
        → (main env req s ≡ env.fetch_with_request name req s)
          × (handle engine builder storage codec req object
              ≡ run_operation_of engine builder storage codec addressed_operation name pairs req
                  object)
    main-handle-Arrives known bears bound named s object =
        (main-sends known bears bound named s, handle-runs object)
