-- ===== src/DurableObject/Tests/Requests.antt =====
-- The theorems on requests at concrete inputs: where they arrive, and how much a scan answers.
use slatedb_cloudflare.Prelude.{◌≤◌, Text, none, codes, [], ◌∷◌, ◌≡◌, refl, arith, decimal, text_eq}
use slatedb_cloudflare.DurableObject.State.{Shared}
use slatedb_cloudflare.DurableObject.DoCache.Tests.{Memory, memory, codec}
use slatedb_cloudflare.DurableObject.Names.{Pairs, find_pair, validate_database_name}
use slatedb_cloudflare.DurableObject.Server.{SlateDbObject, new_object}
use slatedb_cloudflare.DurableObject.Handle.{main, handle, run_operation_of}
use slatedb_cloudflare.DurableObject.Routing.{operation_of, to_scan, to_get}
use slatedb_cloudflare.DurableObject.Handle.Limits.{Limits, within, ScanFits, scan-Limited}
use slatedb_cloudflare.DurableObject.Handle.Arrival.{main-handle-Arrives}
use slatedb_cloudflare.DurableObject.Tests.{engine, builder, nothing, request, env, shared_object}

abbrev asks_five : Pairs
asks_five = (codes "limit", codes "5") ∷ []

asks_five-Limits : Limits asks_five 5
unfolding find_pair text_eq decimal
asks_five-Limits = within 5 (omega arith) (omega arith) refl

scan-Limited_example :
    (1 ≤ 5)
    × (5 ≤ 1000)
    × ScanFits 5 (
        run_operation_of
          (engine nothing)
          builder
          memory
          codec
          to_scan
          (codes "a")
          asks_five
          (request (codes "/v1/db/a/scan"))
          shared_object)
scan-Limited_example =
    scan-Limited (engine nothing) builder memory codec (codes "a") asks_five
      (request (codes "/v1/db/a/scan")) shared_object 5 asks_five-Limits

-- an object that has just been made
abbrev begun : SlateDbObject (Shared Memory) Text (Unit {0})
begun = new_object (λ key. none)

main-handle-Arrives_example :
    let req = request (codes "/v1/db/a/get") in
    (main env req 0 ≡ env.fetch_with_request (codes "a") req 0)
    × (handle (engine nothing) builder memory codec req begun
        ≡ run_operation_of (engine nothing) builder memory codec to_get (codes "a") [] req begun)
unfolding validate_database_name operation_of text_eq slatedb_cloudflare.DurableObject.Names.split
main-handle-Arrives_example =
    main-handle-Arrives env (request (codes "/v1/db/a/get")) (codes "a") (codes "ge") (codes "t")
      b't' [] refl refl (λ e. absurd (omega (arith, e))) (engine nothing) builder memory codec refl
      refl refl refl 0 begun
