-- ===== src/DurableObject/Handle/Open.antt =====
-- How long a database stays open in an object.
use slatedb_cloudflare.Prelude.{
  Text, Bool, true, false, Option, none, some, List, [], ◌∷◌, All, Result, ok, err, Exec, continue,
  ◌>>=◌, pure, lift, ◌≡◌, refl, ap, ◌∙◌, arith, if◌then◌else◌,
}
use slatedb_cloudflare.Slatedb.{Engine}
use slatedb_cloudflare.DurableObject.State.{Shared}
use slatedb_cloudflare.DurableObject.DoCache.{is_populated}
use slatedb_cloudflare.DurableObject.DoCache.KeyValue.{Storage, HeadCodec}
use slatedb_cloudflare.DurableObject.Names.{Pairs, route_segments}
use slatedb_cloudflare.DurableObject.Benchmark.{BenchmarkBatchRequest, is_bad_batch}
use slatedb_cloudflare.DurableObject.Server.{Builder, SlateDbObject, ActiveDb, database}
use slatedb_cloudflare.DurableObject.Server.Active.{database_keeps}
use slatedb_cloudflare.DurableObject.Web.{Request, Response}
use slatedb_cloudflare.DurableObject.Handle.{
  run_accepted, run_benchmark, run_operation_of, handle_at, handle_url, handle, status_of,
  metrics_of, fetch, answered, of_cache,
}
use slatedb_cloudflare.DurableObject.Routing.{
  Operation, operation_of, database_and_tail, to_put, to_benchmark, to_get, to_delete, to_scan,
  to_reopen, to_flush, to_clear, to_stats, to_nothing,
}

-- Whether a request is for `admin/reopen`.
abbrev pub is_reopen : Operation → Bool
is_reopen to_reopen = true
is_reopen _ = false

abbrev pub reopens_at : Request → Option (Text × List Text) → Bool
reopens_at req none = false
reopens_at req (some (name, tail)) = is_reopen (operation_of req.method tail)

abbrev pub reopens_on : Request → Result Text (List Text) → Bool
reopens_on req (err error) = false
reopens_on req (ok segments) = reopens_at req (database_and_tail segments)

abbrev pub reopens_by : Request → Result Text (Text × Pairs) → Bool
reopens_by req (err error) = false
reopens_by req (ok (path, pairs)) = reopens_on req (route_segments path)

abbrev pub asks_reopen : Request → Bool
asks_reopen req = reopens_by req req.url

module _ {S Db Recorder : Type 0} where
  -- A method that leaves an open database open.
  abbrev Keeps : {A : Type 0} → Exec (SlateDbObject S Db Recorder) Text A → Type 0
  Keeps m =
      (s : SlateDbObject S Db Recorder) (current : ActiveDb Db Recorder)
      → s.active ≡ some current
      → (m s).1.active ≡ some current

  continue-Keeps :
      {A B : Type 0} (r : Result Text A) (f : A → Exec (SlateDbObject S Db Recorder) Text B)
      (s : SlateDbObject S Db Recorder) (current : ActiveDb Db Recorder)
      → ((a : A) → Keeps (f a))
      → s.active ≡ some current
      → (continue r f s).1.active ≡ some current
  continue-Keeps (ok a) f s current h e = h a s current e
  continue-Keeps (err error) f s current h e = e

  bind-Keeps :
      {A B : Type 0} (m : Exec (SlateDbObject S Db Recorder) Text A)
      (f : A → Exec (SlateDbObject S Db Recorder) Text B)
      → Keeps m
      → ((a : A) → Keeps (f a))
      → Keeps (m >>= f)
  bind-Keeps m f h k s current e = continue-Keeps (m s).0 f (m s).1 current k (h s current e)

  if-Keeps :
      {A : Type 0} (bad : Bool) (a : A) (m : Exec (SlateDbObject S Db Recorder) Text A)
      → Keeps m
      → Keeps (if bad then pure a else m)
  if-Keeps true a m h s current e = e
  if-Keeps false a m h s current e = h s current e

module _ {W Store Db Recorder Head Attributes : Type 0} (engine : Engine (Shared W) Db Recorder)
    (builder : Builder (Shared W) Store Db Recorder) (storage : Storage W Head)
    (codec : HeadCodec Head Attributes) where
  -- a method on the database of a name
  with_database-Keeps :
      {A : Type 0} (name : Text) (f : Db → Exec (SlateDbObject (Shared W) Db Recorder) Text A)
      → ((db : Db) → Keeps (f db))
      → Keeps (database engine builder name >>= f)
  with_database-Keeps name f h =
      bind-Keeps (database engine builder name) f (database_keeps engine builder name) h

  run_benchmark-Keeps :
      (name : Text) (body : BenchmarkBatchRequest)
      → Keeps (run_benchmark engine builder storage codec name body)
  run_benchmark-Keeps name body =
      if-Keeps (is_bad_batch body) _ (run_accepted engine builder storage codec name body)
        (with_database-Keeps name _ (λ db. bind-Keeps _ _ (λ s current e. e) (λ _ s current e. e)))

  run_operation_of-Keeps :
      (operation : Operation) (name : Text) (pairs : Pairs) (req : Request)
      → is_reopen operation ≡ false
      → Keeps (run_operation_of engine builder storage codec operation name pairs req)
  unfolding run_operation_of
  run_operation_of-Keeps to_put name pairs req h =
      bind-Keeps _ _ (λ s current e. e)
        (λ body.
          with_database-Keeps name _ (λ db. bind-Keeps _ _ (λ s current e. e) (λ _ s current e. e)))
  run_operation_of-Keeps to_benchmark name pairs req h =
      bind-Keeps (lift req.benchmark_body) (run_benchmark engine builder storage codec name)
        (λ s current e. e) (run_benchmark-Keeps name)
  run_operation_of-Keeps to_get name pairs req h =
      bind-Keeps _ _ (λ s current e. e)
        (λ key.
          with_database-Keeps name _ (λ db. bind-Keeps _ _ (λ s current e. e) (λ _ s current e. e)))
  run_operation_of-Keeps to_delete name pairs req h =
      bind-Keeps _ _ (λ s current e. e)
        (λ body.
          with_database-Keeps name _ (λ db. bind-Keeps _ _ (λ s current e. e) (λ _ s current e. e)))
  run_operation_of-Keeps to_scan name pairs req h =
      with_database-Keeps name _ (λ db. bind-Keeps _ _ (λ s current e. e) (λ found s current e. e))
  run_operation_of-Keeps to_reopen name pairs req h = absurd (ground (arith, h))
  run_operation_of-Keeps to_flush name pairs req h =
      with_database-Keeps name _ (λ db. bind-Keeps _ _ (λ s current e. e) (λ _ s current e. e))
  run_operation_of-Keeps to_clear name pairs req h =
      bind-Keeps _ _ (λ s current e. e) (λ _ s current e. e)
  run_operation_of-Keeps to_stats name pairs req h = λ s current e.
      bind-Keeps (of_cache engine builder storage codec (is_populated storage codec))
        (status_of engine builder storage codec
          (metrics_of engine builder storage codec s.active s.shared))
        (λ s' c f. f) (λ populated s' c f. f) s current e
  run_operation_of-Keeps to_nothing name pairs req h = λ s current e. e

  handle_at-Keeps :
      (found : Option (Text × List Text)) (pairs : Pairs) (req : Request)
      → reopens_at req found ≡ false
      → Keeps (handle_at engine builder storage codec found pairs req)
  handle_at-Keeps none pairs req h = λ s current e. e
  handle_at-Keeps (some (name, tail)) pairs req h =
      bind-Keeps _ _ (λ s current e. e)
        (λ _. run_operation_of-Keeps (operation_of req.method tail) name pairs req h)

  segments-Keeps :
      (r : Result Text (List Text)) (pairs : Pairs) (req : Request)
      → reopens_on req r ≡ false
      → Keeps (λ s.
        continue r
          (λ segments.
            handle_at engine builder storage codec (database_and_tail segments) pairs req)
          s)
  segments-Keeps (err error) pairs req h s current e = e
  segments-Keeps (ok segments) pairs req h s current e =
      handle_at-Keeps (database_and_tail segments) pairs req h s current e

  url-Keeps :
      (r : Result Text (Text × Pairs)) (req : Request)
      → reopens_by req r ≡ false
      → Keeps (λ s. continue r (handle_url engine builder storage codec req) s)
  url-Keeps (err error) req h s current e = e
  url-Keeps (ok (path, pairs)) req h s current e =
      segments-Keeps (route_segments path) pairs req h s current e

  answered_keeps :
      (answer : Result Text Response) (s : SlateDbObject (Shared W) Db Recorder)
      → (answered engine builder storage codec (answer, s)).1 ≡ s
  answered_keeps (ok response) s = refl
  answered_keeps (err error) s = refl

  -- Requests that an object answers, one after the other.
  unfoldable pub fetches :
      List Request
      → SlateDbObject (Shared W) Db Recorder
      → List Response × SlateDbObject (Shared W) Db Recorder
  fetches [] s = ([], s)
  fetches (req ∷ reqs) s =
      let (response, s₁) = fetch engine builder storage codec req s in
      let (responses, s₂) = fetches reqs s₁ in (response ∷ responses, s₂)

  fetch_keeps :
      (req : Request) (s : SlateDbObject (Shared W) Db Recorder) (current : ActiveDb Db Recorder)
      → asks_reopen req ≡ false
      → s.active ≡ some current
      → (fetch engine builder storage codec req s).1.active ≡ some current
  unfolding fetch handle
  fetch_keeps req s current h e =
      ap (λ (o : SlateDbObject (Shared W) Db Recorder). o.active) (answered_keeps _ _)
      ∙ url-Keeps req.url req h s current e

  -- Once a database is open in an object, it stays the one that is open through all requests but
  -- those for `admin/reopen`, whatever they ask, under whatever names and whatever fails.
  pub fetches-open :
      (reqs : List Request) (s : SlateDbObject (Shared W) Db Recorder)
      (current : ActiveDb Db Recorder)
      → All (λ req. asks_reopen req ≡ false) reqs
      → s.active ≡ some current
      → (fetches reqs s).1.active ≡ some current
  unfolding fetches
  fetches-open [] s current h e = e
  fetches-open (req ∷ reqs) s current h e =
      fetches-open reqs _ current h.1 (fetch_keeps req s current h.0 e)
