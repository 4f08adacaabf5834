-- ===== src/Container/App/Names.antt =====
-- Under which names the container opens databases, and what is open after a handler that closes one.
use slatedb_cloudflare.Prelude.{
  ℕ, Text, codes, Option, none, some, List, [], ◌∷◌, Result, ok, err, Exec, continue, ◌>>=◌, ◌>>◌,
  pure, lift, Result-cases, Bool-cases, inl, inr, text_eq, ◌≡◌, refl, ap, subst, ◌∙◌,
}
use slatedb_cloudflare.Slatedb.{Engine}
use slatedb_cloudflare.DurableObject.Benchmark.{BenchmarkBatchRequest}
use slatedb_cloudflare.Container.Measures.{AppError, run_batch, is_bad_batch}
use slatedb_cloudflare.Container.App.{
  cache_dir, open_database, database_of, locked_database, database, put, get_value, delete, flush,
  scan, close_taken, open_again, take_active, reopen, remove_cache, clear_cache, benchmark_batch,
  read_status, status_of, stats, Request, Response, serve, answer_with,
}
use slatedb_cloudflare.Container.Host.{
  ActiveDb, AppState, Host, settings, validate_database_name, on_world,
}

abbrev IsNamed : {Db Recorder Adapter : Type 0} → Option (ActiveDb Db Recorder Adapter) → Type 0
IsNamed none = Unit
IsNamed (some current) = validate_database_name current.name ≡ ok tt

module _ {S Db Recorder Adapter : Type 0} where
  -- A database is open only under a valid name.
  abbrev pub NamesValid : AppState S Db Recorder Adapter → Type 0
  NamesValid s = IsNamed s.active

  abbrev Keeps : {A : Type 0} → Exec (AppState S Db Recorder Adapter) AppError A → Type 0
  Keeps m = (s : AppState S Db Recorder Adapter) → NamesValid s → NamesValid (m s).1

  continue-Keeps :
      {A B : Type 0} (r : Result AppError A)
      (f : A → Exec (AppState S Db Recorder Adapter) AppError B)
      (s : AppState S Db Recorder Adapter)
      → ((a : A) → Keeps (f a))
      → NamesValid s
      → NamesValid (continue r f s).1
  continue-Keeps (ok a) f s h v = h a s v
  continue-Keeps (err error) f s h v = v

  bind-Keeps :
      {A B : Type 0} (m : Exec (AppState S Db Recorder Adapter) AppError A)
      (f : A → Exec (AppState S Db Recorder Adapter) AppError B)
      → Keeps m
      → ((a : A) → Keeps (f a))
      → Keeps (m >>= f)
  bind-Keeps m f h k s v = continue-Keeps (m s).0 f (m s).1 k (h s v)

  -- what runs only under a valid name
  under-Keeps :
      {B : Type 0} (name : Text) (m : Exec (AppState S Db Recorder Adapter) AppError B)
      → (validate_database_name name ≡ ok tt → Keeps m)
      → Keeps (lift (validate_database_name name) >> m)
  under-Keeps name m h s v = elim (Result-cases (validate_database_name name)) [
    | inl (_, e) ↦ rw e (h e s v)
    | inr (error, e) ↦ rw e v
  ]

module _ {S Store Db Recorder Adapter : Type 0} (engine : Engine S Db Recorder)
    (host : Host S Store Db Recorder Adapter) where
  abbrev pub OpenedAs : Text → Result AppError (ActiveDb Db Recorder Adapter) → Type 0
  OpenedAs name (ok opened) = opened.name ≡ name
  OpenedAs name (err error) = Unit

  pub open_database-OpenedAs :
      (name : Text) (w : S) → OpenedAs name (open_database engine host name w).0
  unfolding open_database
  open_database-OpenedAs name w =
      let (adapter, w₁) = host.counters w in
      let (metrics, w₂) = engine.recorder w₁ in
      let made = host.create_dir_all (cache_dir name) w₂ in
      elim (Result-cases made.0) [
        | inr (error, e) ↦ rw e tt
        | inl (_, e) ↦
            elim (Result-cases
              (host.build (codes "slatedb") (host.store name adapter) settings (cache_dir name)
                metrics made.1).0) [ inr (error, f) ↦ rw (e, f) tt | inl (db, f) ↦ rw (e, f) refl ]
      ]

  open_again-Keeps :
      (name : Text) → validate_database_name name ≡ ok tt → Keeps (open_again engine host name)
  open_again-Keeps name valid s v =
      let opening = open_database engine host name s.world in
      elim (Result-cases opening.0) [
        | inr (error, e) ↦ rw e v
        | inl (opened, e) ↦ rw e (
            ap validate_database_name
              (subst (OpenedAs name) e (open_database-OpenedAs name s.world))
            ∙ valid)
      ]

  database_of-Keeps :
      (name : Text) (active : Option (ActiveDb Db Recorder Adapter))
      → validate_database_name name ≡ ok tt
      → Keeps (database_of engine host name active)
  database_of-Keeps name none valid s v =
      let opening = open_database engine host name s.world in
      elim (Result-cases opening.0) [
        | inr (error, e) ↦ rw e v
        | inl (opened, e) ↦ rw e (
            ap validate_database_name
              (subst (OpenedAs name) e (open_database-OpenedAs name s.world))
            ∙ valid)
      ]
  database_of-Keeps name (some current) valid s v = elim (Bool-cases (text_eq current.name name)) [
    | inl same ↦ rw same v
    | inr different ↦ rw different v
  ]

  database-Keeps : (name : Text) → Keeps (database engine host name)
  unfolding database
  database-Keeps name =
      under-Keeps name (locked_database engine host name)
        (λ valid s v. database_of-Keeps name s.active valid s v)

  take_active-Keeps : Keeps (take_active engine host)
  take_active-Keeps s v = closed s.active _ tt
    where
      closed :
          (active : Option (ActiveDb Db Recorder Adapter)) (s : AppState S Db Recorder Adapter)
          → NamesValid s
          → NamesValid (close_taken engine host active s).1
      closed none s v = v
      closed (some current) s v = v

  -- a call on the database of a name
  on_database-Keeps :
      {A : Type 0} (name : Text) (f : Db → Exec (AppState S Db Recorder Adapter) AppError A)
      → ((db : Db) → Keeps (f db))
      → Keeps (database engine host name >>= f)
  on_database-Keeps name f h = bind-Keeps (database engine host name) f (database-Keeps name) h

  answer-Keeps :
      {A : Type 0} (f : A → Response engine host)
      (m : Exec (AppState S Db Recorder Adapter) AppError A)
      → Keeps m
      → Keeps (answer_with engine host f m)
  answer-Keeps f m h = bind-Keeps m (λ a. pure (f a)) h (λ a s v. v)

  reopen-Keeps : (name : Text) → Keeps (reopen engine host name)
  unfolding reopen
  reopen-Keeps name =
      under-Keeps name (take_active engine host >> open_again engine host name) (λ valid.
        bind-Keeps (take_active engine host) (λ _. open_again engine host name) take_active-Keeps
          (λ _. open_again-Keeps name valid))

  clear_cache-Keeps : (name : Text) → Keeps (clear_cache engine host name)
  unfolding clear_cache
  clear_cache-Keeps name =
      let removed = on_world (remove_cache engine host name) in
      let again = open_again engine host name in
      under-Keeps name (take_active engine host >> (removed >> again)) (λ valid.
        bind-Keeps (take_active engine host) (λ _. removed >> again) take_active-Keeps
          (λ _. bind-Keeps removed (λ _. again) (λ s v. v) (λ _. open_again-Keeps name valid)))

  stats-Keeps : (name : Text) → Keeps (stats engine host name)
  unfolding stats
  stats-Keeps name = under-Keeps name (read_status engine host name) (λ valid s v. read_kept _ s v)
    where
      read_kept :
          (size : Result AppError ℕ) (s : AppState S Db Recorder Adapter)
          → NamesValid s
          → NamesValid (continue size (λ n. pure (status_of engine host s.active s.world n)) s).1
      read_kept (ok n) s v = v
      read_kept (err error) s v = v

  benchmark_batch-Keeps :
      (name : Text) (body : BenchmarkBatchRequest) → Keeps (benchmark_batch engine host name body)
  unfolding benchmark_batch
  benchmark_batch-Keeps name body s v = elim (Bool-cases (is_bad_batch body)) [
    | inl bad ↦ rw bad v
    | inr good ↦
        rw good
          (on_database-Keeps name (λ db. on_world (run_batch engine db body)) (λ db s' v'. v') s v)
  ]

  serve-Keeps : (req : Request engine host) → Keeps (serve engine host req)
  unfolding serve put get_value delete flush scan
  serve-Keeps (Request.to_put name body) =
      answer-Keeps _ (put engine host name body) (on_database-Keeps name _ (λ db s v. v))
  serve-Keeps (Request.to_get name query) =
      answer-Keeps _ (get_value engine host name query)
        (on_database-Keeps name _ (λ db. bind-Keeps _ _ (λ s v. v) (λ value s v. v)))
  serve-Keeps (Request.to_delete name body) =
      answer-Keeps _ (delete engine host name body) (on_database-Keeps name _ (λ db s v. v))
  serve-Keeps (Request.to_scan name query) =
      answer-Keeps _ (scan engine host name query) (on_database-Keeps name _ (λ db s v. v))
  serve-Keeps (Request.to_stats name) = answer-Keeps _ (stats engine host name) (stats-Keeps name)
  serve-Keeps (Request.to_reopen name) =
      answer-Keeps _ (reopen engine host name) (reopen-Keeps name)
  serve-Keeps (Request.to_flush name) =
      answer-Keeps _ (flush engine host name) (on_database-Keeps name _ (λ db s v. v))
  serve-Keeps (Request.to_clear_cache name) =
      answer-Keeps _ (clear_cache engine host name) (clear_cache-Keeps name)
  serve-Keeps (Request.to_benchmark name body) =
      answer-Keeps _ (benchmark_batch engine host name body) (benchmark_batch-Keeps name body)

  -- The state after some requests, one after the other, whatever they are answered.
  unfoldable pub after :
      List (Request engine host) → AppState S Db Recorder Adapter → AppState S Db Recorder Adapter
  after [] s = s
  after (req ∷ reqs) s = after reqs (serve engine host req s).1

  -- From a container with nothing open, whatever requests are served and whatever fails, a database
  -- is open only under a name that `validate_database_name` accepts.
  pub after-NamesValid :
      (reqs : List (Request engine host)) (s : AppState S Db Recorder Adapter)
      → NamesValid s
      → NamesValid (after reqs s)
  unfolding after
  after-NamesValid [] s v = v
  after-NamesValid (req ∷ reqs) s v = after-NamesValid reqs _ (serve-Keeps req s v)
