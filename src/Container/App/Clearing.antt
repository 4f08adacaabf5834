-- ===== src/Container/App/Clearing.antt =====
-- What `clear_cache` closes, removes and opens, and what it leaves open.
use slatedb_cloudflare.Prelude.{
  Text, Option, none, some, Result, ok, err, ◌>>◌, Result-cases, inl, inr, ◌⊎◌, ◌≡◌, refl, subst,
}
use slatedb_cloudflare.Slatedb.{Engine}
use slatedb_cloudflare.Container.Files.{cache_dir, not_found, other}
use slatedb_cloudflare.Container.Measures.{AppError, internal}
use slatedb_cloudflare.Container.App.{
  open_database, close_taken, open_again, remove_cache, clear_cache,
}
use slatedb_cloudflare.Container.Host.{ActiveDb, AppState, Host, validate_database_name, on_world}
use slatedb_cloudflare.Container.App.Names.{OpenedAs, open_database-OpenedAs}

module _ {S Store Db Recorder Adapter : Type 0} (engine : Engine S Db Recorder)
    (host : Host S Store Db Recorder Adapter) where
  -- Closing what was open, if anything was, has answered this and left this world.
  pub data Closed (w : S)
      : Option (ActiveDb Db Recorder Adapter) → Result Text (Unit {0}) → S → Type 0 where
    nothing_open : Closed w none (ok tt) w
    closes :
        (current : ActiveDb Db Recorder Adapter) {answer : Result Text (Unit {0})} {w' : S}
        → engine.close current.db w ≡ (answer, w')
        → Closed w (some current) answer w'

  -- Removing the directory of a name has left this world, and it was removed or not there.
  abbrev Removed : Text → S → S → Type 0
  Removed name w w' =
      (host.remove_dir_all (cache_dir name) w ≡ (ok tt, w'))
      ⊎ (host.remove_dir_all (cache_dir name) w ≡ (err not_found, w'))

  -- What `clear_cache` has done, by its answer.
  pub data Cleared (name : Text) (s : AppState S Db Recorder Adapter)
      : Result AppError (Unit {0}) → AppState S Db Recorder Adapter → Type 0 where
    refused :
        (error : AppError) → validate_database_name name ≡ err error → Cleared name s (err error) s
    close_failed :
        (error : Text) {w : S}
        → validate_database_name name ≡ ok tt
        → Closed s.world s.active (err error) w
        → Cleared name s (err (internal error)) (record { world = w; active = none })
    remove_failed :
        (error : Text) {w w' : S}
        → validate_database_name name ≡ ok tt
        → Closed s.world s.active (ok tt) w
        → host.remove_dir_all (cache_dir name) w ≡ (err (other error), w')
        → Cleared name s (err (internal error)) (record { world = w'; active = none })
    open_failed :
        (error : AppError) {w w' w'' : S}
        → validate_database_name name ≡ ok tt
        → Closed s.world s.active (ok tt) w
        → Removed name w w'
        → open_database engine host name w' ≡ (err error, w'')
        → Cleared name s (err error) (record { world = w''; active = none })
    opened :
        (db : ActiveDb Db Recorder Adapter) {w w' w'' : S}
        → validate_database_name name ≡ ok tt
        → Closed s.world s.active (ok tt) w
        → Removed name w w'
        → open_database engine host name w' ≡ (ok db, w'')
        → db.name ≡ name
        → Cleared name s (ok tt) (record { world = w''; active = some db })

  module _ (name : Text) (s : AppState S Db Recorder Adapter)
      (accepted : validate_database_name name ≡ ok tt) where
    abbrev Clears : Result AppError (Unit {0}) × AppState S Db Recorder Adapter → Type 0
    Clears (answer, s') = Cleared name s answer s'

    opened-Cleared :
        (w w' : S)
        → Closed s.world s.active (ok tt) w
        → Removed name w w'
        → Clears (open_again engine host name (record { world = w'; active = none }))
    opened-Cleared w w' closed removed =
        let opening = open_database engine host name w' in
        elim (Result-cases opening.0) [
          | inr (error, e) ↦
              rw e (open_failed error accepted closed removed (λ i. (e i, opening.1)))
          | inl (db, e) ↦ rw e (
              opened db accepted closed removed (λ i. (e i, opening.1))
                (subst (OpenedAs engine host name) e (open_database-OpenedAs engine host name w')))
        ]

    removed-Cleared :
        (w : S)
        → Closed s.world s.active (ok tt) w
        → Clears (
            (on_world (remove_cache engine host name) >> open_again engine host name)
              (record { world = w; active = none }))
    removed-Cleared w closed =
        let removing = host.remove_dir_all (cache_dir name) w in
        elim (Result-cases removing.0) [
          | inl (_, e) ↦ rw e (opened-Cleared w removing.1 closed (inl (λ i. (e i, removing.1))))
          | inr (not_found, e) ↦
              rw e (opened-Cleared w removing.1 closed (inr (λ i. (e i, removing.1))))
          | inr (other error, e) ↦
              rw e (remove_failed error accepted closed (λ i. (e i, removing.1)))
        ]

    taken-Cleared :
        (active : Option (ActiveDb Db Recorder Adapter))
        → s.active ≡ active
        → Clears (
            (close_taken engine host active
                >> (on_world (remove_cache engine host name) >> open_again engine host name))
              (record s { active = none }))
    taken-Cleared none e = removed-Cleared s.world (rw e nothing_open)
    taken-Cleared (some current) e =
        let closing = engine.close current.db s.world in
        elim (Result-cases closing.0) [
          | inr (error, f) ↦
              rw f (close_failed error accepted (rw e (closes current (λ i. (f i, closing.1)))))
          | inl (_, f) ↦
              rw f (removed-Cleared closing.1 (rw e (closes current (λ i. (f i, closing.1)))))
        ]

  -- Under a name that is not accepted `clear_cache` fails and changes nothing. Otherwise it takes
  -- what was open and closes it, then removes the cache directory of that name, then opens a
  -- database under that name: if closing fails, or removing fails though the directory is there, or
  -- opening fails, it answers that error, has gone no further, and nothing is open; if it succeeds,
  -- the database that it has opened under that name is open.
  pub clear_cache-Cleared :
      (name : Text) (s : AppState S Db Recorder Adapter)
      → let (answer, s') = clear_cache engine host name s in Cleared name s answer s'
  unfolding clear_cache
  clear_cache-Cleared name s = elim (Result-cases (validate_database_name name)) [
    | inr (error, e) ↦ rw e (refused error e)
    | inl (_, e) ↦ rw e (taken-Cleared name s e s.active refl)
  ]
