-- ===== src/DurableObject/Server/Active.antt =====
-- Which database is open after `database` and after `reopen`.
use slatedb_cloudflare.Prelude.{
  Text, codes, Option, none, some, List, [], ◌∷◌, All, Result, ok, err, Result-cases, Bool-cases,
  inl, inr, text_eq, text_eq_iff, ◌≡◌, ◌≢◌, refl, sym, subst, ap, ◌∙◌, arith, ◌>>=◌, ◌>>◌,
}
use slatedb_cloudflare.Slatedb.{Engine}
use slatedb_cloudflare.DurableObject.Server.{
  ActiveDb, Builder, SlateDbObject, cache_part_size, settings, open_database, database_of,
  close_taken, on_shared, set_active, database, reopen,
}

module _ {S Store Db Recorder : Type 0} (engine : Engine S Db Recorder)
    (builder : Builder S Store Db Recorder) where
  abbrev Object : Type 0
  Object = SlateDbObject S Db Recorder

  abbrev OpenedAs : Text → Result Text (ActiveDb Db Recorder) → Type 0
  OpenedAs name (ok opened) = opened.name ≡ name
  OpenedAs name (err error) = Unit

  open_database-OpenedAs :
      (name : Text) (s : S) → OpenedAs name (open_database engine builder name s).0
  unfolding open_database
  open_database-OpenedAs name s =
      let (metrics, s₁) = engine.recorder s in
      let stored = builder.from_storage name cache_part_size metrics s₁ in
      elim (Result-cases stored.0) [
        | inr (error, e) ↦ rw e tt
        | inl (cached, e) ↦
            elim (Result-cases
              (builder.build (codes "slatedb") cached settings metrics stored.1).0) [
                | inr (error, f) ↦ rw (e, f) tt
                | inl (db, f) ↦ rw (e, f) refl
              ]
      ]

  -- What `database` has done, by what was open before.
  abbrev pub Guarded :
      Text → Option (ActiveDb Db Recorder) → Object → Result Text Db × Object → Type 0
  Guarded name (some current) s (ok db, s') = (current.name ≡ name) × (current.db ≡ db) × (s' ≡ s)
  Guarded name (some current) s (err error, s') = (current.name ≢ name) × (s' ≡ s)
  Guarded name none s (ok db, s') =
      (opened : ActiveDb Db Recorder) × (s'.active ≡ some opened)
      × (opened.name ≡ name)
      × (opened.db ≡ db)
  Guarded name none s (err error, s') = s'.active ≡ none

  database_of-Guarded :
      (name : Text) (active : Option (ActiveDb Db Recorder)) (s : Object)
      → s.active ≡ active
      → Guarded name active s (database_of engine builder name active s)
  database_of-Guarded name none s closed =
      let opening = open_database engine builder name s.shared in
      elim (Result-cases opening.0) [
        | inr (error, e) ↦ rw e closed
        | inl (opened, e) ↦
            rw e
              (opened, refl, subst (OpenedAs name) e (open_database-OpenedAs name s.shared), refl)
      ]
  database_of-Guarded name (some current) s e = elim (Bool-cases (text_eq current.name name)) [
    | inl same ↦ rw same ((text_eq_iff current.name name).0 same, refl, refl)
    | inr other ↦
        rw other (λ same. absurd (ground (arith, (text_eq_iff current.name name).1 same)), refl)
  ]

  -- If a database is open under the name that is asked for, `database` answers it and changes
  -- nothing; if one is open under another name, it fails and changes nothing. If none is open, it
  -- answers the database that it opens under that name, which stays open, or fails and leaves none
  -- open.
  pub database-Guarded :
      (name : Text) (s : Object) → Guarded name s.active s (database engine builder name s)
  unfolding database
  database-Guarded name s = database_of-Guarded name s.active s refl

  abbrev pub Reopened : Text → Result Text (Unit {0}) × Object → Type 0
  Reopened name (ok _, s') =
      (opened : ActiveDb Db Recorder) × (s'.active ≡ some opened) × (opened.name ≡ name)
  Reopened name (err error, s') = s'.active ≡ none

  reopen_after :
      (name : Text) (s : Object)
      → s.active ≡ none
      → Reopened name
          ((on_shared (open_database engine builder name) >>= λ opened. set_active (some opened)) s)
  reopen_after name s closed =
      let opening = open_database engine builder name s.shared in
      elim (Result-cases opening.0) [
        | inr (error, e) ↦ rw e closed
        | inl (opened, e) ↦
            rw e (opened, refl, subst (OpenedAs name) e (open_database-OpenedAs name s.shared))
      ]

  close_reopen :
      (name : Text) (active : Option (ActiveDb Db Recorder)) (s : Object)
      → s.active ≡ none
      → Reopened name (
          (close_taken engine builder active
              >> (on_shared (open_database engine builder name) >>= λ opened.
                  set_active (some opened)))
            s)
  close_reopen name none s closed = reopen_after name s closed
  close_reopen name (some current) s closed =
      elim (Result-cases (engine.close current.db s.shared).0) [
        | inr (error, e) ↦ rw e closed
        | inl (_, e) ↦ rw e (reopen_after name _ closed)
      ]

  -- Whatever was open before, and under whatever name, a `reopen` that succeeds leaves a database
  -- open under the name that it is given, and one that fails, in closing or in opening, leaves none
  -- open.
  pub reopen-Reopened : (name : Text) (s : Object) → Reopened name (reopen engine builder name s)
  unfolding reopen
  reopen-Reopened name s = close_reopen name s.active _ refl

  -- Requests for databases, one after the other.
  unfoldable pub databases : List Text → Object → List (Text × Result Text Db) × Object
  databases [] s = ([], s)
  databases (name ∷ names) s =
      let (answer, s₁) = database engine builder name s in
      let (answers, s₂) = databases names s₁ in ((name, answer) ∷ answers, s₂)

  -- An answer that is the database that is open.
  abbrev pub IsOpen : Option (ActiveDb Db Recorder) → Text × Result Text Db → Type 0
  IsOpen active (name, err error) = Unit
  IsOpen none (name, ok db) = ⊥
  IsOpen (some current) (name, ok db) = (current.name ≡ name) × (current.db ≡ db)

  pub database_keeps :
      (name : Text) (s : Object) (current : ActiveDb Db Recorder)
      → s.active ≡ some current
      → (database engine builder name s).1.active ≡ some current
  unfolding database
  database_keeps name s current e = elim (Bool-cases (text_eq current.name name)) [
    | inl same ↦ rw e (rw same refl)
    | inr other ↦ rw e (rw other refl)
  ]

  databases_keep :
      (names : List Text) (s : Object) (current : ActiveDb Db Recorder)
      → s.active ≡ some current
      → (databases names s).1.active ≡ some current
  unfolding databases
  databases_keep [] s current e = e
  databases_keep (name ∷ names) s current e =
      databases_keep names _ current (database_keeps name s current e)

  Guarded-IsOpen :
      (name : Text) (active : Option (ActiveDb Db Recorder)) (s : Object) (answer : Result Text Db)
      (s' : Object)
      → s.active ≡ active
      → Guarded name active s (answer, s')
      → IsOpen s'.active (name, answer)
  Guarded-IsOpen name active s (err error) s' e h = tt
  Guarded-IsOpen name (some current) s (ok db) s' e (same, same_db, unchanged) =
      subst (λ a. IsOpen a (name, ok db)) (sym e ∙ ap (λ (o : Object). o.active) (sym unchanged))
        (same, same_db)
  Guarded-IsOpen name none s (ok db) s' e (opened, f, same, same_db) =
      subst (λ a. IsOpen a (name, ok db)) (sym f) (same, same_db)

  IsOpen-later :
      (active active' : Option (ActiveDb Db Recorder)) (answer : Text × Result Text Db)
      → ((current : ActiveDb Db Recorder) → active ≡ some current → active' ≡ some current)
      → IsOpen active answer
      → IsOpen active' answer
  IsOpen-later active active' (name, err error) keep h = tt
  IsOpen-later none active' (name, ok db) keep h = absurd h
  IsOpen-later (some current) active' (name, ok db) keep h =
      subst (λ a. IsOpen a (name, ok db)) (sym (keep current refl)) h

  -- In a run of requests for databases without a `reopen`, from any state, every database that is
  -- answered is the one that is open at the end, and was asked for by its name: one object never
  -- serves two databases.
  pub databases-IsOpen :
      (names : List Text) (s : Object)
      → let (answers, s') = databases names s in All (IsOpen s'.active) answers
  unfolding databases
  databases-IsOpen [] s = tt
  databases-IsOpen (name ∷ names) s =
      let first = database engine builder name s in
      (
        IsOpen-later first.1.active (databases names first.1).1.active (name, first.0)
            (databases_keep names first.1)
            (Guarded-IsOpen name s.active s first.0 first.1 refl (database-Guarded name s)),
        databases-IsOpen names first.1,
      )
