-- ===== src/DurableObject/Server.antt =====
-- `SlateDbObject` of durable-object/src/lib.rs: the one database that a Durable Object keeps open. The
-- mutex `active` is held through `database` and through `reopen`, so each is one step.
pub mod Active
pub mod Scan
use slatedb_cloudflare.Prelude.{
  ℕ, zero, suc, ◌+◌, ◌-◌, ◌*◌, ◌/◌, ◌%◌, ◌^◌, Text, Bytes, String, codes, Bool, true, false, ◌&&◌,
  ◌||◌, not, Option, none, some, List, [], ◌∷◌, ◌++◌, map, Result, ok, err, Exec, ◌>>=◌, ◌>>◌, pure,
  fail, fail_if, lift, map_err, ltb, leb, ◌==◌, if◌then◌else◌, text_eq, length, take,
}
use slatedb_cloudflare.Slatedb.{Engine, Settings, KeyValue}
use slatedb_cloudflare.DurableObject.State.{Shared, new_shared}
use slatedb_cloudflare.DurableObject.Benchmark.{slatedb_error, engine_call}
use slatedb_cloudflare.DurableObject.Web.{ScanItem, ScanResponse}

abbrev pub cache_part_size : ℕ
cache_part_size = 64 * 1024

pub record ActiveDb (Db Recorder : Type 0) : Type 0 where
  pub name : Text
  pub db : Db
  pub metrics : Recorder

-- What `open` uses of SlateDB: the store of the R2 bucket under a prefix and behind the cache, and the
-- builder of a database. Each is made over the bindings that the object holds.
pub record Builder (S Store Db Recorder : Type 0) : Type 0 where
  pub from_storage : (prefix : Text) (part_size : ℕ) → Recorder → S → Result Text Store × S
  pub build : (root : Text) → Store → Settings → Recorder → S → Result Text Db × S

-- `SlateDbObject`; the counters, the cache and the bindings are in `shared`
pub record SlateDbObject (S Db Recorder : Type 0) : Type 0 where
  pub shared : S
  pub active : Option (ActiveDb Db Recorder)

abbrev pub settings : Settings
settings = record {
  l0_sst_size_bytes = 4 * 1024 * 1024;
  l0_flush_parallelism = some 1;
  max_unflushed_bytes = 16 * 1024 * 1024;
  max_concurrent_compactions = some 1;
  max_sst_size = some (4 * 1024 * 1024);
  max_fetch_tasks = some 1;
  max_subcompactions = some 1;
}

-- `SlateDbObject::new`: nothing is open.
abbrev pub new_object : {W Db Recorder : Type 0} → W → SlateDbObject (Shared W) Db Recorder
new_object w = record { shared = new_shared w; active = none }

module _ {S Db Recorder : Type 0} where
  -- a method that leaves `active` alone
  abbrev pub on_shared : {A : Type 0} → Exec S Text A → Exec (SlateDbObject S Db Recorder) Text A
  on_shared m s = let (answer, shared) = m s.shared in (answer, record s { shared = shared })

  abbrev pub set_active :
      Option (ActiveDb Db Recorder) → Exec (SlateDbObject S Db Recorder) Text (Unit {0})
  set_active active s = (ok tt, record s { active = active })

module _ {S Store Db Recorder : Type 0} (engine : Engine S Db Recorder)
    (builder : Builder S Store Db Recorder) where
  abbrev pub Method : Type 0 → Type 0
  Method A = Exec (SlateDbObject S Db Recorder) Text A

  unfoldable pub open_database : Text → Exec S Text (ActiveDb Db Recorder)
  open_database database s =
      let (metrics, s₁) = engine.recorder s in
      ((do
        cached ← engine_call (builder.from_storage database cache_part_size metrics)
        db ← engine_call (builder.build (codes "slatedb") cached settings metrics)
        pure (record { name = database; db = db; metrics = metrics }))
        s₁)

  abbrev database_of : Text → Option (ActiveDb Db Recorder) → Method Db
  database_of name (some current) =
      if text_eq current.name name
      then pure current.db
      else fail (codes "Durable Object was routed with two database names")
  database_of name none = do
    opened ← on_shared (open_database name)
    set_active (some opened)
    pure opened.db

  unfoldable pub database : Text → Method Db
  unfolding open_database
  database name s = database_of name s.active s

  abbrev close_taken : Option (ActiveDb Db Recorder) → Method (Unit {0})
  close_taken none = pure tt
  close_taken (some current) = on_shared (engine_call (engine.close current.db))

  unfoldable pub reopen : Text → Method (Unit {0})
  unfolding open_database
  reopen name s =
      ((do
        set_active none
        close_taken s.active
        opened ← on_shared (open_database name)
        set_active (some opened))
        s)

  abbrev pub shown : KeyValue → ScanItem
  shown item = record { key = engine.lossy item.key; value = engine.lossy item.value }

  abbrev pub read_item :
      (List ScanItem → Exec S Text (List ScanItem))
      → List ScanItem
      → Option KeyValue
      → Exec S Text (List ScanItem)
  read_item again items none = pure items
  read_item again items (some item) = again (items ++ shown item ∷ [])

  -- The loop of `scan`: it runs while `items.len() <= limit`, so for as many items as `room`.
  unfoldable pub read_items :
      (room : ℕ) (iterator : ℕ) → List ScanItem → Exec S Text (List ScanItem)
  read_items zero iterator items = pure items
  read_items (suc room) iterator items =
      engine_call (engine.next iterator) >>= λ item. read_item (read_items room iterator) items item

  unfoldable pub scan_up_to : ℕ → ℕ → Exec S Text ScanResponse
  unfolding read_items
  scan_up_to limit iterator = do
    items ← read_items (limit + 1) iterator []
    pure (record { items = take limit items; truncated = ltb limit (length items) })

  unfoldable pub start_scan : Db → Text → Exec S Text ℕ
  start_scan db prefix =
      if length prefix == 0
      then engine_call (engine.scan db)
      else engine_call (engine.scan_prefix db prefix)
