-- ===== src/Container/Host.antt =====
-- What the server of container/src/main.rs keeps, the names that it accepts, and its host.
use slatedb_cloudflare.Prelude.{
  ℕ, ◌*◌, Text, codes, ◌&&◌, ◌||◌, not, Option, none, List, Result, ok, err, Exec, all, leb, ◌==◌,
  if◌then◌else◌, length,
}
use slatedb_cloudflare.Slatedb.{Settings}
use slatedb_cloudflare.DurableObject.Names.{is_ascii_alphanumeric}
use slatedb_cloudflare.Container.Files.{IoError, Directory}
use slatedb_cloudflare.Container.Measures.{AppError, bad_request}

pub record ActiveDb (Db Recorder Adapter : Type 0) : Type 0 where
  pub name : Text
  pub db : Db
  pub metrics : Recorder
  pub adapter : Adapter

-- `AppState`, beside all that is outside the process
pub record AppState (S Db Recorder Adapter : Type 0) : Type 0 where
  pub world : S
  pub active : Option (ActiveDb Db Recorder Adapter)

unfoldable pub validate_database_name : Text → Result AppError (Unit {0})
validate_database_name name =
    if not (length name == 0)
      && (leb (length name) 128
          && all (λ byte. is_ascii_alphanumeric byte || (byte == b'-' || byte == b'_')) name)
    then ok tt
    else err (bad_request (codes "invalid database name"))

-- The file system and the parts of the crates that `open_database` puts together: the store of a
-- prefix, with its counters, and the builder of a database that caches in a directory.
pub record Host (S Store Db Recorder Adapter : Type 0) : Type 0 where
  pub create_dir_all : Text → S → Result Text (Unit {0}) × S
  pub remove_dir_all : Text → S → Result IoError (Unit {0}) × S
  pub read_dir : Text → S → Directory
  pub counters : S → Adapter × S
  pub snapshot : Adapter → S → List (Text × ℕ)
  pub store : (prefix : Text) → Adapter → Store
  pub build : (root : Text) → Store → Settings → (cache : Text) → Recorder → S → Result Text Db × S

abbrev pub settings : Settings
settings = record {
  l0_sst_size_bytes = 64 * 1024 * 1024;
  l0_flush_parallelism = none;
  max_unflushed_bytes = 256 * 1024 * 1024;
  max_concurrent_compactions = none;
  max_sst_size = none;
  max_fetch_tasks = none;
  max_subcompactions = none;
}

module _ {S Db Recorder Adapter : Type 0} where
  abbrev pub on_world :
      {A : Type 0} → Exec S AppError A → Exec (AppState S Db Recorder Adapter) AppError A
  on_world m s = let (answer, world) = m s.world in (answer, record s { world = world })

  abbrev pub set_active :
      Option (ActiveDb Db Recorder Adapter)
      → Exec (AppState S Db Recorder Adapter) AppError (Unit {0})
  set_active active s = (ok tt, record s { active = active })
