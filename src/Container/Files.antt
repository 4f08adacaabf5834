-- ===== src/Container/Files.antt =====
-- The cache directories of container/src/main.rs: their paths and their sizes.
use slatedb_cloudflare.Prelude.{ℕ, ◌+◌, ◌%◌, Text, codes, ◌∷◌, ◌++◌, Result, ok, err}
use slatedb_cloudflare.DurableObject.Perf.{u64_mod}

-- `Path::new(CACHE_ROOT).join(name)`, for a name that is not an absolute path
abbrev pub cache_root : Text
cache_root = codes "/var/cache/slatedb"

unfoldable pub cache_dir : Text → Text
cache_dir name = cache_root ++ b'/' ∷ name

-- An `io::Error`.
pub data IoError : Type 0 where
  not_found : IoError
  other : Text → IoError

-- What `read_dir` finds under a path, with all that is below it.
mutual
  pub data Directory : Type 0 where
    missing : Directory
    unreadable : Text → Directory
    holds : Entries → Directory

  pub data Entries : Type 0 where
    end : Entries
    failing : Text → Entries
    file : ℕ → Entries → Entries
    directory : Directory → Entries → Entries

abbrev pub add_size : Result Text ℕ → Result Text ℕ → Result Text ℕ
add_size (err error) rest = err error
add_size (ok size) (err error) = err error
add_size (ok size) (ok total) = ok ((size + total) % u64_mod)

unfoldable mutual
  pub directory_size : Directory → Result Text ℕ
  directory_size missing = ok 0
  directory_size (unreadable error) = err error
  directory_size (holds entries) = entries_size entries

  pub entries_size : Entries → Result Text ℕ
  entries_size end = ok 0
  entries_size (failing error) = err error
  entries_size (file size entries) = add_size (ok size) (entries_size entries)
  entries_size (directory found entries) = add_size (directory_size found) (entries_size entries)
