-- ===== src/Container/App/Sizes.antt =====
-- The size of the directory of a cache.
use slatedb_cloudflare.Prelude.{ℕ, ◌+◌, ◌%◌, Bool, true, false, ◌&&◌, ok, ◌≡◌, refl, arith}
use slatedb_cloudflare.DurableObject.Perf.{u64_mod}
use slatedb_cloudflare.Container.Files.{
  Directory, missing, unreadable, holds, Entries, end, failing, file, directory, directory_size,
  entries_size,
}

-- The sum of the lengths of the files below a directory.
unfoldable mutual
  pub total_of : Directory → ℕ
  total_of missing = 0
  total_of (unreadable error) = 0
  total_of (holds entries) = total_in entries

  pub total_in : Entries → ℕ
  total_in end = 0
  total_in (failing error) = 0
  total_in (file size entries) = size + total_in entries
  total_in (directory found entries) = total_of found + total_in entries

-- Whether all that is below a directory can be read; a directory that is not there can.
unfoldable mutual
  pub is_readable : Directory → Bool
  is_readable missing = true
  is_readable (unreadable error) = false
  is_readable (holds entries) = are_readable entries

  pub are_readable : Entries → Bool
  are_readable end = true
  are_readable (failing error) = false
  are_readable (file size entries) = are_readable entries
  are_readable (directory found entries) = is_readable found && are_readable entries

mutual
  unfolding directory_size total_of is_readable

  directory_total :
      (found : Directory)
      → is_readable found ≡ true
      → directory_size found ≡ ok (total_of found % u64_mod)
  directory_total missing h = refl
  directory_total (unreadable error) h = absurd (ground (arith, h))
  directory_total (holds entries) h = entries_total entries h

  entries_total :
      (entries : Entries)
      → are_readable entries ≡ true
      → entries_size entries ≡ ok (total_in entries % u64_mod)
  entries_total end h = refl
  entries_total (failing error) h = absurd (ground (arith, h))
  entries_total (file size entries) h = rw (entries_total entries h) (ground arith)
  entries_total (directory found entries) h =
      rw (directory_total found (ground (arith, h)), entries_total entries (ground (arith, h)))
        (ground arith)

-- The size of a directory of which everything can be read is the sum of the lengths of the files at
-- any depth below it, modulo 2 ^ 64; it is 0 where there is no directory.
pub directory_size-total_of :
    (found : Directory)
    → is_readable found ≡ true
    → directory_size found ≡ ok (total_of found % u64_mod)
directory_size-total_of found h = directory_total found h
