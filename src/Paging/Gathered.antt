-- ===== src/Paging/Gathered.antt =====
-- What the loop of `list_with_delimiter` makes of the pages.
use slatedb_cloudflare.Prelude.{
  ℕ, zero, suc, ◌<◌, Text, Option, List, ◌++◌, append-nil, append_assoc, Result, Exec, length, ◌≡◌,
  arith,
}
use slatedb_cloudflare.ObjectStore.{Error, ObjectMeta}
use slatedb_cloudflare.Paging.{
  Page, list_all, objects_of, prefixes_of, Pages, last, more, failed, listed,
}

module _ {S : Type 0} (read : Option Text → Exec S Error Page) where
  pub list_all-Pages :
      (fuel : ℕ) (objects : List ObjectMeta) (prefixes : List Text) {cursor : Option Text}
      {s s' : S} {pages : List Page} {end : Result Error (Unit {0})}
      → Pages read cursor s pages end s'
      → length pages < fuel
      → list_all read fuel cursor objects prefixes s
        ≡ (listed (objects ++ objects_of pages) (prefixes ++ prefixes_of pages) end, s')
  unfolding list_all objects_of prefixes_of
  list_all-Pages zero objects prefixes chain h = absurd (omega arith)
  list_all-Pages (suc fuel) objects prefixes (last page e stop) h =
      rw (e, stop, append-nil, append-nil)
  list_all-Pages (suc fuel) objects prefixes (more {pages = rest} page next e go chain) h =
      rw
        (
          e,
          go,
          ← append_assoc objects page.metadata (objects_of rest),
          ← append_assoc prefixes page.common_prefixes (prefixes_of rest),
        )
        (list_all-Pages fuel (objects ++ page.metadata) (prefixes ++ page.common_prefixes) chain
          (omega arith))
  list_all-Pages (suc fuel) objects prefixes (failed error e) h = rw e
