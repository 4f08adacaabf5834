-- ===== src/DurableObject/R2Store/List/Pages.antt =====
-- The listings of the store by the answers that R2 gives: its loops are those of `Paging`.
use slatedb_cloudflare.Prelude.{
  ℕ, zero, suc, ◌<◌, Text, codes, Option, none, some, List, [], Result, ok, ◌>>=◌, length, ◌≡◌,
  ◌++◌, reverse, pure, refl, ap, fun_ext,
}
use slatedb_cloudflare.ObjectStore.{Error, ObjectMeta}
use slatedb_cloudflare.Paging
use slatedb_cloudflare.Paging.{
  Page, Next, start, Unfold, take_first, take_buffered, pop, objects_of, prefixes_of, Pages, listed,
}
use slatedb_cloudflare.Paging.Gathered.{list_all-Pages}
use slatedb_cloudflare.Paging.Stream.{read_all, list_next-Pages}
use slatedb_cloudflare.DurableObject.R2Store.{R2Store, Shared, Method}
use slatedb_cloudflare.DurableObject.R2Store.Binding.{Bucket, Objects}
use slatedb_cloudflare.DurableObject.R2Store.List.Served.{
  Served, named_objects, named_prefixes, objects_of-named, prefixes_of-named, Served-Pages,
  length-pages,
}
use slatedb_cloudflare.DurableObject.R2Store.List.{
  list_page, next_page, list_next, list_all, list_with_delimiter,
}

module _ {W : Type 0} (store : R2Store W) (prefix : Option Text) where
  -- what reads a page of the stream, and of the listing with a delimiter
  abbrev pub whole : Option Text → Method W Page
  whole cursor = list_page store prefix cursor none

  abbrev pub delimited : Option Text → Method W Page
  delimited cursor = list_page store prefix cursor (some (codes "/"))

  next_page-paged :
      (fuel : ℕ) (cursor : Option Text)
      → next_page store prefix fuel cursor ≡ Paging.next_page whole fuel cursor
  unfolding next_page Paging.next_page
  next_page-paged zero cursor = refl
  next_page-paged (suc fuel) cursor =
      ap
        (λ (again : Text → Method W Next).
          whole cursor >>= λ page. take_first again page.next (pop (reverse page.metadata)))
        (fun_ext (λ next. next_page-paged fuel (some next)))

  list_all-paged :
      (fuel : ℕ) (cursor : Option Text) (objects : List ObjectMeta) (prefixes : List Text)
      → list_all store prefix fuel cursor objects prefixes
        ≡ Paging.list_all delimited fuel cursor objects prefixes
  unfolding list_all Paging.list_all
  list_all-paged zero cursor objects prefixes = refl
  list_all-paged (suc fuel) cursor objects prefixes = λ i. delimited cursor >>= λ page.
      let objects' = objects ++ page.metadata in
      let prefixes' = prefixes ++ page.common_prefixes in
      elim page.next [
        | some next ↦ list_all-paged fuel (some next) objects' prefixes' i
        | none ↦ pure (some (record { common_prefixes = prefixes'; objects = objects' }))
      ]

  list_next-paged : list_next store prefix ≡ Paging.list_next whole
  unfolding list_next Paging.list_next
  list_next-paged = λ i fuel state.
      take_buffered (λ cursor. next_page-paged fuel cursor i) state (pop state.buffered)

module _ {W : Type 0} {bucket : Bucket W} (store : R2Store W)
    (available : store.bucket_of store.binding ≡ ok bucket) (prefix : Option Text) where
  -- If R2 serves the listing to its end, then whoever reads the stream of `list` gets the objects
  -- that it has named, in order, each once, with their keys as the crate reads them, and then the
  -- end of the stream; if a request fails, the objects of the answers before it and then that
  -- error. The stream sends no request beyond these and counts each, and more steps than objects,
  -- with more requests each than answers, are enough. The binding is available and R2 gives a
  -- cursor with what it truncates.
  pub list-Pages :
      {s s' : Shared W} {answers : List Objects} {end : Result Error (Unit {0})} (rounds fuel : ℕ)
      → Served bucket prefix none none s answers end s'
      → length answers < fuel
      → length (named_objects store answers) < rounds
      → read_all (list_next store prefix) rounds fuel start s
        ≡ some ((named_objects store answers, end), s')
  list-Pages {answers} rounds fuel served h k =
      rw (list_next-paged store prefix, ← objects_of-named store answers)
        (list_next-Pages (whole store prefix) rounds fuel
          (Served-Pages store available prefix none served) (rw (length-pages store answers) h)
          (rw (objects_of-named store answers) k))

  -- If R2 serves the listing with the delimiter to its end, then with more fuel than answers
  -- `list_with_delimiter` answers the objects and the common prefixes that it has named, in order,
  -- with their keys, and the prefixes less their slashes at the end, as the crate reads them; if a
  -- request fails, it answers that error. It sends no request beyond these and counts each. The
  -- binding is available and R2 gives a cursor with what it truncates.
  pub list_with_delimiter-Pages :
      {s s' : Shared W} {answers : List Objects} {end : Result Error (Unit {0})} (fuel : ℕ)
      → Served bucket prefix (some (codes "/")) none s answers end s'
      → length answers < fuel
      → list_with_delimiter store prefix fuel s
        ≡ (listed (named_objects store answers) (named_prefixes store answers) end, s')
  unfolding list_with_delimiter
  list_with_delimiter-Pages {answers} fuel served h =
      rw
        (
          list_all-paged store prefix fuel none [] [],
          ← objects_of-named store answers,
          ← prefixes_of-named store answers,
        )
        (list_all-Pages (delimited store prefix) fuel [] []
          (Served-Pages store available prefix (some (codes "/")) served)
          (rw (length-pages store answers) h))
