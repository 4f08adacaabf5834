-- ===== src/Container/BindingStore/Listing/Pages.antt =====
-- The listings of the container's store by the pages that the bridge gives: its loops are those of
-- `Paging`.
use slatedb_cloudflare.Prelude.{
  ℕ, zero, suc, ◌<◌, Text, codes, Option, none, some, List, [], ◌++◌, map, reverse, Result, ◌>>=◌,
  pure, lift, bind_assoc, length, ◌≡◌, refl, sym, ap, fun_ext, ◌∙◌, trim_end_matches,
}
use slatedb_cloudflare.ObjectStore.{Error, ObjectMeta}
use slatedb_cloudflare.Paging
use slatedb_cloudflare.Paging.{
  Page, Next, start, Unfold, take_first, take_buffered, pop, objects_of, prefixes_of, Pages, listed,
}
use slatedb_cloudflare.Paging.Gathered.{list_all-Pages}
use slatedb_cloudflare.Paging.Stream.{read_all, list_next-Pages}
use slatedb_cloudflare.Container.BindingStore.{Shared, Method}
use slatedb_cloudflare.Container.BindingStore.Bridge.{ListPage, Client}
use slatedb_cloudflare.Container.BindingStore.Listing.{
  into_metas, list_page, next_page, list_next, list_all, list_with_delimiter,
}

module _ {W : Type 0} (client : Client W) where
  -- a page with what its objects were read as
  abbrev pub read_as : ListPage → List ObjectMeta → Page
  read_as page metas = record {
    metadata = metas;
    common_prefixes =
        map (λ value. client.crate.path_from (trim_end_matches b'/' value)) page.prefixes;
    next = page.cursor;
  }

module _ {W : Type 0} (client : Client W) (prefix : Option Text) where
  -- What the loops read of a page: the answer of the bridge, and the metadata of all its objects.
  abbrev pub page_at : Option Text → Option Text → Method W Page
  page_at delimiter cursor = do
    page ← list_page client prefix cursor delimiter
    metas ← lift (into_metas client page.objects)
    pure (read_as client page metas)

  module _ {A : Type 0} (delimiter cursor : Option Text) (body : Page → Method W A) where
    page_at-bind : (page_at delimiter cursor >>= body) ≡ (
        list_page client prefix cursor delimiter >>= λ page.
        lift (into_metas client page.objects) >>= λ metas. body (read_as client page metas))
    page_at-bind =
        bind_assoc (list_page client prefix cursor delimiter)
          (λ page.
            lift (into_metas client page.objects) >>= λ metas. pure (read_as client page metas))
          body
        ∙ (λ i. list_page client prefix cursor delimiter >>= λ page.
            bind_assoc (lift (into_metas client page.objects))
              (λ metas. pure (read_as client page metas)) body i)

  next_page-paged :
      (fuel : ℕ) (cursor : Option Text)
      → next_page client prefix fuel cursor ≡ Paging.next_page (page_at none) fuel cursor
  unfolding next_page Paging.next_page
  next_page-paged zero cursor = refl
  next_page-paged (suc fuel) cursor =
      sym (page_at-bind none cursor _)
      ∙ ap
          (λ (again : Text → Method W Next). page_at none cursor >>= λ page.
            take_first again page.next (pop (reverse page.metadata)))
          (fun_ext (λ next. next_page-paged fuel (some next)))

  list_next-paged : list_next client prefix ≡ Paging.list_next (page_at none)
  unfolding list_next Paging.list_next
  list_next-paged = λ i fuel state.
      take_buffered (λ cursor. next_page-paged fuel cursor i) state (pop state.buffered)

  list_all-paged :
      (fuel : ℕ) (cursor : Option Text) (objects : List ObjectMeta) (prefixes : List Text)
      → list_all client prefix fuel cursor objects prefixes
        ≡ Paging.list_all (page_at (some (codes "/"))) fuel cursor objects prefixes
  unfolding list_all Paging.list_all
  list_all-paged zero cursor objects prefixes = refl
  list_all-paged (suc fuel) cursor objects prefixes =
      sym (page_at-bind (some (codes "/")) cursor _) ∙ λ i.
      page_at (some (codes "/")) cursor >>= λ page.
      let objects' = objects ++ page.metadata in
      let prefixes' = prefixes ++ page.common_prefixes in
      elim page.next [
        | some next ↦ list_all-paged fuel (some next) objects' prefixes' i
        | none ↦ pure (some (record { common_prefixes = prefixes'; objects = objects' }))
      ]

  pub list-Paged :
      {s s' : Shared W} {pages : List Page} {end : Result Error (Unit {0})} (rounds fuel : ℕ)
      → Pages (page_at none) none s pages end s'
      → length pages < fuel
      → length (objects_of pages) < rounds
      → read_all (list_next client prefix) rounds fuel start s ≡ some ((objects_of pages, end), s')
  list-Paged rounds fuel chain h k =
      rw list_next-paged (list_next-Pages (page_at none) rounds fuel chain h k)

  pub list_with_delimiter-Paged :
      {s s' : Shared W} {pages : List Page} {end : Result Error (Unit {0})} (fuel : ℕ)
      → Pages (page_at (some (codes "/"))) none s pages end s'
      → length pages < fuel
      → list_with_delimiter client prefix fuel s
        ≡ (listed (objects_of pages) (prefixes_of pages) end, s')
  unfolding list_with_delimiter
  list_with_delimiter-Paged fuel chain h =
      rw (list_all-paged fuel none [] [])
        (list_all-Pages (page_at (some (codes "/"))) fuel [] [] chain h)
