-- ===== src/DurableObject/R2Store/List.antt =====
-- `delete_stream`, `list` and `list_with_delimiter` of durable-object/src/r2_store.rs.
pub mod Served
pub mod Pages
pub mod Removal
use slatedb_cloudflare.Prelude.{
  ℕ, zero, suc, ◌≡◌, Text, codes, Bool, true, false, Option, none, some, List, [], ◌∷◌, ◌++◌, map,
  reverse, Result, ◌>>=◌, ◌>>◌, pure, lift, is_none, if◌then◌else◌, trim_end_matches,
}
use mathlib.Core.List.{reverse-reverse}
use mathlib.Core.Option
use slatedb_cloudflare.ObjectStore.{Error, ObjectMeta, ListResult}
use slatedb_cloudflare.Paging.{Page, Unfold, Next, pop, take_first, take_buffered}
use slatedb_cloudflare.DurableObject.Perf.{r2_lists, r2_deletes}
use slatedb_cloudflare.DurableObject.R2Store.{R2Store, Shared, Method, count, call_counted, bucket}
use slatedb_cloudflare.DurableObject.R2Store.Binding.{Objects}
use slatedb_cloudflare.DurableObject.R2Store.Get.{object_meta}

unfoldable pub next_list_cursor : Bool → Option Text → Option Text
next_list_cursor true cursor = cursor
next_list_cursor false cursor = none

module _ {W : Type 0} (store : R2Store W) where
  unfoldable pub page_of : Objects → Page
  page_of objects = record {
    metadata =
        map (λ object. object_meta store.crate (store.crate.path_from object.key) object)
          objects.objects;
    common_prefixes =
        map (λ prefix. store.crate.path_from (trim_end_matches b'/' prefix))
          objects.delimited_prefixes;
    next = next_list_cursor objects.truncated objects.cursor;
  }

  unfoldable pub list_page : Option Text → Option Text → Option Text → Method W Page
  unfolding page_of
  list_page prefix cursor delimiter = do
    count r2_lists 1
    bucket ← bucket store
    objects ← call_counted (bucket.list (Option.get_or prefix []) cursor delimiter)
    pure (page_of objects)

module _ {W : Type 0} (store : R2Store W) (prefix : Option Text) where
  -- The `loop` of `list`, which skips empty pages; the outer `none` means that the fuel ran out.
  unfoldable pub next_page : ℕ → Option Text → Method W Next
  next_page zero cursor = pure none
  next_page (suc fuel) cursor = do
    page ← list_page store prefix cursor none
    let items = reverse page.metadata
    take_first (λ next. next_page fuel (some next)) page.next (pop items)

  -- One step of the stream that `list` returns.
  unfoldable pub list_next : ℕ → Unfold → Method W Next
  list_next fuel state = take_buffered (next_page fuel) state (pop state.buffered)

  -- The loop of `list_with_delimiter`, over what it has gathered.
  unfoldable pub list_all :
      ℕ → Option Text → List ObjectMeta → List Text → Method W (Option ListResult)
  list_all zero cursor objects prefixes = pure none
  list_all (suc fuel) cursor objects prefixes = do
    page ← list_page store prefix cursor (some (codes "/"))
    let objects' = objects ++ page.metadata
    let prefixes' = prefixes ++ page.common_prefixes
    elim page.next [
      | some next ↦ list_all fuel (some next) objects' prefixes'
      | none ↦ pure (some (record { common_prefixes = prefixes'; objects = objects' }))
    ]

  unfoldable pub list_with_delimiter : ℕ → Method W (Option ListResult)
  unfolding list_all
  list_with_delimiter fuel = list_all fuel none [] []

module _ {W : Type 0} (store : R2Store W) where
  -- What `delete_stream` does with one item of the stream of locations.
  unfoldable pub delete_next : Result Error Text → Method W Text
  delete_next item = do
    location ← lift item
    count r2_deletes 1
    bucket ← bucket store
    call_counted (bucket.delete location)
    pure location

  -- `delete_stream`: the answers, one for each item and in the order of the items.
  unfoldable pub delete_stream :
      List (Result Error Text) → Shared W → List (Result Error Text) × Shared W
  unfolding delete_next
  delete_stream [] s = ([], s)
  delete_stream (item ∷ items) s =
      let (answer, s₁) = delete_next item s in
      let (answers, s₂) = delete_stream items s₁ in (answer ∷ answers, s₂)
