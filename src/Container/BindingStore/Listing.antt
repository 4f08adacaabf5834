-- ===== src/Container/BindingStore/Listing.antt =====
-- `list_page`, `list` and `list_with_delimiter` of container/src/binding_store.rs.
pub mod Pages
use slatedb_cloudflare.Prelude.{
  ℕ, zero, suc, Text, codes, Option, none, some, List, [], ◌∷◌, ◌++◌, map, reverse, Result, ok, err,
  ◌>>=◌, ◌>>◌, pure, lift, map_err, is_none, if◌then◌else◌, trim_end_matches,
}
use slatedb_cloudflare.ObjectStore.{Error, ObjectMeta, ListResult}
use slatedb_cloudflare.Paging.{Unfold, Next, pop, take_first, take_buffered}
use slatedb_cloudflare.Container.BindingStore.{
  Method, generic_error, send, check_response, count, lists,
}
use slatedb_cloudflare.Container.BindingStore.Bridge.{
  ListObject, ListPage, Verb, bare_request, Client,
}

-- a pair of the query, where there is a value
abbrev pub pair_of : Text → Option Text → List (Text × Text)
pair_of name none = []
pair_of name (some value) = (name, value) ∷ []

module _ {W : Type 0} (client : Client W) where
  abbrev meta_at : ListObject → Result Error Text → Result Error ObjectMeta
  meta_at object (err error) = err error
  meta_at object (ok location) = ok (record {
    location = location;
    last_modified = object.uploaded;
    size = object.size;
    e_tag = some object.etag;
    version = some object.version;
  })

  unfoldable pub into_meta : ListObject → Result Error ObjectMeta
  into_meta object = meta_at object (map_err generic_error (client.parse_path object.key))

  abbrev and_then :
      Result Error ObjectMeta → Result Error (List ObjectMeta) → Result Error (List ObjectMeta)
  and_then (err error) metas = err error
  and_then (ok meta) (err error) = err error
  and_then (ok meta) (ok metas) = ok (meta ∷ metas)

  -- `.map(ListObject::into_meta).collect::<Result<Vec<_>>>()`, up to the first error
  unfoldable pub into_metas : List ListObject → Result Error (List ObjectMeta)
  unfolding into_meta
  into_metas [] = ok []
  into_metas (object ∷ objects) = and_then (into_meta object) (into_metas objects)

  unfoldable pub list_page : Option Text → Option Text → Option Text → Method W ListPage
  list_page prefix cursor delimiter = do
    count client lists 1
    response ← send client (record (bare_request Verb.get) {
      operation = some (codes "list");
      query =
          pair_of (codes "prefix") prefix
          ++ (pair_of (codes "cursor") cursor ++ pair_of (codes "delimiter") delimiter);
    })
    response ← lift (check_response response)
    lift (map_err generic_error response.page)

module _ {W : Type 0} (client : Client W) (prefix : Option Text) where
  -- The `loop` of `list`; the outer `none` means that the fuel ran out.
  unfoldable pub next_page : ℕ → Option Text → Method W Next
  unfolding list_page into_metas
  next_page zero cursor = pure none
  next_page (suc fuel) cursor = do
    page ← list_page client prefix cursor none
    items ← lift (into_metas client page.objects)
    take_first (λ next. next_page fuel (some next)) page.cursor (pop (reverse items))

  -- One step of the stream that `list` returns.
  unfoldable pub list_next : ℕ → Unfold → Method W Next
  list_next fuel state = take_buffered (next_page fuel) state (pop state.buffered)

  -- The loop of `list_with_delimiter`, over what it has gathered.
  unfoldable pub list_all :
      ℕ → Option Text → List ObjectMeta → List Text → Method W (Option ListResult)
  list_all zero cursor objects prefixes = pure none
  list_all (suc fuel) cursor objects prefixes = do
    page ← list_page client prefix cursor (some (codes "/"))
    metas ← lift (into_metas client page.objects)
    let objects' = objects ++ metas
    let prefixes' =
        prefixes
        ++ map (λ value. client.crate.path_from (trim_end_matches b'/' value)) page.prefixes
    elim page.cursor [
      | some next ↦ list_all fuel (some next) objects' prefixes'
      | none ↦ pure (some (record { common_prefixes = prefixes'; objects = objects' }))
    ]

  unfoldable pub list_with_delimiter : ℕ → Method W (Option ListResult)
  unfolding list_all
  list_with_delimiter fuel = list_all fuel none [] []
