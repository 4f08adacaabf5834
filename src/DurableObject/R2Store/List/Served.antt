-- ===== src/DurableObject/R2Store/List/Served.antt =====
-- What R2 serves to the listings of durable-object/src/r2_store.rs: its answers, request by request, as
-- its documentation has them page a listing.
use slatedb_cloudflare.Prelude.{
  suc, Text, String, true, false, Option, some, List, [], ◌∷◌, ◌++◌, map, Result, ok, err, ◌≡◌,
  refl, ap, length, trim_end_matches,
}
use mathlib.Core.Option
use slatedb_cloudflare.ObjectStore.{Error, ObjectMeta}
use slatedb_cloudflare.Paging.{Pages, last, more, failed, objects_of, prefixes_of}
use slatedb_cloudflare.DurableObject.Perf.{Counter, increment, r2_lists, r2_errors}
use slatedb_cloudflare.DurableObject.R2Store.{R2Store, Shared, generic_error}
use slatedb_cloudflare.DurableObject.R2Store.Binding.{Bucket, Object, Objects}
use slatedb_cloudflare.DurableObject.R2Store.Get.{object_meta}
use slatedb_cloudflare.DurableObject.R2Store.List.{next_list_cursor, page_of, list_page}

module _ {W : Type 0} (bucket : Bucket W) (prefix delimiter : Option Text) where
  abbrev asked : Option Text → Shared W → Result String Objects × W
  asked cursor s = bucket.list (Option.get_or prefix []) cursor delimiter s.world

  abbrev counted : Counter → Shared W → W → Shared W
  counted counter s w = record { perf = increment counter 1 s.perf; world = w }

  -- Asked from a cursor on, each time with the cursor that it gave last, R2 gives these answers,
  -- all but the last of them truncated; then the listing ends, or a request fails. Every request is
  -- counted.
  pub data Served
      : Option Text → Shared W → List Objects → Result Error (Unit {0}) → Shared W → Type 0 where
    complete :
        {cursor : Option Text} {s : Shared W} (objects : Objects) (w : W)
        → asked cursor s ≡ (ok objects, w)
        → objects.truncated ≡ false
        → Served cursor s (objects ∷ []) (ok tt) (counted r2_lists s w)
    truncated :
        {cursor : Option Text} {s s' : Shared W} {rest : List Objects}
        {end : Result Error (Unit {0})} (objects : Objects) (w : W) (next : Text)
        → asked cursor s ≡ (ok objects, w)
        → objects.truncated ≡ true
        → objects.cursor ≡ some next
        → Served (some next) (counted r2_lists s w) rest end s'
        → Served cursor s (objects ∷ rest) end s'
    refused :
        {cursor : Option Text} {s : Shared W} (error : String) (w : W)
        → asked cursor s ≡ (err error, w)
        → Served cursor s []
            (err (generic_error error))
            (counted r2_errors (counted r2_lists s w) w)

-- The objects that R2 has named, as the crate reads their keys, and the common prefixes.
module _ {W : Type 0} (store : R2Store W) where
  abbrev meta_of : Object → ObjectMeta
  meta_of object = object_meta store.crate (store.crate.path_from object.key) object

  abbrev pub named_objects : List Objects → List ObjectMeta
  named_objects [] = []
  named_objects (objects ∷ rest) = map meta_of objects.objects ++ named_objects rest

  abbrev prefixes_in : Objects → List Text
  prefixes_in objects =
      map (λ prefix. store.crate.path_from (trim_end_matches b'/' prefix))
        objects.delimited_prefixes

  abbrev pub named_prefixes : List Objects → List Text
  named_prefixes [] = []
  named_prefixes (objects ∷ rest) = prefixes_in objects ++ named_prefixes rest

  pub objects_of-named :
      (answers : List Objects) → objects_of (map (page_of store) answers) ≡ named_objects answers
  unfolding objects_of page_of
  objects_of-named [] = refl
  objects_of-named (objects ∷ rest) =
      ap (λ metas. map meta_of objects.objects ++ metas) (objects_of-named rest)

  pub prefixes_of-named :
      (answers : List Objects) → prefixes_of (map (page_of store) answers) ≡ named_prefixes answers
  unfolding prefixes_of page_of
  prefixes_of-named [] = refl
  prefixes_of-named (objects ∷ rest) =
      ap (λ prefixes. prefixes_in objects ++ prefixes) (prefixes_of-named rest)

module _ {W : Type 0} {bucket : Bucket W} (store : R2Store W)
    (available : store.bucket_of store.binding ≡ ok bucket) (prefix delimiter : Option Text) where
  list_page-ok :
      (cursor : Option Text) (s : Shared W) (objects : Objects) (w : W)
      → asked bucket prefix delimiter cursor s ≡ (ok objects, w)
      → list_page store prefix cursor delimiter s
        ≡ (ok (page_of store objects), counted bucket prefix delimiter r2_lists s w)
  unfolding list_page
  list_page-ok cursor s objects w e = rw (available, e) refl

  list_page-err :
      (cursor : Option Text) (s : Shared W) (error : String) (w : W)
      → asked bucket prefix delimiter cursor s ≡ (err error, w)
      → list_page store prefix cursor delimiter s ≡ (
        err (generic_error error),
        counted bucket prefix delimiter r2_errors (counted bucket prefix delimiter r2_lists s w) w,
      )
  unfolding list_page
  list_page-err cursor s error w e = rw (available, e) refl

  -- The store pages through these answers.
  pub Served-Pages :
      {cursor : Option Text} {s s' : Shared W} {answers : List Objects}
      {end : Result Error (Unit {0})}
      → Served bucket prefix delimiter cursor s answers end s'
      → Pages
          (λ cursor. list_page store prefix cursor delimiter)
          cursor
          s
          (map (page_of store) answers)
          end
          s'
  unfolding page_of next_list_cursor
  Served-Pages (complete objects w e f) =
      last (page_of store objects) (list_page-ok _ _ objects w e) (rw f refl)
  Served-Pages (truncated objects w next e f g rest) =
      more (page_of store objects) next (list_page-ok _ _ objects w e) (rw (f, g) refl)
        (Served-Pages rest)
  Served-Pages (refused error w e) = failed (generic_error error) (list_page-err _ _ error w e)

pub length-pages :
    {W : Type 0} (store : R2Store W) (answers : List Objects)
    → length (map (page_of store) answers) ≡ length answers
length-pages store [] = refl
length-pages store (objects ∷ rest) = ap suc (length-pages store rest)
