-- ===== src/Paging.antt =====
-- The paging loops that the listings of durable-object/src/r2_store.rs and
-- container/src/binding_store.rs share: the state of the stream that `list` unfolds, and the loops
-- over what reads one page. The modules of the two stores write the loops as their code does, and
-- use these to state and prove what they have in common.
pub mod Gathered
pub mod Found
pub mod Stream
use slatedb_cloudflare.Prelude.{
  ℕ, zero, suc, ◌≡◌, refl, ap, Text, Bool, false, Option, none, some, List, [], ◌∷◌, ◌++◌, reverse,
  Exec, Result, ok, err, ◌>>=◌, pure, is_none, if◌then◌else◌, fun_ext,
}
use mathlib.Core.List.{reverse-reverse}
use slatedb_cloudflare.ObjectStore.{Error, ObjectMeta, ListResult}

-- One page of a listing.
pub record Page : Type 0 where
  pub metadata : List ObjectMeta
  pub common_prefixes : List Text
  pub next : Option Text

-- The state of the stream that `list` unfolds; its store and prefix do not change. The objects of the
-- current page that are still to come stand last first.
pub record Unfold : Type 0 where
  pub cursor : Option Text
  pub buffered : List ObjectMeta
  pub finished : Bool

-- the state that `list` begins with
abbrev pub start : Unfold
start = record { cursor = none; buffered = []; finished = false }

-- What a step of the stream answers. The outer `none` means that the fuel ran out, the inner one that
-- the stream has ended.
abbrev pub Next : Type 0
Next = Option (Option (ObjectMeta × Unfold))

module _ {ℓ} {A : Type ℓ} where
  abbrev pub last_of : List A → Option (A × List A)
  last_of [] = none
  last_of (x ∷ xs) = some (x, reverse xs)

  -- `Vec::pop`: the last element, and the others
  unfoldable pub pop : List A → Option (A × List A)
  pop xs = last_of (reverse xs)

  pub pop-reverse : (xs : List A) → pop (reverse xs) ≡ last_of xs
  unfolding pop
  pop-reverse xs = rw reverse-reverse

module _ {S : Type 0} where
  -- What the loop does with a page: it takes its first object, follows the cursor, or ends.
  abbrev pub take_first :
      (Text → Exec S Error Next)
      → Option Text
      → Option (ObjectMeta × List ObjectMeta)
      → Exec S Error Next
  take_first again next (some (item, rest)) =
      pure (some (some (item, record { cursor = next; buffered = rest; finished = is_none next })))
  take_first again (some next) none = again next
  take_first again none none = pure (some none)

  -- What a step does with the buffer, and where it is empty.
  abbrev pub take_buffered :
      (Option Text → Exec S Error Next)
      → Unfold
      → Option (ObjectMeta × List ObjectMeta)
      → Exec S Error Next
  take_buffered request state (some (item, rest)) =
      pure (some (some (item, record state { buffered = rest })))
  take_buffered request state none =
      if state.finished then pure (some none) else request state.cursor

module _ {S : Type 0} (read : Option Text → Exec S Error Page) where
  unfoldable pub next_page : ℕ → Option Text → Exec S Error Next
  next_page zero cursor = pure none
  next_page (suc fuel) cursor = do
    page ← read cursor
    take_first (λ next. next_page fuel (some next)) page.next (pop (reverse page.metadata))

  unfoldable pub list_next : ℕ → Unfold → Exec S Error Next
  list_next fuel state = take_buffered (next_page fuel) state (pop state.buffered)

  unfoldable pub list_all :
      ℕ → Option Text → List ObjectMeta → List Text → Exec S Error (Option ListResult)
  list_all zero cursor objects prefixes = pure none
  list_all (suc fuel) cursor objects prefixes = do
    page ← read cursor
    let objects' = objects ++ page.metadata
    let prefixes' = prefixes ++ page.common_prefixes
    elim page.next [
      | some next ↦ list_all fuel (some next) objects' prefixes'
      | none ↦ pure (some (record { common_prefixes = prefixes'; objects = objects' }))
    ]

-- The objects of some pages, in order.
unfoldable pub objects_of : List Page → List ObjectMeta
objects_of [] = []
objects_of (page ∷ pages) = page.metadata ++ objects_of pages

unfoldable pub prefixes_of : List Page → List Text
prefixes_of [] = []
prefixes_of (page ∷ pages) = page.common_prefixes ++ prefixes_of pages

module _ {S : Type 0} (read : Option Text → Exec S Error Page) where
  -- Asked page by page from a cursor on, the server gives these pages, each but the last with the
  -- cursor of the next; then the listing ends, or a request fails.
  pub data Pages : Option Text → S → List Page → Result Error (Unit {0}) → S → Type 0 where
    last :
        {cursor : Option Text} {s s' : S} (page : Page)
        → read cursor s ≡ (ok page, s')
        → page.next ≡ none
        → Pages cursor s (page ∷ []) (ok tt) s'
    more :
        {cursor : Option Text} {s s₁ s' : S} {pages : List Page} {end : Result Error (Unit {0})}
        (page : Page) (next : Text)
        → read cursor s ≡ (ok page, s₁)
        → page.next ≡ some next
        → Pages (some next) s₁ pages end s'
        → Pages cursor s (page ∷ pages) end s'
    failed :
        {cursor : Option Text} {s s' : S} (error : Error)
        → read cursor s ≡ (err error, s')
        → Pages cursor s [] (err error) s'

-- what a listing answers, by how its pages ended
abbrev pub listed :
    List ObjectMeta → List Text → Result Error (Unit {0}) → Result Error (Option ListResult)
listed objects prefixes (ok _) =
    ok (some (record { common_prefixes = prefixes; objects = objects }))
listed objects prefixes (err error) = err error
