-- ===== src/Paging/Found.antt =====
-- Where the next request of the stream leads.
use slatedb_cloudflare.Prelude.{
  ℕ, zero, suc, ◌<◌, Text, Option, none, some, List, [], ◌∷◌, ◌++◌, append-nil, reverse, Result, ok,
  err, Exec, length, ◌≡◌, refl, ◌∙◌, arith, is_none,
}
use slatedb_cloudflare.ObjectStore.{Error, ObjectMeta}
use slatedb_cloudflare.Paging.{
  Page, Unfold, next_page, pop-reverse, objects_of, Pages, last, more, failed,
}

-- the stream's state between two items, with `items` of the current page still to come
abbrev pub between : Option Text → List ObjectMeta → Unfold
between next items = record { cursor = next; buffered = reverse items; finished = is_none next }

-- what the loop of requests answers where the pages hold no object
abbrev pub nothing_left :
    Result Error (Unit {0}) → Result Error (Option (Option (ObjectMeta × Unfold)))
nothing_left (ok _) = ok (some none)
nothing_left (err error) = err error

module _ {S : Type 0} (read : Option Text → Exec S Error Page) where
  -- The loop of requests takes the first object of a page that has one, and passes over a page that
  -- has none.
  next_page-item :
      (fuel : ℕ) (cursor : Option Text) (s s₁ : S) (page : Page) (item : ObjectMeta)
      (items : List ObjectMeta)
      → read cursor s ≡ (ok page, s₁)
      → page.metadata ≡ item ∷ items
      → next_page read (suc fuel) cursor s ≡ (ok (some (some (item, between page.next items))), s₁)
  unfolding next_page
  next_page-item fuel cursor s s₁ page item items e some_here = rw (e, pop-reverse, some_here)

  next_page-end :
      (fuel : ℕ) (cursor : Option Text) (s s₁ : S) (page : Page)
      → read cursor s ≡ (ok page, s₁)
      → page.metadata ≡ []
      → page.next ≡ none
      → next_page read (suc fuel) cursor s ≡ (ok (some none), s₁)
  unfolding next_page
  next_page-end fuel cursor s s₁ page e none_here stop = rw (e, pop-reverse, none_here, stop)

  next_page-skip :
      (fuel : ℕ) (cursor : Option Text) (s s₁ : S) (page : Page) (next : Text)
      → read cursor s ≡ (ok page, s₁)
      → page.metadata ≡ []
      → page.next ≡ some next
      → next_page read (suc fuel) cursor s ≡ next_page read fuel (some next) s₁
  unfolding next_page
  next_page-skip fuel cursor s s₁ page next e none_here go = rw (e, pop-reverse, none_here, go)

  -- Where the next request leads: past empty pages to the end, or to the first page with an object.
  pub data Found (fuel : ℕ) (cursor : Option Text) (s : S) (pages : List Page)
      (end : Result Error (Unit {0})) (s' : S) : Type 0 where
    exhausted :
        next_page read fuel cursor s ≡ (nothing_left end, s')
        → objects_of pages ≡ []
        → Found fuel cursor s pages end s'
    in_last :
        (item : ObjectMeta) (items : List ObjectMeta)
        → next_page read fuel cursor s ≡ (ok (some (some (item, between none items))), s')
        → objects_of pages ≡ item ∷ items
        → end ≡ ok tt
        → Found fuel cursor s pages end s'
    in_page :
        (item : ObjectMeta) (items : List ObjectMeta) (next : Text) (s₁ : S) (rest : List Page)
        → next_page read fuel cursor s ≡ (ok (some (some (item, between (some next) items))), s₁)
        → objects_of pages ≡ item ∷ (items ++ objects_of rest)
        → length rest < length pages
        → Pages read (some next) s₁ rest end s'
        → Found fuel cursor s pages end s'

  Found-skip :
      (fuel : ℕ) {cursor : Option Text} {s s₁ s' : S} {rest : List Page}
      {end : Result Error (Unit {0})} (page : Page) (next : Text)
      → read cursor s ≡ (ok page, s₁)
      → page.metadata ≡ []
      → page.next ≡ some next
      → Found fuel (some next) s₁ rest end s'
      → Found (suc fuel) cursor s (page ∷ rest) end s'
  unfolding objects_of
  Found-skip fuel page next e none_here go (exhausted step empty) =
      exhausted (next_page-skip fuel _ _ _ page next e none_here go ∙ step) (rw (none_here, empty))
  Found-skip fuel page next e none_here go (in_last item items step here stop) =
      in_last item items (next_page-skip fuel _ _ _ page next e none_here go ∙ step)
        (rw (none_here, here)) stop
  Found-skip fuel page next e none_here go
        (in_page item items next' s₂ rest step here shorter chain) =
      in_page item items next' s₂ rest (next_page-skip fuel _ _ _ page next e none_here go ∙ step)
        (rw (none_here, here)) (omega arith) chain

  Found-last :
      (fuel : ℕ) {cursor : Option Text} {s s' : S} (page : Page) (items : List ObjectMeta)
      → page.metadata ≡ items
      → read cursor s ≡ (ok page, s')
      → page.next ≡ none
      → Found (suc fuel) cursor s (page ∷ []) (ok tt) s'
  unfolding objects_of
  Found-last fuel page [] none_here e stop =
      exhausted (next_page-end fuel _ _ _ page e none_here stop) (rw none_here)
  Found-last fuel page (item ∷ items) some_here e stop =
      in_last item items (rw (next_page-item fuel _ _ _ page item items e some_here, stop))
        (rw (some_here, append-nil)) refl

  Found-more :
      (fuel : ℕ) {cursor : Option Text} {s s₁ s' : S} {rest : List Page}
      {end : Result Error (Unit {0})} (page : Page) (next : Text) (items : List ObjectMeta)
      → page.metadata ≡ items
      → read cursor s ≡ (ok page, s₁)
      → page.next ≡ some next
      → Pages read (some next) s₁ rest end s'
      → Found fuel (some next) s₁ rest end s'
      → Found (suc fuel) cursor s (page ∷ rest) end s'
  unfolding objects_of
  Found-more fuel page next [] none_here e go chain later =
      Found-skip fuel page next e none_here go later
  Found-more fuel {rest = rest} page next (item ∷ items) some_here e go chain later =
      in_page item items next _ rest
        (rw (next_page-item fuel _ _ _ page item items e some_here, go)) (rw some_here)
        (omega arith) chain

  pub Found-first :
      (fuel : ℕ) {cursor : Option Text} {s s' : S} {pages : List Page}
      {end : Result Error (Unit {0})}
      → Pages read cursor s pages end s'
      → length pages < fuel
      → Found fuel cursor s pages end s'
  unfolding next_page objects_of
  Found-first zero chain h = absurd (omega arith)
  Found-first (suc fuel) (last page e stop) h = Found-last fuel page page.metadata refl e stop
  Found-first (suc fuel) (more page next e go chain) h =
      Found-more fuel page next page.metadata refl e go chain (Found-first fuel chain (omega arith))
  Found-first (suc fuel) (failed error e) h = exhausted (rw e) refl
