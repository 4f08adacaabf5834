-- ===== src/Paging/Stream.antt =====
-- What a consumer gets who reads the stream of `list` to its end.
use slatedb_cloudflare.Prelude.{
  ℕ, zero, suc, ◌+◌, ◌≤◌, ◌<◌, Text, Option, none, some, List, [], ◌∷◌, ◌++◌, Result, ok, err, Exec,
  length, length-append, ◌≡◌, refl, arith,
}
use slatedb_cloudflare.ObjectStore.{Error, ObjectMeta}
use slatedb_cloudflare.Paging.{
  Page, Unfold, Next, start, next_page, list_next, pop, pop-reverse, objects_of, Pages,
}
use slatedb_cloudflare.Paging.Found.{
  between, nothing_left, Found, exhausted, in_last, in_page, Found-first,
}

-- The items that a consumer of the stream has read when it ends, and how it ended.
abbrev pub Read : Type 0 → Type 0
Read S = (List ObjectMeta × Result Error (Unit {0})) × S

module _ {S : Type 0} where
  abbrev prepend : ObjectMeta → Option (Read S) → Option (Read S)
  prepend item none = none
  prepend item (some ((items, end), s)) = some ((item ∷ items, end), s)

  abbrev read_step : (Unfold → S → Option (Read S)) → Result Error Next × S → Option (Read S)
  read_step again (err error, s) = some (([], err error), s)
  read_step again (ok none, s) = none
  read_step again (ok (some none), s) = some (([], ok tt), s)
  read_step again (ok (some (some (item, state))), s) = prepend item (again state s)

  -- Reads the stream to its end, as `try_unfold` runs it: at most `rounds` steps, each of at most
  -- `fuel` requests. `none` means that one of these ran out.
  unfoldable pub read_all : (ℕ → Unfold → Exec S Error Next) → ℕ → ℕ → Unfold → S → Option (Read S)
  read_all next zero fuel state s = none
  read_all next (suc rounds) fuel state s =
      read_step (read_all next rounds fuel) (next fuel state s)

module _ {S : Type 0} (read : Option Text → Exec S Error Page) where
  list_next-buffered :
      (fuel : ℕ) (next : Option Text) (item : ObjectMeta) (items : List ObjectMeta) (s : S)
      → list_next read fuel (between next (item ∷ items)) s
        ≡ (ok (some (some (item, between next items))), s)
  list_next-buffered fuel next item items s = unfold list_next in rw pop-reverse

  -- Between two items of the last page, the rest of that page is all that is still read.
  read_all-last :
      (rounds fuel : ℕ) (items : List ObjectMeta) (s : S)
      → length items < rounds
      → read_all (list_next read) rounds fuel (between none items) s ≡ some ((items, ok tt), s)
  unfolding read_all
  read_all-last zero fuel items s h = absurd (omega arith)
  read_all-last (suc rounds) fuel [] s h = unfold list_next pop in refl
  read_all-last (suc rounds) fuel (item ∷ items) s h =
      rw
        (list_next-buffered fuel none item items s, read_all-last rounds fuel items s (omega arith))

  read_step-nothing_left :
      (again : Unfold → S → Option (Read S)) (end : Result Error (Unit {0})) (s : S)
      → read_step again (nothing_left end, s) ≡ some (([], end), s)
  read_step-nothing_left again (ok _) s = refl
  read_step-nothing_left again (err error) s = refl

  -- One step from a state that has nothing buffered, given what later steps read.
  read_all-Found :
      (rounds fuel : ℕ) (state : Unfold) {cursor : Option Text} {s s' : S} {pages : List Page}
      {end : Result Error (Unit {0})}
      → list_next read fuel state s ≡ next_page read fuel cursor s
      → ((items : List ObjectMeta) (next : Text) (s₁ : S) (rest : List Page)
          → Pages read (some next) s₁ rest end s'
          → length rest < fuel
          → length items + length (objects_of rest) < rounds
          → read_all (list_next read) rounds fuel (between (some next) items) s₁
            ≡ some ((items ++ objects_of rest, end), s'))
      → length pages < fuel
      → length (objects_of pages) ≤ rounds
      → Found read fuel cursor s pages end s'
      → read_all (list_next read) (suc rounds) fuel state s ≡ some ((objects_of pages, end), s')
  unfolding read_all
  read_all-Found rounds fuel state {end = end} same later h k (exhausted step empty) =
      rw (same, step, empty) (read_step-nothing_left _ end _)
  read_all-Found rounds fuel state same later h k (in_last item items step here stop) =
      rw (same, step, here, stop) (rw (read_all-last rounds fuel items _ (rw here at k)))
  read_all-Found rounds fuel state same later h k
        (in_page item items next s₁ rest step here shorter chain) =
      rw (same, step, here)
        (rw (
          later items next s₁ rest chain (omega arith)
            (omega (arith, rw here at k, length-append {0} items (objects_of rest)))))

  -- What is read from a state between two items: the rest of the page, then the pages that follow.
  read_all-between :
      (rounds fuel : ℕ) (items : List ObjectMeta) (next : Text) (s s' : S) (pages : List Page)
      (end : Result Error (Unit {0}))
      → Pages read (some next) s pages end s'
      → length pages < fuel
      → length items + length (objects_of pages) < rounds
      → read_all (list_next read) rounds fuel (between (some next) items) s
        ≡ some ((items ++ objects_of pages, end), s')
  unfolding read_all
  read_all-between zero fuel items next s s' pages end chain h k = absurd (omega arith)
  read_all-between (suc rounds) fuel (item ∷ items) next s s' pages end chain h k = rw (
    list_next-buffered fuel (some next) item items s,
    read_all-between rounds fuel items next s s' pages end chain h (omega arith),
  )
  read_all-between (suc rounds) fuel [] next s s' pages end chain h k =
      read_all-Found rounds fuel (between (some next) []) {cursor = some next} {s = s}
        (unfold list_next pop in refl)
        (λ items next' s₁ rest chain' h' k'.
          read_all-between rounds fuel items next' s₁ s' rest end chain' h' k')
        h (omega arith) (Found-first read fuel chain h)

  pub list_next-Pages :
      {s s' : S} {pages : List Page} {end : Result Error (Unit {0})} (rounds fuel : ℕ)
      → Pages read none s pages end s'
      → length pages < fuel
      → length (objects_of pages) < rounds
      → read_all (list_next read) rounds fuel start s ≡ some ((objects_of pages, end), s')
  list_next-Pages zero fuel chain h k = absurd (omega arith)
  list_next-Pages {s} {s' = s'} {end = end} (suc rounds) fuel chain h k =
      read_all-Found rounds fuel start {cursor = none} {s = s} (unfold list_next pop in refl)
        (λ items next s₁ rest chain' h' k'.
          read_all-between rounds fuel items next s₁ s' rest end chain' h' k')
        h (omega arith) (Found-first read fuel chain h)
