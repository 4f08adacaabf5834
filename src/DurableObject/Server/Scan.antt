-- ===== src/DurableObject/Server/Scan.antt =====
-- What a scan answers, of an iterator that yields what it has in order.
use slatedb_cloudflare.Prelude.{
  ℕ, zero, suc, ◌+◌, none, some, List, [], ◌∷◌, ◌++◌, map, append-nil, append_assoc, ok, ltb,
  length, length-take, take, ◌≡◌, refl, sym, ap, ◌∙◌, arith,
}
use slatedb_cloudflare.Slatedb.{Engine, KeyValue}
use slatedb_cloudflare.DurableObject.Web.{ScanItem}
use slatedb_cloudflare.DurableObject.Server.{shown, read_items, scan_up_to, Builder}

module _ {S Store Db Recorder : Type 0} (engine : Engine S Db Recorder)
    (builder : Builder S Store Db Recorder) (iterator : ℕ) where
  -- The items that an iterator yields from a state on.
  pub data Yields : S → List KeyValue → Type 0 where
    ends : {s : S} → (engine.next iterator s).0 ≡ ok none → Yields s []
    yields :
        {s : S} {item : KeyValue} {items : List KeyValue}
        → (engine.next iterator s).0 ≡ ok (some item)
        → Yields (engine.next iterator s).1 items
        → Yields s (item ∷ items)

  read_items-take :
      (room : ℕ) (read : List ScanItem) (items : List KeyValue) (s : S)
      → Yields s items
      → (read_items engine builder room iterator read s).0
        ≡ ok (read ++ map (shown engine builder) (take room items))
  unfolding read_items
  read_items-take zero read items s y = ap ok (sym (append-nil read))
  read_items-take (suc room) read [] s (ends e) = rw e (ap ok (sym (append-nil read)))
  read_items-take (suc room) read (item ∷ items) s (yields e y) = rw e (
      read_items-take room (read ++ shown engine builder item ∷ []) items _ y
      ∙ ap ok (append_assoc read (shown engine builder item ∷ []) _))

  length-map : (items : List KeyValue) → length (map (shown engine builder) items) ≡ length items
  length-map [] = refl
  length-map (item ∷ items) = ap (λ n. suc n) (length-map items)

  take-map :
      (n : ℕ) (items : List KeyValue)
      → take n (map (shown engine builder) (take (suc n) items))
        ≡ map (shown engine builder) (take n items)
  take-map zero items = refl
  take-map (suc n) [] = refl
  take-map (suc n) (item ∷ items) = ap (λ rest. shown engine builder item ∷ rest) (take-map n items)

  more :
      (limit : ℕ) (items : List KeyValue)
      → ltb limit (length (map (shown engine builder) (take (suc limit) items)))
        ≡ ltb limit (length items)
  more limit items =
      ap (ltb limit) (length-map (take (suc limit) items) ∙ length-take (suc limit) items)
      ∙ ground arith

  -- A scan answers the first items that the iterator yields, as many as the limit, in their order,
  -- and says that it is truncated exactly when there are more.
  pub scan_up_to-Yields :
      (limit : ℕ) (items : List KeyValue) (s : S)
      → Yields s items
      → (scan_up_to engine builder limit iterator s).0
        ≡ ok (record {
          items = map (shown engine builder) (take limit items);
          truncated = ltb limit (length items);
        })
  unfolding scan_up_to
  scan_up_to-Yields limit items s y =
      let room : limit + 1 ≡ suc limit = omega arith in
      rw room (
        rw (read_items-take (suc limit) [] items s y)
          (λ i. ok (record { items = take-map limit items i; truncated = more limit items i })))
