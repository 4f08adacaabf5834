-- ===== src/DurableObject/DbCache/Fresh.antt =====
-- The cache against an ideal that evicts nothing: it may have forgotten an entry, but never answers
-- a stale one.
use slatedb_cloudflare.Prelude.{
  ℕ, Option, none, some, List, [], ◌∷◌, ok, ◌⊎◌, inl, inr, ◌≡◌, ◌≢◌, ap, ◌∙◌,
}
use mathlib.Core.Logic.{ite, if_pos, if_neg}
use slatedb_cloudflare.DurableObject.DbCache.{
  QuickCache, new, get_block, get_index, get_filter, get_stats, insert, remove,
}

-- What a cache may answer where an ideal one holds something: that, or nothing.
abbrev pub Held {ℓ} : {A : Type ℓ} → Option A → Option A → Type ℓ
Held answer ideal = (answer ≡ none) ⊎ (answer ≡ ideal)

-- What the crate documents of its cache, by what it holds under a key: a read answers that and evicts
-- nothing, and a write or a removal may evict the entries of other keys, or what was just written.
pub record Documented {S Key Entry : Type 0} (entries : QuickCache S Key Entry) : Type 0 where
  pub holds : S → Key → Option Entry
  pub with_weighter_holds :
      (estimated capacity : ℕ) (weight : Key → Entry → ℕ) (key : Key)
      → holds (entries.with_weighter estimated capacity weight) key ≡ none
  pub get_answers : (key : Key) (s : S) → (entries.get key s).0 ≡ holds s key
  pub get_holds : (key j : Key) (s : S) → holds (entries.get key s).1 j ≡ holds s j
  pub insert_holds :
      (key : Key) (value : Entry) (s : S)
      → Held (holds (entries.insert key value s) key) (some value)
  pub insert_other :
      (key j : Key) (value : Entry) (s : S)
      → key ≢ j
      → Held (holds (entries.insert key value s) j) (holds s j)
  pub remove_holds : (key : Key) (s : S) → holds (entries.remove key s) key ≡ none
  pub remove_other :
      (key j : Key) (s : S) → key ≢ j → Held (holds (entries.remove key s) j) (holds s j)

-- The calls that SlateDB makes.
pub data Call (Key Entry : Type 0) : Type 0 where
  block index filter stats : Key → Call Key Entry
  write : Key → Entry → Call Key Entry
  forget : Key → Call Key Entry

Held-trans {ℓ} : {A : Type ℓ} {a b c : Option A} → Held a b → Held b c → Held a c
Held-trans (inl e) h = inl e
Held-trans (inr e) (inl f) = inl (e ∙ f)
Held-trans (inr e) (inr f) = inr (e ∙ f)

module _ {Key Entry : Type 0} (dec : Discrete Key) where
  -- What an ideal cache holds after a call: what was last written under a key, and not removed since.
  abbrev pub note : (Key → Option Entry) → Call Key Entry → Key → Option Entry
  note ideal (write key value) j = ite (dec key j) (some value) (ideal j)
  note ideal (forget key) j = ite (dec key j) none (ideal j)
  note ideal (block key) j = ideal j
  note ideal (index key) j = ideal j
  note ideal (filter key) j = ideal j
  note ideal (stats key) j = ideal j

  unfoldable pub last_written : (Key → Option Entry) → List (Call Key Entry) → Key → Option Entry
  last_written ideal [] = ideal
  last_written ideal (call ∷ calls) = last_written (note ideal call) calls

module _ {S Key Entry : Type 0} (entries : QuickCache S Key Entry) where
  -- the state that calls leave
  unfoldable pub after_call : Call Key Entry → S → S
  after_call (block key) s = (get_block entries key s).1
  after_call (index key) s = (get_index entries key s).1
  after_call (filter key) s = (get_filter entries key s).1
  after_call (stats key) s = (get_stats entries key s).1
  after_call (write key value) s = insert entries key value s
  after_call (forget key) s = remove entries key s

  unfoldable pub after_calls : List (Call Key Entry) → S → S
  unfolding after_call
  after_calls [] s = s
  after_calls (call ∷ calls) s = after_calls calls (after_call call s)

  module _ (documented : Documented entries) (dec : Discrete Key) where
    abbrev Tracks : S → (Key → Option Entry) → Type 0
    Tracks s ideal = (j : Key) → Held (documented.holds s j) (ideal j)

    after_read :
        (key j : Key) (s : S) (ideal : Key → Option Entry)
        → Tracks s ideal
        → Held (documented.holds (entries.get key s).1 j) (ideal j)
    after_read key j s ideal tracks = rw (documented.get_holds key j s) (tracks j)

    after_call-Tracks :
        (call : Call Key Entry) (s : S) (ideal : Key → Option Entry)
        → Tracks s ideal
        → Tracks (after_call call s) (note dec ideal call)
    unfolding after_call get_block get_index get_filter get_stats insert remove
    after_call-Tracks (block key) s ideal tracks j = after_read key j s ideal tracks
    after_call-Tracks (index key) s ideal tracks j = after_read key j s ideal tracks
    after_call-Tracks (filter key) s ideal tracks j = after_read key j s ideal tracks
    after_call-Tracks (stats key) s ideal tracks j = after_read key j s ideal tracks
    after_call-Tracks (write key value) s ideal tracks j = elim (dec key j) [
      | yes same ↦ rw (if_pos _ same, ← same) (documented.insert_holds key value s)
      | no other ↦
          rw (if_neg _ other) (Held-trans (documented.insert_other key j value s other) (tracks j))
    ]
    after_call-Tracks (forget key) s ideal tracks j = elim (dec key j) [
      | yes same ↦ rw (if_pos _ same, ← same) (inl (documented.remove_holds key s))
      | no other ↦
          rw (if_neg _ other) (Held-trans (documented.remove_other key j s other) (tracks j))
    ]

    after_calls-Tracks :
        (calls : List (Call Key Entry)) (s : S) (ideal : Key → Option Entry)
        → Tracks s ideal
        → Tracks (after_calls calls s) (last_written dec ideal calls)
    unfolding after_calls last_written
    after_calls-Tracks [] s ideal tracks = tracks
    after_calls-Tracks (call ∷ calls) s ideal tracks =
        after_calls-Tracks calls (after_call call s) (note dec ideal call)
          (after_call-Tracks call s ideal tracks)

    -- What each of the four reads answers under a key: one entry or none, the same for all.
    abbrev pub ReadsAs : Key → S → Option Entry → Type 0
    ReadsAs key s entry =
        ((get_block entries key s).0 ≡ ok entry)
        × ((get_index entries key s).0 ≡ ok entry)
        × ((get_filter entries key s).0 ≡ ok entry)
        × ((get_stats entries key s).0 ≡ ok entry)

    -- When the crate behaves as documented, then after any calls on a new cache every read of a key
    -- succeeds, and answers nothing or the entry that was last written under that key, by
    -- whichever call, and not removed since.
    pub after_calls-Fresh :
        (size : Entry → ℕ) (calls : List (Call Key Entry)) (key : Key)
        → (entry : Option Entry) × ReadsAs key (after_calls calls (new entries size)) entry
          × Held entry (last_written dec (λ j. none) calls key)
    unfolding get_block get_index get_filter get_stats new
    after_calls-Fresh size calls key =
        let s = after_calls calls (new entries size) in
        let e = documented.get_answers key s in
        (
          documented.holds s key,
          (ap ok e, ap ok e, ap ok e, ap ok e),
          after_calls-Tracks calls (new entries size) (λ j. none)
              (λ j. inl (documented.with_weighter_holds _ _ _ j)) key,
        )
