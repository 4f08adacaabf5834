-- ===== src/DurableObject/R2Store/List/Removal.antt =====
-- What `delete_stream` removes from the bucket.
use slatedb_cloudflare.Prelude.{
  Text, String, Bool, true, false, ◌||◌, Option, none, List, [], ◌∷◌, Result, ok, err, Result-cases,
  Bool-cases, inl, inr, ◌⊎◌, text_eq, text_eq_iff, subst, any, if◌then◌else◌, ◌≡◌, refl, ◌∙◌,
}
use slatedb_cloudflare.ObjectStore.{Error}
use slatedb_cloudflare.DurableObject.R2Store.{R2Store, Shared, generic_error}
use slatedb_cloudflare.DurableObject.R2Store.Binding.{Bucket}
use slatedb_cloudflare.DurableObject.R2Store.Documented.{Stored, Documented}
use slatedb_cloudflare.DurableObject.R2Store.List.{delete_next, delete_stream}

-- What is documented of a deletion: it removes that key alone, whether or not the key was there;
-- one that fails has removed that key at most.
pub record Removes {W : Type 0} {bucket : Bucket W} (documented : Documented bucket) : Type 0 where
  pub delete_stored :
      (key : Text) (w : W)
      → (bucket.delete key w).0 ≡ ok tt
      → (j : Text)
      → documented.stored (bucket.delete key w).1 j
        ≡ (if text_eq key j then none else documented.stored w j)
  pub delete_other :
      (key : Text) (w : W) (error : String)
      → (bucket.delete key w).0 ≡ err error
      → (j : Text) → text_eq key j ≡ false
      → documented.stored (bucket.delete key w).1 j ≡ documented.stored w j
  pub delete_failed :
      (key : Text) (w : W) (error : String)
      → (bucket.delete key w).0 ≡ err error
      → (documented.stored (bucket.delete key w).1 key ≡ none)
        ⊎ (documented.stored (bucket.delete key w).1 key ≡ documented.stored w key)

-- whether an item of a stream, or an answer, is a location
abbrev pub names : Text → Result Error Text → Bool
names j (ok location) = text_eq location j
names j (err error) = false

-- An error of the stream is answered as it is; a location is answered when it has been removed, and
-- else by the error of the binding.
abbrev pub AnswersItem : Result Error Text → Result Error Text → Type 0
AnswersItem (err error) answer = answer ≡ err error
AnswersItem (ok location) (ok answer) = answer ≡ location
AnswersItem (ok location) (err error) = (text : String) × (error ≡ generic_error text)

pub data Answered : List (Result Error Text) → List (Result Error Text) → Type 0 where
  ends : Answered [] []
  item_answered :
      {items rest : List (Result Error Text)} (item answer : Result Error Text)
      → AnswersItem item answer
      → Answered items rest
      → Answered (item ∷ items) (answer ∷ rest)

-- What becomes of what a key holds: it is gone if an answer names it; it is untouched if no item does;
-- if its deletions have failed, it is gone or untouched.
pub data Fate (deleted asked : Bool) (before after : Option Stored) : Type 0 where
  gone : deleted ≡ true → after ≡ none → Fate deleted asked before after
  untouched : deleted ≡ false → asked ≡ false → after ≡ before → Fate deleted asked before after
  unsure :
      deleted ≡ false
      → asked ≡ true
      → (after ≡ none) ⊎ (after ≡ before)
      → Fate deleted asked before after

Fate-then :
    {deleted asked deleted' asked' : Bool} {before between after : Option Stored}
    → Fate deleted asked before between
    → Fate deleted' asked' between after
    → Fate (deleted || deleted') (asked || asked') before after
Fate-then (gone d e) (gone d' f) = gone (rw d refl) f
Fate-then (gone d e) (untouched d' q f) = gone (rw d refl) (f ∙ e)
Fate-then (gone d e) (unsure d' q (inl f)) = gone (rw d refl) f
Fate-then (gone d e) (unsure d' q (inr f)) = gone (rw d refl) (f ∙ e)
Fate-then (untouched d q e) (gone d' f) = gone (rw (d, d') refl) f
Fate-then (untouched d q e) (untouched d' q' f) =
    untouched (rw (d, d') refl) (rw (q, q') refl) (f ∙ e)
Fate-then (untouched d q e) (unsure d' q' (inl f)) =
    unsure (rw (d, d') refl) (rw (q, q') refl) (inl f)
Fate-then (untouched d q e) (unsure d' q' (inr f)) =
    unsure (rw (d, d') refl) (rw (q, q') refl) (inr (f ∙ e))
Fate-then (unsure d q e) (gone d' f) = gone (rw (d, d') refl) f
Fate-then (unsure d q (inl e)) (untouched d' q' f) =
    unsure (rw (d, d') refl) (rw q refl) (inl (f ∙ e))
Fate-then (unsure d q (inr e)) (untouched d' q' f) =
    unsure (rw (d, d') refl) (rw q refl) (inr (f ∙ e))
Fate-then (unsure d q e) (unsure d' q' (inl f)) = unsure (rw (d, d') refl) (rw q refl) (inl f)
Fate-then (unsure d q (inl e)) (unsure d' q' (inr f)) =
    unsure (rw (d, d') refl) (rw q refl) (inl (f ∙ e))
Fate-then (unsure d q (inr e)) (unsure d' q' (inr f)) =
    unsure (rw (d, d') refl) (rw q refl) (inr (f ∙ e))

module _ {W : Type 0} {bucket : Bucket W} {r2 : Documented bucket} (removes : Removes r2)
    (store : R2Store W) (bound : store.bucket_of store.binding ≡ ok bucket) where
  -- What one item does to every key, and how it is answered.
  abbrev Step : Result Error Text → Shared W → Result Error Text × Shared W → Type 0
  Step item s (answer, s') =
      AnswersItem item answer
      × ((j : Text)
          → Fate (names j answer) (names j item) (r2.stored s.world j) (r2.stored s'.world j))

  delete_next-Step :
      (item : Result Error Text) (s : Shared W) → Step item s (delete_next store item s)
  unfolding delete_next
  delete_next-Step (err error) s = (refl, λ j. untouched refl refl refl)
  delete_next-Step (ok location) s = elim (Result-cases (bucket.delete location s.world).0) [
    | inl (_, e) ↦ rw (bound, e) (refl, λ j. removed_fate j e)
    | inr (text, e) ↦ rw (bound, e) ((text, refl), λ j. failed_fate j text e)
  ]
    where
      removed_fate :
          (j : Text)
          → (bucket.delete location s.world).0 ≡ ok tt
          → Fate
              (text_eq location j)
              (text_eq location j)
              (r2.stored s.world j)
              (r2.stored (bucket.delete location s.world).1 j)
      removed_fate j e = elim (Bool-cases (text_eq location j)) [
        | inl same ↦ gone same (removes.delete_stored location s.world e j ∙ rw same refl)
        | inr other ↦
            untouched other other (removes.delete_stored location s.world e j ∙ rw other refl)
      ]

      failed_fate :
          (j : Text) (text : String)
          → (bucket.delete location s.world).0 ≡ err text
          → Fate false
              (text_eq location j)
              (r2.stored s.world j)
              (r2.stored (bucket.delete location s.world).1 j)
      failed_fate j text e = elim (Bool-cases (text_eq location j)) [
        | inl same ↦ unsure refl same (
            subst
              (λ key.
                (r2.stored (bucket.delete location s.world).1 key ≡ none)
                ⊎ (r2.stored (bucket.delete location s.world).1 key ≡ r2.stored s.world key))
              ((text_eq_iff location j).0 same) (removes.delete_failed location s.world text e))
        | inr other ↦ untouched refl other (removes.delete_other location s.world text e j other)
      ]

  -- When the binding is available and R2 behaves as documented: `delete_stream` answers each item, in
  -- order, an error of the stream by itself and a location by itself or by an error of the binding; a
  -- key that an answer names holds nothing at the end, a key that no item names holds what it held,
  -- and a key that could not be deleted holds what it held or nothing.
  pub delete_stream-Fate :
      (items : List (Result Error Text)) (s : Shared W)
      → let (answers, s') = delete_stream store items s in
        Answered items answers
        × ((j : Text)
            → Fate
                (any (names j) answers)
                (any (names j) items)
                (r2.stored s.world j)
                (r2.stored s'.world j))
  unfolding delete_stream
  delete_stream-Fate [] s = (ends, λ j. untouched refl refl refl)
  delete_stream-Fate (item ∷ items) s =
      let (answered, fate) = delete_next-Step item s in
      let (rest, fates) = delete_stream-Fate items (delete_next store item s).1 in
      (item_answered item _ answered rest, λ j. Fate-then (fate j) (fates j))
