-- ===== src/DurableObject/DbCache/Tests.antt =====
-- A cache that keeps the last entry that was written, and the theorem on it.
use slatedb_cloudflare.Prelude.{ℕ, Option, none, some, List, [], ◌∷◌, ◌≡◌, ◌≢◌, refl, inl, inr}
use native.Mathlib.Decide.{ℕ_discrete}
use mathlib.Core.Logic.{ite, if_pos, if_neg}
use slatedb_cloudflare.DurableObject.DbCache.{QuickCache}
use slatedb_cloudflare.DurableObject.DbCache.Fresh.{
  Held, Documented, Call, write, forget, block, after_calls, last_written, ReadsAs,
  after_calls-Fresh,
}

abbrev Slot : Type 0
Slot = Option (ℕ × ℕ)

abbrev at_key : Slot → ℕ → Option ℕ
at_key none j = none
at_key (some (key, value)) j = ite (ℕ_discrete key j) (some value) none

abbrev without : Slot → ℕ → Slot
without none key = none
without (some (other, value)) key = ite (ℕ_discrete other key) none (some (other, value))

abbrev slot : QuickCache Slot ℕ ℕ
slot = record {
  with_weighter = λ estimated capacity weight. none;
  get = λ key s. (at_key s key, s);
  insert = λ key value s. some (key, value);
  remove = λ key s. without s key;
  len = λ s. 0;
}

without-same : (s : Slot) (key : ℕ) → at_key (without s key) key ≡ none
without-same none key = refl
without-same (some (other, value)) key = elim (ℕ_discrete other key) [
  | yes e ↦ rw (if_pos _ e) refl
  | no h ↦ rw (if_neg _ h) (rw (if_neg _ h) refl)
]

without-other : (s : Slot) (key j : ℕ) → key ≢ j → Held (at_key (without s key) j) (at_key s j)
without-other none key j h = inl refl
without-other (some (other, value)) key j h = elim (ℕ_discrete other key) [
  | yes e ↦ rw (if_pos _ e) (inl refl)
  | no other_key ↦ rw (if_neg _ other_key) (inr refl)
]

slot-Documented : Documented slot
slot-Documented = record {
  holds = λ s j. at_key s j;
  with_weighter_holds = λ estimated capacity weight key. refl;
  get_answers = λ key s. refl;
  get_holds = λ key j s. refl;
  insert_holds = λ key value s. inr (rw (if_pos _ refl) refl);
  insert_other = λ key j value s other. inl (rw (if_neg _ other) refl);
  remove_holds = λ key s. without-same s key;
  remove_other = λ key j s other. without-other s key j other;
}

abbrev calls : List (Call ℕ ℕ)
calls = write 1 10 ∷ write 2 20 ∷ block 2 ∷ forget 1 ∷ write 2 21 ∷ []

after_calls-Fresh_example :
    let s = after_calls slot calls none in
    (entry : Option ℕ) × ReadsAs slot slot-Documented ℕ_discrete 2 s entry
    × Held entry (last_written ℕ_discrete (λ j. none) calls 2)
unfolding slatedb_cloudflare.DurableObject.DbCache.new
after_calls-Fresh_example = after_calls-Fresh slot slot-Documented ℕ_discrete (λ entry. 8) calls 2
