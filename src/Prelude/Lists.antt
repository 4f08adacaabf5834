-- ===== src/Prelude/Lists.antt =====
-- Lists measured by native numbers, under the library's names.
use Prim.Native.Nat.{ℕ, zero, suc, ◌+◌, ◌-◌, ◌<◌, ◌≤◌, min}
use mathlib.Core.Path.{◌≡◌, refl, ap, sym, ◌∙◌}
use mathlib.Core.Bool.{Bool, true, false, ◌&&◌, ◌||◌}
use mathlib.Core.List.{List, [], ◌∷◌, ◌++◌}
use mathlib.Core.Option.{Option, none, some}
use native.Mathlib.Omega.{arith}

module _ {ℓ} {A : Type ℓ} where
  abbrev pub length : List A → ℕ
  length [] = 0
  length (x ∷ xs) = suc (length xs)

  abbrev pub take : ℕ → List A → List A
  take zero xs = []
  take (suc n) [] = []
  take (suc n) (x ∷ xs) = x ∷ take n xs

  abbrev pub drop : ℕ → List A → List A
  drop zero xs = xs
  drop (suc n) [] = []
  drop (suc n) (x ∷ xs) = drop n xs

  abbrev pub get_elem? : List A → ℕ → Option A
  get_elem? [] i = none
  get_elem? (x ∷ xs) zero = some x
  get_elem? (x ∷ xs) (suc i) = get_elem? xs i

  -- `Iterator::any`
  abbrev pub any : (A → Bool) → List A → Bool
  any p [] = false
  any p (x ∷ xs) = p x || any p xs

  -- `Iterator::all`
  abbrev pub all : (A → Bool) → List A → Bool
  all p [] = true
  all p (x ∷ xs) = p x && all p xs

  -- `slice::chunks(size)`, with fuel for at most that many chunks
  abbrev pub chunks_up_to : ℕ → ℕ → List A → List (List A)
  chunks_up_to zero size xs = []
  chunks_up_to (suc fuel) size [] = []
  chunks_up_to (suc fuel) size (x ∷ xs) =
      take size (x ∷ xs) ∷ chunks_up_to fuel size (drop size (x ∷ xs))

  -- A predicate of every element.
  abbrev pub All {κ} : (A → Type κ) → List A → Type κ
  All P [] = Unit
  All P (x ∷ xs) = P x × All P xs

module _ {ℓ} {A : Type ℓ} where
  pub length-append : (xs ys : List A) → length (xs ++ ys) ≡ length xs + length ys
  length-append [] ys = omega arith
  length-append (x ∷ xs) ys = omega (arith, length-append xs ys)

  pub length-take : (n : ℕ) (xs : List A) → length (take n xs) ≡ min n (length xs)
  length-take zero xs = omega arith
  length-take (suc n) [] = omega arith
  length-take (suc n) (x ∷ xs) = omega (arith, length-take n xs)

  pub All-append {κ} : (P : A → Type κ) (xs ys : List A) → All P xs → All P ys → All P (xs ++ ys)
  All-append P [] ys h k = k
  All-append P (x ∷ xs) ys h k = (h.0, All-append P xs ys h.1 k)

  pub All-implies {κ κ'} :
      {P : A → Type κ} {Q : A → Type κ'} (xs : List A) → ((x : A) → P x → Q x) → All P xs → All Q xs
  All-implies [] f h = tt
  All-implies (x ∷ xs) f h = (f x h.0, All-implies xs f h.1)

  pub get_elem?-last : (xs : List A) (x : A) → get_elem? (xs ++ x ∷ []) (length xs) ≡ some x
  get_elem?-last [] x = refl
  get_elem?-last (y ∷ xs) x = get_elem?-last xs x

  pub get_elem?-append :
      (xs ys : List A) (i : ℕ) (x : A) → get_elem? xs i ≡ some x → get_elem? (xs ++ ys) i ≡ some x
  get_elem?-append [] ys i x h = cc
  get_elem?-append (y ∷ xs) ys zero x h = h
  get_elem?-append (y ∷ xs) ys (suc i) x h = get_elem?-append xs ys i x h

  any-append : (p : A → Bool) (xs ys : List A) → any p (xs ++ ys) ≡ (any p xs || any p ys)
  any-append p [] ys = refl
  any-append p (x ∷ xs) ys = ground (arith, any-append p xs ys)

  pub take-drop : (n : ℕ) (xs : List A) → take n xs ++ drop n xs ≡ xs
  take-drop zero xs = refl
  take-drop (suc n) [] = refl
  take-drop (suc n) (x ∷ xs) = ap (λ ys. x ∷ ys) (take-drop n xs)

  pub length-drop : (n : ℕ) (xs : List A) → length (drop n xs) ≡ length xs - n
  length-drop zero xs = omega arith
  length-drop (suc n) [] = omega arith
  length-drop (suc n) (x ∷ xs) = omega (arith, length-drop n xs)

  any-split :
      (p : A → Bool) (n : ℕ) (xs : List A) → (any p (take n xs) || any p (drop n xs)) ≡ any p xs
  any-split p n xs = sym (any-append p (take n xs) (drop n xs)) ∙ ap (any p) (take-drop n xs)

  -- Chunks of a size that is not 0 hold what the list holds.
  pub any-chunks_up_to :
      (p : A → Bool) (fuel size : ℕ) (xs : List A)
      → 0 < size
      → length xs ≤ fuel
      → any (any p) (chunks_up_to fuel size xs) ≡ any p xs
  any-chunks_up_to p zero size [] h k = refl
  any-chunks_up_to p zero size (x ∷ xs) h k = absurd (omega arith)
  any-chunks_up_to p (suc fuel) size [] h k = refl
  any-chunks_up_to p (suc fuel) size (x ∷ xs) h k =
      ap (λ b. any p (take size (x ∷ xs)) || b)
        (any-chunks_up_to p fuel size (drop size (x ∷ xs)) h
          (omega (arith, length-drop size (x ∷ xs))))
      ∙ any-split p size (x ∷ xs)

  pub chunks_up_to-length :
      (fuel size : ℕ) (xs : List A) → All (λ chunk. length chunk ≤ size) (chunks_up_to fuel size xs)
  chunks_up_to-length zero size xs = tt
  chunks_up_to-length (suc fuel) size [] = tt
  chunks_up_to-length (suc fuel) size (x ∷ xs) =
      (omega (arith, length-take size (x ∷ xs)), chunks_up_to-length fuel size (drop size (x ∷ xs)))
