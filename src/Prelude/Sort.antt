-- ===== src/Prelude/Sort.antt =====
-- `slice::sort_unstable_by_key` by a numeric key, as an insertion sort. Where the keys are distinct,
-- every sort gives this result.
use Prim.Native.Nat.{ℕ, suc, ◌+◌, ◌≤◌}
use mathlib.Core.Path.{◌≡◌, refl, ap, ◌∙◌}
use mathlib.Core.Logic.{◌≢◌, inl, inr}
use mathlib.Core.List.{List, [], ◌∷◌, Permᴰ, map}
use mathlib.Core.List.Permᴰ as PermD
use native.Mathlib.Omega.{arith}
use slatedb_cloudflare.Prelude.Lists.{All, length}
use slatedb_cloudflare.Prelude.Tests.{Bool-cases, leb, ◌==◌, if◌then◌else◌}

module _ {ℓ} {A : Type ℓ} (key : A → ℕ) where
  unfoldable pub insert_by_key : A → List A → List A
  insert_by_key x [] = x ∷ []
  insert_by_key x (y ∷ ys) = if leb (key x) (key y) then x ∷ y ∷ ys else y ∷ insert_by_key x ys

  unfoldable pub sort_by_key : List A → List A
  unfolding insert_by_key
  sort_by_key [] = []
  sort_by_key (x ∷ xs) = insert_by_key x (sort_by_key xs)

  -- How many elements have a key.
  abbrev pub count_key : ℕ → List A → ℕ
  count_key n [] = 0
  count_key n (x ∷ xs) = (if key x == n then 1 else 0) + count_key n xs

  -- No key occurs twice.
  abbrev pub Distinct : List A → Type 0
  Distinct xs = (n : ℕ) → count_key n xs ≤ 1

  -- The keys ascend strictly, from `low` on.
  abbrev pub AscendsFrom : ℕ → List A → Type 0
  AscendsFrom low [] = Unit
  AscendsFrom low (x ∷ xs) = (low ≤ key x) × AscendsFrom (suc (key x)) xs

  count_key-insert :
      (n : ℕ) (x : A) (xs : List A) → count_key n (insert_by_key x xs) ≡ count_key n (x ∷ xs)
  unfolding insert_by_key
  count_key-insert n x [] = refl
  count_key-insert n x (y ∷ ys) = ground (arith, count_key-insert n x ys)

  pub count_key-sort : (n : ℕ) (xs : List A) → count_key n (sort_by_key xs) ≡ count_key n xs
  unfolding sort_by_key
  count_key-sort n [] = refl
  count_key-sort n (x ∷ xs) =
      count_key-insert n x (sort_by_key xs) ∙ omega (arith, count_key-sort n xs)

  insert-AscendsFrom :
      (low : ℕ) (x : A) (xs : List A)
      → low ≤ key x
      → count_key (key x) xs ≡ 0
      → AscendsFrom low xs
      → AscendsFrom low (insert_by_key x xs)
  unfolding insert_by_key
  insert-AscendsFrom low x [] h k s = (h, tt)
  insert-AscendsFrom low x (y ∷ ys) h k s = ground (arith, insert-AscendsFrom (suc (key y)) x ys)

  pub sort-AscendsFrom : (xs : List A) → Distinct xs → AscendsFrom 0 (sort_by_key xs)
  unfolding sort_by_key
  sort-AscendsFrom [] d = tt
  sort-AscendsFrom (x ∷ xs) d =
      insert-AscendsFrom 0 x (sort_by_key xs) (omega arith)
        (ground (arith, d (key x), count_key-sort (key x) xs))
        (sort-AscendsFrom xs (λ n. ground (arith, d n)))

  insert-perm : (x : A) (xs : List A) → Permᴰ (insert_by_key x xs) (x ∷ xs)
  unfolding insert_by_key
  insert-perm x [] = PermD.refl (x ∷ [])
  insert-perm x (y ∷ ys) = elim (Bool-cases (leb (key x) (key y))) [
    | inl low ↦ rw low (PermD.refl (x ∷ y ∷ ys))
    | inr high ↦ rw high (Permᴰ.trans (Permᴰ.cons refl (insert-perm x ys)) (Permᴰ.swap refl refl))
  ]

  pub sort-perm : (xs : List A) → Permᴰ (sort_by_key xs) xs
  unfolding sort_by_key
  sort-perm [] = Permᴰ.nil
  sort-perm (x ∷ xs) = Permᴰ.trans (insert-perm x (sort_by_key xs)) (Permᴰ.cons refl (sort-perm xs))

  insert_comm :
      (x y : A) (zs : List A)
      → key x ≢ key y
      → insert_by_key x (insert_by_key y zs) ≡ insert_by_key y (insert_by_key x zs)
  unfolding insert_by_key
  insert_comm x y [] h = ground arith
  insert_comm x y (z ∷ zs) h = ground (arith, insert_comm x y zs h)

  pub count_key-perm : (n : ℕ) {xs ys : List A} → Permᴰ xs ys → count_key n xs ≡ count_key n ys
  count_key-perm n Permᴰ.nil = refl
  count_key-perm n (Permᴰ.cons e p) = rw (e, count_key-perm n p)
  count_key-perm n (Permᴰ.swap e f) = rw (e, f) (omega arith)
  count_key-perm n (Permᴰ.trans p q) = count_key-perm n p ∙ count_key-perm n q

  -- The order in which distinct keys arrive does not matter.
  pub sort-eq_of_perm :
      {xs ys : List A} → Permᴰ xs ys → Distinct xs → sort_by_key xs ≡ sort_by_key ys
  unfolding sort_by_key
  sort-eq_of_perm Permᴰ.nil d = refl
  sort-eq_of_perm (Permᴰ.cons e p) d = rw (e, sort-eq_of_perm p (λ n. ground (arith, d n)))
  sort-eq_of_perm (Permᴰ.swap {a} {b} {l = l} e f) d =
      rw (← e, ← f) (insert_comm a b (sort_by_key l) (λ same. ground (arith, d (key a))))
  sort-eq_of_perm (Permᴰ.trans p q) d =
      sort-eq_of_perm p d ∙ sort-eq_of_perm q (λ n. rw (← count_key-perm n p) (d n))

module _ {ℓ} {A : Type ℓ} where
  pub All-perm {κ} : (P : A → Type κ) {xs ys : List A} → Permᴰ xs ys → All P xs → All P ys
  All-perm P Permᴰ.nil h = h
  All-perm P (Permᴰ.cons e p) h = (coe 0 1 (i. P (e i)) h.0, All-perm P p h.1)
  All-perm P (Permᴰ.swap e f) (h, (k, l)) = (coe 0 1 (i. P (f i)) k, (coe 0 1 (i. P (e i)) h, l))
  All-perm P (Permᴰ.trans p q) h = All-perm P q (All-perm P p h)

  pub length-perm : {xs ys : List A} → Permᴰ xs ys → length xs ≡ length ys
  length-perm Permᴰ.nil = refl
  length-perm (Permᴰ.cons e p) = omega (arith, length-perm p)
  length-perm (Permᴰ.swap e f) = refl
  length-perm (Permᴰ.trans p q) = length-perm p ∙ length-perm q

-- A sort by a key sorts the keys.
module _ {ℓ} {A : Type ℓ} (key : A → ℕ) where
  map-insert :
      (x : A) (xs : List A)
      → map key (insert_by_key key x xs) ≡ insert_by_key (λ n. n) (key x) (map key xs)
  unfolding insert_by_key
  map-insert x [] = refl
  map-insert x (y ∷ ys) = elim (Bool-cases (leb (key x) (key y))) [
    | inl low ↦ rw low refl
    | inr high ↦ rw high (ap (λ ns. key y ∷ ns) (map-insert x ys))
  ]

  pub map-sort : (xs : List A) → map key (sort_by_key key xs) ≡ sort_by_key (λ n. n) (map key xs)
  unfolding sort_by_key
  map-sort [] = refl
  map-sort (x ∷ xs) =
      map-insert x (sort_by_key key xs) ∙ ap (insert_by_key (λ n. n) (key x)) (map-sort xs)

  pub count_key-map : (n : ℕ) (xs : List A) → count_key (λ m. m) n (map key xs) ≡ count_key key n xs
  count_key-map n [] = refl
  count_key-map n (x ∷ xs) = omega (arith, count_key-map n xs)
