-- ===== src/Prelude/Results.antt =====
-- Rust's `Result` and the shape of a method: it is given the state, and returns the state that it
-- leaves beside its result. What was written before an error stays written.
use mathlib.Core.Path.{◌≡◌, refl}
use mathlib.Core.Logic.{◌⊎◌, inl, inr}
use mathlib.Core.Bool.{Bool, true, false}
use mathlib.Core.Option.{Option, none, some}

pub data Result {ℓ κ} (E : Type ℓ) (A : Type κ) : Type (ℓ ⊔ κ) where
  ok : A → Result E A
  err : E → Result E A

abbrev pub Exec {ℓ} : Type ℓ → Type ℓ → Type ℓ → Type ℓ
Exec S E A = S → Result E A × S

module _ {ℓ} {S E A : Type ℓ} where
  abbrev pub pure : A → Exec S E A
  pure a s = (ok a, s)

  abbrev pub fail : E → Exec S E A
  fail e s = (err e, s)

  -- a computation that neither reads nor writes the state
  abbrev pub lift : Result E A → Exec S E A
  lift r s = (r, s)

module _ {S E : Type 0} where
  -- an early `return Err(error)` under a test
  abbrev pub fail_if : Bool → E → Exec S E (Unit {0})
  fail_if true error s = (err error, s)
  fail_if false error s = (ok tt, s)

module _ {ℓ} {S E A B : Type ℓ} where
  abbrev pub continue : Result E A → (A → Exec S E B) → Exec S E B
  continue (ok a) f s = f a s
  continue (err e) f s = (err e, s)

  -- the operator `?`
  infixl 10 ◌>>=◌ ◌>>◌
  abbrev pub ◌>>=◌ : Exec S E A → (A → Exec S E B) → Exec S E B
  ◌>>=◌ m f s = let (r, s') = m s in continue r f s'

  abbrev pub ◌>>◌ : Exec S E A → Exec S E B → Exec S E B
  m >> n = m >>= λ _. n

module _ {ℓ} {S E A B C : Type ℓ} where
  continue_assoc :
      (r : Result E A) (f : A → Exec S E B) (g : B → Exec S E C) (s : S)
      → continue (continue r f s).0 g (continue r f s).1 ≡ continue r (λ a. f a >>= g) s
  continue_assoc (ok a) f g s = refl
  continue_assoc (err e) f g s = refl

  -- Chains of `?` regroup.
  pub bind_assoc :
      (m : Exec S E A) (f : A → Exec S E B) (g : B → Exec S E C)
      → ((m >>= f) >>= g) ≡ (m >>= λ a. f a >>= g)
  bind_assoc m f g = λ i s. continue_assoc (m s).0 f g (m s).1 i

module _ {S E A B : Type 0} where
  -- To show something of `r? …`, show it of the error of `r`, and of what follows its value.
  pub lift-elim :
      (P : Result E B × S → Type 0) (r : Result E A) (f : A → Exec S E B) (s : S)
      → ((e : E) → r ≡ err e → P (err e, s))
      → ((a : A) → r ≡ ok a → P (f a s))
      → P ((lift r >>= f) s)
  lift-elim P (ok a) f s failed worked = worked a refl
  lift-elim P (err e) f s failed worked = failed e refl

module _ {S E A B : Type 0} where
  pub continue-elim :
      (P : Result E B × S → Type 0) (r : Result E A) (f : A → Exec S E B) (s : S)
      → ((e : E) → P (err e, s))
      → ((a : A) → r ≡ ok a → P (f a s))
      → P (continue r f s)
  continue-elim P (ok a) f s failed worked = worked a refl
  continue-elim P (err e) f s failed worked = failed e

  -- To show something of `m? …`, show it of every error, and of what follows the value that `m`
  -- answers.
  pub bind-elim :
      (P : Result E B × S → Type 0) (m : Exec S E A) (f : A → Exec S E B) (s : S)
      → ((e : E) (s' : S) → P (err e, s'))
      → ((a : A) (s' : S) → (m s).0 ≡ ok a → P (f a s'))
      → P ((m >>= f) s)
  bind-elim P m f s failed worked =
      continue-elim P (m s).0 f (m s).1 (λ e. failed e (m s).1) (λ a. worked a (m s).1)

module _ {ℓ κ μ} {E : Type ℓ} {F : Type κ} {A : Type μ} where
  -- `Result::map`
  abbrev pub map_ok : (A → F) → Result E A → Result E F
  map_ok f (ok a) = ok (f a)
  map_ok f (err e) = err e

  -- `Result::map_err`
  abbrev pub map_err : (E → F) → Result E A → Result F A
  map_err f (ok a) = ok a
  map_err f (err e) = err (f e)

module _ {ℓ κ} {E : Type ℓ} {A : Type κ} where
  -- `Option::ok_or`
  abbrev pub ok_or : Option A → E → Result E A
  ok_or none e = err e
  ok_or (some a) e = ok a

  -- `Result::ok`
  abbrev pub to_option : Result E A → Option A
  to_option (ok a) = some a
  to_option (err e) = none

  pub Result-cases : (r : Result E A) → ((a : A) × (r ≡ ok a)) ⊎ ((e : E) × (r ≡ err e))
  Result-cases (ok a) = inl (a, refl)
  Result-cases (err e) = inr (e, refl)
