-- ===== src/Base/Outcome.antt =====
-- The results of fallible code: Rust's `Result`, with a type of errors for each component.
use mathlib.Core.Path.{◌≡◌, refl, subst}
use bt_daemon.Base.Tests.{if◌then◌else◌}
use mathlib.Core.Logic.{◌⊎◌, inl, inr}
use mathlib.Core.Bool.{Bool, true, false}
use mathlib.Core.Option.{Option, none, some}

pub data Result {ℓ κ} (E : Type ℓ) (A : Type κ) : Type (ℓ ⊔ κ) where
  ok : A → Result E A
  err : E → Result E A

infixl 5 ◌>>=◌ ◌>>◌
abbrev pub ◌>>=◌ {ℓ κ ν} :
    {E : Type ℓ} {A : Type κ} {B : Type ν} → Result E A → (A → Result E B) → Result E B
ok a >>= f = f a
err e >>= f = err e

abbrev pub ◌>>◌ {ℓ κ} : {E : Type ℓ} {B : Type κ} → Result E (Unit {0}) → Result E B → Result E B
m >> k = m >>= λ _. k

-- `ensure!`
abbrev pub ensure {ℓ} : {E : Type ℓ} → Bool → E → Result E (Unit {0})
ensure true e = ok tt
ensure false e = err e

-- `Option::context`
abbrev pub or_fail {ℓ κ} : {E : Type ℓ} {A : Type κ} → Option A → E → Result E A
or_fail none e = err e
or_fail (some a) e = ok a

module _ {ℓ κ ν} {E : Type ℓ} {A : Type κ} {B : Type ν} where
  pub >>=-eq-ok :
      (r : Result E A) (next : A → Result E B) {out : B}
      → (r >>= next) ≡ ok out
      → (value : A) × (r ≡ ok value) × (next value ≡ ok out)
  >>=-eq-ok (err e) next h = cc
  >>=-eq-ok (ok value) next h = (value, refl, h)

pub Result-cases {ℓ κ} :
    {E : Type ℓ} {A : Type κ} (r : Result E A) → ((a : A) × (r ≡ ok a)) ⊎ ((e : E) × (r ≡ err e))
Result-cases (ok a) = inl (a, refl)
Result-cases (err e) = inr (e, refl)

-- What holds of a result on success, and of the error on failure.
module _ {ℓ κ μ ν} {E : Type ℓ} {A : Type κ} where
  abbrev pub Yields : (A → Type μ) → (E → Type ν) → Result E A → Type (μ ⊔ ν)
  Yields P Q (ok a) = P a × Unit {ν}
  Yields P Q (err e) = Unit {μ} × Q e

  pub Yields-if :
      (P : A → Type μ) (Q : E → Type ν) (b : Bool) (x y : Result E A)
      → Yields P Q x
      → Yields P Q y
      → Yields P Q (if b then x else y)
  Yields-if P Q true x y h k = h
  Yields-if P Q false x y h k = k

  pub Yields-ok :
      (P : A → Type μ) (Q : E → Type ν) (r : Result E A) {a : A} → Yields P Q r → r ≡ ok a → P a
  Yields-ok P Q (ok b) {a} h e2 = let same : b ≡ a = cc in subst P same h.0
  Yields-ok P Q (err x) {a} h e2 = cc

  pub Yields-err :
      (P : A → Type μ) (Q : E → Type ν) (r : Result E A) {e : E} → Yields P Q r → r ≡ err e → Q e
  Yields-err P Q (ok b) {e} h e2 = cc
  Yields-err P Q (err x) {e} h e2 = let same : x ≡ e = cc in subst Q same h.1

pub Yields-mono {ℓ κ μ ν σ} :
    {E : Type ℓ} {A : Type κ} (P : A → Type μ) (R : A → Type σ) (Q : E → Type ν) (r : Result E A)
    → Yields P Q r
    → ((a : A) → P a → R a)
    → Yields R Q r
Yields-mono P R Q (ok a) h k = (k a h.0, tt)
Yields-mono P R Q (err e) h k = (tt, h.1)

pub Yields-bind {ℓ κ μ ν ρ σ} :
    {E : Type ℓ} {A : Type κ} {B : Type ρ} (P : A → Type μ) (R : B → Type σ) (Q : E → Type ν)
    (m : Result E A) (f : A → Result E B)
    → Yields P Q m
    → ((a : A) → P a → Yields R Q (f a))
    → Yields R Q (m >>= f)
Yields-bind P R Q (ok a) f h k = k a h.0
Yields-bind P R Q (err e) f h k = (tt, h.1)
