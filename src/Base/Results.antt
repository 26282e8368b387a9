-- ===== src/Base/Results.antt =====
-- Fallible code: a value or an error, with the sequencing that `?` stands for.
use mathlib.Core.Path.{◌≡◌, refl}
use mathlib.Core.Logic.{◌⊎◌, inl, inr}
use mathlib.Core.Bool.{Bool, true, false, ◌&&◌}
use dbcrossbar.Base.Tests.{if◌then◌else◌}

pub data Result {ℓ κ} (E : Type ℓ) (A : Type κ) : Type (ℓ ⊔ κ) where
  ok : A → Result E A
  err : E → Result E A

infixl 5 ◌>>=◌
abbrev pub ◌>>=◌ {ℓ κ μ} :
    {E : Type ℓ} {A : Type κ} {B : Type μ} → Result E A → (A → Result E B) → Result E B
err failure >>= next = err failure
ok value >>= next = next value

module _ {ℓ κ} {E : Type ℓ} {A : Type κ} where
  pub Result-cases : (r : Result E A) → ((a : A) × (r ≡ ok a)) ⊎ ((e : E) × (r ≡ err e))
  Result-cases (ok a) = inl (a, refl)
  Result-cases (err e) = inr (e, refl)

  -- A sequence that succeeds has a first step with a value, for which what comes next succeeds.
  pub >>=-eq-ok {μ} :
      {B : Type μ} (first : Result E A) (next : A → Result E B) {out : B}
      → (first >>= next) ≡ ok out
      → (value : A) × (first ≡ ok value) × (next value ≡ ok out)
  >>=-eq-ok (err _) next made = cc
  >>=-eq-ok (ok value) next made = (value, refl, made)

  pub >>=-assoc {μ ν} :
      {B : Type μ} {C : Type ν} (m : Result E A) (f : A → Result E B) (g : B → Result E C)
      → (m >>= f >>= g) ≡ (m >>= λ a. f a >>= g)
  >>=-assoc (ok a) f g = refl
  >>=-assoc (err e) f g = refl

  pub ok-injective : {a b : A} → ◌≡◌ {A = Result E A} (ok a) (ok b) → a ≡ b
  ok-injective h = cc

  -- A guard that let a result through held.
  pub if-eq-ok :
      (t : Bool) (r : Result E A) (e : E) {a : A}
      → (if t then r else err e) ≡ ok a
      → (t ≡ true) × (r ≡ ok a)
  if-eq-ok true r e h = (refl, h)
  if-eq-ok false r e h = cc

abbrev pub is_ok {ℓ κ} : {E : Type ℓ} {A : Type κ} → Result E A → Bool
is_ok (ok a) = true
is_ok (err e) = false

module _ {ℓ κ} {E : Type ℓ} {A : Type κ} where
  -- A sequence succeeds if its first step does and the rest does whatever the first gives.
  pub is_ok->>= {μ} :
      {B : Type μ} (m : Result E A) (f : A → Result E B) (t : Bool)
      → ((a : A) → is_ok (f a) ≡ t)
      → is_ok (m >>= f) ≡ (is_ok m && t)
  is_ok->>= (ok a) f t h = h a
  is_ok->>= (err e) f t h = refl

  pub is_ok-map {μ} :
      {B : Type μ} (m : Result E A) (f : A → B) → is_ok (m >>= λ a. ok (f a)) ≡ is_ok m
  is_ok-map (ok a) f = refl
  is_ok-map (err e) f = refl
