-- ===== src/Base/Results.antt =====
-- What a call that may throw returns: its value, or the error that it throws.
use mathlib.Core.Path.{◌≡◌, refl, subst}
use flux_gate.Base.Tests.{if◌then◌else◌}
use mathlib.Core.Bool.{Bool, true, false}

pub data Result {ℓ} (E : Type 0) (A : Type ℓ) : Type ℓ where
  ok : A → Result E A
  err : E → Result E A

infixl 5 ◌>>=◌ ◌>>◌
abbrev pub ◌>>=◌ {ℓ κ} :
    {E : Type 0} {A : Type ℓ} {B : Type κ} → Result E A → (A → Result E B) → Result E B
ok a >>= f = f a
err e >>= f = err e

abbrev pub ◌>>◌ {ℓ} : {E : Type 0} {B : Type ℓ} → Result E (Unit {0}) → Result E B → Result E B
m >> k = m >>= λ _. k

-- `if (!test) throw e;`
abbrev pub guard : {E : Type 0} → Bool → E → Result E (Unit {0})
guard true e = ok tt
guard false e = err e

pub >>=-eq-ok {ℓ κ} :
    {E : Type 0} {A : Type ℓ} {B : Type κ} (m : Result E A) (f : A → Result E B) (b : B)
    → (m >>= f) ≡ ok b
    → (a : A) × (m ≡ ok a) × (f a ≡ ok b)
>>=-eq-ok (ok a) f b h = (a, refl, h)
>>=-eq-ok (err e) f b h = cc

pub guard-eq-ok : {E : Type 0} (t : Bool) (e : E) → guard t e ≡ ok tt → t ≡ true
guard-eq-ok true e h = refl
guard-eq-ok false e h = cc

pub ok-injective {ℓ} :
    {E : Type 0} {A : Type ℓ} (a b : A) → ◌≡◌ {A = Result E A} (ok a) (ok b) → a ≡ b
ok-injective a b h = cc

-- What is returned, where no error is thrown, is in `P`.
unfoldable pub Ensures {ℓ} : {E : Type 0} {A : Type ℓ} → (A → Type 0) → Result E A → Type 0
Ensures P (ok a) = P a
Ensures P (err e) = Unit {0}

pub Ensures-ok : (E : Type 0) {A : Type 0} (P : A → Type 0) (a : A) → P a → Ensures {E = E} P (ok a)
unfolding Ensures
Ensures-ok E P a h = h

module _ {E : Type 0} {A : Type 0} (P : A → Type 0) where
  pub Ensures-err : (e : E) → Ensures P (err e)
  unfolding Ensures
  Ensures-err e = tt

  pub Ensures-eq-ok : (r : Result E A) (a : A) → Ensures P r → r ≡ ok a → P a
  unfolding Ensures
  Ensures-eq-ok (ok b) a h e = subst P (ok-injective b a e) h
  Ensures-eq-ok (err x) a h e = cc

  pub Ensures-if :
      (t : Bool) (x y : Result E A)
      → (t ≡ true → Ensures P x)
      → (t ≡ false → Ensures P y)
      → Ensures P (if t then x else y)
  Ensures-if true x y h k = h refl
  Ensures-if false x y h k = k refl

  pub Ensures-bind :
      {B : Type 0} (Q : B → Type 0) (m : Result E A) (f : A → Result E B)
      → Ensures P m
      → ((a : A) → P a → Ensures Q (f a))
      → Ensures Q (m >>= f)
  unfolding Ensures
  Ensures-bind Q (ok a) f h k = k a h
  Ensures-bind Q (err x) f h k = tt
