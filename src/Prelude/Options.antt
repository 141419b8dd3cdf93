-- ===== src/Prelude/Options.antt =====
-- The `?` operator on options, and an `unwrap` whose panic ends what follows.
use mathlib.Core.Option.{Option, none, some}
use mathlib.Core.Path.{◌≡◌, refl}
use native.Mathlib.Omega.{arith}
use wifi_ctrl.Prelude.Results.{Result, ok, err, to_option}

infixl 5 ◌>>=◌
abbrev pub ◌>>=◌ {ℓ κ} : {A : Type ℓ} {B : Type κ} → Option A → (A → Option B) → Option B
none >>= f = none
some a >>= f = f a

pub >>=-eq-some {ℓ κ} :
    {A : Type ℓ} {B : Type κ} (m : Option A) (f : A → Option B) {b : B}
    → m >>= f ≡ some b
    → (a : A) × (m ≡ some a) × (f a ≡ some b)
>>=-eq-some none f h = cc
>>=-eq-some (some a) f h = (a, refl, h)

pub to_option-eq-some {ℓ κ} :
    {E : Type ℓ} {A : Type κ} (m : Result E A) {a : A} → to_option m ≡ some a → m ≡ ok a
to_option-eq-some (ok b) h = ground arith
to_option-eq-some (err e) h = cc
