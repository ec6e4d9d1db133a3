-- ===== src/Data/Holds.antt =====
-- What holds of the result of a chain of steps that can fail.
use mathlib.Core.Bool.{false≢true}
use webgpu_native_js.Prelude.{◌≡◌, refl, Bool, true, false}
use webgpu_native_js.Result.{Result, ok, err}
use webgpu_native_js.Data.{and_then}

-- What holds of a result that is no error
abbrev pub Holds {ℓ κ} : {A : Type ℓ} → (A → Type κ) → Result A → Type κ
Holds P (err error) = Unit
Holds P (ok a) = P a

pub and_then-Holds {ℓ κ} :
    {A : Type ℓ} {B : Type κ} (P : A → Type 0) (Q : B → Type 0) (f : A → Result B) (r : Result A)
    → Holds P r
    → ((a : A) → P a → Holds Q (f a))
    → Holds Q (and_then f r)
unfolding and_then
and_then-Holds P Q f (err error) h k = tt
and_then-Holds P Q f (ok a) h k = k a h

pub Holds-weaken {ℓ} :
    {A : Type ℓ} (P Q : A → Type 0) (r : Result A) → Holds P r → ((a : A) → P a → Q a) → Holds Q r
Holds-weaken P Q (err error) h k = tt
Holds-weaken P Q (ok a) h k = k a h

abbrev pub is_ok {ℓ} : {A : Type ℓ} → Result A → Bool
is_ok (ok a) = true
is_ok (err error) = false

pub Holds_const {ℓ} :
    {A : Type ℓ} (P : Type 0) (r : Result A) → is_ok r ≡ true → Holds (λ _. P) r → P
Holds_const P (ok a) good h = h
Holds_const P (err e) good h = absurd (false≢true good)

pub Holds-self {ℓ} : {A : Type ℓ} (r : Result A) → Holds (λ a. r ≡ ok a) r
Holds-self (ok a) = refl
Holds-self (err error) = tt

pub Holds-ok {ℓ} :
    {A : Type ℓ} {P Q : A → Type 0} (r : Result A)
    → Holds P r
    → ((a : A) → is_ok r ≡ true → P a → Q a)
    → Holds Q r
Holds-ok (err error) h k = tt
Holds-ok (ok a) h k = k a refl h

-- The step that follows may use what the result is.
pub Holds-step {ℓ κ} :
    {A : Type ℓ} {B : Type κ} (Q : B → Type 0) (f : A → Result B) (r : Result A)
    → ((a : A) → r ≡ ok a → Holds Q (f a))
    → Holds Q (and_then f r)
unfolding and_then
Holds-step Q f (err error) k = tt
Holds-step Q f (ok a) k = k a refl
