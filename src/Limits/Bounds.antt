-- ===== src/Limits/Bounds.antt =====
-- core/src/lib.rs: `requestDevice` never asks a device for limits beyond those of its adapter.
use text.Mathlib.Text
use text.Mathlib.TextEquality.{eq_iff}
use webgpu_native_js.Prelude.{
  ℕ, ◌≤◌, ◌<◌, String, ◌≡◌, refl, sym, ◌∙◌, subst, ◌⊎◌, inl, inr, true, false, Option, none, some,
  List, [], ◌∷◌, arith, if_cases, All,
}
use webgpu_native_js.Result.{Result, ok, err}
use webgpu_native_js.Number.{Number, finite, nan, infinite, enforce_required_limit_value}
use webgpu_native_js.Data.Holds.{Holds, and_then-Holds, Holds-self, Holds-ok}
use webgpu_native_js.Limits.{
  Limit, limit_name, direction, is_u64, initial_limits, coerce_required_limits,
  convert_required_limits, first_unknown, with_known, required_limits,
}
use webgpu_native_js.Limits.Names.{name_injective}
use webgpu_native_js.Limits.Granted.{
  Supports, Acceptable, Accepted, chosen, convert_required_limits_lem,
}

-- The greatest value that a script can ask for
abbrev pub max_safe_integer : ℕ
max_safe_integer = 9007199254740991

enforce-bound :
    (value : Number) (name : String)
    → Holds (λ n. n ≤ max_safe_integer) (enforce_required_limit_value value name)
unfolding enforce_required_limit_value
enforce-bound nan name = tt
enforce-bound (infinite negative) name = tt
enforce-bound (finite true whole fraction) name = ground arith
enforce-bound (finite false whole fraction) name = ground arith

abbrev IsSafe : String × ℕ → Type 0
IsSafe r = r.1 ≤ max_safe_integer

coerce-IsSafe :
    (answers : List (String × Result (Option Number)))
    → Holds (All IsSafe) (coerce_required_limits answers)
unfolding coerce_required_limits
coerce-IsSafe [] = tt
coerce-IsSafe ((name, err error) ∷ rest) = tt
coerce-IsSafe ((name, ok none) ∷ rest) = coerce-IsSafe rest
coerce-IsSafe ((name, ok (some value)) ∷ rest) =
    and_then-Holds (λ n. n ≤ max_safe_integer) _ _ _ (enforce-bound value "required limit")
      (λ n small.
        and_then-Holds (All IsSafe) (All IsSafe) _ _ (coerce-IsSafe rest)
          (λ requested h. (small, h)))

-- A limit is undefined, or the adapter supports it and it is not the mark of an undefined one.
abbrev pub Granted : Limit → ℕ → ℕ → Type 0
Granted l supported n =
    (n ≡ initial_limits l) ⊎ (Supports (direction l) n supported × (n < initial_limits l))

Acceptable-Granted :
    (l : Limit) (supported n : ℕ)
    → Acceptable l supported n
    → n ≤ max_safe_integer
    → Granted l supported n
unfolding initial_limits
Acceptable-Granted l supported n h safe =
    inr (h.0, if_cases (λ m. n < m) (is_u64 l) _ _ (λ _. omega (arith, safe)) h.1)

chosen-Granted :
    (l : Limit) (supported : Limit → ℕ) (requested : List (String × ℕ)) (n : ℕ)
    → All (Accepted supported) requested
    → All IsSafe requested
    → Granted l (supported l) n
    → Granted l (supported l) (chosen l requested n)
chosen-Granted l supported [] n h safe g = g
chosen-Granted l supported (r ∷ rest) n h safe g = chosen-Granted l supported rest _ h.1 safe.1 (
    if_cases (Granted l (supported l)) (Text.◌==◌ r.0 (limit_name l)) r.1 n
      (λ same.
        let here = name_injective h.0.0 l (sym h.0.1 ∙ (eq_iff r.0 (limit_name l)).0 same) in
        subst (λ l. Granted l (supported l) r.1) here
          (Acceptable-Granted h.0.0 (supported h.0.0) r.1 h.0.2 safe.0))
      (λ _. g))

-- The limits of a device descriptor, if there are any, are granted by the adapter.
abbrev pub AllGranted : Result (Limit → ℕ) → Option (Limit → ℕ) → Type 0
AllGranted supported none = Unit
AllGranted supported (some out) =
    (s : Limit → ℕ) × (supported ≡ ok s) × ((l : Limit) → Granted l (s l) (out l))

convert-Granted :
    (requested : List (String × ℕ)) (supported : Limit → ℕ)
    → All IsSafe requested
    → Holds
        (λ out. (l : Limit) → Granted l (supported l) (out l))
        (convert_required_limits requested supported)
convert-Granted requested supported safe =
    let c = convert_required_limits_lem requested supported in
    Holds-ok (convert_required_limits requested supported) c.1 (λ out good exact l.
      subst (Granted l (supported l)) (sym (exact l))
        (chosen-Granted l supported requested (initial_limits l) (c.0.0 good) safe (inl refl)))

with_known-AllGranted :
    (supported : Result (Limit → ℕ)) (requested : List (String × ℕ)) (o : Option String)
    → All IsSafe requested
    → Holds (AllGranted supported) (with_known supported requested o)
with_known-AllGranted supported requested (some name) safe = tt
with_known-AllGranted supported [] none safe = tt
with_known-AllGranted supported (r ∷ requested) none safe =
    and_then-Holds (λ s. supported ≡ ok s) (AllGranted supported) _ supported (Holds-self supported)
      (λ s e.
        and_then-Holds (λ out. (l : Limit) → Granted l (s l) (out l)) (AllGranted supported) _ _
          (convert-Granted (r ∷ requested) s safe) (λ out g. (s, e, g)))

-- Whatever values script gives as `requiredLimits` and whatever the adapter supports: if a device is
-- asked for at all, each limit of its descriptor is undefined, or it is no more than the adapter
-- supports (for the two alignments, no less) and below the mark of an undefined limit.
pub required_limits_bounds :
    (answers : List (String × Result (Option Number))) (supported : Result (Limit → ℕ))
    → Holds (AllGranted supported) (required_limits answers supported)
unfolding required_limits
required_limits_bounds answers supported =
    and_then-Holds (All IsSafe) (AllGranted supported) _ _ (coerce-IsSafe answers)
      (λ requested safe. with_known-AllGranted supported requested (first_unknown requested) safe)
