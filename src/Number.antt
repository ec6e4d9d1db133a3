-- ===== src/Number.antt =====
-- core/src/lib.rs, the WebIDL number conversions: `enforce_u64`, `enforce_u32`, `enforce_i32`,
-- `clamp_u16` and `enforce_required_limit_value`, over an exact model of `f64`.
pub mod Laws
use webgpu_native_js.Prelude.{
  ℕ, ◌+◌, ◌*◌, ◌%◌, ◌^◌, String, Bool, true, false, not, ◌&&◌, ◌||◌, ltb, leb, ◌==◌, if◌then◌else◌,
}
use webgpu_native_js.Result.{Result, ok, err, JsError}

-- How many units of the least positive `f64`, 2⁻¹⁰⁷⁴, make up 1.
unfoldable pub units : ℕ
units = 2 ^ 1074

-- An `f64`: a finite one is (-1)^negative * (whole + fraction / units) with `fraction < units`.
-- Every double has this form exactly; `-0.0` is `finite true 0 0`.
pub data Number : Type 0 where
  nan : Number
  infinite : Bool → Number
  finite : Bool → ℕ → ℕ → Number

-- A machine integer with a sign: `i32` is read from the magnitude and the sign.
pub data ℤ : Type 0 where
  pos : ℕ → ℤ
  negsuc : ℕ → ℤ

abbrev pub is_finite : Number → Bool
is_finite (finite _ _ _) = true
is_finite _ = false

abbrev pub is_nan : Number → Bool
is_nan nan = true
is_nan _ = false

-- number < 0.0
abbrev pub lt_zero : Number → Bool
lt_zero nan = false
lt_zero (infinite negative) = negative
lt_zero (finite negative whole fraction) = negative && not (whole == 0 && fraction == 0)

-- number.fract() != 0.0 (NaN and the infinities have a NaN fraction, which differs from 0.0)
abbrev pub has_fraction : Number → Bool
has_fraction (finite _ _ fraction) = not (fraction == 0)
has_fraction _ = true

-- number >= bound, for an integer bound above 0
abbrev pub ge_bound : Number → ℕ → Bool
ge_bound nan bound = false
ge_bound (infinite negative) bound = not negative
ge_bound (finite negative whole fraction) bound = not negative && leb bound whole

-- number >= -bound, for an integer bound above 0
abbrev pub ge_minus : Number → ℕ → Bool
ge_minus nan bound = false
ge_minus (infinite negative) bound = not negative
ge_minus (finite negative whole fraction) bound =
    not negative || ltb whole bound || (whole == bound && fraction == 0)

-- `number as u64` and `number as u32` at a value in range: truncation toward zero
abbrev pub trunc : Number → ℕ
trunc (finite false whole _) = whole
trunc _ = 0

-- `number as i32` at a value in range
abbrev pub signed : Bool → ℕ → ℤ
signed false whole = pos whole
signed true ℕ.zero = pos 0
signed true (ℕ.suc n) = negsuc n

abbrev pub as_i32 : Number → ℤ
as_i32 (finite negative whole _) = signed negative whole
as_i32 _ = pos 0

unfoldable pub enforce_u64 : Number → String → Result ℕ
enforce_u64 number name =
    if not (is_finite number) || lt_zero number || has_fraction number || ge_bound number (2 ^ 64)
    then err (JsError.type_error name)
    else ok (trunc number)

unfoldable pub enforce_u32 : Number → String → Result ℕ
enforce_u32 number name =
    if not (is_finite number) || lt_zero number || has_fraction number || ge_bound number (2 ^ 32)
    then err (JsError.type_error name)
    else ok (trunc number)

unfoldable pub enforce_i32 : Number → String → Result ℤ
enforce_i32 number name =
    if not (is_finite number)
      || has_fraction number
      || not (ge_minus number (2 ^ 31) && not (ge_bound number (2 ^ 31)))
    then err (JsError.type_error name)
    else ok (as_i32 number)

-- `round_ties_even` of a value that is not negative
abbrev pub round_ties_even : ℕ → ℕ → ℕ
round_ties_even whole fraction =
    if ltb (2 * fraction) units
    then whole
    else if ltb units (2 * fraction)
    then whole + 1
    else if whole % 2 == 0
    then whole
    else whole + 1

-- NaN counts as 0; `clamp(0.0, 65535.0)`, then rounding to even
unfoldable pub clamp_u16 : Number → ℕ
clamp_u16 nan = 0
clamp_u16 (infinite true) = 0
clamp_u16 (infinite false) = 65535
clamp_u16 (finite true whole fraction) = 0
clamp_u16 (finite false whole fraction) =
    if leb 65535 whole then 65535 else round_ties_even whole fraction

-- (0.0..=9007199254740991.0).contains(&number)
abbrev pub within_safe_integers : Number → Bool
within_safe_integers nan = false
within_safe_integers (infinite _) = false
within_safe_integers (finite negative whole fraction) =
    not (lt_zero (finite negative whole fraction))
    && (ltb whole 9007199254740991 || (whole == 9007199254740991 && fraction == 0))

unfoldable pub enforce_required_limit_value : Number → String → Result ℕ
enforce_required_limit_value number name =
    if not (within_safe_integers number) then err (JsError.type_error name) else ok (trunc number)
