-- ===== src/Number/Laws.antt =====
-- What the WebIDL number conversions accept, and what they return.
use webgpu_native_js.Prelude.{
  ℕ, zero, suc, ◌+◌, ◌*◌, ◌%◌, ◌^◌, ◌≤◌, ◌<◌, String, ◌≡◌, ◌↔◌, ◌⊎◌, Bool, true, false, arith,
}
use webgpu_native_js.Result.{ok}
use webgpu_native_js.Number.{
  Number, nan, infinite, finite, ℤ, pos, negsuc, units, enforce_u64, enforce_u32, enforce_i32,
  clamp_u16, enforce_required_limit_value,
}

-- The number is the integer `n` itself (both zeros are 0).
abbrev pub Denotes : Number → ℕ → Type 0
Denotes nan n = ⊥
Denotes (infinite _) n = ⊥
Denotes (finite negative whole fraction) n =
    (whole ≡ n) × (fraction ≡ 0) × ((negative ≡ false) ⊎ (n ≡ 0))

-- The number is the signed integer `z` itself.
abbrev pub DenotesInt : Number → ℤ → Type 0
DenotesInt x (pos n) = Denotes x n
DenotesInt nan (negsuc n) = ⊥
DenotesInt (infinite _) (negsuc n) = ⊥
DenotesInt (finite negative whole fraction) (negsuc n) =
    (whole ≡ suc n) × (fraction ≡ 0) × (negative ≡ true)

-- -2 ^ 31 ≤ z < 2 ^ 31
abbrev pub IsI32 : ℤ → Type 0
IsI32 (pos n) = n < 2 ^ 31
IsI32 (negsuc n) = n < 2 ^ 31

enforce_u64_sound :
    (x : Number) (name : String) (n : ℕ) → enforce_u64 x name ≡ ok n → Denotes x n × (n < 2 ^ 64)
unfolding enforce_u64
enforce_u64_sound nan name n h = ground arith
enforce_u64_sound (infinite b) name n h = ground arith
enforce_u64_sound (finite b w f) name n h = ground arith

enforce_u64_complete :
    (x : Number) (name : String) (n : ℕ) → Denotes x n × (n < 2 ^ 64) → enforce_u64 x name ≡ ok n
unfolding enforce_u64
enforce_u64_complete nan name n h = absurd h.0
enforce_u64_complete (infinite b) name n h = absurd h.0
enforce_u64_complete (finite b w f) name n h = ground arith

-- `enforce_u64` returns `n` exactly when the number is the integer `n`, with no rounding, and `n`
-- is below 2 ^ 64.
pub enforce_u64_iff :
    (x : Number) (name : String) (n : ℕ)
    → (enforce_u64 x name ≡ ok n) ↔ (Denotes x n × (n < 2 ^ 64))
enforce_u64_iff x name n = (enforce_u64_sound x name n, enforce_u64_complete x name n)

enforce_u32_sound :
    (x : Number) (name : String) (n : ℕ) → enforce_u32 x name ≡ ok n → Denotes x n × (n < 2 ^ 32)
unfolding enforce_u32
enforce_u32_sound nan name n h = ground arith
enforce_u32_sound (infinite b) name n h = ground arith
enforce_u32_sound (finite b w f) name n h = ground arith

enforce_u32_complete :
    (x : Number) (name : String) (n : ℕ) → Denotes x n × (n < 2 ^ 32) → enforce_u32 x name ≡ ok n
unfolding enforce_u32
enforce_u32_complete nan name n h = absurd h.0
enforce_u32_complete (infinite b) name n h = absurd h.0
enforce_u32_complete (finite b w f) name n h = ground arith

-- `enforce_u32` returns `n` exactly when the number is the integer `n`, with no rounding, and `n`
-- is below 2 ^ 32.
pub enforce_u32_iff :
    (x : Number) (name : String) (n : ℕ)
    → (enforce_u32 x name ≡ ok n) ↔ (Denotes x n × (n < 2 ^ 32))
enforce_u32_iff x name n = (enforce_u32_sound x name n, enforce_u32_complete x name n)

enforce_i32_sound :
    (x : Number) (name : String) (z : ℤ) → enforce_i32 x name ≡ ok z → DenotesInt x z × IsI32 z
unfolding enforce_i32
enforce_i32_sound nan name z h = ground arith
enforce_i32_sound (infinite b) name z h = ground arith
enforce_i32_sound (finite false w f) name z h = ground arith
enforce_i32_sound (finite true zero f) name z h = ground arith
enforce_i32_sound (finite true (suc w) f) name z h = ground arith

enforce_i32_complete :
    (x : Number) (name : String) (z : ℤ) → DenotesInt x z × IsI32 z → enforce_i32 x name ≡ ok z
unfolding enforce_i32
enforce_i32_complete nan name (pos n) h = absurd h.0
enforce_i32_complete nan name (negsuc n) h = absurd h.0
enforce_i32_complete (infinite b) name (pos n) h = absurd h.0
enforce_i32_complete (infinite b) name (negsuc n) h = absurd h.0
enforce_i32_complete (finite false w f) name (pos n) h = ground arith
enforce_i32_complete (finite false w f) name (negsuc n) h = ground arith
enforce_i32_complete (finite true zero f) name (pos n) h = ground arith
enforce_i32_complete (finite true zero f) name (negsuc n) h = ground arith
enforce_i32_complete (finite true (suc w) f) name (pos n) h = ground arith
enforce_i32_complete (finite true (suc w) f) name (negsuc n) h = ground arith

-- `enforce_i32` returns `z` exactly when the number is the integer `z` and
-- -2 ^ 31 ≤ z < 2 ^ 31.
pub enforce_i32_iff :
    (x : Number) (name : String) (z : ℤ) → (enforce_i32 x name ≡ ok z) ↔ (DenotesInt x z × IsI32 z)
enforce_i32_iff x name z = (enforce_i32_sound x name z, enforce_i32_complete x name z)

-- `clamp_u16` never leaves the range of a `u16`.
pub clamp_u16-le : (x : Number) → clamp_u16 x ≤ 65535
unfolding clamp_u16
clamp_u16-le nan = omega arith
clamp_u16-le (infinite true) = omega arith
clamp_u16-le (infinite false) = omega arith
clamp_u16-le (finite true w f) = omega arith
clamp_u16-le (finite false w f) = ground arith

-- Below 65535, `clamp_u16` of a number that is not negative is a nearest integer: it is at most
-- one half away, and in a tie it is even. (Twice the number is
-- `2 * (w * units + f)` in units of the least double.)
pub clamp_u16_nearest :
    (w f : ℕ)
    → w < 65535
    → f < units
    → let r = clamp_u16 (finite false w f) in
      ((2 * f < units) × (r ≡ w))
      ⊎ ((units < 2 * f) × (r ≡ w + 1))
      ⊎ ((2 * f ≡ units) × (r % 2 ≡ 0) × ((r ≡ w) ⊎ (r ≡ w + 1)))
unfolding clamp_u16
clamp_u16_nearest w f hw hf = ground arith

-- A finite `requiredLimits` value is accepted exactly from 0 up to the greatest safe integer, and
-- its fraction is dropped.
pub enforce_required_limit_value_iff :
    (negative : Bool) (w f n : ℕ) (name : String)
    → (enforce_required_limit_value (finite negative w f) name ≡ ok n) ↔ (
        (n ≡ w)
        × ((negative ≡ false) ⊎ ((w ≡ 0) × (f ≡ 0)))
        × ((w < 9007199254740991) ⊎ ((w ≡ 9007199254740991) × (f ≡ 0))))
unfolding enforce_required_limit_value
enforce_required_limit_value_iff true w f n name = (λ h. ground arith, λ h. ground arith)
enforce_required_limit_value_iff false w f n name = (λ h. ground arith, λ h. ground arith)
