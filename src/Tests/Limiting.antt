-- ===== src/Tests/Limiting.antt =====
-- The limits of a device at a concrete request: two limits, of an adapter that supports 4096 of
-- each maximum and 256 of each alignment.
use webgpu_native_js.Prelude.{
  ℕ, String, ◌≡◌, refl, ◌↔◌, true, false, Option, none, some, List, [], ◌∷◌, All,
}
use webgpu_native_js.Result.{Result, ok}
use webgpu_native_js.Number.{Number, finite}
use webgpu_native_js.Data.{and_then}
use webgpu_native_js.Data.Holds.{Holds, is_ok}
use webgpu_native_js.Limits.{
  Limit, direction, RequiredLimitDirection, maximum, minimum_alignment, initial_limits,
  convert_required_limits, convert_from, required_limits, validate_required_limit,
  required_limit_u32, max_bind_groups, max_buffer_size,
}
use webgpu_native_js.Limits.Granted.{Accepted, chosen, convert_required_limits_lem}
use webgpu_native_js.Limits.Bounds.{AllGranted, required_limits_bounds}

abbrev adapter_limit : RequiredLimitDirection → ℕ
adapter_limit maximum = 4096
adapter_limit minimum_alignment = 256

abbrev adapter_limits : Limit → ℕ
adapter_limits l = adapter_limit (direction l)

abbrev requests : List (String × ℕ)
requests = ("maxBufferSize", 1024) ∷ ("minUniformBufferOffsetAlignment", 512) ∷ []

abbrev answers : List (String × Result (Option Number))
answers =
    ("maxBufferSize", ok (some (finite false 1024 0)))
    ∷ ("maxBindGroups", ok none)
    ∷ ("minUniformBufferOffsetAlignment", ok (some (finite false 512 0)))
    ∷ []

buffer_size_is_set :
    Holds
      (λ out. (out max_buffer_size ≡ 1024) × (out max_bind_groups ≡ 4294967295))
      (convert_required_limits requests adapter_limits)
unfolding convert_required_limits convert_from validate_required_limit required_limit_u32 and_then
    initial_limits
buffer_size_is_set = (refl, refl)

required_limits_bounds_example :
    Holds (AllGranted (ok adapter_limits)) (required_limits answers (ok adapter_limits))
required_limits_bounds_example = required_limits_bounds answers (ok adapter_limits)

convert_required_limits_lem_example :
    ((is_ok (convert_required_limits requests adapter_limits) ≡ true)
      ↔ All (Accepted adapter_limits) requests)
    × Holds
        (λ out. (l : Limit) → out l ≡ chosen l requests (initial_limits l))
        (convert_required_limits requests adapter_limits)
convert_required_limits_lem_example = convert_required_limits_lem requests adapter_limits
