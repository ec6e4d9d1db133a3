-- ===== src/Limits.antt =====
-- core/src/lib.rs: the limits that `requestDevice` asks for. `WGPULimits` and its compatibility chain
-- are a function from the limits; what the engine and the adapter answer is an argument.
pub mod Names
pub mod Granted
pub mod Bounds
use Prim.Native.String
use text.Mathlib.Text
use webgpu_native_js.Prelude.{
  ℕ, ◌+◌, ◌-◌, ◌^◌, String, Bool, true, false, not, ◌||◌, Option, none, some, List, [], ◌∷◌, ◌++◌,
  ltb, leb, ◌==◌, if◌then◌else◌,
}
use webgpu_native_js.Result.{Result, ok, err, JsError}
use webgpu_native_js.Number.{Number, enforce_required_limit_value}
use webgpu_native_js.Data.{and_then}

-- The fields of WGPULimits and of WGPUCompatibilityModeLimits that can be required
pub data Limit : Type 0 where
  max_texture_dimension_1d max_texture_dimension_2d max_texture_dimension_3d : Limit
  max_texture_array_layers max_bind_groups max_bind_groups_plus_vertex_buffers max_immediate_size :
      Limit
  max_bindings_per_bind_group max_dynamic_uniform_buffers_per_pipeline_layout : Limit
  max_dynamic_storage_buffers_per_pipeline_layout max_sampled_textures_per_shader_stage : Limit
  max_samplers_per_shader_stage max_storage_buffers_per_shader_stage : Limit
  max_storage_buffers_in_vertex_stage max_storage_buffers_in_fragment_stage : Limit
  max_storage_textures_per_shader_stage max_storage_textures_in_vertex_stage : Limit
  max_storage_textures_in_fragment_stage max_uniform_buffers_per_shader_stage : Limit
  max_uniform_buffer_binding_size max_storage_buffer_binding_size : Limit
  min_uniform_buffer_offset_alignment min_storage_buffer_offset_alignment max_vertex_buffers : Limit
  max_buffer_size max_vertex_attributes max_vertex_buffer_array_stride : Limit
  max_inter_stage_shader_variables max_color_attachments max_color_attachment_bytes_per_sample :
      Limit
  max_compute_workgroup_storage_size max_compute_invocations_per_workgroup : Limit
  max_compute_workgroup_size_x max_compute_workgroup_size_y max_compute_workgroup_size_z : Limit
  max_compute_workgroups_per_dimension : Limit

-- The strings of the `match` in `convert_required_limits`
abbrev pub limit_name : Limit → String
limit_name max_texture_dimension_1d = "maxTextureDimension1D"
limit_name max_texture_dimension_2d = "maxTextureDimension2D"
limit_name max_texture_dimension_3d = "maxTextureDimension3D"
limit_name max_texture_array_layers = "maxTextureArrayLayers"
limit_name max_bind_groups = "maxBindGroups"
limit_name max_bind_groups_plus_vertex_buffers = "maxBindGroupsPlusVertexBuffers"
limit_name max_immediate_size = "maxImmediateSize"
limit_name max_bindings_per_bind_group = "maxBindingsPerBindGroup"
limit_name max_dynamic_uniform_buffers_per_pipeline_layout =
    "maxDynamicUniformBuffersPerPipelineLayout"
limit_name max_dynamic_storage_buffers_per_pipeline_layout =
    "maxDynamicStorageBuffersPerPipelineLayout"
limit_name max_sampled_textures_per_shader_stage = "maxSampledTexturesPerShaderStage"
limit_name max_samplers_per_shader_stage = "maxSamplersPerShaderStage"
limit_name max_storage_buffers_per_shader_stage = "maxStorageBuffersPerShaderStage"
limit_name max_storage_buffers_in_vertex_stage = "maxStorageBuffersInVertexStage"
limit_name max_storage_buffers_in_fragment_stage = "maxStorageBuffersInFragmentStage"
limit_name max_storage_textures_per_shader_stage = "maxStorageTexturesPerShaderStage"
limit_name max_storage_textures_in_vertex_stage = "maxStorageTexturesInVertexStage"
limit_name max_storage_textures_in_fragment_stage = "maxStorageTexturesInFragmentStage"
limit_name max_uniform_buffers_per_shader_stage = "maxUniformBuffersPerShaderStage"
limit_name max_uniform_buffer_binding_size = "maxUniformBufferBindingSize"
limit_name max_storage_buffer_binding_size = "maxStorageBufferBindingSize"
limit_name min_uniform_buffer_offset_alignment = "minUniformBufferOffsetAlignment"
limit_name min_storage_buffer_offset_alignment = "minStorageBufferOffsetAlignment"
limit_name max_vertex_buffers = "maxVertexBuffers"
limit_name max_buffer_size = "maxBufferSize"
limit_name max_vertex_attributes = "maxVertexAttributes"
limit_name max_vertex_buffer_array_stride = "maxVertexBufferArrayStride"
limit_name max_inter_stage_shader_variables = "maxInterStageShaderVariables"
limit_name max_color_attachments = "maxColorAttachments"
limit_name max_color_attachment_bytes_per_sample = "maxColorAttachmentBytesPerSample"
limit_name max_compute_workgroup_storage_size = "maxComputeWorkgroupStorageSize"
limit_name max_compute_invocations_per_workgroup = "maxComputeInvocationsPerWorkgroup"
limit_name max_compute_workgroup_size_x = "maxComputeWorkgroupSizeX"
limit_name max_compute_workgroup_size_y = "maxComputeWorkgroupSizeY"
limit_name max_compute_workgroup_size_z = "maxComputeWorkgroupSizeZ"
limit_name max_compute_workgroups_per_dimension = "maxComputeWorkgroupsPerDimension"

-- The fields, by their place
abbrev pub place : Limit → ℕ
place max_texture_dimension_1d = 0
place max_texture_dimension_2d = 1
place max_texture_dimension_3d = 2
place max_texture_array_layers = 3
place max_bind_groups = 4
place max_bind_groups_plus_vertex_buffers = 5
place max_immediate_size = 6
place max_bindings_per_bind_group = 7
place max_dynamic_uniform_buffers_per_pipeline_layout = 8
place max_dynamic_storage_buffers_per_pipeline_layout = 9
place max_sampled_textures_per_shader_stage = 10
place max_samplers_per_shader_stage = 11
place max_storage_buffers_per_shader_stage = 12
place max_storage_buffers_in_vertex_stage = 13
place max_storage_buffers_in_fragment_stage = 14
place max_storage_textures_per_shader_stage = 15
place max_storage_textures_in_vertex_stage = 16
place max_storage_textures_in_fragment_stage = 17
place max_uniform_buffers_per_shader_stage = 18
place max_uniform_buffer_binding_size = 19
place max_storage_buffer_binding_size = 20
place min_uniform_buffer_offset_alignment = 21
place min_storage_buffer_offset_alignment = 22
place max_vertex_buffers = 23
place max_buffer_size = 24
place max_vertex_attributes = 25
place max_vertex_buffer_array_stride = 26
place max_inter_stage_shader_variables = 27
place max_color_attachments = 28
place max_color_attachment_bytes_per_sample = 29
place max_compute_workgroup_storage_size = 30
place max_compute_invocations_per_workgroup = 31
place max_compute_workgroup_size_x = 32
place max_compute_workgroup_size_y = 33
place max_compute_workgroup_size_z = 34
place max_compute_workgroups_per_dimension = 35

pub data RequiredLimitDirection : Type 0 where
  maximum minimum_alignment : RequiredLimitDirection

abbrev pub direction : Limit → RequiredLimitDirection
direction min_uniform_buffer_offset_alignment = minimum_alignment
direction min_storage_buffer_offset_alignment = minimum_alignment
direction _ = maximum

abbrev pub is_u64 : Limit → Bool
is_u64 max_uniform_buffer_binding_size = true
is_u64 max_storage_buffer_binding_size = true
is_u64 max_buffer_size = true
is_u64 _ = false

-- WGPU_LIMIT_U32_UNDEFINED and WGPU_LIMIT_U64_UNDEFINED of webgpu.h
abbrev pub limit_u32_undefined : ℕ
limit_u32_undefined = 2 ^ 32 - 1

abbrev pub limit_u64_undefined : ℕ
limit_u64_undefined = 2 ^ 64 - 1

-- initial_limits
unfoldable pub initial_limits : Limit → ℕ
initial_limits l = if is_u64 l then limit_u64_undefined else limit_u32_undefined

-- is_known_required_limit
abbrev pub known_limits : List String
known_limits =
    "maxTextureDimension1D" ∷ "maxTextureDimension2D" ∷ "maxTextureDimension3D"
    ∷ "maxTextureArrayLayers" ∷ "maxBindGroups" ∷ "maxBindGroupsPlusVertexBuffers"
    ∷ "maxImmediateSize" ∷ "maxBindingsPerBindGroup" ∷ "maxDynamicUniformBuffersPerPipelineLayout"
    ∷ "maxDynamicStorageBuffersPerPipelineLayout" ∷ "maxSampledTexturesPerShaderStage"
    ∷ "maxSamplersPerShaderStage" ∷ "maxStorageBuffersPerShaderStage"
    ∷ "maxStorageBuffersInVertexStage" ∷ "maxStorageBuffersInFragmentStage"
    ∷ "maxStorageTexturesPerShaderStage" ∷ "maxStorageTexturesInVertexStage"
    ∷ "maxStorageTexturesInFragmentStage" ∷ "maxUniformBuffersPerShaderStage"
    ∷ "maxUniformBufferBindingSize" ∷ "maxStorageBufferBindingSize"
    ∷ "minUniformBufferOffsetAlignment" ∷ "minStorageBufferOffsetAlignment" ∷ "maxVertexBuffers"
    ∷ "maxBufferSize" ∷ "maxVertexAttributes" ∷ "maxVertexBufferArrayStride"
    ∷ "maxInterStageShaderVariables" ∷ "maxColorAttachments" ∷ "maxColorAttachmentBytesPerSample"
    ∷ "maxComputeWorkgroupStorageSize" ∷ "maxComputeInvocationsPerWorkgroup"
    ∷ "maxComputeWorkgroupSizeX" ∷ "maxComputeWorkgroupSizeY" ∷ "maxComputeWorkgroupSizeZ"
    ∷ "maxComputeWorkgroupsPerDimension" ∷ []

abbrev pub is_among : String → List String → Bool
is_among name [] = false
is_among name (n ∷ ns) = Text.◌==◌ name n || is_among name ns

unfoldable pub is_known_required_limit : String → Bool
is_known_required_limit name = is_among name known_limits

-- The arms of the `match` in `convert_required_limits`, in their order
abbrev pub limit_arms : List Limit
limit_arms =
    max_texture_dimension_1d ∷ max_texture_dimension_2d ∷ max_texture_dimension_3d
    ∷ max_texture_array_layers ∷ max_bind_groups ∷ max_bind_groups_plus_vertex_buffers
    ∷ max_immediate_size ∷ max_bindings_per_bind_group
    ∷ max_dynamic_uniform_buffers_per_pipeline_layout
    ∷ max_dynamic_storage_buffers_per_pipeline_layout ∷ max_sampled_textures_per_shader_stage
    ∷ max_samplers_per_shader_stage ∷ max_storage_buffers_per_shader_stage
    ∷ max_storage_buffers_in_vertex_stage ∷ max_storage_buffers_in_fragment_stage
    ∷ max_storage_textures_per_shader_stage ∷ max_storage_textures_in_vertex_stage
    ∷ max_storage_textures_in_fragment_stage ∷ max_uniform_buffers_per_shader_stage
    ∷ max_uniform_buffer_binding_size ∷ max_storage_buffer_binding_size
    ∷ min_uniform_buffer_offset_alignment ∷ min_storage_buffer_offset_alignment ∷ max_vertex_buffers
    ∷ max_buffer_size ∷ max_vertex_attributes ∷ max_vertex_buffer_array_stride
    ∷ max_inter_stage_shader_variables ∷ max_color_attachments
    ∷ max_color_attachment_bytes_per_sample ∷ max_compute_workgroup_storage_size
    ∷ max_compute_invocations_per_workgroup ∷ max_compute_workgroup_size_x
    ∷ max_compute_workgroup_size_y ∷ max_compute_workgroup_size_z
    ∷ max_compute_workgroups_per_dimension ∷ []

abbrev pub find_limit : String → List Limit → Option Limit
find_limit name [] = none
find_limit name (l ∷ ls) =
    let rest = find_limit name ls in if Text.◌==◌ name (limit_name l) then some l else rest

-- coerce_required_limits: the own property names with what `get` answers, none if it is undefined
unfoldable pub coerce_required_limits :
    List (String × Result (Option Number)) → Result (List (String × ℕ))
unfolding and_then enforce_required_limit_value
coerce_required_limits [] = ok []
coerce_required_limits ((name, err error) ∷ rest) = err error
coerce_required_limits ((name, ok none) ∷ rest) = coerce_required_limits rest
coerce_required_limits ((name, ok (some value)) ∷ rest) =
    let more = coerce_required_limits rest in
    and_then (λ n. and_then (λ requested. ok ((name, n) ∷ requested)) more)
      (enforce_required_limit_value value "required limit")

abbrev pub unsupported : String → JsError
unsupported name =
    JsError.operation_error
      (String.◌++◌ "required limit " (String.◌++◌ name " is not supported by the adapter"))

abbrev pub unrepresentable : String → JsError
unrepresentable name =
    JsError.operation_error
      (String.◌++◌ "required limit " (String.◌++◌ name " is not representable by the native API"))

abbrev pub unknown : String → JsError
unknown name = JsError.operation_error (String.◌++◌ "unknown required limit: " name)

-- validate_required_limit
abbrev pub is_better : RequiredLimitDirection → ℕ → ℕ → Bool
is_better maximum requested supported = ltb supported requested
is_better minimum_alignment requested supported = ltb requested supported

unfoldable pub validate_required_limit : String → ℕ → ℕ → RequiredLimitDirection → Result (Unit {0})
validate_required_limit name requested supported d =
    if is_better d requested supported then err (unsupported name) else ok tt

-- required_limit_u32; the conversion of a value below the bound does not fail
unfoldable pub required_limit_u32 : String → ℕ → Result ℕ
required_limit_u32 name value =
    if leb limit_u32_undefined value then err (unrepresentable name) else ok value

-- The macros `set_max_u32`, `set_min_alignment_u32` and `set_max_u64`
abbrev pub stored : String → ℕ → Limit → Result ℕ
stored name requested l = if is_u64 l then ok requested else required_limit_u32 name requested

abbrev pub set_field : Limit → ℕ → (Limit → ℕ) → Limit → ℕ
set_field l n limits l' = if place l == place l' then n else limits l'

abbrev pub set_limit : (Limit → ℕ) → (Limit → ℕ) → String → ℕ → Option Limit → Result (Limit → ℕ)
set_limit supported limits name requested none = err (unknown name)
set_limit supported limits name requested (some l) =
    and_then (λ _. and_then (λ n. ok (set_field l n limits)) (stored name requested l))
      (validate_required_limit name requested (supported l) (direction l))

-- The loop of `convert_required_limits`, and the function
unfoldable pub convert_from : (Limit → ℕ) → List (String × ℕ) → (Limit → ℕ) → Result (Limit → ℕ)
unfolding and_then validate_required_limit required_limit_u32
convert_from supported [] limits = ok limits
convert_from supported ((name, requested) ∷ rest) limits =
    and_then (convert_from supported rest)
      (set_limit supported limits name requested (find_limit name limit_arms))

unfoldable pub convert_required_limits : List (String × ℕ) → (Limit → ℕ) → Result (Limit → ℕ)
unfolding convert_from initial_limits
convert_required_limits requested supported = convert_from supported requested initial_limits

abbrev pub first_unknown : List (String × ℕ) → Option String
first_unknown [] = none
first_unknown ((name, n) ∷ rest) =
    let more = first_unknown rest in if is_known_required_limit name then more else some name

-- The part of `adapter_request_device_inner` that makes the limits of the native descriptor: none is
-- the null pointer. `supported` is the answer of the adapter.
abbrev pub with_known :
    Result (Limit → ℕ) → List (String × ℕ) → Option String → Result (Option (Limit → ℕ))
with_known supported requested (some name) = err (unknown name)
with_known supported [] none = ok none
with_known supported (r ∷ requested) none =
    and_then
      (λ limits. and_then (λ l. ok (some l)) (convert_required_limits (r ∷ requested) limits))
      supported

unfoldable pub required_limits :
    List (String × Result (Option Number)) → Result (Limit → ℕ) → Result (Option (Limit → ℕ))
unfolding coerce_required_limits is_known_required_limit convert_required_limits
required_limits answers supported =
    and_then (λ requested. with_known supported requested (first_unknown requested))
      (coerce_required_limits answers)
