-- ===== src/Limits/Names.antt =====
-- core/src/lib.rs: the names of the limits, in the two `match` expressions that list them.
use text.Mathlib.Text
use text.Mathlib.TextEquality.{eq_iff}
use mathlib.Core.Option.{none-ne-some, some-injective}
use webgpu_native_js.Prelude.{
  ℕ, zero, suc, String, ◌≡◌, refl, sym, ap, ◌∙◌, subst, inl, inr, Bool, true, false, Option, none,
  some, List, [], ◌∷◌, map, arith, ◌==◌, if◌then◌else◌, Bool-cases, ==_iff,
}
use webgpu_native_js.Limits.{
  Limit, limit_name, place, is_among, is_known_required_limit, limit_arms, find_limit,
}

abbrev pub is_found : Option Limit → Bool
is_found none = false
is_found (some l) = true

among_found :
    (name : String) (ls : List Limit)
    → is_among name (map limit_name ls) ≡ is_found (find_limit name ls)
among_found name [] = refl
among_found name (l ∷ ls) = let ih = among_found name ls in ground (arith, ih)

-- The two lists have the same names: what passes the check for a known limit has an arm, and nothing
-- else has one.
pub is_known_required_limit-find_limit :
    (name : String) → is_known_required_limit name ≡ is_found (find_limit name limit_arms)
unfolding is_known_required_limit
is_known_required_limit-find_limit name = among_found name limit_arms

-- What is found has the name.
pub find_limit-name :
    (name : String) (ls : List Limit) (l : Limit)
    → find_limit name ls ≡ some l
    → name ≡ limit_name l
find_limit-name name [] l h = absurd (none-ne-some l h)
find_limit-name name (x ∷ ls) l h =
    let answer : Bool → Type 0 = λ b. (if b then some x else find_limit name ls) ≡ some l in
    elim (Bool-cases (Text.◌==◌ name (limit_name x))) [
      | inl same ↦
          (eq_iff name (limit_name x)).0 same
          ∙ ap limit_name (some-injective x l (subst answer same h))
      | inr differ ↦ find_limit-name name ls l (subst answer differ h)
    ]

-- A limit is found under its name.
pub find_limit_name : (l : Limit) → find_limit (limit_name l) limit_arms ≡ some l
find_limit_name Limit.max_texture_dimension_1d = refl
find_limit_name Limit.max_texture_dimension_2d = refl
find_limit_name Limit.max_texture_dimension_3d = refl
find_limit_name Limit.max_texture_array_layers = refl
find_limit_name Limit.max_bind_groups = refl
find_limit_name Limit.max_bind_groups_plus_vertex_buffers = refl
find_limit_name Limit.max_immediate_size = refl
find_limit_name Limit.max_bindings_per_bind_group = refl
find_limit_name Limit.max_dynamic_uniform_buffers_per_pipeline_layout = refl
find_limit_name Limit.max_dynamic_storage_buffers_per_pipeline_layout = refl
find_limit_name Limit.max_sampled_textures_per_shader_stage = refl
find_limit_name Limit.max_samplers_per_shader_stage = refl
find_limit_name Limit.max_storage_buffers_per_shader_stage = refl
find_limit_name Limit.max_storage_buffers_in_vertex_stage = refl
find_limit_name Limit.max_storage_buffers_in_fragment_stage = refl
find_limit_name Limit.max_storage_textures_per_shader_stage = refl
find_limit_name Limit.max_storage_textures_in_vertex_stage = refl
find_limit_name Limit.max_storage_textures_in_fragment_stage = refl
find_limit_name Limit.max_uniform_buffers_per_shader_stage = refl
find_limit_name Limit.max_uniform_buffer_binding_size = refl
find_limit_name Limit.max_storage_buffer_binding_size = refl
find_limit_name Limit.min_uniform_buffer_offset_alignment = refl
find_limit_name Limit.min_storage_buffer_offset_alignment = refl
find_limit_name Limit.max_vertex_buffers = refl
find_limit_name Limit.max_buffer_size = refl
find_limit_name Limit.max_vertex_attributes = refl
find_limit_name Limit.max_vertex_buffer_array_stride = refl
find_limit_name Limit.max_inter_stage_shader_variables = refl
find_limit_name Limit.max_color_attachments = refl
find_limit_name Limit.max_color_attachment_bytes_per_sample = refl
find_limit_name Limit.max_compute_workgroup_storage_size = refl
find_limit_name Limit.max_compute_invocations_per_workgroup = refl
find_limit_name Limit.max_compute_workgroup_size_x = refl
find_limit_name Limit.max_compute_workgroup_size_y = refl
find_limit_name Limit.max_compute_workgroup_size_z = refl
find_limit_name Limit.max_compute_workgroups_per_dimension = refl

abbrev nth : ℕ → List Limit → Option Limit
nth n [] = none
nth zero (l ∷ ls) = some l
nth (suc n) (l ∷ ls) = nth n ls

nth-place : (l : Limit) → nth (place l) limit_arms ≡ some l
nth-place Limit.max_texture_dimension_1d = refl
nth-place Limit.max_texture_dimension_2d = refl
nth-place Limit.max_texture_dimension_3d = refl
nth-place Limit.max_texture_array_layers = refl
nth-place Limit.max_bind_groups = refl
nth-place Limit.max_bind_groups_plus_vertex_buffers = refl
nth-place Limit.max_immediate_size = refl
nth-place Limit.max_bindings_per_bind_group = refl
nth-place Limit.max_dynamic_uniform_buffers_per_pipeline_layout = refl
nth-place Limit.max_dynamic_storage_buffers_per_pipeline_layout = refl
nth-place Limit.max_sampled_textures_per_shader_stage = refl
nth-place Limit.max_samplers_per_shader_stage = refl
nth-place Limit.max_storage_buffers_per_shader_stage = refl
nth-place Limit.max_storage_buffers_in_vertex_stage = refl
nth-place Limit.max_storage_buffers_in_fragment_stage = refl
nth-place Limit.max_storage_textures_per_shader_stage = refl
nth-place Limit.max_storage_textures_in_vertex_stage = refl
nth-place Limit.max_storage_textures_in_fragment_stage = refl
nth-place Limit.max_uniform_buffers_per_shader_stage = refl
nth-place Limit.max_uniform_buffer_binding_size = refl
nth-place Limit.max_storage_buffer_binding_size = refl
nth-place Limit.min_uniform_buffer_offset_alignment = refl
nth-place Limit.min_storage_buffer_offset_alignment = refl
nth-place Limit.max_vertex_buffers = refl
nth-place Limit.max_buffer_size = refl
nth-place Limit.max_vertex_attributes = refl
nth-place Limit.max_vertex_buffer_array_stride = refl
nth-place Limit.max_inter_stage_shader_variables = refl
nth-place Limit.max_color_attachments = refl
nth-place Limit.max_color_attachment_bytes_per_sample = refl
nth-place Limit.max_compute_workgroup_storage_size = refl
nth-place Limit.max_compute_invocations_per_workgroup = refl
nth-place Limit.max_compute_workgroup_size_x = refl
nth-place Limit.max_compute_workgroup_size_y = refl
nth-place Limit.max_compute_workgroup_size_z = refl
nth-place Limit.max_compute_workgroups_per_dimension = refl

pub place_injective : (l l' : Limit) → (place l == place l') ≡ true → l ≡ l'
place_injective l l' same = some-injective l l' (
    sym (nth-place l)
    ∙ ap (λ n. nth n limit_arms) ((==_iff (place l) (place l')).0 same)
    ∙ nth-place l')

pub name_injective : (l l' : Limit) → limit_name l ≡ limit_name l' → l ≡ l'
name_injective l l' same =
    some-injective l l'
      (sym (find_limit_name l) ∙ ap (λ name. find_limit name limit_arms) same ∙ find_limit_name l')

iff_same : (a b : Bool) → (a ≡ true → b ≡ true) → (b ≡ true → a ≡ true) → a ≡ b
iff_same true b f g = sym (f refl)
iff_same false true f g = g refl
iff_same false false f g = refl

-- Fields have the same place exactly if they have the same name.
pub same_place : (l l' : Limit) → (place l == place l') ≡ Text.◌==◌ (limit_name l) (limit_name l')
same_place l l' =
    iff_same (place l == place l') (Text.◌==◌ (limit_name l) (limit_name l'))
      (λ same.
        (eq_iff (limit_name l) (limit_name l')).1 (ap limit_name (place_injective l l' same)))
      (λ same.
        (==_iff (place l) (place l')).1
          (ap place (name_injective l l' ((eq_iff (limit_name l) (limit_name l')).0 same))))
