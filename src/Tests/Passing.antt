-- ===== src/Tests/Passing.antt =====
-- The dynamic offsets of setBindGroup at a concrete window: two words, from the second on, of a
-- Uint32Array of 12 bytes.
use webgpu_native_js.Prelude.{
  ℕ, ◌<◌, ◌≡◌, refl, ◌⊎◌, true, false, none, some, List, [], ◌∷◌, arith, length, All,
}
use webgpu_native_js.Result.{Result, ok}
use webgpu_native_js.Number.{Number, finite, enforce_u64, enforce_u32}
use webgpu_native_js.Data.{
  and_then, checked, require, SourceAnswers, view, array_buffer, checked_view,
  convert_buffer_source,
}
use webgpu_native_js.Data.Holds.{Holds}
use webgpu_native_js.Arguments.{
  ends, yields, convert_sequence, convert_sequence_from_method, Value, required_argument,
  window_offsets, window_overload, convert_dynamic_offsets,
}
use webgpu_native_js.Arguments.Words.{IsWord}
use webgpu_native_js.Arguments.Offsets.{IsCopy, copy_of, Windowed, convert_dynamic_offsets_bounds}

abbrev number : ℕ → Result Number
number n = ok (finite false n 0)

abbrev offset_bytes : SourceAnswers
offset_bytes = view (record {
  backing_length = ok (some 12);
  byte_offset = number 0;
  byte_length = number 12;
  element_size = ok (some (finite false 4 0));
  copy = some (1 ∷ 0 ∷ 0 ∷ 0 ∷ 0 ∷ 1 ∷ 0 ∷ 0 ∷ 3 ∷ 0 ∷ 0 ∷ 0 ∷ []);
})

abbrev number_value : ℕ → Value
number_value n = record {
  is_undefined = false;
  is_uint32array = false;
  source = array_buffer none;
  number = number n;
  sequence = ok none;
}

abbrev window_value : Value
window_value = record (number_value 0) { is_uint32array = true; source = offset_bytes }

abbrev window_args : List Value
window_args = number_value 0 ∷ number_value 0 ∷ window_value ∷ number_value 1 ∷ number_value 2 ∷ []

abbrev listed : List Value
listed =
    number_value 0
    ∷ number_value 0
    ∷ record (number_value 0) { sequence = ok (some (yields (number 512) ends)) }
    ∷ []

window_is_read : convert_dynamic_offsets true window_args ≡ ok (256 ∷ 3 ∷ [])
unfolding convert_dynamic_offsets window_overload window_offsets required_argument and_then checked
    require convert_buffer_source checked_view enforce_u64 enforce_u32
window_is_read = refl

sequence_is_read : convert_dynamic_offsets true listed ≡ ok (512 ∷ [])
unfolding convert_dynamic_offsets convert_sequence convert_sequence_from_method and_then enforce_u32
sequence_is_read = refl

window_args_copies : All (λ v. IsCopy (copy_of v.source)) window_args
window_args_copies = ground arith

convert_dynamic_offsets_bounds_example :
    Holds
      (λ offsets.
        All IsWord offsets × (Windowed true window_args offsets ⊎ (length window_args < 4)))
      (convert_dynamic_offsets true window_args)
convert_dynamic_offsets_bounds_example =
    convert_dynamic_offsets_bounds true window_args window_args_copies
