-- ===== src/Tests/Bytes.antt =====
-- Buffer sources at concrete answers of the engine: a view of 8 bytes, 4 into 12, in elements of 2.
use webgpu_native_js.Prelude.{
  ℕ, ◌+◌, ◌*◌, ◌%◌, ◌≤◌, ◌≡◌, refl, ◌⊎◌, false, none, some, List, [], ◌∷◌, length, take, drop,
}
use webgpu_native_js.Result.{Result, ok, err, JsError}
use webgpu_native_js.Number.{Number, finite, enforce_u64, enforce_u32}
use webgpu_native_js.Data.{
  and_then, checked, require, SourceAnswers, view, ConvertedBufferSource, checked_view,
  convert_buffer_source, queue_write_buffer, convert_immediates, immediate_bytes, data_range,
  byte_size_of, checked_range, byte_slice, optional_gpu_size64_to_u64,
}
use webgpu_native_js.Data.Bounds.{Counted, queue_write_buffer_lem}

abbrev backing : List ℕ
backing = 0 ∷ 1 ∷ 2 ∷ 3 ∷ 4 ∷ 5 ∷ 6 ∷ 7 ∷ 8 ∷ 9 ∷ 10 ∷ 11 ∷ []

abbrev number : ℕ → Result Number
number n = ok (finite false n 0)

abbrev answers : SourceAnswers
answers = view (record {
  backing_length = ok (some 12);
  byte_offset = number 4;
  byte_length = number 8;
  element_size = ok (some (finite false 2 0));
  copy = some backing;
})

abbrev source : ConvertedBufferSource
source = record { bytes = backing; byte_offset = 4; byte_length = 8; bytes_per_element = 2 }

converts : convert_buffer_source answers ≡ ok source
unfolding convert_buffer_source checked_view checked require and_then enforce_u64
converts = refl

abbrev taken : List ℕ
taken = 8 ∷ 9 ∷ 10 ∷ 11 ∷ []

immediates : convert_immediates (number 16) answers (some (number 2)) none ≡ ok (16, taken)
unfolding convert_immediates immediate_bytes convert_buffer_source checked_view checked require
    and_then enforce_u64 enforce_u32 data_range byte_size_of checked_range byte_slice
    optional_gpu_size64_to_u64
immediates = refl

queue_write_buffer_lem_example :
    ((error : JsError) × (queue_write_buffer (ok 5) (number 0) answers none (some (number 2))
        ≡ some (err error)))
    ⊎ ((s : ConvertedBufferSource) × (b at from start count : ℕ) × (convert_buffer_source answers
          ≡ ok s)
        × (optional_gpu_size64_to_u64 none "dataOffset" 0 ≡ ok from)
        × (queue_write_buffer (ok 5) (number 0) answers none (some (number 2))
            ≡ some (ok (b, at, take count (drop start s.bytes))))
        × (start ≡ s.byte_offset + from * s.bytes_per_element)
        × (start + count ≤ s.byte_offset + s.byte_length)
        × (length (take count (drop start s.bytes)) ≡ count)
        × (count % 4 ≡ 0)
        × Counted "size" s from (some (number 2)) count)
queue_write_buffer_lem_example =
    queue_write_buffer_lem (ok 5) (number 0) answers none (some (number 2))
