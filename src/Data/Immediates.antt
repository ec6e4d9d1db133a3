-- ===== src/Data/Immediates.antt =====
-- core/src/lib.rs: what `convert_immediates` takes from its source.
use webgpu_native_js.Prelude.{
  ℕ, ◌+◌, ◌*◌, ◌%◌, ◌≤◌, ◌≡◌, sym, ap, ◌∙◌, Option, some, List, [], arith, length, take, drop,
}
use webgpu_native_js.Result.{Result, ok, err, JsError}
use webgpu_native_js.Number.{Number}
use webgpu_native_js.Data.{
  present, ConvertedBufferSource, SourceAnswers, convert_buffer_source, immediate_errors,
  immediate_bytes, convert_immediates, optional_gpu_size64_to_u64,
}
use webgpu_native_js.Data.Bounds.{
  and_then-ok, Counted, InBytes, convert_buffer_source-InBytes, data_range_lem, byte_slice_lem,
  length-byte_slice,
}

present-some {ℓ} :
    {B : Type ℓ} (error : JsError) (o : Option B) (b c : B)
    → o ≡ some b
    → present error o ≡ ok c
    → c ≡ b
present-some error o b c e h = ground (arith, e, h)

immediate_bytes_lem :
    (data_offset size : Option (Result Number)) (source : ConvertedBufferSource) (bytes : List ℕ)
    → InBytes source
    → immediate_bytes data_offset size source ≡ ok bytes
    → (from start count : ℕ) × (optional_gpu_size64_to_u64 data_offset "dataOffset" 0 ≡ ok from)
      × (bytes ≡ take count (drop start source.bytes))
      × (start ≡ source.byte_offset + from * source.bytes_per_element)
      × (start + count ≤ source.byte_offset + source.byte_length)
      × (length bytes ≡ count)
      × (count % 4 ≡ 0)
      × Counted "dataSize" source from size count
unfolding immediate_bytes
immediate_bytes_lem data_offset size source bytes within h =
    let (range, h₁, h₂) = and_then-ok _ _ bytes h in
    let (from, e, h₃) = and_then-ok _ _ range h₁ in
    let (low, high, multiple, at, sized) =
      data_range_lem immediate_errors source from size range h₃ in
    let bound : range.0 + range.1 ≤ length source.bytes = omega (arith, high, within) in
    let same = present-some _ _ _ _ (byte_slice_lem source.bytes range.0 range.1 bound) h₂ in
    (
      from,
      range.0,
      range.1,
      e,
      same,
      at,
      high,
      ap length same ∙ length-byte_slice source.bytes range.0 range.1 bound,
      multiple,
      sized,
    )

abbrev bytes_of : Result (ℕ × List ℕ) → List ℕ
bytes_of (ok r) = r.1
bytes_of (err e) = []

-- `setImmediates` passes on, when its arguments convert, bytes that are those of the converted
-- source from `dataOffset` elements into its view on, all in the view: as many as `size` elements
-- take, or the rest of the view without a size, and a multiple of 4.
pub convert_immediates_lem :
    (range_offset : Result Number) (answers : SourceAnswers)
    (data_offset size : Option (Result Number)) (at : ℕ) (bytes : List ℕ)
    → convert_immediates range_offset answers data_offset size ≡ ok (at, bytes)
    → (source : ConvertedBufferSource) × (from start count : ℕ) × (convert_buffer_source answers
        ≡ ok source)
      × (optional_gpu_size64_to_u64 data_offset "dataOffset" 0 ≡ ok from)
      × (bytes ≡ take count (drop start source.bytes))
      × (start ≡ source.byte_offset + from * source.bytes_per_element)
      × (start + count ≤ source.byte_offset + source.byte_length)
      × (length bytes ≡ count)
      × (count % 4 ≡ 0)
      × Counted "dataSize" source from size count
unfolding convert_immediates
convert_immediates_lem range_offset answers data_offset size at bytes h =
    let (_, _, h₁) = and_then-ok _ _ (at, bytes) h in
    let (bytes', h₂, same) = and_then-ok _ _ (at, bytes) h₁ in
    let (source, e, h₃) = and_then-ok _ _ bytes' h₂ in
    let (from, start, count, read, taken, start_at, inside, many, multiple, sized) =
      immediate_bytes_lem data_offset size source bytes'
        (convert_buffer_source-InBytes answers source e) h₃ in
    let whole = ap bytes_of same in
    (
      source,
      from,
      start,
      count,
      e,
      read,
      sym whole ∙ taken,
      start_at,
      inside,
      ap length (sym whole) ∙ many,
      multiple,
      sized,
    )
