-- ===== src/Data/Bounds.antt =====
-- core/src/lib.rs: the bytes that are taken from a source lie in it.
use webgpu_native_js.Prelude.{
  ℕ, ◌+◌, ◌*◌, ◌%◌, ◌≤◌, ◌≡◌, refl, sym, ap, ◌∙◌, subst, String, ◌-◌, ◌⊎◌, inl, inr, Option, none,
  some, List, arith, length, take, drop, length-take, length-drop,
}
use webgpu_native_js.Result.{Result, ok, err, JsError}
use webgpu_native_js.Number.{Number, enforce_u64}
use webgpu_native_js.Data.{
  and_then, checked, require, ConvertedBufferSource, ViewAnswers, SourceAnswers, array_buffer, view,
  checked_view, convert_buffer_source, RangeErrors, byte_size_of, checked_range, data_range,
  byte_slice, write_errors, write_range, write_source, queue_write_buffer,
  optional_gpu_size64_to_u64,
}

-- A chain that succeeds has a first step that does.
pub and_then-ok {ℓ κ} :
    {B : Type ℓ} {C : Type κ} (step : B → Result C) (m : Result B) (c : C)
    → and_then step m ≡ ok c
    → (b : B) × (m ≡ ok b) × (step b ≡ ok c)
unfolding and_then
and_then-ok step (ok b) c h = (b, refl, h)
and_then-ok step (err error) c h = ground arith

-- What a converted source promises: the view lies in the bytes
abbrev pub InBytes : ConvertedBufferSource → Type 0
InBytes source = source.byte_offset + source.byte_length ≤ length source.bytes

checked_view-InBytes :
    (backing_length byte_offset byte_length element_size : ℕ) (copy : Option (List ℕ))
    (source : ConvertedBufferSource)
    → checked_view backing_length byte_offset byte_length element_size copy ≡ ok source
    → InBytes source
unfolding checked_view checked require and_then
checked_view-InBytes backing_length byte_offset byte_length element_size copy source h =
    ground (arith, h)

checked_range_lem :
    (errors : RangeErrors) (source : ConvertedBufferSource) (byte_offset byte_size : ℕ) (r : ℕ × ℕ)
    → checked_range errors source byte_offset byte_size ≡ ok r
    → (r.0 ≡ source.byte_offset + byte_offset)
      × (r.1 ≡ byte_size)
      × (byte_offset + byte_size ≤ source.byte_length)
      × (byte_size % 4 ≡ 0)
unfolding checked_range checked require and_then
checked_range_lem errors source byte_offset byte_size r h = ground (arith, h)

view-InBytes :
    (v : ViewAnswers) (source : ConvertedBufferSource)
    → convert_buffer_source (view v) ≡ ok source
    → InBytes source
unfolding convert_buffer_source
view-InBytes v source h =
    let (backing_length, _, h₁) = and_then-ok _ _ source h in
    let (byte_offset, _, h₂) = and_then-ok _ _ source h₁ in
    let (byte_length, _, h₃) = and_then-ok _ _ source h₂ in
    let (element_size, _, h₄) = and_then-ok _ _ source h₃ in
    checked_view-InBytes backing_length byte_offset byte_length element_size v.copy source h₄

array_buffer-InBytes :
    (copy : Option (List ℕ)) (source : ConvertedBufferSource)
    → convert_buffer_source (array_buffer copy) ≡ ok source
    → InBytes source
unfolding convert_buffer_source and_then
array_buffer-InBytes copy source h = ground (arith, h)

-- Whatever the engine reads from the script's object, a conversion that succeeds gives a view
-- that lies in the copied bytes.
pub convert_buffer_source-InBytes :
    (answers : SourceAnswers) (source : ConvertedBufferSource)
    → convert_buffer_source answers ≡ ok source
    → InBytes source
unfolding convert_buffer_source
convert_buffer_source-InBytes (array_buffer copy) source h = array_buffer-InBytes copy source h
convert_buffer_source-InBytes (view v) source h = view-InBytes v source h

ok_injective : {m n : ℕ} → ok m ≡ ok n → m ≡ n
ok_injective h = ground (arith, h)

checked_ok : (n : ℕ) (error : JsError) (m : ℕ) → checked n error ≡ ok m → m ≡ n
unfolding checked
checked_ok n error m h = ground (arith, h)

-- How many bytes a range takes that begins at element `from`: the elements of an explicit size, or
-- else the rest of the view
abbrev pub Counted : String → ConvertedBufferSource → ℕ → Option (Result Number) → ℕ → Type 0
Counted name source from none count = from * source.bytes_per_element + count ≡ source.byte_length
Counted name source from (some value) count =
    (elements : ℕ) × (and_then (λ n. enforce_u64 n name) value ≡ ok elements)
    × (count ≡ elements * source.bytes_per_element)

byte_size_of-Counted :
    (errors : RangeErrors) (source : ConvertedBufferSource) (from byte_offset : ℕ)
    (size : Option (Result Number)) (count : ℕ)
    → byte_size_of errors source byte_offset size ≡ ok count
    → byte_offset ≡ from * source.bytes_per_element
    → byte_offset ≤ source.byte_length
    → Counted errors.size_name source from size count
unfolding byte_size_of optional_gpu_size64_to_u64
byte_size_of-Counted errors source from byte_offset none count h same within =
    let e : source.byte_length - byte_offset ≡ count = ok_injective h in
    omega (arith, e, same, within)
byte_size_of-Counted errors source from byte_offset (some value) count h same within =
    let (elements, converted, taken) = and_then-ok _ _ count h in
    (elements, converted, checked_ok _ _ count taken)

-- A range that is accepted lies in the view, and its size is a multiple of 4.
pub data_range_lem :
    (errors : RangeErrors) (source : ConvertedBufferSource) (data_offset : ℕ)
    (size : Option (Result Number)) (r : ℕ × ℕ)
    → data_range errors source data_offset size ≡ ok r
    → (source.byte_offset ≤ r.0)
      × (r.0 + r.1 ≤ source.byte_offset + source.byte_length)
      × (r.1 % 4 ≡ 0)
      × (r.0 ≡ source.byte_offset + data_offset * source.bytes_per_element)
      × Counted errors.size_name source data_offset size r.1
unfolding data_range checked
data_range_lem errors source data_offset size r h =
    let (byte_offset, e, h₁) = and_then-ok _ _ r h in
    let (_, _, h₂) = and_then-ok _ _ r h₁ in
    let (byte_size, sized, h₃) = and_then-ok _ _ r h₂ in
    let (at, taken, inside, multiple) =
      checked_range_lem errors source byte_offset byte_size r h₃ in
    let same : byte_offset ≡ data_offset * source.bytes_per_element =
      checked_ok _ _ byte_offset e in
    (
      omega (arith, at),
      omega (arith, at, taken, inside),
      ap (λ n. n % 4) taken ∙ multiple,
      at ∙ ap (λ n. source.byte_offset + n) same,
      subst (Counted errors.size_name source data_offset size) (sym taken) (
          byte_size_of-Counted errors source data_offset byte_offset size byte_size sized same
            (omega (arith, inside))),
    )

-- A byte_slice within the bytes does not panic.
pub byte_slice_lem :
    (bytes : List ℕ) (start size : ℕ)
    → start + size ≤ length bytes
    → byte_slice bytes start size ≡ some (take size (drop start bytes))
unfolding byte_slice
byte_slice_lem bytes start size h = ground (arith, h)

Result-cases {ℓ} :
    {B : Type ℓ} (m : Result B) → ((e : JsError) × (m ≡ err e)) ⊎ ((b : B) × (m ≡ ok b))
Result-cases (ok b) = inr (b, refl)
Result-cases (err e) = inl (e, refl)

-- What a successful write of a range passes on
abbrev Passed : ConvertedBufferSource → ℕ → Option (Result Number) → ℕ → ℕ → Type 0
Passed source from size start count =
    (start ≡ source.byte_offset + from * source.bytes_per_element)
    × (start + count ≤ source.byte_offset + source.byte_length)
    × (count % 4 ≡ 0)
    × Counted "size" source from size count

write_range_lem :
    (buffer : Result ℕ) (offset : ℕ) (source : ConvertedBufferSource) (from : ℕ)
    (size : Option (Result Number))
    → InBytes source
    → let w = write_range buffer offset source (data_range write_errors source from size) in
      ((error : JsError) × (w ≡ some (err error)))
      ⊎ ((b start count : ℕ) × (w ≡ some (ok (b, offset, take count (drop start source.bytes))))
          × Passed source from size start count)
write_range_lem buffer offset source from size within =
    elim (Result-cases (data_range write_errors source from size)) [
      | inl e ↦ inl (e.0, rw e.1 refl)
      | inr range ↦ elim (Result-cases buffer) [
        | inl e ↦ inl (e.0, rw (range.1, e.1) refl)
        | inr b ↦
            let (low, high, multiple, at, sized) =
              data_range_lem write_errors source from size range.0 range.1 in
            let cut =
              byte_slice_lem source.bytes range.0.0 range.0.1 (omega (arith, high, within)) in
            inr
              (b.0, range.0.0, range.0.1, rw (range.1, b.1, cut) refl, (at, high, multiple, sized))
      ]
    ]

pub length-byte_slice :
    (bytes : List ℕ) (start count : ℕ)
    → start + count ≤ length bytes
    → length (take count (drop start bytes)) ≡ count
length-byte_slice bytes start count h =
    omega (arith, length-take count (drop start bytes), length-drop start bytes, h)

-- `writeBuffer` never panics, whatever script passes and the engine answers; and when it writes,
-- the bytes are those of the converted source from `dataOffset` elements into its view on, all in the
-- view: as many as `size` elements take, or the rest of the view without a size. Their number is a
-- multiple of 4.
pub queue_write_buffer_lem :
    (buffer : Result ℕ) (offset : Result Number) (answers : SourceAnswers)
    (data_offset size : Option (Result Number))
    → ((error : JsError) × (queue_write_buffer buffer offset answers data_offset size
          ≡ some (err error)))
      ⊎ ((source : ConvertedBufferSource) × (b at from start count : ℕ) × (convert_buffer_source
              answers
            ≡ ok source)
          × (optional_gpu_size64_to_u64 data_offset "dataOffset" 0 ≡ ok from)
          × (queue_write_buffer buffer offset answers data_offset size
              ≡ some (ok (b, at, take count (drop start source.bytes))))
          × (start ≡ source.byte_offset + from * source.bytes_per_element)
          × (start + count ≤ source.byte_offset + source.byte_length)
          × (length (take count (drop start source.bytes)) ≡ count)
          × (count % 4 ≡ 0)
          × Counted "size" source from size count)
unfolding queue_write_buffer write_source and_then
queue_write_buffer_lem buffer offset answers data_offset size =
    elim (Result-cases (and_then (λ n. enforce_u64 n "bufferOffset") offset)) [
      | inl e ↦ inl (e.0, rw e.1 refl)
      | inr at ↦ elim (Result-cases (convert_buffer_source answers)) [
        | inl e ↦ inl (e.0, rw (at.1, e.1) refl)
        | inr source ↦ elim (Result-cases (optional_gpu_size64_to_u64 data_offset "dataOffset" 0)) [
          | inl e ↦ inl (e.0, rw (at.1, source.1, e.1) refl)
          | inr from ↦
              elim (write_range_lem buffer at.0 source.0 from.0 size
                (convert_buffer_source-InBytes answers source.0 source.1)) [
                  | inl e ↦ inl (e.0, rw (at.1, source.1, from.1) e.1)
                  | inr w ↦
                      let within = convert_buffer_source-InBytes answers source.0 source.1 in
                      inr (
                        source.0,
                        w.0,
                        at.0,
                        from.0,
                        w.1,
                        w.2,
                        source.1,
                        from.1,
                        rw (at.1, source.1, from.1) w.3,
                        w.4.0,
                        w.4.1,
                        length-byte_slice source.0.bytes w.1 w.2 (omega (arith, w.4.1, within)),
                        w.4.2,
                        w.4.3,
                      )
                ]
        ]
      ]
    ]
