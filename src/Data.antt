-- ===== src/Data.antt =====
-- core/src/lib.rs, the bytes that script passes: `convert_buffer_source`, and the range of them
-- that `queue_write_buffer` and `convert_immediates` take. What the engine reads from the script's
-- objects is an argument, in the order in which it is read; `usize` has 64 bits. `none` stands for
-- the panic of a slice that leaves its vector.
pub mod Bounds
pub mod Holds
pub mod Immediates
use webgpu_native_js.Prelude.{
  ℕ, zero, suc, ◌+◌, ◌-◌, ◌*◌, ◌%◌, ◌^◌, String, Bool, Option, none, some, List, ltb, leb, ◌==◌,
  if◌then◌else◌, length, take, drop,
}
use webgpu_native_js.Result.{Result, ok, err, JsError}
use webgpu_native_js.Number.{Number, enforce_u64, enforce_u32}

-- Result::and_then, the `?` of a chain
unfoldable pub and_then {ℓ κ} :
    {B : Type ℓ} {C : Type κ} (step : B → Result C) → Result B → Result C
and_then step (err error) = err error
and_then step (ok b) = step b

-- checked_add and checked_mul, with the error for an overflow
unfoldable pub checked : ℕ → JsError → Result ℕ
checked n error = if ltb n (2 ^ 64) then ok n else err error

unfoldable pub require : Bool → JsError → Result (Unit {0})
require condition error = if condition then ok tt else err error

-- Option::ok_or_else
abbrev pub present {ℓ} : {B : Type ℓ} → JsError → Option B → Result B
present error none = err error
present error (some b) = ok b

-- ConvertedBufferSource
pub record ConvertedBufferSource : Type 0 where
  pub bytes : List ℕ
  pub byte_offset : ℕ
  pub byte_length : ℕ
  pub bytes_per_element : ℕ

-- What the engine reads from an object that is no ArrayBuffer: the length of its `buffer` if that
-- is one, the numbers of its members, and a copy of the bytes.
pub record ViewAnswers : Type 0 where
  pub backing_length : Result (Option ℕ)
  pub byte_offset : Result Number
  pub byte_length : Result Number
  pub element_size : Result (Option Number)
  pub copy : Option (List ℕ)

pub data SourceAnswers : Type 0 where
  array_buffer : Option (List ℕ) → SourceAnswers
  view : ViewAnswers → SourceAnswers

abbrev pub non_zero : ℕ → Result ℕ
non_zero zero = err (JsError.type_error "data.constructor.BYTES_PER_ELEMENT")
non_zero (suc n) = ok (suc n)

abbrev pub bytes_per_element : Option Number → Result ℕ
bytes_per_element none = ok 1
bytes_per_element (some n) = and_then non_zero (enforce_u64 n "data.constructor.BYTES_PER_ELEMENT")

abbrev pub outside_backing : JsError
outside_backing = JsError.type_error "data.byteLength"

-- The checks of a view, once its members are read
unfoldable pub checked_view : ℕ → ℕ → ℕ → ℕ → Option (List ℕ) → Result ConvertedBufferSource
unfolding checked require
checked_view backing_length byte_offset byte_length element_size copy =
    and_then
      (λ view_end.
        and_then
          (λ _.
            and_then
              (λ bytes.
                and_then
                  (λ _. ok (record {
                    bytes = bytes;
                    byte_offset = byte_offset;
                    byte_length = byte_length;
                    bytes_per_element = element_size;
                  }))
                  (require (leb view_end (length bytes)) outside_backing))
              (present (JsError.type_error "data must reference an attached ArrayBuffer") copy))
          (require (leb view_end backing_length) outside_backing))
      (checked (byte_offset + byte_length) outside_backing)

unfoldable pub convert_buffer_source : SourceAnswers → Result ConvertedBufferSource
unfolding checked_view
convert_buffer_source (array_buffer copy) =
    and_then
      (λ bytes. ok (record {
        bytes = bytes;
        byte_offset = 0;
        byte_length = length bytes;
        bytes_per_element = 1;
      }))
      (present (JsError.type_error "data must be an ArrayBuffer or ArrayBufferView") copy)
convert_buffer_source (view v) =
    and_then
      (λ backing_length.
        and_then
          (λ byte_offset.
            and_then
              (λ byte_length.
                and_then
                  (λ element_size.
                    checked_view backing_length byte_offset byte_length element_size v.copy)
                  (and_then bytes_per_element v.element_size))
              (and_then (λ n. enforce_u64 n "data.byteLength") v.byte_length))
          (and_then (λ n. enforce_u64 n "data.byteOffset") v.byte_offset))
      (and_then
        (present (
          JsError.type_error
            "data must be an ArrayBuffer or ArrayBufferView (or pass data.buffer)"))
        v.backing_length)

-- An optional argument: none where it is missing or undefined
unfoldable pub optional_gpu_size64_to_u64 : Option (Result Number) → String → ℕ → Result ℕ
optional_gpu_size64_to_u64 none name default = ok default
optional_gpu_size64_to_u64 (some value) name default = and_then (λ n. enforce_u64 n name) value

-- The two callers differ in their errors and in the name of the size.
pub record RangeErrors : Type 0 where
  pub size_name : String
  pub offset : JsError
  pub size : JsError
  pub multiple : JsError
  pub start : JsError
  pub end : JsError

-- The bytes that an explicit size takes, or the rest of the view
unfoldable pub byte_size_of :
    RangeErrors → ConvertedBufferSource → ℕ → Option (Result Number) → Result ℕ
unfolding optional_gpu_size64_to_u64 checked
byte_size_of errors source byte_offset none = ok (source.byte_length - byte_offset)
byte_size_of errors source byte_offset (some value) =
    and_then (λ size. checked (size * source.bytes_per_element) errors.size)
      (optional_gpu_size64_to_u64 (some value) errors.size_name 0)

-- The checks of a range, from its offset and size in bytes: its start and its size
unfoldable pub checked_range : RangeErrors → ConvertedBufferSource → ℕ → ℕ → Result (ℕ × ℕ)
unfolding checked require
checked_range errors source byte_offset byte_size =
    and_then
      (λ relative_end.
        and_then
          (λ _.
            and_then
              (λ _.
                and_then
                  (λ start.
                    and_then (λ end. ok (start, byte_size))
                      (checked (start + byte_size) errors.end))
                  (checked (source.byte_offset + byte_offset) errors.start))
              (require (byte_size % 4 == 0) errors.multiple))
          (require (leb relative_end source.byte_length) errors.size))
      (checked (byte_offset + byte_size) errors.size)

unfoldable pub data_range :
    RangeErrors → ConvertedBufferSource → ℕ → Option (Result Number) → Result (ℕ × ℕ)
unfolding byte_size_of checked_range checked require
data_range errors source data_offset size =
    and_then
      (λ byte_offset.
        and_then
          (λ _.
            and_then (checked_range errors source byte_offset)
              (byte_size_of errors source byte_offset size))
          (require (leb byte_offset source.byte_length) errors.offset))
      (checked (data_offset * source.bytes_per_element) errors.offset)

-- `bytes[start..start + size]`
unfoldable pub byte_slice : List ℕ → ℕ → ℕ → Option (List ℕ)
byte_slice bytes start size =
    if leb (start + size) (length bytes) then some (take size (drop start bytes)) else none

-- The call of wgpuQueueWriteBuffer: buffer, offset, bytes
abbrev pub Write : Type 0
Write = ℕ × ℕ × List ℕ

abbrev pub write_errors : RangeErrors
write_errors = record {
  size_name = "size";
  offset = JsError.operation_error "dataOffset is outside the source range";
  size = JsError.operation_error "size is outside the source range";
  multiple = JsError.operation_error "writeBuffer size must be a multiple of 4 bytes";
  start = JsError.type_error "dataOffset";
  end = JsError.type_error "size";
}

abbrev pub write_slice : Result ℕ → ℕ → Option (List ℕ) → Option (Result Write)
write_slice (err error) offset bytes = some (err error)
write_slice (ok buffer) offset none = none
write_slice (ok buffer) offset (some bytes) = some (ok (buffer, offset, bytes))

abbrev pub write_range :
    Result ℕ → ℕ → ConvertedBufferSource → Result (ℕ × ℕ) → Option (Result Write)
write_range buffer offset source (err error) = some (err error)
write_range buffer offset source (ok range) =
    write_slice buffer offset (byte_slice source.bytes range.0 range.1)

-- The part of `queue_write_buffer` from its converted source on
unfoldable pub write_source :
    Result ℕ
    → Option (Result Number)
    → Option (Result Number)
    → ℕ
    → Result ConvertedBufferSource
    → Option (Result Write)
unfolding data_range byte_slice optional_gpu_size64_to_u64
write_source buffer data_offset size offset (err error) = some (err error)
write_source buffer data_offset size offset (ok source) = write_range buffer offset source (
    and_then (λ from. data_range write_errors source from size)
      (optional_gpu_size64_to_u64 data_offset "dataOffset" 0))

abbrev pub with_offset : (ℕ → Option (Result Write)) → Result ℕ → Option (Result Write)
with_offset next (err error) = some (err error)
with_offset next (ok offset) = next offset

-- GPUQueue.writeBuffer, of arguments that are there
unfoldable pub queue_write_buffer :
    Result ℕ
    → Result Number
    → SourceAnswers
    → Option (Result Number)
    → Option (Result Number)
    → Option (Result Write)
unfolding write_source convert_buffer_source
queue_write_buffer buffer offset answers data_offset size =
    with_offset (λ at. write_source buffer data_offset size at (convert_buffer_source answers))
      (and_then (λ n. enforce_u64 n "bufferOffset") offset)

abbrev pub outside_size : JsError
outside_size = JsError.operation_error "dataSize is outside the source range"

abbrev pub outside_offset : JsError
outside_offset = JsError.operation_error "dataOffset is outside the source range"

abbrev pub immediate_errors : RangeErrors
immediate_errors = record {
  size_name = "dataSize";
  offset = outside_offset;
  size = outside_size;
  multiple = JsError.operation_error "setImmediates size must be a multiple of 4 bytes";
  start = outside_offset;
  end = outside_size;
}

-- The part of `convert_immediates` from its converted source on
unfoldable pub immediate_bytes :
    Option (Result Number) → Option (Result Number) → ConvertedBufferSource → Result (List ℕ)
unfolding data_range byte_slice optional_gpu_size64_to_u64
immediate_bytes data_offset size source =
    and_then (λ range. present outside_size (byte_slice source.bytes range.0 range.1))
      (and_then (λ from. data_range immediate_errors source from size)
        (optional_gpu_size64_to_u64 data_offset "dataOffset" 0))

-- The range offset and the bytes
unfoldable pub convert_immediates :
    Result Number
    → SourceAnswers
    → Option (Result Number)
    → Option (Result Number)
    → Result (ℕ × List ℕ)
unfolding immediate_bytes convert_buffer_source
convert_immediates range_offset answers data_offset size =
    and_then
      (λ at.
        and_then (λ bytes. ok (at, bytes))
          (and_then (immediate_bytes data_offset size) (convert_buffer_source answers)))
      (and_then (λ n. enforce_u32 n "rangeOffset") range_offset)
