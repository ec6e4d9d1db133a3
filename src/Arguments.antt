-- ===== src/Arguments.antt =====
-- core/src/lib.rs, the arguments of a call: sequences, optional numbers, and the two overloads of the
-- dynamic offsets of setBindGroup. What the engine answers about a value is an argument; `usize` has
-- 64 bits.
pub mod Words
pub mod Windows
pub mod Offsets
use Prim.Native.String
use webgpu_native_js.Prelude.{
  ℕ, zero, suc, ◌+◌, ◌-◌, ◌*◌, ◌/◌, ◌%◌, ◌^◌, String, Bool, true, false, not, ◌&&◌, Option, none,
  some, List, [], ◌∷◌, ◌++◌, ltb, leb, ◌==◌, if◌then◌else◌, length, take, drop,
}
use webgpu_native_js.Result.{Result, ok, err, JsError}
use webgpu_native_js.Number.{Number, enforce_u64, enforce_u32}
use webgpu_native_js.Data.{
  and_then, checked, require, present, SourceAnswers, ConvertedBufferSource, convert_buffer_source,
}

-- What calling `next` answers, to the end: a call or a property that throws stops the iteration.
pub data Iteration {ℓ} (A : Type ℓ) : Type ℓ where
  stops : JsError → Iteration A
  ends : Iteration A
  yields : A → Iteration A → Iteration A

-- `iterated` is what calling the method and reading `next` answers.
unfoldable pub convert_sequence_from_method {ℓ κ} :
    {A : Type ℓ} {T : Type κ} → (A → Result T) → Iteration A → Result (List T)
unfolding and_then
convert_sequence_from_method convert (stops error) = err error
convert_sequence_from_method convert ends = ok []
convert_sequence_from_method convert (yields item rest) =
    let more = convert_sequence_from_method convert rest in
    and_then (λ t. and_then (λ ts. ok (t ∷ ts)) more) (convert item)

abbrev pub not_iterable : String → JsError
not_iterable name = JsError.type_error (String.◌++◌ name " is not iterable")

-- The answer of `sequence_iterator_method` with what its method then yields: none is not iterable.
unfoldable pub convert_sequence {ℓ κ} :
    {A : Type ℓ} {T : Type κ}
    → Result (Option (Iteration A))
    → String
    → (A → Result T)
    → Result (List T)
unfolding convert_sequence_from_method and_then
convert_sequence iterator name convert =
    and_then (convert_sequence_from_method convert)
      (and_then (present (not_iterable name)) iterator)

-- WEBIDL_U32_MAX
abbrev pub webidl_u32_max : ℕ
webidl_u32_max = 4294967295

-- An optional argument: none where it is missing or undefined
unfoldable pub optional_gpu_size_to_u64 : Option (Result Number) → String → ℕ → Result ℕ
unfolding and_then enforce_u64
optional_gpu_size_to_u64 none name default = ok default
optional_gpu_size_to_u64 (some value) name default =
    and_then (λ n. if ltb webidl_u32_max n then err (JsError.type_error name) else ok n)
      (and_then (λ n. enforce_u64 n name) value)

-- Both conversions between `usize` and `u64` succeed.
unfoldable pub optional_gpu_size_to_usize : Option (Result Number) → String → ℕ → Result ℕ
unfolding optional_gpu_size_to_u64
optional_gpu_size_to_usize value name default = optional_gpu_size_to_u64 value name default

unfoldable pub optional_u32 : Option (Result Number) → String → ℕ → Result ℕ
unfolding and_then enforce_u32
optional_u32 none name default = ok default
optional_u32 (some value) name default = and_then (λ n. enforce_u32 n name) value

-- What the engine answers about an argument of setBindGroup
pub record Value : Type 0 where
  pub is_undefined : Bool
  pub is_uint32array : Bool
  pub source : SourceAnswers
  pub number : Result Number
  pub sequence : Result (Option (Iteration (Result Number)))

abbrev pub get : List Value → ℕ → Option Value
get [] n = none
get (v ∷ vs) zero = some v
get (v ∷ vs) (suc n) = get vs n

unfoldable pub required_argument : List Value → ℕ → String → Result Value
required_argument args index name = present (JsError.type_error name) (get args index)

-- `u32::from_ne_bytes`, on a target that is little-endian or not
abbrev pub from_ne_bytes : Bool → ℕ → ℕ → ℕ → ℕ → ℕ
from_ne_bytes true a b c d = a + b * 2 ^ 8 + c * 2 ^ 16 + d * 2 ^ 24
from_ne_bytes false a b c d = d + c * 2 ^ 8 + b * 2 ^ 16 + a * 2 ^ 24

-- `chunks_exact(4)` and the word of each
abbrev pub words : Bool → List ℕ → List ℕ
words little [] = []
words little (a ∷ []) = []
words little (a ∷ b ∷ []) = []
words little (a ∷ b ∷ c ∷ []) = []
words little (a ∷ b ∷ c ∷ d ∷ rest) = from_ne_bytes little a b c d ∷ words little rest

-- `bytes.get(start..end)`
abbrev pub get_range : List ℕ → ℕ → ℕ → Option (List ℕ)
get_range bytes start end =
    if leb start end && leb end (length bytes)
    then some (take (end - start) (drop start bytes))
    else none

abbrev pub past_length : JsError
past_length =
    JsError.range_error
      "dynamicOffsetsDataStart + dynamicOffsetsDataLength exceeds dynamicOffsetsData length"

abbrev pub past_start : JsError
past_start = JsError.range_error "dynamicOffsetsDataStart exceeds dynamicOffsetsData length"

abbrev pub past_end : JsError
past_end = JsError.range_error "dynamicOffsetsDataLength exceeds dynamicOffsetsData length"

-- The window overload of `convert_dynamic_offsets`, from its converted arguments on
unfoldable pub window_offsets : Bool → ConvertedBufferSource → ℕ → ℕ → Result (List ℕ)
unfolding and_then checked require
window_offsets little source start count =
    and_then
      (λ end.
        and_then
          (λ _.
            and_then
              (λ byte_start.
                and_then
                  (λ byte_end.
                    and_then (λ bytes. ok (words little bytes))
                      (present past_length (get_range source.bytes byte_start byte_end)))
                  (and_then (λ n. checked (source.byte_offset + n) past_end)
                    (checked (end * 4) past_end)))
              (and_then (λ n. checked (source.byte_offset + n) past_start)
                (checked (start * 4) past_start)))
          (require (leb end (source.byte_length / 4)) past_length))
      (checked (start + count) past_length)

-- The arguments that say which words of the window
abbrev pub window_start : List Value → Result ℕ
window_start args =
    and_then (λ n. enforce_u64 n "dynamicOffsetsDataStart")
      (and_then (λ v. v.number) (required_argument args 3 "dynamicOffsetsDataStart"))

abbrev pub window_count : List Value → Result ℕ
window_count args =
    and_then (λ n. enforce_u32 n "dynamicOffsetsDataLength")
      (and_then (λ v. v.number) (required_argument args 4 "dynamicOffsetsDataLength"))

-- The window overload
unfoldable pub window_overload : Bool → List Value → Result (List ℕ)
unfolding window_offsets required_argument and_then require convert_buffer_source enforce_u64
    enforce_u32
window_overload little args =
    and_then
      (λ window.
        and_then
          (λ _.
            and_then
              (λ source.
                and_then
                  (λ _.
                    and_then
                      (λ start. and_then (window_offsets little source start) (window_count args))
                      (window_start args))
                  (require (source.bytes_per_element == 4 && source.byte_length % 4 == 0)
                    (JsError.type_error "dynamicOffsetsData")))
              (convert_buffer_source window.source))
          (require window.is_uint32array (JsError.type_error "dynamicOffsetsData")))
      (required_argument args 2 "dynamicOffsetsData")

-- The offsets of the sequence overload
abbrev pub offset_item : Result Number → Result ℕ
offset_item item = and_then (λ n. enforce_u32 n "dynamicOffsets") item

abbrev pub sequence_offsets : Option Value → Result (List ℕ)
sequence_offsets none = ok []
sequence_offsets (some value) =
    if value.is_undefined
    then ok []
    else convert_sequence value.sequence "dynamicOffsets" offset_item

unfoldable pub convert_dynamic_offsets : Bool → List Value → Result (List ℕ)
unfolding window_overload convert_sequence enforce_u32 and_then
convert_dynamic_offsets little args =
    if leb 4 (length args) then window_overload little args else sequence_offsets (get args 2)
