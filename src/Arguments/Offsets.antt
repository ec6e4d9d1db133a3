-- ===== src/Arguments/Offsets.antt =====
-- core/src/lib.rs: the dynamic offsets are 32-bit words, and those of a window lie in it.
use webgpu_native_js.Prelude.{
  ℕ, ◌+◌, ◌/◌, ◌%◌, ◌^◌, ◌≤◌, ◌<◌, String, ◌≡◌, sym, ap, ◌∙◌, subst, ◌⊎◌, inl, inr, Bool, ◌&&◌,
  Option, none, some, List, arith, leb, ◌==◌, if_cases, length, All,
}
use webgpu_native_js.Result.{ok, JsError}
use webgpu_native_js.Data.{
  and_then, checked, require, ConvertedBufferSource, SourceAnswers, array_buffer, view,
  convert_buffer_source, checked_view,
}
use webgpu_native_js.Data.Bounds.{convert_buffer_source-InBytes, and_then-ok}
use webgpu_native_js.Data.Holds.{Holds, Holds-weaken, Holds-self, Holds-step}
use webgpu_native_js.Arguments.{
  Value, get, required_argument, words, window_offsets, window_overload, window_start, window_count,
  sequence_offsets, convert_dynamic_offsets,
}
use webgpu_native_js.Arguments.Words.{IsWord, IsByte, sequence_offsets-IsWord, words-IsWord}
use webgpu_native_js.Arguments.Windows.{
  window_bytes, window_offsets_lem, All-get, window_bytes-IsByte, length-window_words,
}

-- The copy of the bytes that the engine makes
abbrev pub copy_of : SourceAnswers → Option (List ℕ)
copy_of (array_buffer copy) = copy
copy_of (view v) = v.copy

checked_view-copy :
    (backing_length byte_offset byte_length element_size : ℕ) (copy : Option (List ℕ))
    (source : ConvertedBufferSource)
    → checked_view backing_length byte_offset byte_length element_size copy ≡ ok source
    → copy ≡ some source.bytes
unfolding checked_view checked require and_then
checked_view-copy backing_length byte_offset byte_length element_size copy source h =
    ground (arith, h)

array_buffer-copy :
    (copy : Option (List ℕ)) (source : ConvertedBufferSource)
    → convert_buffer_source (array_buffer copy) ≡ ok source
    → copy ≡ some source.bytes
unfolding convert_buffer_source and_then
array_buffer-copy copy source h = ground (arith, h)

convert_buffer_source-copy :
    (answers : SourceAnswers) (source : ConvertedBufferSource)
    → convert_buffer_source answers ≡ ok source
    → copy_of answers ≡ some source.bytes
unfolding convert_buffer_source
convert_buffer_source-copy (array_buffer copy) source h = array_buffer-copy copy source h
convert_buffer_source-copy (view v) source h =
    let (backing_length, _, h₁) = and_then-ok _ _ source h in
    let (byte_offset, _, h₂) = and_then-ok _ _ source h₁ in
    let (byte_length, _, h₃) = and_then-ok _ _ source h₂ in
    let (element_size, _, h₄) = and_then-ok _ _ source h₃ in
    checked_view-copy backing_length byte_offset byte_length element_size v.copy source h₄

-- A copy is a vector of bytes, whose length is a `usize`.
abbrev pub IsCopy : Option (List ℕ) → Type 0
IsCopy none = Unit
IsCopy (some bytes) = All IsByte bytes × (length bytes < 2 ^ 64)

-- The offsets are the words of the view that the arguments after it select, and these are in it.
abbrev pub Windowed : Bool → List Value → List ℕ → Type 0
Windowed little args offsets =
    (v : Value) × (source : ConvertedBufferSource) × (start count : ℕ) × (get args 2 ≡ some v)
    × (convert_buffer_source v.source ≡ ok source)
    × (window_start args ≡ ok start)
    × (window_count args ≡ ok count)
    × (offsets ≡ words little (window_bytes source start count))
    × (length offsets ≡ count)
    × (start + count ≤ source.byte_length / 4)

required_argument-get :
    (args : List Value) (index : ℕ) (name : String) (v : Value)
    → required_argument args index name ≡ ok v
    → get args index ≡ some v
unfolding required_argument
required_argument-get args index name v h = ground (arith, h)

-- What the last step of the window overload answers, at what the steps before it answered
window_offsets-Windowed :
    (little : Bool) (args : List Value) (v : Value) (source : ConvertedBufferSource)
    (start count : ℕ)
    → All (λ v. IsCopy (copy_of v.source)) args
    → required_argument args 2 "dynamicOffsetsData" ≡ ok v
    → convert_buffer_source v.source ≡ ok source
    → window_start args ≡ ok start
    → window_count args ≡ ok count
    → Holds
        (λ offsets. All IsWord offsets × Windowed little args offsets)
        (window_offsets little source start count)
window_offsets-Windowed little args v source start count copies e converted from many =
    let passed = required_argument-get args 2 "dynamicOffsetsData" v e in
    let copied : IsCopy (some source.bytes) =
      subst IsCopy (convert_buffer_source-copy v.source source converted)
        (All-get (λ v. IsCopy (copy_of v.source)) args 2 v copies passed) in
    let within = convert_buffer_source-InBytes v.source source converted in
    Holds-weaken _ _ (window_offsets little source start count)
      (Holds-self (window_offsets little source start count))
      (λ offsets h.
        let (same, inside) =
          window_offsets_lem little source start count offsets (within, copied.1) h in
        (
          subst (All IsWord) (sym same)
              (words-IsWord little _ (window_bytes-IsByte source start count copied.0)),
          (
            v,
            source,
            start,
            count,
            passed,
            converted,
            from,
            many,
            same,
            ap length same ∙ length-window_words little source start count within inside,
            inside,
          ),
        ))

window_overload-Windowed :
    (little : Bool) (args : List Value)
    → All (λ v. IsCopy (copy_of v.source)) args
    → Holds
        (λ offsets. All IsWord offsets × Windowed little args offsets)
        (window_overload little args)
unfolding window_overload
window_overload-Windowed little args copies =
    let Goal : List ℕ → Type 0 = λ offsets. All IsWord offsets × Windowed little args offsets in
    Holds-step Goal _ (required_argument args 2 "dynamicOffsetsData") (λ v e.
      Holds-step Goal _ (require v.is_uint32array (JsError.type_error "dynamicOffsetsData")) (λ _ _.
        Holds-step Goal _ (convert_buffer_source v.source) (λ source converted.
          Holds-step Goal _
            (require (source.bytes_per_element == 4 && source.byte_length % 4 == 0)
              (JsError.type_error "dynamicOffsetsData"))
            (λ _ _. Holds-step Goal _ (window_start args) (λ start from.
              Holds-step Goal _ (window_count args) (λ count many.
                window_offsets-Windowed little args v source start count copies e converted from
                  many))))))

-- Whatever script passes as dynamic offsets, if the bytes that the engine copies are bytes of a
-- vector: the offsets are 32-bit words; and those of the Uint32Array overload, of four arguments or
-- more, are the words from the given start on, as many as asked for, all within the view.
pub convert_dynamic_offsets_bounds :
    (little : Bool) (args : List Value)
    → All (λ v. IsCopy (copy_of v.source)) args
    → Holds
        (λ offsets. All IsWord offsets × (Windowed little args offsets ⊎ (length args < 4)))
        (convert_dynamic_offsets little args)
unfolding convert_dynamic_offsets
convert_dynamic_offsets_bounds little args copies =
    if_cases
      (Holds (λ offsets. All IsWord offsets × (Windowed little args offsets ⊎ (length args < 4))))
      (leb 4 (length args)) _ _
      (λ _.
        Holds-weaken _ _ (window_overload little args) (window_overload-Windowed little args copies)
          (λ offsets h. (h.0, inl h.1)))
      (λ few.
        Holds-weaken _ _ (sequence_offsets (get args 2)) (sequence_offsets-IsWord (get args 2))
          (λ offsets h. (h, inr (ground (arith, few)))))
