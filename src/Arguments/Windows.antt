-- ===== src/Arguments/Windows.antt =====
-- core/src/lib.rs: the window of a Uint32Array that the dynamic offsets are read from.
use webgpu_native_js.Prelude.{
  some_injective, ℕ, zero, suc, ◌+◌, ◌-◌, ◌*◌, ◌/◌, ◌^◌, ◌≤◌, ◌<◌, ◌≡◌, sym, ap, ◌∙◌, subst, inl,
  inr, Bool, some, List, [], ◌∷◌, arith, leb, Bool-cases, length, take, drop, All,
}
use webgpu_native_js.Result.{ok, err}
use webgpu_native_js.Data.{and_then, checked, require, ConvertedBufferSource}
use webgpu_native_js.Data.Bounds.{InBytes, length-byte_slice}
use webgpu_native_js.Arguments.{Value, get, words, get_range, past_length, window_offsets}
use webgpu_native_js.Arguments.Words.{
  ok_injective, ok≢err, IsByte, length-words, All-take, All-drop,
}

pub get_range_lem :
    (bytes : List ℕ) (start count end : ℕ)
    → end ≡ start + count
    → end ≤ length bytes
    → get_range bytes start end ≡ some (take count (drop start bytes))
get_range_lem bytes start count end e h =
    let cut : get_range bytes start end ≡ some (take (end - start) (drop start bytes)) =
      ground (arith, e, h) in
    let size : end - start ≡ count = omega (arith, e) in
    cut ∙ ap (λ n. some (take n (drop start bytes))) size

-- The bytes of `count` words, `start` words into the view
abbrev pub window_bytes : ConvertedBufferSource → ℕ → ℕ → List ℕ
window_bytes source start count =
    take (count * 4) (drop (source.byte_offset + start * 4) source.bytes)

-- The view is of a vector, whose length is a `usize`.
abbrev pub InVector : ConvertedBufferSource → Type 0
InVector source = InBytes source × (length source.bytes < 2 ^ 64)

-- What fits in the view is answered: of the errors after that check none is raised.
pub window_fits :
    (little : Bool) (source : ConvertedBufferSource) (start count : ℕ)
    → InVector source
    → start + count ≤ source.byte_length / 4
    → window_offsets little source start count ≡ ok (words little (window_bytes source start count))
unfolding window_offsets checked require and_then
window_fits little source start count (within, vector) h =
    let cut =
      get_range_lem source.bytes (source.byte_offset + start * 4) (count * 4)
        (source.byte_offset + (start + count) * 4) (omega arith) (omega (arith, h, within)) in
    ground (arith, h, within, vector, cut)

pub window_past :
    (little : Bool) (source : ConvertedBufferSource) (start count : ℕ)
    → source.byte_length / 4 < start + count
    → window_offsets little source start count ≡ err past_length
unfolding window_offsets checked require and_then
window_past little source start count h = ground (arith, h)

pub window_offsets_lem :
    (little : Bool) (source : ConvertedBufferSource) (start count : ℕ) (offsets : List ℕ)
    → InVector source
    → window_offsets little source start count ≡ ok offsets
    → (offsets ≡ words little (window_bytes source start count))
      × (start + count ≤ source.byte_length / 4)
window_offsets_lem little source start count offsets v h =
    elim (Bool-cases (leb (start + count) (source.byte_length / 4))) [
      | inl fits ↦
          let inside : start + count ≤ source.byte_length / 4 = ground (arith, fits) in
          let done = window_fits little source start count v inside in
          (ok_injective (sym h ∙ done), inside)
      | inr past ↦
          let refused = window_past little source start count (ground (arith, past)) in
          absurd (ok≢err (sym h ∙ refused))
    ]

pub All-get {ℓ} :
    (P : Value → Type ℓ) (args : List Value) (n : ℕ) (v : Value)
    → All P args
    → get args n ≡ some v
    → P v
All-get P [] n v h e = ground (arith, e)
All-get P (a ∷ args) zero v h e = subst P (some_injective e) h.0
All-get P (a ∷ args) (suc n) v h e = All-get P args n v h.1 e

pub window_bytes-IsByte :
    (source : ConvertedBufferSource) (start count : ℕ)
    → All IsByte source.bytes
    → All IsByte (window_bytes source start count)
window_bytes-IsByte source start count h =
    All-take IsByte (count * 4) _ (All-drop IsByte (source.byte_offset + start * 4) source.bytes h)

pub length-window_words :
    (little : Bool) (source : ConvertedBufferSource) (start count : ℕ)
    → InBytes source
    → start + count ≤ source.byte_length / 4
    → length (words little (window_bytes source start count)) ≡ count
length-window_words little source start count within h =
    length-words little count (window_bytes source start count) (
      length-byte_slice source.bytes (source.byte_offset + start * 4) (count * 4)
        (omega (arith, within, h)))
