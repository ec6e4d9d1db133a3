-- ===== src/Tests/Text.antt =====
-- Number conversions, source positions and escapes at concrete values. The text is U+00E9, a line feed and
-- U+1F600.
use webgpu_native_js.Prelude.{
  ℕ, ◌+◌, ◌-◌, ◌^◌, ◌≤◌, ◌<◌, ◌≡◌, ◌↔◌, ◌⊎◌, false, some, List, [], ◌∷◌, ◌++◌,
}
use webgpu_native_js.Result.{ok}
use webgpu_native_js.Number.{Number, finite, enforce_u64}
use webgpu_native_js.Number.Laws.{enforce_u64_iff, Denotes}
use webgpu_native_js.CommonJs.{escape_js_string}
use webgpu_native_js.CommonJs.Literals.{Denotes as DenotesText, escape_js_string_lem}
use webgpu_native_js.Source.{byte_length, utf16_code_units, utf16_line_position}
use webgpu_native_js.Source.WgslLines.{IsLine}
use webgpu_native_js.Source.Lines.{Full, utf16_line_position_lem}

-- A quote and a line feed
abbrev quoted : List ℕ
quoted = 0x22 ∷ 0x0a ∷ []

escape_js_string_lem_example : DenotesText (escape_js_string quoted) quoted
escape_js_string_lem_example = escape_js_string_lem quoted

abbrev seven : Number
seven = finite false 7 0

abbrev whole : ℕ
whole = 7

abbrev fraction : ℕ
fraction = 5

enforce_u64_iff_example : (enforce_u64 seven "size" ≡ ok 7) ↔ (Denotes seven 7 × (7 < 2 ^ 64))
enforce_u64_iff_example = enforce_u64_iff seven "size" 7

abbrev source : List ℕ
source = 0xe9 ∷ 0x0a ∷ 0x1f600 ∷ []

abbrev line : ℕ
line = 2

abbrev position : ℕ
position = 3

utf16_line_position_lem_example :
    ((line ≡ 0) ⊎ (position ≡ 0)) × (utf16_line_position source line position ≡ some 0)
    ⊎ ((before text after inside rest : List ℕ) × IsLine line source before text after
        × (inside ++ rest ≡ text)
        × (byte_length inside ≤ position - 1)
        × Full (position - 1) inside rest
        × (utf16_line_position source line position ≡ some (utf16_code_units inside + 1)))
utf16_line_position_lem_example = utf16_line_position_lem source line position
