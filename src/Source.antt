-- ===== src/Source.antt =====
-- core/src/lib.rs, the positions of shader compilation messages: byte offsets and line positions
-- of UTF-8 source text are carried over to UTF-16 code units (`clamp_utf8_byte_offset`,
-- `utf16_code_units`, `wgsl_line_range`, `utf16_line_position`, `utf16_message_span`).
-- A `&str` is the list of its Unicode scalar values; `usize` is 64 bits wide and a text is shorter
-- than 2 ^ 64 bytes, so that `usize::try_from` is exact and the saturating sums of positions within
-- the text do not saturate. `none` stands for the panic of a slice that cuts a character.
pub mod Offsets
pub mod WgslLines
pub mod Lines
use webgpu_native_js.Prelude.{
  ℕ, zero, suc, ◌+◌, ◌-◌, ◌^◌, min, Bool, ◌&&◌, ◌||◌, Option, none, some, List, [], ◌∷◌, ltb, leb,
  ◌==◌, if◌then◌else◌,
}
use Prim.Native.Nat.{max}
use mathlib.Core.Option

-- char::len_utf8
unfoldable pub len_utf8 : ℕ → ℕ
len_utf8 c = if ltb c 0x80 then 1 else if ltb c 0x800 then 2 else if ltb c 0x10000 then 3 else 4

-- char::len_utf16
unfoldable pub len_utf16 : ℕ → ℕ
len_utf16 c = if ltb c 0x10000 then 1 else 2

-- str::len
unfoldable pub byte_length : List ℕ → ℕ
byte_length [] = 0
byte_length (c ∷ cs) = len_utf8 c + byte_length cs

-- str::is_char_boundary
unfoldable pub is_char_boundary : List ℕ → ℕ → Bool
is_char_boundary [] n = n == 0
is_char_boundary (c ∷ cs) n = n == 0 || (leb (len_utf8 c) n && is_char_boundary cs (n - len_utf8 c))

-- str::split_at: `none` off a character boundary
unfoldable pub split_at : List ℕ → ℕ → Option (List ℕ × List ℕ)
split_at [] n = if n == 0 then some ([], []) else none
split_at (c ∷ cs) n =
    if n == 0
    then some ([], c ∷ cs)
    else if leb (len_utf8 c) n
    then Option.map (λ parts. (c ∷ parts.0, parts.1)) (split_at cs (n - len_utf8 c))
    else none

-- &source[..end] and &source[start..end]
unfoldable pub slice : List ℕ → ℕ → ℕ → Option (List ℕ)
unfolding split_at Option.bind
slice source start end =
    if ltb end start
    then none
    else Option.bind (split_at source start)
        (λ parts. Option.map (λ inner. inner.0) (split_at parts.1 (end - start)))

-- value.encode_utf16().count()
unfoldable pub utf16_code_units : List ℕ → ℕ
utf16_code_units [] = 0
utf16_code_units (c ∷ cs) = len_utf16 c + utf16_code_units cs

-- the loop of `clamp_utf8_byte_offset`; 0 is a boundary, so `saturating_sub` meets no 0
unfoldable pub back_to_boundary : List ℕ → ℕ → ℕ
back_to_boundary source zero = zero
back_to_boundary source (suc n) =
    if is_char_boundary source (suc n) then suc n else back_to_boundary source n

unfoldable pub clamp_utf8_byte_offset : List ℕ → ℕ → ℕ
unfolding back_to_boundary
clamp_utf8_byte_offset source offset = back_to_boundary source (min offset (byte_length source))

-- u64::saturating_add
abbrev pub saturating_add : ℕ → ℕ → ℕ
saturating_add a b = min (a + b) (2 ^ 64 - 1)

unfoldable pub utf16_message_span : List ℕ → ℕ → ℕ → Option (ℕ × ℕ)
unfolding clamp_utf8_byte_offset Option.bind
utf16_message_span source offset length =
    let start = clamp_utf8_byte_offset source offset in
    let end = clamp_utf8_byte_offset source (saturating_add offset length) in
    Option.bind (slice source 0 start) λ before.
      if ltb end start
      then some (utf16_code_units before, 0)
      else Option.map (λ inside. (utf16_code_units before, utf16_code_units inside))
          (slice source start end)

-- the arms of the `match`: a character that ends a line, and `\r` before `\n`
unfoldable pub is_line_break : ℕ → Bool
is_line_break c =
    c == 0x0d || c == 0x0a || c == 0x0b || c == 0x0c || c == 0x85 || c == 0x2028 || c == 0x2029

unfoldable pub is_crlf : ℕ → ℕ → Bool
is_crlf c d = c == 0x0d && d == 0x0a

-- the loop of `wgsl_line_range` over the characters that are left; `index` is the byte position of
-- the first of them, and `size` is `source.len()`
unfoldable pub line_range_from : ℕ → ℕ → ℕ → ℕ → ℕ → List ℕ → ℕ × ℕ
line_range_from target size current start index [] = (start, size)
line_range_from target size current start index (c ∷ []) =
    if is_line_break c
    then if current == target then (start, index) else (min (index + len_utf8 c) size, size)
    else (start, size)
line_range_from target size current start index (c ∷ d ∷ cs) =
    let after_crlf =
      line_range_from target size (current + 1) (min (index + len_utf8 c + len_utf8 d) size)
        (index + len_utf8 c + len_utf8 d) cs in
    let after_break =
      line_range_from target size (current + 1) (min (index + len_utf8 c) size) (index + len_utf8 c)
        (d ∷ cs) in
    let same_line = line_range_from target size current start (index + len_utf8 c) (d ∷ cs) in
    if is_crlf c d
    then if current == target then (start, index) else after_crlf
    else if is_line_break c
    then if current == target then (start, index) else after_break
    else same_line

unfoldable pub wgsl_line_range : List ℕ → ℕ → ℕ × ℕ
unfolding line_range_from byte_length is_line_break is_crlf len_utf8
wgsl_line_range source line_num = line_range_from (max line_num 1) (byte_length source) 1 0 0 source

-- the loop of `utf16_line_position`, on fuel: `none` is a loop that has not ended
unfoldable pub back_to_start : ℕ → List ℕ → ℕ → ℕ → Option ℕ
back_to_start zero source start absolute = none
back_to_start (suc fuel) source start absolute =
    let rest = back_to_start fuel source start (max (absolute - 1) start) in
    if is_char_boundary source absolute then some absolute else rest

unfoldable pub utf16_line_position : List ℕ → ℕ → ℕ → Option ℕ
unfolding wgsl_line_range back_to_start slice utf16_code_units Option.bind
utf16_line_position source line_num line_pos =
    if line_num == 0 || line_pos == 0
    then some 0
    else let (start, end) = wgsl_line_range source line_num in
      let relative = min (line_pos - 1) (end - start) in
      let from = min (start + relative) end in
      Option.bind (back_to_start (suc from) source start from)
        λ absolute. Option.map (λ inside. utf16_code_units inside + 1) (slice source start absolute)
