-- ===== src/CommonJs.antt =====
-- core/src/commonjs.rs: `escape_js_string`, which puts the names of modules into the script that
-- `build_bootstrap` makes. A text is the list of its Unicode scalar values.
pub mod Literals
use webgpu_native_js.Prelude.{ℕ, ◌+◌, ◌/◌, ◌%◌, List, [], ◌∷◌, ◌++◌, ltb, leb, ◌==◌, if◌then◌else◌}

-- HEX[digit], for a digit below 16
abbrev pub hex : ℕ → ℕ
hex digit = if ltb digit 10 then 0x30 + digit else 0x37 + digit

-- The body of the loop, for one character
unfoldable pub escape_char : ℕ → List ℕ
escape_char c =
    if c == 0x5c
    then 0x5c ∷ 0x5c ∷ []
    else if c == 0x22
    then 0x5c ∷ 0x22 ∷ []
    else if c == 0x0a
    then 0x5c ∷ 0x6e ∷ []
    else if c == 0x0d
    then 0x5c ∷ 0x72 ∷ []
    else if c == 0x2028
    then 0x5c ∷ 0x75 ∷ 0x32 ∷ 0x30 ∷ 0x32 ∷ 0x38 ∷ []
    else if c == 0x2029
    then 0x5c ∷ 0x75 ∷ 0x32 ∷ 0x30 ∷ 0x32 ∷ 0x39 ∷ []
    else if leb c 0x1f
    then 0x5c ∷ 0x75 ∷ 0x30 ∷ 0x30 ∷ hex (c / 16 % 16) ∷ hex (c % 16) ∷ []
    else c ∷ []

unfoldable pub escape_js_string : List ℕ → List ℕ
unfolding escape_char
escape_js_string [] = []
escape_js_string (c ∷ cs) = escape_char c ++ escape_js_string cs
