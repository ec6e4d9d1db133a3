-- ===== src/CommonJs/Literals.antt =====
-- core/src/commonjs.rs: an escaped text, between double quotes, is a string literal of JavaScript
-- with that text as its value.
use webgpu_native_js.Prelude.{
  ℕ, ◌+◌, ◌-◌, ◌*◌, ◌/◌, ◌%◌, ◌≤◌, ◌<◌, ◌≡◌, refl, sym, subst, Bool, true, not, ◌&&◌, ◌||◌, Option,
  none, some, List, [], ◌∷◌, ◌++◌, arith, leb, ◌==◌, if◌then◌else◌, ==_iff, if_cases, tests, All,
  All-append,
}
use webgpu_native_js.CommonJs.{hex, escape_char, escape_js_string}

-- The value of a hexadecimal digit
abbrev pub hex_value : ℕ → Option ℕ
hex_value c =
    if leb 0x30 c && leb c 0x39
    then some (c - 0x30)
    else if leb 0x41 c && leb c 0x46
    then some (c - 0x37)
    else if leb 0x61 c && leb c 0x66
    then some (c - 0x57)
    else none

-- What may stand for itself in a double-quoted literal
abbrev pub is_plain : ℕ → Bool
is_plain c = not (c == 0x5c || c == 0x22 || c == 0x0a || c == 0x0d || c == 0x2028 || c == 0x2029)

-- The escapes of one character: `\\`, `\"`, `\n` and `\r`
abbrev pub single_escape : ℕ → Option ℕ
single_escape c =
    if c == 0x5c || c == 0x22
    then some c
    else if c == 0x6e
    then some 0x0a
    else if c == 0x72
    then some 0x0d
    else none

-- The contents of a double-quoted literal of ECMAScript, and its value
pub data Denotes : List ℕ → List ℕ → Type 0 where
  end : Denotes [] []
  plain : (c : ℕ) (cs vs : List ℕ) → is_plain c ≡ true → Denotes cs vs → Denotes (c ∷ cs) (c ∷ vs)
  single :
      (e v : ℕ) (cs vs : List ℕ)
      → single_escape e ≡ some v
      → Denotes cs vs
      → Denotes (0x5c ∷ e ∷ cs) (v ∷ vs)
  unicode :
      (a b c d x y z w : ℕ) (cs vs : List ℕ)
      → hex_value a ≡ some x
      → hex_value b ≡ some y
      → hex_value c ≡ some z
      → hex_value d ≡ some w
      → Denotes cs vs
      → Denotes (0x5c ∷ 0x75 ∷ a ∷ b ∷ c ∷ d ∷ cs) ((x * 4096 + y * 256 + z * 16 + w) ∷ vs)

hex_value-hex : (digit : ℕ) → digit < 16 → hex_value (hex digit) ≡ some digit
hex_value-hex digit h = ground (arith, h)

Denotes-value :
    (cs : List ℕ) (v u : ℕ) (vs : List ℕ) → v ≡ u → Denotes cs (v ∷ vs) → Denotes cs (u ∷ vs)
Denotes-value cs v u vs e d = subst (λ n. Denotes cs (n ∷ vs)) e d

-- One character
escape_char-Denotes :
    (c : ℕ) (cs vs : List ℕ) → Denotes cs vs → Denotes (escape_char c ++ cs) (c ∷ vs)
unfolding escape_char
escape_char-Denotes c cs vs d =
    let P = λ (out : List ℕ). Denotes (out ++ cs) (c ∷ vs) in
    if_cases P (c == 0x5c) _ _
      (λ h. Denotes-value _ 0x5c c vs (sym ((==_iff c 0x5c).0 h)) (single 0x5c 0x5c cs vs refl d))
      (λ h₁.
        if_cases P (c == 0x22) _ _
          (λ h.
            Denotes-value _ 0x22 c vs (sym ((==_iff c 0x22).0 h)) (single 0x22 0x22 cs vs refl d))
          (λ h₂.
            if_cases P (c == 0x0a) _ _
              (λ h.
                Denotes-value _ 0x0a c vs (sym ((==_iff c 0x0a).0 h))
                  (single 0x6e 0x0a cs vs refl d))
              (λ h₃.
                if_cases P (c == 0x0d) _ _
                  (λ h.
                    Denotes-value _ 0x0d c vs (sym ((==_iff c 0x0d).0 h))
                      (single 0x72 0x0d cs vs refl d))
                  (λ h₄.
                    if_cases P (c == 0x2028) _ _
                      (λ h.
                        Denotes-value _ _ c vs (sym ((==_iff c 0x2028).0 h))
                          (unicode 0x32 0x30 0x32 0x38 2 0 2 8 cs vs refl refl refl refl d))
                      (λ h₅.
                        if_cases P (c == 0x2029) _ _
                          (λ h.
                            Denotes-value _ _ c vs (sym ((==_iff c 0x2029).0 h))
                              (unicode 0x32 0x30 0x32 0x39 2 0 2 9 cs vs refl refl refl refl d))
                          (λ h₆.
                            if_cases P (leb c 0x1f) _ _
                              (λ h. Denotes-value _ _ c vs (omega (tests, h)) (
                                unicode 0x30 0x30 _ _ 0 0 (c / 16 % 16) (c % 16) cs vs refl refl
                                  (hex_value-hex (c / 16 % 16) (omega arith))
                                  (hex_value-hex (c % 16) (omega arith)) d))
                              (λ h. plain c cs vs (ground (arith, h₁, h₂, h₃, h₄, h₅, h₆)) d)))))))

-- The escaped form of any text, between double quotes, is a JavaScript string literal whose value
-- is the text: it has no raw quote, backslash or line terminator, and its escapes decode to the
-- characters of the text in order.
pub escape_js_string_lem : (s : List ℕ) → Denotes (escape_js_string s) s
unfolding escape_js_string
escape_js_string_lem [] = end
escape_js_string_lem (c ∷ cs) =
    escape_char-Denotes c (escape_js_string cs) cs (escape_js_string_lem cs)

escape_char_visible : (c : ℕ) → All (λ x. 0x20 ≤ x) (escape_char c)
unfolding escape_char
escape_char_visible c = ground arith

-- An escaped text has no control character below U+0020.
pub escape_js_string_visible : (s : List ℕ) → All (λ x. 0x20 ≤ x) (escape_js_string s)
unfolding escape_js_string
escape_js_string_visible [] = tt
escape_js_string_visible (c ∷ cs) =
    All-append _ (escape_js_string cs) (escape_js_string_visible cs) (escape_char c)
      (escape_char_visible c)
