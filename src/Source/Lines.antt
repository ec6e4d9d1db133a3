-- ===== src/Source/Lines.antt =====
-- The line that a message is on, and its position within the line in UTF-16 code units.
use webgpu_native_js.Prelude.{
  ℕ, zero, suc, ◌+◌, ◌-◌, ◌≤◌, ◌<◌, ◌≡◌, refl, sym, ap, ◌∙◌, subst, true, false, some, List, [],
  ◌∷◌, ◌++◌, arith, ◌⊎◌, inl, inr, ◌==◌, Bool-cases, if_keeps, ==_iff, min, ◌||◌, ltb, ltb→lt,
}
use Prim.Native.Nat.{max}
use mathlib.Core.List.{append_assoc}
use mathlib.Core.Bool.{false≢true}
use webgpu_native_js.Source.{
  len_utf8, byte_length, is_char_boundary, utf16_code_units, is_line_break, is_crlf,
  line_range_from, wgsl_line_range, back_to_start, utf16_line_position,
}
use webgpu_native_js.Source.Offsets.{len_utf8-pos, boundary-zero, boundary-len, slice_lem}
use webgpu_native_js.Source.WgslLines.{IsLine, byte_length-append, wgsl_line_range_lem}

-- A position that is a boundary of the characters `cs`, which begin at byte `index`.
abbrev At : List ℕ → ℕ → ℕ → Type 0
At cs index n = (index ≤ n) × (is_char_boundary cs (n - index) ≡ true)

At-cons : (c : ℕ) (cs : List ℕ) (index n : ℕ) → At cs (index + len_utf8 c) n → At (c ∷ cs) index n
unfolding is_char_boundary
At-cons c cs index n h =
    let e : n - index - len_utf8 c ≡ n - (index + len_utf8 c) = omega arith in
    (omega arith, rw e (ground (arith, h.1)))

At-here : (cs : List ℕ) (index : ℕ) → At cs index index
At-here cs index = let e : index - index ≡ 0 = omega arith in (omega arith, rw e (boundary-zero cs))

At-end : (cs : List ℕ) (index : ℕ) → At cs index (index + byte_length cs)
At-end cs index =
    let e : index + byte_length cs - index ≡ byte_length cs = omega arith in
    (omega arith, rw e (boundary-len cs))

-- What is kept of the range: its ends satisfy `P`, are in order, and lie within the text.
abbrev Ranged : (ℕ → Type 0) → ℕ → ℕ × ℕ → Type 0
Ranged P size r = P r.0 × P r.1 × (r.0 ≤ r.1) × (r.1 ≤ size)

line_range_from-Ranged :
    (P : ℕ → Type 0) (target size current start index : ℕ) (cs : List ℕ)
    → ((n : ℕ) → At cs index n → P n)
    → P start
    → start ≤ index
    → index + byte_length cs ≡ size
    → Ranged P size (line_range_from target size current start index cs)
unfolding line_range_from byte_length
line_range_from-Ranged P target size current start index [] here ps le e =
    (ps, subst P e (here (index + 0) (At-end [] index)), omega arith, omega arith)
line_range_from-Ranged P target size current start index (c ∷ []) here ps le e =
    let ends : P size = subst P e (here (index + byte_length (c ∷ [])) (At-end (c ∷ []) index)) in
    if_keeps (Ranged P size) (is_line_break c) _ (start, size)
      (if_keeps (Ranged P size) (current == target) (start, index) _
        (ps, here index (At-here (c ∷ []) index), le, omega arith)
        (subst P (omega arith) ends, ends, omega arith, omega arith))
      (ps, ends, omega arith, omega arith)
line_range_from-Ranged P target size current start index (c ∷ d ∷ cs) here ps le e =
    let stop : Ranged P size (start, index) =
      (ps, here index (At-here (c ∷ d ∷ cs) index), le, omega arith) in
    let next =
      λ (n : ℕ) (at : At (d ∷ cs) (index + len_utf8 c) n). here n (At-cons c (d ∷ cs) index n at) in
    let second = index + len_utf8 c in
    let third = index + len_utf8 c + len_utf8 d in
    if_keeps (Ranged P size) (is_crlf c d) _ _
      (if_keeps (Ranged P size) (current == target) (start, index) _ stop
        (line_range_from-Ranged P target size (current + 1) (min third size) third cs
          (λ n at. next n (At-cons d cs second n at))
          (subst P (omega arith) (next third (At-cons d cs second third (At-here cs third))))
          (omega arith) (omega arith)))
      (if_keeps (Ranged P size) (is_line_break c) _ _
        (if_keeps (Ranged P size) (current == target) (start, index) _ stop
          (line_range_from-Ranged P target size (current + 1) (min second size) second (d ∷ cs) next
            (subst P (omega arith) (next second (At-here (d ∷ cs) second))) (omega arith)
            (omega arith)))
        (line_range_from-Ranged P target size current start second (d ∷ cs) next ps (omega arith)
          (omega arith)))

-- The range of a line is a slice of the text: its ends are character boundaries, in order.
wgsl_line_range-boundary :
    (source : List ℕ) (line_num : ℕ)
    → let r = wgsl_line_range source line_num in
      (is_char_boundary source r.0 ≡ true)
      × (is_char_boundary source r.1 ≡ true)
      × (r.0 ≤ r.1)
      × (r.1 ≤ byte_length source)
unfolding wgsl_line_range
wgsl_line_range-boundary source line_num =
    line_range_from-Ranged (λ n. is_char_boundary source n ≡ true) (max line_num 1)
      (byte_length source) 1 0 0 source
      (λ n at.
        let e : n - 0 ≡ n = omega arith in subst (λ m. is_char_boundary source m ≡ true) e at.1)
      (boundary-zero source) (omega arith) (omega arith)

apart :
    (source : List ℕ) (start absolute : ℕ)
    → is_char_boundary source start ≡ true
    → start ≤ absolute
    → is_char_boundary source absolute ≡ false
    → start < absolute
apart source start absolute hs le e = elim (Bool-cases (start == absolute)) [
  | inl p ↦
      absurd
        (false≢true (sym e ∙ ap (is_char_boundary source) (sym ((==_iff start absolute).0 p)) ∙ hs))
  | inr q ↦ ground arith
]

-- The loop that steps back ends, on the last boundary between the start and where it began.
back_to_start_lem :
    (fuel : ℕ) (source : List ℕ) (start absolute : ℕ)
    → is_char_boundary source start ≡ true
    → start ≤ absolute
    → absolute < start + fuel
    → (r : ℕ) × (back_to_start fuel source start absolute ≡ some r)
      × (is_char_boundary source r ≡ true)
      × (start ≤ r)
      × (r ≤ absolute)
      × ((n : ℕ) → r < n → n ≤ absolute → is_char_boundary source n ≡ false)
unfolding back_to_start
back_to_start_lem zero source start absolute hs le lt = absurd (omega arith)
back_to_start_lem (suc fuel) source start absolute hs le lt =
    elim (Bool-cases (is_char_boundary source absolute)) [
      | inl e ↦ (absolute, rw e, e, le, omega arith, λ n h k. absurd (omega (arith, h, k)))
      | inr e ↦
          let above : start < absolute = apart source start absolute hs le e in
          let (r, found, bound, low, high, greatest) =
            back_to_start_lem fuel source start (max (absolute - 1) start) hs (omega arith)
              (omega arith) in
          (
            r,
            rw e found,
            bound,
            low,
            omega arith,
            λ n h k. elim (Bool-cases (n == absolute)) [
              | inl same ↦ ap (is_char_boundary source) ((==_iff n absolute).0 same) ∙ e
              | inr other ↦ greatest n h (ground (arith, other, above, k))
            ],
          )
    ]

-- The end of a first part is a boundary.
boundary-prefix : (p q : List ℕ) → is_char_boundary (p ++ q) (byte_length p) ≡ true
unfolding is_char_boundary byte_length
boundary-prefix [] q = boundary-zero q
boundary-prefix (c ∷ p) q =
    let e : len_utf8 c + byte_length p - len_utf8 c ≡ byte_length p = omega arith in
    rw e (ground (arith, boundary-prefix p q))

-- Of two first parts of a text the one with fewer bytes is the first part of the other.
prefix_lem :
    (a b x y : List ℕ)
    → a ++ x ≡ b ++ y
    → byte_length a ≤ byte_length b
    → (m : List ℕ) × (a ++ m ≡ b) × (x ≡ m ++ y)
unfolding byte_length
prefix_lem [] b x y h le = (b, refl, h)
prefix_lem (c ∷ a) [] x y h le = absurd (omega (arith, le, len_utf8-pos c))
prefix_lem (c ∷ a) (d ∷ b) x y h le =
    let same : c ≡ d = ground (arith, h) in
    let more : a ++ x ≡ b ++ y = ground (arith, h) in
    let bytes = ap len_utf8 same in
    let (m, e, f) = prefix_lem a b x y more (omega (arith, le, bytes)) in
    (m, ap (λ l. c ∷ l) e ∙ ap (λ c. c ∷ b) same, f)

empty_lem : (m : List ℕ) → byte_length m ≡ 0 → m ≡ []
unfolding byte_length
empty_lem [] h = refl
empty_lem (c ∷ m) h = absurd (omega (arith, h, len_utf8-pos c))

prefix_same : (a b x y : List ℕ) → a ++ x ≡ b ++ y → byte_length a ≡ byte_length b → x ≡ y
prefix_same a b x y h same =
    let (m, e, f) = prefix_lem a b x y h (omega (arith, same)) in
    let longer = ap byte_length (sym e) ∙ byte_length-append a m in
    f ∙ ap (λ m. m ++ y) (empty_lem m (omega (arith, longer, same)))

-- No further character of the line fits into so many bytes.
abbrev pub Full : ℕ → List ℕ → List ℕ → Type 0
Full bytes inside [] = Unit
Full bytes inside (c ∷ rest) = bytes < byte_length inside + len_utf8 c

Full_lem :
    (source before inside rest after : List ℕ) (bytes from end : ℕ)
    → before ++ (inside ++ (rest ++ after)) ≡ source
    → ((n : ℕ)
        → byte_length before + byte_length inside < n
        → n ≤ from
        → is_char_boundary source n ≡ false)
    → from ≡ min (byte_length before + min bytes (end - byte_length before)) end
    → end ≡ byte_length before + byte_length (inside ++ rest)
    → Full bytes inside rest
unfolding byte_length
Full_lem source before inside [] after bytes from end whole greatest at ends = tt
Full_lem source before inside (c ∷ rest) after bytes from end whole greatest at ends =
    elim (Bool-cases (ltb bytes (byte_length inside + len_utf8 c))) [
      | inl fits ↦ ltb→lt _ _ fits
      | inr more ↦
          let part = before ++ (inside ++ (c ∷ [])) in
          let size = byte_length-append before (inside ++ (c ∷ [])) in
          let size' = byte_length-append inside (c ∷ []) in
          let line_size = byte_length-append inside (c ∷ rest) in
          let regroup : part ++ (rest ++ after) ≡ source =
            append_assoc before (inside ++ (c ∷ [])) (rest ++ after)
            ∙ ap (λ l. before ++ l) (append_assoc inside (c ∷ []) (rest ++ after))
            ∙ whole in
          let bound : is_char_boundary source (byte_length part) ≡ true =
            subst (λ l. is_char_boundary l (byte_length part) ≡ true) regroup
              (boundary-prefix part (rest ++ after)) in
          let fits : byte_length inside + len_utf8 c ≤ bytes = ground (arith, more) in
          absurd (
            false≢true (
              sym (
                greatest (byte_length part) (omega (arith, size, size', len_utf8-pos c))
                  (omega (arith, size, size', line_size, at, ends, fits)))
              ∙ bound))
    ]

-- The slice that is counted is the longest part of the line that fits.
line_part :
    (source before inside other first line after : List ℕ) (bytes start end absolute : ℕ)
    → before ++ (inside ++ other) ≡ source
    → first ++ (line ++ after) ≡ source
    → byte_length before ≡ start
    → byte_length inside ≡ absolute - start
    → start ≡ byte_length first
    → end ≡ byte_length first + byte_length line
    → start ≤ absolute
    → absolute ≤ min (start + min bytes (end - start)) end
    → ((n : ℕ)
        → absolute < n
        → n ≤ min (start + min bytes (end - start)) end
        → is_char_boundary source n ≡ false)
    → (rest : List ℕ) × (inside ++ rest ≡ line)
      × (byte_length inside ≤ bytes)
      × Full bytes inside rest
line_part source before inside other first line after bytes start end absolute whole parts size
      size' begins ends low high greatest =
    let both =
      prefix_same before first (inside ++ other) (line ++ after) (whole ∙ sym parts)
        (omega (arith, size, begins)) in
    let (rest, all, left) =
      prefix_lem inside line other after both (omega (arith, size', begins, ends, high)) in
    (
      rest,
      all,
      omega (arith, size', high),
      Full_lem source before inside rest after bytes (min (start + min bytes (end - start)) end) end
          (ap (λ l. before ++ (inside ++ l)) (sym left) ∙ whole)
          (λ n h k. greatest n (omega (arith, h, size, size', low)) k)
          (ap (λ b. min (b + min bytes (end - b)) end) (sym size))
          (omega (arith, ends, begins, size, ap byte_length all)),
    )

-- The position of a message in its line is defined for every text and every reported position (no
-- slice cuts a character and the loop ends within its fuel). It is 0 if the line or the position is
-- reported as 0. Otherwise it is 1 more than the number of UTF-16 code units of `inside`: that is
-- what the reported line of the text (or its last line, if it has fewer) has before the reported
-- byte, up to the last character that ends there at the latest.
pub utf16_line_position_lem :
    (source : List ℕ) (line_num line_pos : ℕ)
    → ((line_num ≡ 0) ⊎ (line_pos ≡ 0)) × (utf16_line_position source line_num line_pos ≡ some 0)
      ⊎ ((before line after inside rest : List ℕ) × IsLine line_num source before line after
          × (inside ++ rest ≡ line)
          × (byte_length inside ≤ line_pos - 1)
          × Full (line_pos - 1) inside rest
          × (utf16_line_position source line_num line_pos ≡ some (utf16_code_units inside + 1)))
unfolding utf16_line_position
utf16_line_position_lem source line_num line_pos =
    elim (Bool-cases (line_num == 0 || line_pos == 0)) [
      | inl z ↦ inl (ground arith, rw z)
      | inr z ↦
          let (start_bound, end_bound, ordered, inside_text) =
            wgsl_line_range-boundary source line_num in
          let (first, line, after, is_line, begins, ends) = wgsl_line_range_lem source line_num in
          let start = (wgsl_line_range source line_num).0 in
          let end = (wgsl_line_range source line_num).1 in
          let from = min (start + min (line_pos - 1) (end - start)) end in
          let (absolute, found, bound, low, high, greatest) =
            back_to_start_lem (suc from) source start from start_bound (omega arith)
              (omega arith) in
          let (before, inside, other, e, whole, size, size') =
            slice_lem source start absolute start_bound bound low in
          let (rest, all, short, full) =
            line_part source before inside other first line after (line_pos - 1) start end absolute
              whole is_line.parts size size' begins ends low high greatest in
          let number : max line_num 1 ≡ line_num = ground (arith, z) in
          inr (
            first,
            line,
            after,
            inside,
            rest,
            subst (λ n. IsLine n source first line after) number is_line,
            all,
            short,
            full,
            rw (z, found, e),
          )
    ]
