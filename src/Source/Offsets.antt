-- ===== src/Source/Offsets.antt =====
-- The clamped byte offset, and the span of a message in UTF-16 code units.
use webgpu_native_js.Prelude.{
  ℕ, zero, suc, ◌+◌, ◌-◌, ◌≤◌, ◌<◌, ◌^◌, min, ◌≡◌, refl, ap, true, false, some, List, [], ◌∷◌, ◌++◌,
  arith, inl, inr, leb, ltb, ◌==◌, Bool-cases, ==_iff, sym, ◌∙◌, subst,
}
use mathlib.Core.Bool.{false≢true}
use mathlib.Core.Option
use webgpu_native_js.Source.{
  len_utf8, byte_length, is_char_boundary, split_at, slice, back_to_boundary,
  clamp_utf8_byte_offset, utf16_code_units, utf16_message_span,
}

pub len_utf8-pos : (c : ℕ) → 1 ≤ len_utf8 c
unfolding len_utf8
len_utf8-pos c = ground arith

pub boundary-zero : (source : List ℕ) → is_char_boundary source 0 ≡ true
unfolding is_char_boundary
boundary-zero [] = refl
boundary-zero (c ∷ cs) = refl

pub boundary-len : (source : List ℕ) → is_char_boundary source (byte_length source) ≡ true
unfolding is_char_boundary byte_length
boundary-len [] = refl
boundary-len (c ∷ cs) =
    let e : len_utf8 c + byte_length cs - len_utf8 c ≡ byte_length cs = omega arith in
    rw e (ground (arith, boundary-len cs))

back-boundary :
    (source : List ℕ) (n : ℕ) → is_char_boundary source (back_to_boundary source n) ≡ true
unfolding back_to_boundary
back-boundary source zero = boundary-zero source
back-boundary source (suc n) = ground (arith, back-boundary source n)

back-le : (source : List ℕ) (n : ℕ) → back_to_boundary source n ≤ n
unfolding back_to_boundary
back-le source zero = omega arith
back-le source (suc n) = ground (arith, back-le source n)

back-greatest :
    (source : List ℕ) (n b : ℕ)
    → is_char_boundary source b ≡ true
    → b ≤ n
    → b ≤ back_to_boundary source n
unfolding back_to_boundary
back-greatest source zero b h l = l
back-greatest source (suc n) b h l = elim (Bool-cases (is_char_boundary source (suc n))) [
  | inl e ↦ rw e l
  | inr e ↦ rw e (back-greatest source n b h (below e))
]
  where
    below : is_char_boundary source (suc n) ≡ false → b ≤ n
    below e = elim (Bool-cases (b == suc n)) [
      | inl p ↦
          absurd
            (false≢true (sym e ∙ ap (is_char_boundary source) (sym ((==_iff b (suc n)).0 p)) ∙ h))
      | inr q ↦ ground arith
    ]

pub clamp_lem :
    (source : List ℕ) (offset : ℕ)
    → let r = clamp_utf8_byte_offset source offset in
      (is_char_boundary source r ≡ true)
      × (r ≤ offset)
      × (r ≤ byte_length source)
      × ((b : ℕ) → is_char_boundary source b ≡ true → b ≤ offset → b ≤ byte_length source → b ≤ r)
unfolding clamp_utf8_byte_offset
clamp_lem source offset =
    let m = min offset (byte_length source) in
    (
      back-boundary source m,
      omega (arith, back-le source m),
      omega (arith, back-le source m),
      λ b h l k. back-greatest source m b h (omega arith),
    )

-- The clamped offset is a character boundary that is at most the offset and within the text, and
-- no boundary with these properties is greater.
pub clamp_greatest :
    (source : List ℕ) (offset b : ℕ)
    → is_char_boundary source b ≡ true
    → b ≤ offset
    → b ≤ byte_length source
    → let r = clamp_utf8_byte_offset source offset in
      (is_char_boundary source r ≡ true) × (r ≤ offset) × (r ≤ byte_length source) × (b ≤ r)
clamp_greatest source offset b h l k =
    let (bound, low, inside, greatest) = clamp_lem source offset in
    (bound, low, inside, greatest b h l k)

pub clamp_mono :
    (source : List ℕ) (a b : ℕ)
    → a ≤ b
    → clamp_utf8_byte_offset source a ≤ clamp_utf8_byte_offset source b
clamp_mono source a b h =
    let (bound, low, inside, _) = clamp_lem source a in
    (clamp_lem source b).3 (clamp_utf8_byte_offset source a) bound (omega arith) inside

boundary-step :
    (c : ℕ) (cs : List ℕ) (n : ℕ)
    → is_char_boundary (c ∷ cs) n ≡ true
    → (n == 0) ≡ false
    → (leb (len_utf8 c) n ≡ true) × (is_char_boundary cs (n - len_utf8 c) ≡ true)
unfolding is_char_boundary
boundary-step c cs n h z = ground arith

-- A text splits at every boundary.
pub split_at-boundary :
    (source : List ℕ) (n : ℕ)
    → is_char_boundary source n ≡ true
    → (before after : List ℕ) × (split_at source n ≡ some (before, after))
      × (before ++ after ≡ source)
      × (byte_length before ≡ n)
unfolding split_at is_char_boundary byte_length
split_at-boundary [] n h = ([], [], ground arith, refl, ground arith)
split_at-boundary (c ∷ cs) n h = elim (Bool-cases (n == 0)) [
  | inl z ↦ ([], c ∷ cs, rw z, refl, ground arith)
  | inr z ↦
      let (fits, rest) = boundary-step c cs n h z in
      let (before, after, e, whole, size) = split_at-boundary cs (n - len_utf8 c) rest in
      (c ∷ before, after, rw (z, fits, e), ap (◌∷◌ c) whole, ground arith)
]

step-add :
    (c : ℕ) (cs : List ℕ) (a k : ℕ)
    → is_char_boundary (c ∷ cs) (a + k) ≡ true
    → (a == 0) ≡ false
    → leb (len_utf8 c) a ≡ true
    → is_char_boundary cs (a - len_utf8 c + k) ≡ true
unfolding is_char_boundary
step-add c cs a k h z fits =
    let e : a + k - len_utf8 c ≡ a - len_utf8 c + k = ground arith in
    subst (λ n. is_char_boundary cs n ≡ true) e (boundary-step c cs (a + k) h (ground arith)).1

-- Between two boundaries lies a slice.
pub slice-boundary :
    (source : List ℕ) (a k : ℕ)
    → is_char_boundary source a ≡ true
    → is_char_boundary source (a + k) ≡ true
    → (before inside after : List ℕ) × (split_at source a ≡ some (before, inside ++ after))
      × (split_at (inside ++ after) k ≡ some (inside, after))
      × (before ++ (inside ++ after) ≡ source)
      × (byte_length before ≡ a)
      × (byte_length inside ≡ k)
unfolding split_at byte_length is_char_boundary
slice-boundary [] a k ha hb =
    ([], [], [], ground arith, ground arith, refl, ground arith, ground arith)
slice-boundary (c ∷ cs) a k ha hb = elim (Bool-cases (a == 0)) [
  | inl z ↦
      let zero_a = (==_iff a 0).0 z in
      let (inside, after, e, whole, size) =
        split_at-boundary (c ∷ cs) k
          (subst (λ n. is_char_boundary (c ∷ cs) n ≡ true) (omega arith) hb) in
      (
        [],
        inside,
        after,
        rw z (ap (λ l. some ([], l)) (sym whole)),
        rw whole e,
        whole,
        sym zero_a,
        size,
      )
  | inr z ↦
      let (fits, rest) = boundary-step c cs a ha z in
      let (before, inside, after, e, e', whole, size, size') =
        slice-boundary cs (a - len_utf8 c) k rest (step-add c cs a k hb z fits) in
      (c ∷ before, inside, after, rw (z, fits, e), e', ap (◌∷◌ c) whole, ground arith, size')
]

-- A slice whose ends are boundaries, in order, does not panic.
pub slice_lem :
    (source : List ℕ) (a b : ℕ)
    → is_char_boundary source a ≡ true
    → is_char_boundary source b ≡ true
    → a ≤ b
    → (before inside after : List ℕ) × (slice source a b ≡ some inside)
      × (before ++ (inside ++ after) ≡ source)
      × (byte_length before ≡ a)
      × (byte_length inside ≡ b - a)
unfolding slice
slice_lem source a b ha hb l =
    let e : a + (b - a) ≡ b = omega arith in
    let (before, inside, after, first, second, whole, size, size') =
      slice-boundary source a (b - a) ha
        (subst (λ n. is_char_boundary source n ≡ true) (sym e) hb) in
    let in_order : ltb b a ≡ false = ground arith in
    (before, inside, after, rw (in_order, first, second), whole, size, size')

utf16-append :
    (xs ys : List ℕ) → utf16_code_units (xs ++ ys) ≡ utf16_code_units xs + utf16_code_units ys
unfolding utf16_code_units
utf16-append [] ys = omega arith
utf16-append (c ∷ cs) ys = omega (arith, utf16-append cs ys)

split_at-zero : (source : List ℕ) → split_at source 0 ≡ some ([], source)
unfolding split_at
split_at-zero [] = refl
split_at-zero (c ∷ cs) = refl

-- A span between two clamped positions in order.
span_parts :
    (source : List ℕ) (start end : ℕ)
    → is_char_boundary source start ≡ true
    → is_char_boundary source end ≡ true
    → start ≤ end
    → (before inside after : List ℕ) × (slice source 0 start ≡ some before)
      × (slice source start end ≡ some inside)
      × (before ++ (inside ++ after) ≡ source)
      × (byte_length before ≡ start)
      × (byte_length before + byte_length inside ≡ end)
unfolding slice Option.bind
span_parts source start end hs he l =
    let e : start + (end - start) ≡ end = omega arith in
    let (before, inside, after, first, second, whole, size, size') =
      slice-boundary source start (end - start) hs
        (subst (λ n. is_char_boundary source n ≡ true) (sym e) he) in
    let in_order : ltb end start ≡ false = ground arith in
    let in_order' : ltb start 0 ≡ false = ground arith in
    let from_zero : start - 0 ≡ start = omega arith in
    (
      before,
      inside,
      after,
      rw (in_order', split_at-zero source, from_zero, first),
      rw (in_order, first, second),
      whole,
      size,
      omega arith,
    )

-- The span of a message never cuts a character. The text is `before ++ inside ++ after`, where
-- `before` ends at the clamped offset and `inside` at the clamped end of the message, and the span
-- is the UTF-16 length of `before` and of `inside`.
pub utf16_message_span_lem :
    (source : List ℕ) (offset length : ℕ)
    → offset < 2 ^ 64
    → (before inside after : List ℕ) × (utf16_message_span source offset length
        ≡ some (utf16_code_units before, utf16_code_units inside))
      × (before ++ (inside ++ after) ≡ source)
      × (byte_length before ≡ clamp_utf8_byte_offset source offset)
      × (byte_length before + byte_length inside
          ≡ clamp_utf8_byte_offset source (min (offset + length) (2 ^ 64 - 1)))
unfolding utf16_message_span
utf16_message_span_lem source offset length small =
    let start = clamp_utf8_byte_offset source offset in
    let end = clamp_utf8_byte_offset source (min (offset + length) (2 ^ 64 - 1)) in
    let ordered = clamp_mono source offset (min (offset + length) (2 ^ 64 - 1)) (omega arith) in
    let (before, inside, after, first, second, whole, size, size') =
      span_parts source start end (clamp_lem source offset).0
        (clamp_lem source (min (offset + length) (2 ^ 64 - 1))).0 ordered in
    let in_order : ltb end start ≡ false = ground arith in
    (before, inside, after, rw (in_order, first, second), whole, size, size')
