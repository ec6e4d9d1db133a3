-- ===== src/Source/WgslLines.antt =====
-- core/src/lib.rs, `wgsl_line_range`: the line that it finds, against the lines of a text described
-- without byte positions.
use mathlib.Core.List.{append_assoc}
use webgpu_native_js.Prelude.{
  ℕ, zero, suc, ◌+◌, ◌≤◌, min, if_cases, ◌<◌, ◌≡◌, refl, sym, ap, ◌∙◌, subst, Bool, true, false,
  ◌&&◌, ◌||◌, List, [], ◌∷◌, ◌++◌, arith, ◌⊎◌, inl, inr, ◌==◌, leb, ==_iff, Bool-cases,
  if◌then◌else◌, All,
}
use Prim.Native.Nat.{max}
use webgpu_native_js.Source.{
  len_utf8, byte_length, is_line_break, is_crlf, line_range_from, wgsl_line_range,
}

-- The blank characters of WGSL that end a line
abbrev pub breaks_line : ℕ → Bool
breaks_line c = (leb 0x0a c && leb c 0x0d) || c == 0x85 || (leb 0x2028 c && leb c 0x2029)

breaks_line_lem : (c : ℕ) → is_line_break c ≡ breaks_line c
unfolding is_line_break
breaks_line_lem c = ground arith

-- A carriage return and the line feed after it are one break.
abbrev pub starts_with_lf : List ℕ → Bool
starts_with_lf [] = false
starts_with_lf (d ∷ ds) = d == 0x0a

-- `rest` is what is left of a text after its first lines and their breaks, `lines` many.
pub data Skip : ℕ → List ℕ → List ℕ → Type 0 where
  here : (text rest : List ℕ) → rest ≡ text → Skip zero text rest
  plain :
      (lines c : ℕ) (text rest : List ℕ)
      → breaks_line c ≡ false
      → Skip (suc lines) text rest
      → Skip (suc lines) (c ∷ text) rest
  break :
      (lines c : ℕ) (text rest : List ℕ)
      → breaks_line c ≡ true
      → (c == 0x0d && starts_with_lf text) ≡ false
      → Skip lines text rest
      → Skip (suc lines) (c ∷ text) rest
  crlf :
      (lines c d : ℕ) (text rest : List ℕ)
      → c ≡ 0x0d
      → d ≡ 0x0a
      → Skip lines text rest
      → Skip (suc lines) (c ∷ d ∷ text) rest

-- A line ends with the text or before a break.
abbrev pub Stops : List ℕ → Type 0
Stops [] = Unit
Stops (c ∷ cs) = breaks_line c ≡ true

-- `line` comes after `before` and ahead of `after`, and is the line of the text with the number
-- `number`, counted from 1, or the last one if there are fewer.
pub record IsLine (number : ℕ) (text before line after : List ℕ) : Type 0 where
  pub lines : ℕ
  pub parts : before ++ (line ++ after) ≡ text
  pub skip : Skip lines text (line ++ after)
  pub clean : All (λ c. breaks_line c ≡ false) line
  pub stops : Stops after
  pub count : (1 + lines ≡ number) ⊎ ((1 + lines < number) × (after ≡ []))

-- What the loop has found from a position on: the parts of the characters that are left, and the
-- bytes where the line begins and ends
record Found (target current start index : ℕ) (cs : List ℕ) (r : ℕ × ℕ) : Type 0 where
  lines : ℕ
  before : List ℕ
  line : List ℕ
  after : List ℕ
  parts : before ++ (line ++ after) ≡ cs
  skip : Skip lines cs (line ++ after)
  clean : All (λ c. breaks_line c ≡ false) line
  stops : Stops after
  count : (current + lines ≡ target) ⊎ ((current + lines < target) × (after ≡ []))
  none_before : lines ≡ 0 → before ≡ []
  first : r.0 ≡ (if lines == 0 then start else index + byte_length before)
  last : r.1 ≡ index + byte_length before + byte_length line

-- The line goes up to here, or to the end of the text.
line_ends-Found :
    (target current start index : ℕ) (line after : List ℕ) (end : ℕ)
    → All (λ c. breaks_line c ≡ false) line
    → Stops after
    → (current ≡ target) ⊎ ((current < target) × (after ≡ []))
    → end ≡ index + byte_length line
    → Found target current start index (line ++ after) (start, end)
unfolding byte_length
line_ends-Found target current start index line after end clean stops count ends = record {
  lines = 0;
  before = [];
  line = line;
  after = after;
  parts = refl;
  skip = Skip.here _ _ refl;
  clean = clean;
  stops = stops;
  count = elim count [ inl e ↦ inl (omega (arith, e)) | inr e ↦ inr (omega (arith, e.0), e.1) ];
  none_before = λ _. refl;
  first = refl;
  last = omega (arith, ends);
}

pub byte_length-append : (xs ys : List ℕ) → byte_length (xs ++ ys) ≡ byte_length xs + byte_length ys
unfolding byte_length
byte_length-append [] ys = omega arith
byte_length-append (c ∷ cs) ys = omega (arith, byte_length-append cs ys)

-- Past a break, the loop goes on with the next line.
past_break-Found :
    (target current start index start' next : ℕ) (pre text : List ℕ) (r : ℕ × ℕ)
    → start' ≡ next
    → next ≡ index + byte_length pre
    → ((lines : ℕ) (rest : List ℕ) → Skip lines text rest → Skip (suc lines) (pre ++ text) rest)
    → Found target (current + 1) start' next text r
    → Found target current start index (pre ++ text) r
unfolding byte_length
past_break-Found target current start index start' next pre text r same at skipper f =
    let longer = byte_length-append pre f.before in
    let begins : r.0 ≡ next + byte_length f.before = elim (Bool-cases (f.lines == 0)) [
      | inl z ↦
          let empty = ap byte_length (f.none_before ((==_iff f.lines 0).0 z)) in
          ground (arith, f.first, z, empty, same)
      | inr z ↦ ground (arith, f.first, z)
    ] in
    record {
      lines = suc f.lines;
      before = pre ++ f.before;
      line = f.line;
      after = f.after;
      parts = append_assoc pre f.before (f.line ++ f.after) ∙ ap (λ l. pre ++ l) f.parts;
      skip = skipper f.lines (f.line ++ f.after) f.skip;
      clean = f.clean;
      stops = f.stops;
      count = elim f.count [
        | inl e ↦ inl (omega (arith, e))
        | inr e ↦ inr (omega (arith, e.0), e.1)
      ];
      none_before = λ h. absurd (omega (arith, h));
      first = ground (arith, begins, at, longer);
      last = omega (arith, f.last, at, longer);
    }

-- A character that ends no line
module _ {target current start index next c : ℕ} {text : List ℕ} {r : ℕ × ℕ}
    (at : next ≡ index + len_utf8 c) (inner : breaks_line c ≡ false)
    (f : Found target current start next text r) where
  same_line : (n : ℕ) → f.lines ≡ n → Found target current start index (c ∷ text) r
  unfolding byte_length
  same_line zero e =
      let none_ = f.none_before e in
      let whole : f.line ++ f.after ≡ text =
        ap (λ b. b ++ (f.line ++ f.after)) (sym none_) ∙ f.parts in
      record {
        lines = 0;
        before = [];
        line = c ∷ f.line;
        after = f.after;
        parts = ap (λ l. c ∷ l) whole;
        skip = Skip.here _ _ (ap (λ l. c ∷ l) whole);
        clean = (inner, f.clean);
        stops = f.stops;
        count =
            subst (λ n. (current + n ≡ target) ⊎ ((current + n < target) × (f.after ≡ []))) e
              f.count;
        none_before = λ _. refl;
        first = ground (arith, f.first, e);
        last = omega (arith, f.last, at, ap byte_length none_);
      }
  same_line (suc n) e = record {
    lines = suc n;
    before = c ∷ f.before;
    line = f.line;
    after = f.after;
    parts = ap (λ l. c ∷ l) f.parts;
    skip = Skip.plain n c text _ inner (subst (λ k. Skip k text (f.line ++ f.after)) e f.skip);
    clean = f.clean;
    stops = f.stops;
    count =
        subst (λ n. (current + n ≡ target) ⊎ ((current + n < target) × (f.after ≡ []))) e f.count;
    none_before = λ h. absurd (omega (arith, h));
    first = ground (arith, f.first, e, at);
    last = omega (arith, f.last, at);
  }

ended :
    (current target : ℕ)
    → current ≤ target
    → (current ≡ target) ⊎ ((current < target) × (◌≡◌ {A = List ℕ} [] []))
ended current target le = elim (Bool-cases (current == target)) [
  | inl e ↦ inl ((==_iff current target).0 e)
  | inr e ↦ inr (ground (arith, e), refl)
]

single : (c : ℕ) → (c == 0x0d && false) ≡ false
single c = ground arith

is_crlf_lem : (c d : ℕ) → is_crlf c d ≡ true → (c ≡ 0x0d) × (d ≡ 0x0a)
unfolding is_crlf
is_crlf_lem c d h = (ground (arith, h), ground (arith, h))

not_crlf : (c d : ℕ) → is_crlf c d ≡ false → (c == 0x0d && d == 0x0a) ≡ false
unfolding is_crlf
not_crlf c d h = h

-- The loop finds the line.
line_range_from-Found :
    (target size current start index : ℕ) (cs : List ℕ)
    → current ≤ target
    → index + byte_length cs ≡ size
    → Found target current start index cs (line_range_from target size current start index cs)
unfolding line_range_from byte_length
line_range_from-Found target size current start index [] le e =
    line_ends-Found target current start index [] [] size tt tt (ended current target le)
      (omega (arith, e))
line_range_from-Found target size current start index (c ∷ []) le e =
    if_cases (Found target current start index (c ∷ [])) (is_line_break c) _ (start, size)
      (λ b.
        if_cases (Found target current start index (c ∷ [])) (current == target) (start, index) _
          (λ same.
            line_ends-Found target current start index [] (c ∷ []) index tt
              (sym (breaks_line_lem c) ∙ b) (inl ((==_iff current target).0 same)) (omega arith))
          (λ other.
            past_break-Found target current start index (min (index + len_utf8 c) size)
              (index + len_utf8 c) (c ∷ []) [] _ (omega (arith, e)) (omega arith)
              (λ lines rest s.
                Skip.break lines c [] rest (sym (breaks_line_lem c) ∙ b) (single c) s)
              (line_ends-Found target (current + 1) _ (index + len_utf8 c) [] [] size tt tt
                (ended (current + 1) target (ground (arith, le, other))) (omega (arith, e)))))
      (λ inner.
        line_ends-Found target current start index (c ∷ []) [] size
          (sym (breaks_line_lem c) ∙ inner, tt) tt (ended current target le) (omega (arith, e)))
line_range_from-Found target size current start index (c ∷ d ∷ cs) le e =
    let second = index + len_utf8 c in
    let third = index + len_utf8 c + len_utf8 d in
    let P = Found target current start index (c ∷ d ∷ cs) in
    if_cases P (is_crlf c d) _ _
      (λ both.
        if_cases P (current == target) (start, index) _
          (λ same.
            line_ends-Found target current start index [] (c ∷ d ∷ cs) index tt
              (subst (λ c. breaks_line c ≡ true) (sym (is_crlf_lem c d both).0) refl)
              (inl ((==_iff current target).0 same)) (omega arith))
          (λ other.
            past_break-Found target current start index (min third size) third (c ∷ d ∷ []) cs _
              (omega (arith, e)) (omega arith)
              (λ lines rest s.
                Skip.crlf lines c d cs rest (is_crlf_lem c d both).0 (is_crlf_lem c d both).1 s)
              (line_range_from-Found target size (current + 1) (min third size) third cs
                (ground (arith, le, other)) (omega (arith, e)))))
      (λ apart.
        if_cases P (is_line_break c) _ _
          (λ b.
            if_cases P (current == target) (start, index) _
              (λ same.
                line_ends-Found target current start index [] (c ∷ d ∷ cs) index tt
                  (sym (breaks_line_lem c) ∙ b) (inl ((==_iff current target).0 same))
                  (omega arith))
              (λ other.
                past_break-Found target current start index (min second size) second (c ∷ [])
                  (d ∷ cs) _ (omega (arith, e)) (omega arith)
                  (λ lines rest s.
                    Skip.break lines c (d ∷ cs) rest (sym (breaks_line_lem c) ∙ b)
                      (not_crlf c d apart) s)
                  (line_range_from-Found target size (current + 1) (min second size) second (d ∷ cs)
                    (ground (arith, le, other)) (omega (arith, e)))))
          (λ inner.
            same_line {next = second} refl (sym (breaks_line_lem c) ∙ inner)
              (line_range_from-Found target size current start second (d ∷ cs) le
                (omega (arith, e)))
              _ refl))

-- The range of a line is where that line stands in the text, in bytes.
pub wgsl_line_range_lem :
    (source : List ℕ) (line_num : ℕ)
    → let r = wgsl_line_range source line_num in
      (before line after : List ℕ) × IsLine (max line_num 1) source before line after
      × (r.0 ≡ byte_length before)
      × (r.1 ≡ byte_length before + byte_length line)
unfolding wgsl_line_range byte_length
wgsl_line_range_lem source line_num =
    let f =
      line_range_from-Found (max line_num 1) (byte_length source) 1 0 0 source (omega arith)
        (omega arith) in
    (
      f.before,
      f.line,
      f.after,
      record {
        lines = f.lines;
        parts = f.parts;
        skip = f.skip;
        clean = f.clean;
        stops = f.stops;
        count = f.count;
      },
      elim (Bool-cases (f.lines == 0)) [
        | inl z ↦
            let empty = ap byte_length (f.none_before ((==_iff f.lines 0).0 z)) in
            ground (arith, f.first, z, empty)
        | inr z ↦ ground (arith, f.first, z)
      ],
      omega (arith, f.last),
    )
