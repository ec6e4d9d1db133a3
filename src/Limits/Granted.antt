-- ===== src/Limits/Granted.antt =====
-- core/src/lib.rs: which limits `requestDevice` asks for.
use mathlib.Core.Bool.{true≢false}
use text.Mathlib.Text
use webgpu_native_js.Prelude.{
  ℕ, ◌≤◌, ◌<◌, String, ◌≡◌, refl, sym, ap, ◌∙◌, ◌↔◌, true, false, Option, none, some, List, [], ◌∷◌,
  arith, leb, if◌then◌else◌, if_cases, All,
}
use webgpu_native_js.Result.{Result, ok, err}
use webgpu_native_js.Data.{and_then}
use webgpu_native_js.Data.Holds.{Holds, and_then-Holds, Holds-weaken, is_ok, Holds_const}
use webgpu_native_js.Limits.{
  Limit, limit_name, direction, unsupported, RequiredLimitDirection, maximum, minimum_alignment,
  is_u64, limit_u32_undefined, initial_limits, limit_arms, find_limit, is_better,
  validate_required_limit, required_limit_u32, stored, set_field, set_limit, convert_from,
  convert_required_limits,
}
use webgpu_native_js.Limits.Names.{find_limit-name, find_limit_name, same_place}

-- A requested value is no better than the supported one.
abbrev pub Supports : RequiredLimitDirection → ℕ → ℕ → Type 0
Supports maximum requested supported = requested ≤ supported
Supports minimum_alignment requested supported = supported ≤ requested

-- It can be asked for, and is not the mark of an undefined limit.
abbrev pub Acceptable : Limit → ℕ → ℕ → Type 0
Acceptable l supported requested =
    Supports (direction l) requested supported
    × (is_u64 l ≡ false → requested < limit_u32_undefined)

-- A request names a limit, and its value is acceptable.
abbrev pub Accepted : (Limit → ℕ) → String × ℕ → Type 0
Accepted supported r = (l : Limit) × (r.0 ≡ limit_name l) × Acceptable l (supported l) r.1

-- `limits'` is `limits` with what the request asks for.
abbrev Sets : (Limit → ℕ) → (Limit → ℕ) → String × ℕ → (Limit → ℕ) → Type 0
Sets supported limits r limits' =
    Accepted supported r
    × ((l : Limit) → limits' l ≡ (if Text.◌==◌ r.0 (limit_name l) then r.1 else limits l))

supports : (d : RequiredLimitDirection) (n s : ℕ) → is_better d n s ≡ false → Supports d n s
supports maximum n s h = ground (arith, h)
supports minimum_alignment n s h = ground (arith, h)

validate-Holds :
    (name : String) (n s : ℕ) (d : RequiredLimitDirection)
    → Holds (λ _. Supports d n s) (validate_required_limit name n s d)
unfolding validate_required_limit
validate-Holds name n s d =
    if_cases (Holds (λ _. Supports d n s)) (is_better d n s) _ _ (λ _. tt) (supports d n s)

stored-Holds :
    (name : String) (n : ℕ) (l : Limit)
    → Holds (λ m. (m ≡ n) × (is_u64 l ≡ false → n < limit_u32_undefined)) (stored name n l)
unfolding required_limit_u32
stored-Holds name n l =
    let P = Holds (λ m. (m ≡ n) × (is_u64 l ≡ false → n < limit_u32_undefined)) in
    if_cases P (is_u64 l) _ _ (λ wide. (refl, λ narrow. absurd (true≢false (sym wide ∙ narrow))))
      (λ _.
        if_cases P (leb limit_u32_undefined n) _ _ (λ _. tt)
          (λ small. (refl, λ _. ground (arith, small))))

set_limit-Holds :
    (supported limits : Limit → ℕ) (r : String × ℕ) (o : Option Limit)
    → find_limit r.0 limit_arms ≡ o
    → Holds (Sets supported limits r) (set_limit supported limits r.0 r.1 o)
set_limit-Holds supported limits r none e = tt
set_limit-Holds supported limits r (some l₀) e =
    let named = find_limit-name r.0 limit_arms l₀ e in
    and_then-Holds (λ _. Supports (direction l₀) r.1 (supported l₀)) _ _ _
      (validate-Holds r.0 r.1 (supported l₀) (direction l₀))
      (λ _ s.
        and_then-Holds (λ m. (m ≡ r.1) × (is_u64 l₀ ≡ false → r.1 < limit_u32_undefined)) _ _ _
          (stored-Holds r.0 r.1 l₀)
          (λ m h. (
            (l₀, named, (s, h.1)),
            λ l.
                ap (λ b. if b then m else limits l)
                  (same_place l₀ l ∙ ap (λ name. Text.◌==◌ name (limit_name l)) (sym named))
                ∙ ap (λ k. if Text.◌==◌ r.0 (limit_name l) then k else limits l) h.0,
          )))

-- What the requests leave of a limit: the last one for it counts.
abbrev pub chosen : Limit → List (String × ℕ) → ℕ → ℕ
chosen l [] n = n
chosen l (r ∷ rest) n = chosen l rest (if Text.◌==◌ r.0 (limit_name l) then r.1 else n)

pub convert_from-Holds :
    (supported : Limit → ℕ) (requested : List (String × ℕ)) (limits : Limit → ℕ)
    → Holds
        (λ out.
          All (Accepted supported) requested
          × ((l : Limit) → out l ≡ chosen l requested (limits l)))
        (convert_from supported requested limits)
unfolding convert_from
convert_from-Holds supported [] limits = (tt, λ l. refl)
convert_from-Holds supported (r ∷ rest) limits =
    and_then-Holds (Sets supported limits r) _ _ _
      (set_limit-Holds supported limits r (find_limit r.0 limit_arms) refl)
      (λ limits' set.
        Holds-weaken _ _ (convert_from supported rest limits')
          (convert_from-Holds supported rest limits')
          (λ out h. ((set.0, h.0), λ l. h.1 l ∙ ap (chosen l rest) (set.1 l))))

not_better : (d : RequiredLimitDirection) (n s : ℕ) → Supports d n s → is_better d n s ≡ false
not_better maximum n s h = ground (arith, h)
not_better minimum_alignment n s h = ground (arith, h)

stored-ok :
    (name : String) (n : ℕ) (l : Limit)
    → (is_u64 l ≡ false → n < limit_u32_undefined)
    → stored name n l ≡ ok n
unfolding required_limit_u32
stored-ok name n l h =
    if_cases (λ (r : Result ℕ). r ≡ ok n) (is_u64 l) _ _ (λ _. refl)
      (λ narrow. let small = h narrow in ground (arith, small))

set_some-ok :
    (supported limits : Limit → ℕ) (name : String) (n : ℕ) (l : Limit)
    → Acceptable l (supported l) n
    → set_limit supported limits name n (some l) ≡ ok (set_field l n limits)
unfolding and_then validate_required_limit
set_some-ok supported limits name n l h =
    let kept : Unit {0} → Result (Limit → ℕ) =
      λ _. and_then (λ m. ok (set_field l m limits)) (stored name n l) in
    ap (λ b. and_then kept (if b then err (unsupported name) else ok tt))
      (not_better (direction l) n (supported l) h.0)
    ∙ ap (and_then (λ m. ok (set_field l m limits))) (stored-ok name n l h.1)

-- An acceptable request is set.
set_limit-ok :
    (supported limits : Limit → ℕ) (r : String × ℕ)
    → Accepted supported r
    → (limits' : Limit → ℕ) × (set_limit supported limits r.0 r.1 (find_limit r.0 limit_arms)
        ≡ ok limits')
set_limit-ok supported limits r (l, named, h) = (
  set_field l r.1 limits,
  ap (set_limit supported limits r.0 r.1)
        (ap (λ name. find_limit name limit_arms) named ∙ find_limit_name l)
      ∙ set_some-ok supported limits r.0 r.1 l h,
)

pub convert_from-ok :
    (supported : Limit → ℕ) (requested : List (String × ℕ)) (limits : Limit → ℕ)
    → All (Accepted supported) requested
    → is_ok (convert_from supported requested limits) ≡ true
unfolding convert_from and_then
convert_from-ok supported [] limits h = refl
convert_from-ok supported (r ∷ rest) limits h =
    let set = set_limit-ok supported limits r h.0 in
    ap (λ x. is_ok (and_then (convert_from supported rest) x)) set.1
    ∙ convert_from-ok supported rest set.0 h.1

-- `convert_required_limits` succeeds exactly if every request names a limit and asks for no more than
-- the adapter supports (for the two alignments, for no less) and, for a 32-bit limit, not for the
-- mark of an undefined one; and then each limit has the last value asked for, and is undefined if
-- none was.
pub convert_required_limits_lem :
    (requested : List (String × ℕ)) (supported : Limit → ℕ)
    → ((is_ok (convert_required_limits requested supported) ≡ true)
        ↔ All (Accepted supported) requested)
      × Holds
          (λ out. (l : Limit) → out l ≡ chosen l requested (initial_limits l))
          (convert_required_limits requested supported)
unfolding convert_required_limits
convert_required_limits_lem requested supported =
    let r = convert_from supported requested initial_limits in
    let h = convert_from-Holds supported requested initial_limits in
    (
      (
        λ good.
            Holds_const (All (Accepted supported) requested) r good
              (Holds-weaken _ _ r h (λ out p. p.0)),
        convert_from-ok supported requested initial_limits,
      ),
      Holds-weaken _ _ r h (λ out p. p.1),
    )
