-- ===== src/Codegen.antt =====
-- codegen/src/lib.rs: the names that the binding generator makes. A text is the list of its Unicode
-- scalar values; `chars` reads a literal.
pub mod Dispatch
pub mod Policy
pub mod Selection
use Prim.Native.Char.{code}
use Prim.Native.String.{[], ◌∷◌}
use webgpu_native_js.Prelude.{
  ℕ, ◌+◌, ◌-◌, String, ◌≡◌, refl, ◌↔◌, Bool, true, false, not, ◌&&◌, ◌||◌, Option, none, some, List,
  [], ◌∷◌, ◌++◌, arith, leb, ◌==◌, if◌then◌else◌,
}

abbrev pub Name : Type 0
Name = List ℕ

abbrev pub chars : String → Name
chars String.[] = []
chars (String.◌∷◌ c s) = code c ∷ chars s

-- Equality of names
abbrev pub is_name : Name → Name → Bool
is_name [] [] = true
is_name [] (d ∷ ds) = false
is_name (c ∷ cs) [] = false
is_name (c ∷ cs) (d ∷ ds) = c == d && is_name cs ds

pub is_name_iff : (a b : Name) → (is_name a b ≡ true) ↔ (a ≡ b)
is_name_iff [] [] = (λ _. refl, λ _. refl)
is_name_iff [] (d ∷ ds) = ground arith
is_name_iff (c ∷ cs) [] = ground arith
is_name_iff (c ∷ cs) (d ∷ ds) = let ih = is_name_iff cs ds in ground (arith, ih)

-- `strip_prefix`
abbrev pub strip_prefix : Name → Name → Option Name
strip_prefix [] cs = some cs
strip_prefix (p ∷ ps) [] = none
strip_prefix (p ∷ ps) (c ∷ cs) = let rest = strip_prefix ps cs in if p == c then rest else none

abbrev pub unwrap_or {ℓ} : {A : Type ℓ} → A → Option A → A
unwrap_or a none = a
unwrap_or a (some b) = b

abbrev pub is_ascii_uppercase : ℕ → Bool
is_ascii_uppercase c = leb 0x41 c && leb c 0x5a

abbrev pub is_ascii_lowercase : ℕ → Bool
is_ascii_lowercase c = leb 0x61 c && leb c 0x7a

abbrev pub to_ascii_uppercase : ℕ → ℕ
to_ascii_uppercase c = if is_ascii_lowercase c then c - 0x20 else c

abbrev pub to_ascii_lowercase : ℕ → ℕ
to_ascii_lowercase c = if is_ascii_uppercase c then c + 0x20 else c

abbrev pub is_lowercase : Option ℕ → Bool
is_lowercase none = false
is_lowercase (some c) = is_ascii_lowercase c

abbrev pub is_some {ℓ} : {A : Type ℓ} → Option A → Bool
is_some none = false
is_some (some a) = true

abbrev pub first : Name → Option ℕ
first [] = none
first (c ∷ cs) = some c

-- What the loop of `snake_case` pushes for a character, from the one before, if there is one, whether
-- the output ends with an underscore, and the one after
abbrev pub snake_char : Option ℕ → Bool → Option ℕ → ℕ → Name
snake_char previous ends after c =
    if c == 0x2d || c == 0x20
    then 0x5f ∷ []
    else if is_ascii_uppercase c
    then if is_some previous && not ends && (is_lowercase previous || is_lowercase after)
      then 0x5f ∷ to_ascii_lowercase c ∷ []
      else to_ascii_lowercase c ∷ []
    else c ∷ []

-- Whether the output then ends with one
abbrev pub ends_after : ℕ → Bool
ends_after c = c == 0x2d || c == 0x20 || c == 0x5f

unfoldable pub snake_from : Option ℕ → Bool → Name → Name
snake_from previous ends [] = []
snake_from previous ends (c ∷ cs) =
    snake_char previous ends (first cs) c ++ snake_from (some c) (ends_after c) cs

unfoldable pub snake_case : Name → Name
unfolding snake_from
snake_case value = snake_from none false value

-- `split('_')`: the first part and the others
abbrev pub split : Name → Name × List Name
split [] = ([], [])
split (c ∷ cs) =
    let parts : Name × List Name = split cs in
    if c == 0x5f then ([], parts.0 ∷ parts.1) else (c ∷ parts.0, parts.1)

-- A part with its first character in upper case; an empty one vanishes, as the filter wants.
abbrev pub capitalized : Name → Name
capitalized [] = []
capitalized (c ∷ cs) = to_ascii_uppercase c ∷ cs

abbrev pub joined : List Name → Name
joined [] = []
joined (part ∷ parts) = capitalized part ++ joined parts

unfoldable pub pascal_case : Name → Name
pascal_case value = let parts = split value in joined (parts.0 ∷ parts.1)

unfoldable pub c_type_name : Name → Name
unfolding pascal_case
c_type_name yaml_name = chars "WGPU" ++ pascal_case yaml_name

unfoldable pub c_function_name : Name → Name → Name
unfolding pascal_case
c_function_name object method = chars "wgpu" ++ pascal_case object ++ pascal_case method
