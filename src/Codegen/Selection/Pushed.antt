-- ===== src/Codegen/Selection/Pushed.antt =====
-- codegen/src/dispatch.rs: what `push_symbol` leaves, for a list of symbols.
use webgpu_native_js.Prelude.{
  some_injective, ◌≡◌, refl, sym, ap, ◌∙◌, subst, ◌≢◌, inl, inr, true, false, ◌||◌, Option, some,
  List, [], ◌∷◌, ◌++◌, map, arith, Bool-cases, Option-cases, if_cases, All, All-append,
}
use webgpu_native_js.Codegen.{Name, is_name, is_name_iff}
use webgpu_native_js.Codegen.Dispatch.{
  CodegenError, Generated, done, failed, next, DispatchEntry, get,
}
use webgpu_native_js.Codegen.Selection.{contains, Selected, push_entry, push_symbol, push_all}

-- A chain that is done has a first step that is.
pub next_done {ℓ κ} :
    {A : Type ℓ} {B : Type κ} (f : A → Generated B) (r : Generated A) (b : B)
    → next f r ≡ done b
    → (a : A) × (r ≡ done a) × (f a ≡ done b)
next_done f (done a) b h = (a, refl, h)
next_done f (failed error) b h = ground (arith, h)

abbrev pub symbols : List DispatchEntry → List Name
symbols entries = map (λ (e : DispatchEntry). e.symbol) entries

-- No name stands twice.
abbrev pub Apart : List Name → Type 0
Apart [] = Unit
Apart (n ∷ ns) = (contains n ns ≡ false) × Apart ns

contains-append :
    (n : Name) (xs : List Name) (x : Name)
    → contains n (xs ++ (x ∷ [])) ≡ (contains n xs || is_name n x)
contains-append n [] x = ground arith
contains-append n (y ∷ ys) x = let ih = contains-append n ys x in ground (arith, ih)

symbols-append :
    (es : List DispatchEntry) (e : DispatchEntry)
    → symbols (es ++ (e ∷ [])) ≡ symbols es ++ (e.symbol ∷ [])
symbols-append [] e = refl
symbols-append (x ∷ es) e = ap (λ rest. x.symbol ∷ rest) (symbols-append es e)

is_name_sym : (a b : Name) → is_name a b ≡ is_name b a
is_name_sym [] [] = refl
is_name_sym [] (d ∷ ds) = refl
is_name_sym (c ∷ cs) [] = refl
is_name_sym (c ∷ cs) (d ∷ ds) = let ih = is_name_sym cs ds in ground (arith, ih)

Apart-append :
    (ns : List Name) (n : Name) → Apart ns → contains n ns ≡ false → Apart (ns ++ (n ∷ []))
Apart-append [] n apart new = (refl, tt)
Apart-append (m ∷ ns) n apart new =
    let other = contains-append m ns n in
    let turned = is_name_sym m n in
    (other ∙ (ground (arith, apart, new, turned)), Apart-append ns n apart.1 (ground (arith, new)))

get-symbol :
    (registry : List DispatchEntry) (n : Name) (e : DispatchEntry)
    → get registry n ≡ some e
    → e.symbol ≡ n
get-symbol [] n e h = ground (arith, h)
get-symbol (x ∷ es) n e h =
    if_cases (λ (o : Option DispatchEntry). o ≡ some e → e.symbol ≡ n) (is_name n x.symbol) (some x)
      (get es n)
      (λ same found.
        sym (ap (λ (x : DispatchEntry). x.symbol) (some_injective found))
        ∙ sym ((is_name_iff n x.symbol).0 same))
      (λ _ found. get-symbol es n e found) h

-- The entries have different symbols, each is what the registry has for its symbol, and the symbols
-- seen are theirs.
abbrev pub Sound : List DispatchEntry → Selected → Type 0
Sound registry s =
    All (λ e. get registry e.symbol ≡ some e) s.0
    × Apart (symbols s.0)
    × ((n : Name) → contains n s.1 ≡ contains n (symbols s.0))

-- What pushing the names adds to the symbols
abbrev pub Adds : List Name → Selected → Selected → Type 0
Adds names s s' =
    (n : Name) → contains n (symbols s'.0) ≡ (contains n (symbols s.0) || contains n names)

push_new :
    (registry : List DispatchEntry) (e : DispatchEntry) (s : Selected)
    → Sound registry s
    → get registry e.symbol ≡ some e
    → contains e.symbol s.1 ≡ false
    → let s' : Selected = (s.0 ++ (e ∷ []), e.symbol ∷ s.1) in
      Sound registry s' × Adds (e.symbol ∷ []) s s'
push_new registry e s sound found new =
    let grown : (n : Name)
        → contains n (symbols (s.0 ++ (e ∷ [])))
          ≡ (contains n (symbols s.0) || is_name n e.symbol) =
      λ n. ap (contains n) (symbols-append s.0 e) ∙ contains-append n (symbols s.0) e.symbol in
    (
      (
        All-append (λ e. get registry e.symbol ≡ some e) (e ∷ []) (found, tt) s.0 sound.0,
        subst Apart (sym (symbols-append s.0 e))
            (Apart-append (symbols s.0) e.symbol sound.1 (sym (sound.2 e.symbol) ∙ new)),
        λ n. let g = grown n in let seen = sound.2 n in ground (arith, g, seen),
      ),
      λ n. let g = grown n in ground (arith, g),
    )

push_old :
    (registry : List DispatchEntry) (name : Name) (s : Selected)
    → Sound registry s
    → contains name s.1 ≡ true
    → Adds (name ∷ []) s s
push_old registry name s sound old n = elim (Bool-cases (is_name n name)) [
  | inl same ↦
      let here : contains n (symbols s.0) ≡ true =
        ap (λ n. contains n (symbols s.0)) ((is_name_iff n name).0 same)
        ∙ sym (sound.2 name)
        ∙ old in
      ground (arith, same, here)
  | inr other ↦ ground (arith, other)
]

pub failed≢done {ℓ} : {A : Type ℓ} {error : CodegenError} {a : A} → failed error ≢ done a
failed≢done h = ground (arith, h)

pub done_injective {ℓ} : {A : Type ℓ} {a b : A} → done a ≡ done b → a ≡ b
done_injective h = ground (arith, h)

push_found-Sound :
    (registry : List DispatchEntry) (name : Name) (s s' : Selected) (e : DispatchEntry)
    → Sound registry s
    → get registry name ≡ some e
    → push_entry name s (some e) ≡ done s'
    → Sound registry s' × Adds (name ∷ []) s s'
push_found-Sound registry name s s' e sound found h =
    let same = get-symbol registry name e found in
    subst (λ (x : Selected). Sound registry x × Adds (name ∷ []) s x) (done_injective h)
      (if_cases (λ (x : Selected). Sound registry x × Adds (name ∷ []) s x) (contains name s.1) _ _
        (λ old. (sound, push_old registry name s sound old))
        (λ new.
          subst
            (λ n.
              Sound registry (s.0 ++ (e ∷ []), n ∷ s.1)
              × Adds (n ∷ []) s (s.0 ++ (e ∷ []), n ∷ s.1))
            same
            (push_new registry e s sound (ap (get registry) same ∙ found)
              (ap (λ n. contains n s.1) same ∙ new))))

push_symbol-Sound :
    (registry : List DispatchEntry) (name : Name) (s s' : Selected)
    → Sound registry s
    → push_symbol registry name s ≡ done s'
    → Sound registry s' × Adds (name ∷ []) s s'
unfolding push_symbol
push_symbol-Sound registry name s s' sound h = elim (Option-cases (get registry name)) [
  | inl none_found ↦ absurd (failed≢done (sym (ap (push_entry name s) none_found) ∙ h))
  | inr (e, found) ↦
      push_found-Sound registry name s s' e sound found (sym (ap (push_entry name s) found) ∙ h)
]

pub push_all-Sound :
    (registry : List DispatchEntry) (names : List Name) (s s' : Selected)
    → Sound registry s
    → push_all registry names s ≡ done s'
    → Sound registry s' × Adds names s s'
push_all-Sound registry [] s s' sound h =
    subst (λ (x : Selected). Sound registry x × Adds [] s x) (done_injective h)
      (sound, λ n. ground arith)
push_all-Sound registry (name ∷ names) s s' sound h =
    let (s₁, pushed, rest) = next_done _ _ s' h in
    let (sound₁, adds₁) = push_symbol-Sound registry name s s₁ sound pushed in
    let (sound', adds) = push_all-Sound registry names s₁ s' sound₁ rest in
    (sound', λ n. let one = adds₁ n in let more = adds n in ground (arith, one, more))
