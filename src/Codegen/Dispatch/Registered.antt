-- ===== src/Codegen/Dispatch/Registered.antt =====
-- codegen/src/dispatch.rs: what `dispatch_registry` registers.
use webgpu_native_js.Prelude.{
  String, ◌≡◌, refl, sym, ap, ◌∙◌, ◌≢◌, ◌⊎◌, inl, inr, Bool, true, false, Option, none, some, List,
  [], ◌∷◌, ◌++◌, map, arith, if◌then◌else◌, Option-cases, if_cases, All,
}
use webgpu_native_js.Codegen.{Name, is_name, is_name_iff}
use webgpu_native_js.Codegen.Dispatch.{
  duplicate_symbol, Generated, done, failed, next, DispatchEntry, YamlFunction, YamlStruct,
  YamlObject, YamlRoot, function_entry, unary_entry, get, inserted, insert_entry, add_functions,
  free_symbol, add_structs, counting_symbol, add_counting, add_objects, dispatch_registry,
}

-- What webgpu.yml declares, in its order: the functions, a function that frees the members of a
-- structure that has one, and of each object the methods, AddRef and Release.
abbrev pub free_members : List YamlStruct → List DispatchEntry
free_members [] = []
free_members (s ∷ ss) =
    (if s.free_members then unary_entry s.name (free_symbol s.name) ∷ [] else []) ++ free_members ss

abbrev pub counting : Name → String → DispatchEntry
counting name suffix = unary_entry name (counting_symbol name suffix)

abbrev pub object_entries : List YamlObject → List DispatchEntry
object_entries [] = []
object_entries (o ∷ os) =
    (map (function_entry (some o.name)) o.methods
      ++ map (counting o.name) ("AddRef" ∷ "Release" ∷ []))
    ++ object_entries os

abbrev pub declared : YamlRoot → List DispatchEntry
declared yaml =
    (map (function_entry none) yaml.functions ++ free_members yaml.structs)
    ++ object_entries yaml.objects

abbrev insert_all : List DispatchEntry → List DispatchEntry → Generated (List DispatchEntry)
insert_all [] entries = done entries
insert_all (e ∷ es) entries = next (insert_all es) (insert_entry entries e)

-- Chains that go on alike, and a chain of two steps
next_same {ℓ κ} :
    {A : Type ℓ} {B : Type κ} (f g : A → Generated B) (r : Generated A)
    → ((a : A) → f a ≡ g a)
    → next f r ≡ next g r
next_same f g (done a) h = h a
next_same f g (failed error) h = refl

next-next {ℓ} :
    {A : Type ℓ} (f g : A → Generated A) (r : Generated A)
    → next (λ a. next g (f a)) r ≡ next g (next f r)
next-next f g (done a) = refl
next-next f g (failed error) = refl

insert_all-append :
    (xs ys entries : List DispatchEntry)
    → insert_all (xs ++ ys) entries ≡ next (insert_all ys) (insert_all xs entries)
insert_all-append [] ys entries = refl
insert_all-append (a ∷ xs) ys entries =
    next_same _ _ (insert_entry entries a) (insert_all-append xs ys)
    ∙ next-next (insert_all xs) (insert_all ys) (insert_entry entries a)

add_functions-insert_all :
    (object : Option Name) (fs : List YamlFunction) (entries : List DispatchEntry)
    → add_functions object fs entries ≡ insert_all (map (function_entry object) fs) entries
add_functions-insert_all object [] entries = refl
add_functions-insert_all object (f ∷ fs) entries =
    next_same _ _ (insert_entry entries (function_entry object f))
      (add_functions-insert_all object fs)

add_counting-insert_all :
    (name : Name) (suffixes : List String) (entries : List DispatchEntry)
    → add_counting name suffixes entries ≡ insert_all (map (counting name) suffixes) entries
add_counting-insert_all name [] entries = refl
add_counting-insert_all name (suffix ∷ suffixes) entries =
    next_same _ _ (insert_entry entries (counting name suffix))
      (add_counting-insert_all name suffixes)

-- Two steps that insert lists insert both.
both_inserted :
    (step then_step : List DispatchEntry → Generated (List DispatchEntry))
    (xs ys entries : List DispatchEntry)
    → step entries ≡ insert_all xs entries
    → ((more : List DispatchEntry) → then_step more ≡ insert_all ys more)
    → next then_step (step entries) ≡ insert_all (xs ++ ys) entries
both_inserted step then_step xs ys entries h k =
    ap (next then_step) h
    ∙ next_same then_step (insert_all ys) (insert_all xs entries) k
    ∙ sym (insert_all-append xs ys entries)

next_done : {A : Type 0} (r : Generated A) → r ≡ next done r
next_done (done a) = refl
next_done (failed error) = refl

add_struct-insert_all :
    (b : Bool) (entries : List DispatchEntry) (e : DispatchEntry)
    → (if b then insert_entry entries e else done entries)
      ≡ insert_all (if b then e ∷ [] else []) entries
add_struct-insert_all true entries e = next_done (insert_entry entries e)
add_struct-insert_all false entries e = refl

add_structs-insert_all :
    (ss : List YamlStruct) (entries : List DispatchEntry)
    → add_structs ss entries ≡ insert_all (free_members ss) entries
add_structs-insert_all [] entries = refl
add_structs-insert_all (s ∷ ss) entries =
    both_inserted
      (λ es.
        if s.free_members
        then insert_entry es (unary_entry s.name (free_symbol s.name))
        else done es)
      (add_structs ss) (if s.free_members then unary_entry s.name (free_symbol s.name) ∷ [] else [])
      (free_members ss) entries
      (add_struct-insert_all s.free_members entries (unary_entry s.name (free_symbol s.name)))
      (add_structs-insert_all ss)

add_objects-insert_all :
    (os : List YamlObject) (entries : List DispatchEntry)
    → add_objects os entries ≡ insert_all (object_entries os) entries
add_objects-insert_all [] entries = refl
add_objects-insert_all (o ∷ os) entries =
    both_inserted
      (λ es.
        next (add_counting o.name ("AddRef" ∷ "Release" ∷ []))
          (add_functions (some o.name) o.methods es))
      (add_objects os)
      (map (function_entry (some o.name)) o.methods
        ++ map (counting o.name) ("AddRef" ∷ "Release" ∷ []))
      _ entries
      (both_inserted (add_functions (some o.name) o.methods)
        (add_counting o.name ("AddRef" ∷ "Release" ∷ []))
        (map (function_entry (some o.name)) o.methods)
        (map (counting o.name) ("AddRef" ∷ "Release" ∷ [])) entries
        (add_functions-insert_all (some o.name) o.methods entries)
        (add_counting-insert_all o.name ("AddRef" ∷ "Release" ∷ [])))
      (add_objects-insert_all os)

dispatch_registry-insert_all :
    (yaml : YamlRoot) → dispatch_registry yaml ≡ insert_all (declared yaml) []
unfolding dispatch_registry
dispatch_registry-insert_all yaml =
    both_inserted (λ es. next (add_structs yaml.structs) (add_functions none yaml.functions es))
      (add_objects yaml.objects)
      (map (function_entry none) yaml.functions ++ free_members yaml.structs)
      (object_entries yaml.objects) []
      (both_inserted (add_functions none yaml.functions) (add_structs yaml.structs)
        (map (function_entry none) yaml.functions) (free_members yaml.structs) []
        (add_functions-insert_all none yaml.functions []) (add_structs-insert_all yaml.structs))
      (add_objects-insert_all yaml.objects)

-- No symbol is declared that was declared before.
abbrev pub Fresh : List DispatchEntry → List DispatchEntry → Type 0
Fresh entries [] = Unit
Fresh entries (e ∷ es) = (get entries e.symbol ≡ none) × Fresh (e ∷ entries) es

abbrev pub pushed : List DispatchEntry → List DispatchEntry → List DispatchEntry
pushed entries [] = entries
pushed entries (e ∷ es) = pushed (e ∷ entries) es

abbrev Outcome : List DispatchEntry → List DispatchEntry → Type 0
Outcome es entries =
    (Fresh entries es × (insert_all es entries ≡ done (pushed entries es)))
    ⊎ ((symbol : Name) × (insert_all es entries ≡ failed (duplicate_symbol symbol))
        × ¬ Fresh entries es)

none≢some : {e : DispatchEntry} → none ≢ some e
none≢some h = ground (arith, h)

insert_all_lem : (es entries : List DispatchEntry) → Outcome es entries
unfolding insert_entry
insert_all_lem [] entries = inl (tt, refl)
insert_all_lem (e ∷ es) entries =
    elim (Option-cases (get entries e.symbol)) as (λ _. Outcome (e ∷ es) entries) [
      | inl free ↦
          let new : insert_entry entries e ≡ done (e ∷ entries) = ap (inserted entries e) free in
          elim (insert_all_lem es (e ∷ entries)) as (λ _. Outcome (e ∷ es) entries) [
            | inl rest ↦ inl ((free, rest.0), ap (next (insert_all es)) new ∙ rest.1)
            | inr (symbol, bad, stale) ↦
                inr (symbol, ap (next (insert_all es)) new ∙ bad, λ fresh. stale fresh.1)
          ]
      | inr (old, taken) ↦ inr (
        e.symbol,
        ap (λ o. next (insert_all es) (inserted entries e o)) taken,
        λ fresh. absurd (none≢some (sym fresh.0 ∙ taken)),
      )
    ]

get_same : (entries : List DispatchEntry) (e : DispatchEntry) → get (e ∷ entries) e.symbol ≡ some e
get_same entries e = rw ((is_name_iff e.symbol e.symbol).1 refl) refl

get_other :
    (entries : List DispatchEntry) (new e : DispatchEntry)
    → get entries new.symbol ≡ none
    → get entries e.symbol ≡ some e
    → get (new ∷ entries) e.symbol ≡ some e
get_other entries new e free found =
    if_cases (λ (o : Option DispatchEntry). o ≡ some e) (is_name e.symbol new.symbol) _ _
      (λ same. absurd (
        none≢some
          (sym free ∙ ap (get entries) (sym ((is_name_iff e.symbol new.symbol).0 same)) ∙ found)))
      (λ _. found)

found_kept :
    (es entries : List DispatchEntry) (e : DispatchEntry)
    → Fresh entries es
    → get entries e.symbol ≡ some e
    → get (pushed entries es) e.symbol ≡ some e
found_kept [] entries e fresh found = found
found_kept (new ∷ es) entries e fresh found =
    found_kept es (new ∷ entries) e fresh.1 (get_other entries new e fresh.0 found)

All-found :
    (es entries : List DispatchEntry)
    → Fresh entries es
    → All (λ e. get (pushed entries es) e.symbol ≡ some e) es
All-found [] entries fresh = tt
All-found (e ∷ es) entries fresh =
    (found_kept es (e ∷ entries) e fresh.1 (get_same entries e), All-found es (e ∷ entries) fresh.1)

-- Either no C symbol is declared twice, and the registry has the declared entries, each found by its
-- symbol; or one is, and the registry is refused with an error that names a symbol.
pub dispatch_registry_lem :
    (yaml : YamlRoot)
    → ((registry : List DispatchEntry) × (dispatch_registry yaml ≡ done registry)
        × Fresh [] (declared yaml)
        × (registry ≡ pushed [] (declared yaml))
        × All (λ e. get registry e.symbol ≡ some e) (declared yaml))
      ⊎ ((symbol : Name) × (dispatch_registry yaml ≡ failed (duplicate_symbol symbol))
          × ¬ Fresh [] (declared yaml))
dispatch_registry_lem yaml =
    let same = dispatch_registry-insert_all yaml in
    elim (insert_all_lem (declared yaml) []) [
      | inl good ↦ inl (
        pushed [] (declared yaml),
        same ∙ good.1,
        good.0,
        refl,
        All-found (declared yaml) [] good.0,
      )
      | inr bad ↦ inr (bad.0, same ∙ bad.1, bad.2)
    ]
