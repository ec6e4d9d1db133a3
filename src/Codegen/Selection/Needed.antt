-- ===== src/Codegen/Selection/Needed.antt =====
-- codegen/src/dispatch.rs: the dispatch table has exactly the functions that are needed.
use webgpu_native_js.Prelude.{
  ◌≡◌, refl, sym, ap, ◌∙◌, subst, Bool, true, false, Option, none, some, List, [], ◌∷◌, ◌++◌,
  if◌then◌else◌, All,
}
use webgpu_native_js.Codegen.{Name}
use webgpu_native_js.Codegen.Dispatch.{
  CodegenError, lost_interface, no_c_object, not_joined, Generated, done, next, DispatchEntry, get,
}
use webgpu_native_js.Codegen.Selection.{
  MemberPair, TypePair, SubsetEntry, DispatchPolicy, contains, has, is_member, skipped_of,
  add_ref_of, extras_of, Selected, push_symbol, push_all, find_interface, find_member, ok_or,
  select_members, object_of, counted_symbol, select_object, select_interface, select_interfaces,
  selected_entries,
}
use webgpu_native_js.Codegen.Selection.Pushed.{
  next_done, failed≢done, done_injective, symbols, Apart, push_all-Sound,
}

-- Two lists of names, if there are both
abbrev both : Generated (List Name) → Generated (List Name) → Generated (List Name)
both r r' = next (λ xs. next (λ ys. done (xs ++ ys)) r') r

-- The symbols that the policy needs, in the order in which it mentions them; no registry is asked.
abbrev pub member_symbols :
    List (Name × Name) → Name → List MemberPair → List Name → Generated (List Name)
member_symbols skipped interface joined [] = done []
member_symbols skipped interface joined (name ∷ names) =
    both
      (if has is_member (interface, name) skipped
        then done []
        else next (λ m. done (m.c_name ∷ []))
            (ok_or (not_joined interface name) (find_member joined name)))
      (member_symbols skipped interface joined names)

abbrev pub object_symbols :
    DispatchPolicy → SubsetEntry → List MemberPair → Name → Generated (List Name)
object_symbols policy subset joined object =
    both
      (both
        (if contains subset.interface (add_ref_of policy)
          then done (counted_symbol object "AddRef" ∷ [])
          else done [])
        (done (counted_symbol object "Release" ∷ [])))
      (member_symbols (skipped_of policy) subset.interface joined subset.members)

abbrev pub interface_symbols : DispatchPolicy → List TypePair → SubsetEntry → Generated (List Name)
interface_symbols policy interfaces subset =
    next
      (λ pair.
        next (λ c_name. object_symbols policy subset pair.members (object_of c_name))
          (ok_or (no_c_object subset.interface) pair.c_name))
      (ok_or (lost_interface subset.interface) (find_interface interfaces subset.interface))

abbrev pub interfaces_symbols :
    DispatchPolicy → List TypePair → List SubsetEntry → Generated (List Name)
interfaces_symbols policy interfaces [] = done []
interfaces_symbols policy interfaces (s ∷ ss) =
    both (interface_symbols policy interfaces s) (interfaces_symbols policy interfaces ss)

abbrev pub needed : List TypePair → List SubsetEntry → DispatchPolicy → Generated (List Name)
needed interfaces subset policy =
    both (done (extras_of policy)) (interfaces_symbols policy interfaces subset)

-- What a step is done with is what pushing the names leaves.
abbrev Pushes :
    List DispatchEntry → (Selected → Generated Selected) → Generated (List Name) → Type 0
Pushes registry step names =
    (s s' : Selected)
    → step s ≡ done s'
    → (ns : List Name) × (names ≡ done ns) × (push_all registry ns s ≡ done s')

module _ (registry : List DispatchEntry) where
  push_all-append :
      (xs ys : List Name) (s m s' : Selected)
      → push_all registry xs s ≡ done m
      → push_all registry ys m ≡ done s'
      → push_all registry (xs ++ ys) s ≡ done s'
  push_all-append [] ys s m s' h k =
      subst (λ (x : Selected). push_all registry ys x ≡ done s') (sym (done_injective h)) k
  push_all-append (x ∷ xs) ys s m s' h k =
      let (s₁, first, rest) = next_done _ _ m h in
      ap (next (push_all registry (xs ++ ys))) first ∙ push_all-append xs ys s₁ m s' rest k

  nothing_Pushes : Pushes registry done (done [])
  nothing_Pushes s s' h = ([], refl, h)

  one_Pushes : (name : Name) → Pushes registry (push_symbol registry name) (done (name ∷ []))
  one_Pushes name s s' h = (name ∷ [], refl, ap (next done) h)

  all_Pushes : (names : List Name) → Pushes registry (push_all registry names) (done names)
  all_Pushes names s s' h = (names, refl, h)

  both-Pushes :
      (f g : Selected → Generated Selected) (r r' : Generated (List Name))
      → Pushes registry f r
      → Pushes registry g r'
      → Pushes registry (λ s. next g (f s)) (both r r')
  both-Pushes f g r r' hf hg s s' h =
      let (m, first, rest) = next_done g (f s) s' h in
      let (xs, ex, px) = hf s m first in
      let (ys, ey, py) = hg m s' rest in
      (
        xs ++ ys,
        ap (λ r. both r r') ex ∙ ap (both (done xs)) ey,
        push_all-append xs ys s m s' px py,
      )

  if_Pushes :
      (b : Bool) (f g : Selected → Generated Selected) (r r' : Generated (List Name))
      → Pushes registry f r
      → Pushes registry g r'
      → Pushes registry (λ s. if b then f s else g s) (if b then r else r')
  if_Pushes true f g r r' hf hg = hf
  if_Pushes false f g r r' hf hg = hg

  found_Pushes :
      {A : Type 0} (o : Option A) (error : CodegenError) (f : A → Selected → Generated Selected)
      (r : A → Generated (List Name))
      → ((a : A) → Pushes registry (f a) (r a))
      → Pushes registry (λ s. next (λ a. f a s) (ok_or error o)) (next r (ok_or error o))
  found_Pushes (some a) error f r h = h a
  found_Pushes none error f r h = λ s s' e. absurd (failed≢done e)

  select_members-Pushes :
      (skipped : List (Name × Name)) (interface : Name) (joined : List MemberPair)
      (names : List Name)
      → Pushes registry
          (select_members skipped registry interface joined names)
          (member_symbols skipped interface joined names)
  select_members-Pushes skipped interface joined [] = nothing_Pushes
  select_members-Pushes skipped interface joined (name ∷ names) =
      both-Pushes
        (λ s.
          if has is_member (interface, name) skipped
          then done s
          else next (λ m. push_symbol registry m.c_name s)
              (ok_or (not_joined interface name) (find_member joined name)))
        (select_members skipped registry interface joined names) _ _
        (if_Pushes (has is_member (interface, name) skipped) done _ _ _ nothing_Pushes (
          found_Pushes (find_member joined name) (not_joined interface name)
            (λ m. push_symbol registry m.c_name) _ (λ m. one_Pushes m.c_name)))
        (select_members-Pushes skipped interface joined names)

  select_object-Pushes :
      (policy : DispatchPolicy) (subset : SubsetEntry) (joined : List MemberPair) (object : Name)
      → Pushes registry
          (select_object policy registry subset joined object)
          (object_symbols policy subset joined object)
  select_object-Pushes policy subset joined object =
      both-Pushes
        (λ s. next (push_symbol registry (counted_symbol object "Release")) (
          if contains subset.interface (add_ref_of policy)
          then push_symbol registry (counted_symbol object "AddRef") s
          else done s))
        (select_members (skipped_of policy) registry subset.interface joined subset.members) _ _
        (both-Pushes
          (λ s.
            if contains subset.interface (add_ref_of policy)
            then push_symbol registry (counted_symbol object "AddRef") s
            else done s)
          (push_symbol registry (counted_symbol object "Release")) _ _
          (if_Pushes (contains subset.interface (add_ref_of policy))
            (push_symbol registry (counted_symbol object "AddRef")) done _ _
            (one_Pushes (counted_symbol object "AddRef")) nothing_Pushes)
          (one_Pushes (counted_symbol object "Release")))
        (select_members-Pushes (skipped_of policy) subset.interface joined subset.members)

  select_interface-Pushes :
      (policy : DispatchPolicy) (interfaces : List TypePair) (subset : SubsetEntry)
      → Pushes registry
          (select_interface policy registry interfaces subset)
          (interface_symbols policy interfaces subset)
  select_interface-Pushes policy interfaces subset =
      found_Pushes (find_interface interfaces subset.interface) (lost_interface subset.interface)
        (λ pair s.
          next (λ c_name. select_object policy registry subset pair.members (object_of c_name) s)
            (ok_or (no_c_object subset.interface) pair.c_name))
        _
        (λ pair.
          found_Pushes pair.c_name (no_c_object subset.interface)
            (λ c_name. select_object policy registry subset pair.members (object_of c_name)) _
            (λ c_name. select_object-Pushes policy subset pair.members (object_of c_name)))

  select_interfaces-Pushes :
      (policy : DispatchPolicy) (interfaces : List TypePair) (subset : List SubsetEntry)
      → Pushes registry
          (select_interfaces policy registry interfaces subset)
          (interfaces_symbols policy interfaces subset)
  select_interfaces-Pushes policy interfaces [] = nothing_Pushes
  select_interfaces-Pushes policy interfaces (s ∷ ss) =
      both-Pushes (select_interface policy registry interfaces s)
        (select_interfaces policy registry interfaces ss) _ _
        (select_interface-Pushes policy interfaces s)
        (select_interfaces-Pushes policy interfaces ss)

-- If a dispatch table is made, it has the functions that the policy needs and no other, each once
-- and as the registry declares it: the extra symbols, Release of each interface, AddRef of those
-- that need it, and the members that are not skipped.
pub selected_entries_lem :
    (interfaces : List TypePair) (subset : List SubsetEntry) (policy : DispatchPolicy)
    (registry entries : List DispatchEntry)
    → selected_entries interfaces subset policy registry ≡ done entries
    → (names : List Name) × (needed interfaces subset policy ≡ done names)
      × All (λ e. get registry e.symbol ≡ some e) entries
      × Apart (symbols entries)
      × ((n : Name) → contains n (symbols entries) ≡ contains n names)
unfolding selected_entries
selected_entries_lem interfaces subset policy registry entries h =
    let (selected, all, last) = next_done _ _ entries h in
    let (names, e, pushed) =
      both-Pushes registry (push_all registry (extras_of policy))
        (select_interfaces policy registry interfaces subset) (done (extras_of policy)) _
        (all_Pushes registry (extras_of policy))
        (select_interfaces-Pushes registry policy interfaces subset) ([], []) selected all in
    let (sound, adds) =
      push_all-Sound registry names ([], []) selected (tt, tt, λ n. refl) pushed in
    subst
      (λ (es : List DispatchEntry).
        (names : List Name) × (needed interfaces subset policy ≡ done names)
        × All (λ e. get registry e.symbol ≡ some e) es
        × Apart (symbols es)
        × ((n : Name) → contains n (symbols es) ≡ contains n names))
      (done_injective last) (names, e, sound.0, sound.1, adds)
