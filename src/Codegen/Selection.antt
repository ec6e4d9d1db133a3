-- ===== src/Codegen/Selection.antt =====
-- codegen/src/dispatch.rs: `selected_entries`, the functions of the dispatch table: from the policy,
-- the joined interfaces and the registry.
pub mod Pushed
pub mod Needed
use webgpu_native_js.Prelude.{
  map, String, Bool, false, ◌&&◌, ◌||◌, Option, none, some, List, [], ◌∷◌, ◌++◌, if◌then◌else◌,
}
use webgpu_native_js.Codegen.{Name, chars, is_name, strip_prefix, unwrap_or}
use webgpu_native_js.Codegen.Dispatch.{
  CodegenError, no_symbol, lost_interface, no_c_object, not_joined, Generated, done, failed, next,
  DispatchEntry, get,
}

-- Of a MemberPair: the member's name and that of its C function
pub record MemberPair : Type 0 where
  pub member : Name
  pub c_name : Name

-- Of a TypePair: its names and joined members
pub record TypePair : Type 0 where
  pub idl_name : Option Name
  pub c_name : Option Name
  pub members : List MemberPair

pub record SubsetEntry : Type 0 where
  pub interface : Name
  pub members : List Name

pub record DispatchMemberPolicy : Type 0 where
  pub interface : Name
  pub member : Name
  pub reason : Name

pub record DispatchInterfacePolicy : Type 0 where
  pub interface : Name
  pub reason : Name

pub record DispatchSymbolPolicy : Type 0 where
  pub symbol : Name
  pub reason : Name

pub record DispatchPolicy : Type 0 where
  pub skip_members : List DispatchMemberPolicy
  pub add_ref : List DispatchInterfacePolicy
  pub no_add_ref : List DispatchInterfacePolicy
  pub extra_symbols : List DispatchSymbolPolicy

abbrev pub has {ℓ} : {A : Type ℓ} → (A → A → Bool) → A → List A → Bool
has is a [] = false
has is a (b ∷ bs) = is a b || has is a bs

abbrev pub contains : Name → List Name → Bool
contains name names = has is_name name names

abbrev pub is_member : Name × Name → Name × Name → Bool
is_member p q = is_name p.0 q.0 && is_name p.1 q.1

-- The sets that the policy's lists make
abbrev pub skipped_key : DispatchMemberPolicy → Name × Name
skipped_key entry = (entry.interface, entry.member)

abbrev pub skipped_of : DispatchPolicy → List (Name × Name)
skipped_of policy = map skipped_key policy.skip_members

abbrev pub interface_key : DispatchInterfacePolicy → Name
interface_key entry = entry.interface

abbrev pub add_ref_of : DispatchPolicy → List Name
add_ref_of policy = map interface_key policy.add_ref

abbrev pub symbol_key : DispatchSymbolPolicy → Name
symbol_key entry = entry.symbol

abbrev pub extras_of : DispatchPolicy → List Name
extras_of policy = map symbol_key policy.extra_symbols

-- The entries and the symbols seen
abbrev pub Selected : Type 0
Selected = List DispatchEntry × List Name

abbrev pub push_entry : Name → Selected → Option DispatchEntry → Generated Selected
push_entry symbol (entries, seen) none = failed (no_symbol symbol)
push_entry symbol (entries, seen) (some entry) =
    done
      (if contains symbol seen then (entries, seen) else (entries ++ (entry ∷ []), symbol ∷ seen))

unfoldable pub push_symbol : List DispatchEntry → Name → Selected → Generated Selected
push_symbol registry symbol selected = push_entry symbol selected (get registry symbol)

abbrev pub push_all : List DispatchEntry → List Name → Selected → Generated Selected
push_all registry [] selected = done selected
push_all registry (symbol ∷ symbols) selected =
    next (push_all registry symbols) (push_symbol registry symbol selected)

-- `interfaces.get`: the map keeps the last pair of a name.
abbrev pub named : Name → TypePair → Option Name → Option TypePair
named name pair none = none
named name pair (some n) = if is_name name n then some pair else none

abbrev pub last_of : Option TypePair → Option TypePair → Option TypePair
last_of here none = here
last_of here (some later) = some later

abbrev pub find_interface : List TypePair → Name → Option TypePair
find_interface [] name = none
find_interface (pair ∷ pairs) name =
    last_of (named name pair pair.idl_name) (find_interface pairs name)

abbrev pub find_member : List MemberPair → Name → Option MemberPair
find_member [] name = none
find_member (m ∷ ms) name =
    let rest = find_member ms name in if is_name m.member name then some m else rest

abbrev pub ok_or {ℓ} : {A : Type ℓ} → CodegenError → Option A → Generated A
ok_or error none = failed error
ok_or error (some a) = done a

-- The loop over the members of an interface
abbrev pub select_members :
    List (Name × Name)
    → List DispatchEntry
    → Name
    → List MemberPair
    → List Name
    → Selected
    → Generated Selected
select_members skipped registry interface joined [] selected = done selected
select_members skipped registry interface joined (name ∷ names) selected =
    next (select_members skipped registry interface joined names) (
      if has is_member (interface, name) skipped
      then done selected
      else next (λ m. push_symbol registry m.c_name selected)
          (ok_or (not_joined interface name) (find_member joined name)))

abbrev pub object_of : Name → Name
object_of c_name = unwrap_or c_name (strip_prefix (chars "WGPU") c_name)

abbrev pub counted_symbol : Name → String → Name
counted_symbol object suffix = chars "wgpu" ++ object ++ chars suffix

-- The body of the loop over the subset, once the interface has a C object
abbrev pub select_object :
    DispatchPolicy
    → List DispatchEntry
    → SubsetEntry
    → List MemberPair
    → Name
    → Selected
    → Generated Selected
select_object policy registry subset joined object selected =
    next (select_members (skipped_of policy) registry subset.interface joined subset.members) (
      next (push_symbol registry (counted_symbol object "Release")) (
        if contains subset.interface (add_ref_of policy)
        then push_symbol registry (counted_symbol object "AddRef") selected
        else done selected))

abbrev pub select_interface :
    DispatchPolicy
    → List DispatchEntry
    → List TypePair
    → SubsetEntry
    → Selected
    → Generated Selected
select_interface policy registry interfaces subset selected =
    next
      (λ pair.
        next
          (λ c_name. select_object policy registry subset pair.members (object_of c_name) selected)
          (ok_or (no_c_object subset.interface) pair.c_name))
      (ok_or (lost_interface subset.interface) (find_interface interfaces subset.interface))

abbrev pub select_interfaces :
    DispatchPolicy
    → List DispatchEntry
    → List TypePair
    → List SubsetEntry
    → Selected
    → Generated Selected
select_interfaces policy registry interfaces [] selected = done selected
select_interfaces policy registry interfaces (s ∷ ss) selected =
    next (select_interfaces policy registry interfaces ss)
      (select_interface policy registry interfaces s selected)

unfoldable pub selected_entries :
    List TypePair
    → List SubsetEntry
    → DispatchPolicy
    → List DispatchEntry
    → Generated (List DispatchEntry)
unfolding push_symbol
selected_entries interfaces subset policy registry =
    next (λ selected. done selected.0)
      (next (select_interfaces policy registry interfaces subset)
        (push_all registry (extras_of policy) ([], [])))
