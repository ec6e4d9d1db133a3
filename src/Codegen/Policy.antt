-- ===== src/Codegen/Policy.antt =====
-- codegen/src/dispatch.rs: `validate_dispatch_policy`, which compares the policy with the joined
-- interfaces, with the registry, and with two lists that the generator fixes.
pub mod Validated
use webgpu_native_js.Prelude.{
  ℕ, ◌+◌, String, Bool, true, not, ◌&&◌, ◌||◌, none, some, List, [], ◌∷◌, ◌++◌, leb, ◌==◌,
  if◌then◌else◌,
}
use webgpu_native_js.Codegen.{Name, chars, is_name, unwrap_or, is_some}
use webgpu_native_js.Codegen.Dispatch.{
  CodegenError, no_extra, duplicate_extra, dead_skip, duplicate_skip, empty_reason, dead_interface,
  duplicate_interface, wrong_skips, overlapping, wrong_extras, unaccounted, Generated, done, failed,
  next, DispatchEntry, get,
}
use webgpu_native_js.Codegen.Selection.{
  MemberPair, TypePair, DispatchMemberPolicy, DispatchInterfacePolicy, DispatchSymbolPolicy,
  DispatchPolicy, has, contains, is_member, skipped_key, skipped_of, interface_key, add_ref_of,
  symbol_key, extras_of,
}

-- `str::trim` leaves nothing of a text of White_Space characters.
abbrev pub is_white_space : ℕ → Bool
is_white_space c =
    (leb 0x9 c && leb c 0xd)
    || c == 0x20
    || c == 0x85
    || c == 0xa0
    || c == 0x1680
    || (leb 0x2000 c && leb c 0x200a)
    || c == 0x2028
    || c == 0x2029
    || c == 0x202f
    || c == 0x205f
    || c == 0x3000

abbrev pub is_blank : Name → Bool
is_blank [] = true
is_blank (c ∷ cs) = is_white_space c && is_blank cs

unfoldable pub require_reason : String → Name → Generated (Unit {0})
require_reason kind reason = if is_blank reason then failed (empty_reason kind) else done tt

abbrev pub require : Bool → CodegenError → Generated (Unit {0})
require condition error = if condition then done tt else failed error

-- What differs between the loops over the entries of a policy: the key of an entry, what is known,
-- and the errors
pub record Listing (A K : Type 0) : Type 0 where
  pub kind : String
  pub reason : A → Name
  pub key : A → K
  pub is : K → K → Bool
  pub known : K → Bool
  pub dead : K → CodegenError
  pub duplicate : K → CodegenError

-- The loop: each entry has a reason, is known, and was not there before.
unfoldable pub collect : {A K : Type 0} → Listing A K → List A → List K → Generated (List K)
unfolding require_reason
collect listing [] keys = done keys
collect listing (entry ∷ entries) keys =
    let key = listing.key entry in
    next
      (λ _.
        next
          (λ _.
            next (λ _. collect listing entries (key ∷ keys))
              (require (not (has listing.is key keys)) (listing.duplicate key)))
          (require (listing.known key) (listing.dead key)))
      (require_reason listing.kind (listing.reason entry))

-- The joined interfaces' names, and their members, by the interface and the name
abbrev pub idl_names : List TypePair → List Name
idl_names [] = []
idl_names (pair ∷ pairs) = elim pair.idl_name [
  | none ↦ idl_names pairs
  | some name ↦ name ∷ idl_names pairs
]

abbrev pub member_keys : Name → List MemberPair → List (Name × Name)
member_keys interface [] = []
member_keys interface (m ∷ ms) = (interface, m.member) ∷ member_keys interface ms

abbrev pub all_members : List TypePair → List (Name × Name)
all_members [] = []
all_members (pair ∷ pairs) =
    member_keys (unwrap_or [] pair.idl_name) pair.members ++ all_members pairs

-- REQUIRED_EXTRA_SYMBOLS
abbrev pub required_extra_symbols : List Name
required_extra_symbols =
    chars "wgpuAdapterGetFeatures"
    ∷ chars "wgpuAdapterGetInfo"
    ∷ chars "wgpuAdapterGetLimits"
    ∷ chars "wgpuAdapterInfoFreeMembers"
    ∷ chars "wgpuDeviceGetAdapterInfo"
    ∷ chars "wgpuDeviceGetFeatures"
    ∷ chars "wgpuDeviceGetLimits"
    ∷ chars "wgpuInstanceProcessEvents"
    ∷ chars "wgpuInstanceRequestAdapter"
    ∷ chars "wgpuAdapterRequestDevice"
    ∷ chars "wgpuAdapterRelease"
    ∷ chars "wgpuBufferGetConstMappedRange"
    ∷ chars "wgpuSupportedFeaturesFreeMembers"
    ∷ []

-- REQUIRED_SKIPPED_MEMBERS
abbrev pub required_skipped_members : List (Name × Name)
required_skipped_members =
    (chars "GPUBuffer", chars "size")
    ∷ (chars "GPUBuffer", chars "usage")
    ∷ (chars "GPUBuffer", chars "mapState")
    ∷ []

-- Inclusion and equality of sets, and `is_disjoint`
abbrev pub within {ℓ} : {A : Type ℓ} → (A → A → Bool) → List A → List A → Bool
within is [] bs = true
within is (a ∷ as_) bs = has is a bs && within is as_ bs

abbrev pub same_set {ℓ} : {A : Type ℓ} → (A → A → Bool) → List A → List A → Bool
same_set is a b = within is a b && within is b a

abbrev pub is_disjoint : List Name → List Name → Bool
is_disjoint [] bs = true
is_disjoint (a ∷ as_) bs = not (contains a bs) && is_disjoint as_ bs

abbrev pub skip_listing : List TypePair → Listing DispatchMemberPolicy (Name × Name)
skip_listing interfaces = record {
  kind = "dispatch member skip";
  reason = λ entry. entry.reason;
  key = skipped_key;
  is = is_member;
  known = λ key. has is_member key (all_members interfaces);
  dead = λ key. dead_skip key.0 key.1;
  duplicate = λ key. duplicate_skip key.0 key.1;
}

abbrev pub interface_listing : List Name → String → Listing DispatchInterfacePolicy Name
interface_listing subset kind = record {
  kind = kind;
  reason = λ entry. entry.reason;
  key = interface_key;
  is = is_name;
  known = λ name. contains name subset;
  dead = dead_interface kind;
  duplicate = duplicate_interface kind;
}

abbrev pub extra_listing : List DispatchEntry → Listing DispatchSymbolPolicy Name
extra_listing registry = record {
  kind = "dispatch extra symbol";
  reason = λ entry. entry.reason;
  key = symbol_key;
  is = is_name;
  known = λ symbol. is_some (get registry symbol);
  dead = no_extra;
  duplicate = duplicate_extra;
}

-- The three parts of `validate_dispatch_policy`, and the function
abbrev pub validate_skips : List TypePair → DispatchPolicy → Generated (Unit {0})
validate_skips interfaces policy =
    next (λ skipped. require (same_set is_member skipped required_skipped_members) wrong_skips)
      (collect (skip_listing interfaces) policy.skip_members [])

abbrev pub validate_interfaces : List Name → DispatchPolicy → Generated (Unit {0})
validate_interfaces subset policy =
    next
      (λ add_ref.
        next
          (λ no_add_ref.
            next (λ _. require (same_set is_name (add_ref ++ no_add_ref) subset) unaccounted)
              (require (is_disjoint add_ref no_add_ref) overlapping))
          (collect (interface_listing subset "no-AddRef") policy.no_add_ref []))
      (collect (interface_listing subset "AddRef") policy.add_ref [])

abbrev pub validate_extras : List DispatchEntry → DispatchPolicy → Generated (Unit {0})
validate_extras registry policy =
    next (λ extras. require (same_set is_name extras required_extra_symbols) wrong_extras)
      (collect (extra_listing registry) policy.extra_symbols [])

unfoldable pub validate_dispatch_policy :
    List TypePair → DispatchPolicy → List DispatchEntry → Generated (Unit {0})
unfolding collect
validate_dispatch_policy interfaces policy registry =
    next
      (λ _.
        next (λ _. validate_extras registry policy)
          (validate_interfaces (idl_names interfaces) policy))
      (validate_skips interfaces policy)
