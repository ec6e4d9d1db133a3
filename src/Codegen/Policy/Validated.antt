-- ===== src/Codegen/Policy/Validated.antt =====
-- codegen/src/dispatch.rs: what a policy is that `validate_dispatch_policy` accepts.
use webgpu_native_js.Prelude.{
  ◌≡◌, refl, sym, ap, ◌∙◌, inl, inr, String, Bool, true, false, not, ◌&&◌, ◌||◌, List, [], ◌∷◌,
  ◌++◌, map, arith, Bool-cases, All, if◌then◌else◌,
}
use webgpu_native_js.Codegen.{Name, is_name, is_name_iff, is_some}
use webgpu_native_js.Codegen.Dispatch.{
  CodegenError, failed, empty_reason, wrong_skips, wrong_extras, overlapping, unaccounted, done,
  DispatchEntry, get,
}
use webgpu_native_js.Codegen.Selection.{
  TypePair, DispatchPolicy, has, contains, is_member, skipped_key, skipped_of, symbol_key,
  interface_key, add_ref_of, extras_of,
}
use webgpu_native_js.Codegen.Selection.Pushed.{next_done, failed≢done, done_injective}
use webgpu_native_js.Codegen.Policy.{
  is_blank, require_reason, require, Listing, collect, idl_names, required_extra_symbols,
  required_skipped_members, within, same_set, is_disjoint, skip_listing, interface_listing,
  extra_listing, validate_skips, validate_interfaces, validate_extras, validate_dispatch_policy,
}

require_done :
    (condition : Bool) (error : CodegenError) (u : Unit {0})
    → require condition error ≡ done u
    → condition ≡ true
require_done true error u h = refl
require_done false error u h = absurd (failed≢done h)

-- Whoever is in the first list is in the second; so equal sets have the same members.
module _ {A : Type 0} (is : A → A → Bool) (sound : (a b : A) → is a b ≡ true → a ≡ b) where
  within_lem :
      (xs ys : List A) → within is xs ys ≡ true → (k : A) → has is k xs ≡ true → has is k ys ≡ true
  within_lem [] ys h k e = ground (arith, e)
  within_lem (x ∷ xs) ys h k e = elim (Bool-cases (is k x)) [
    | inl same ↦ ap (λ k. has is k ys) (sound k x same) ∙ ground (arith, h)
    | inr other ↦ within_lem xs ys (ground (arith, h)) k (ground (arith, e, other))
  ]

  same_set_lem : (xs ys : List A) → same_set is xs ys ≡ true → (k : A) → has is k xs ≡ has is k ys
  same_set_lem xs ys h k =
      both_true (has is k xs) (has is k ys) (within_lem xs ys (ground (arith, h)) k)
        (within_lem ys xs (ground (arith, h)) k)
    where
      both_true : (a b : Bool) → (a ≡ true → b ≡ true) → (b ≡ true → a ≡ true) → a ≡ b
      both_true true b f g = sym (f refl)
      both_true false true f g = g refl
      both_true false false f g = refl

has-append :
    {A : Type 0} (is : A → A → Bool) (k : A) (xs ys : List A)
    → has is k (xs ++ ys) ≡ (has is k xs || has is k ys)
has-append is k [] ys = refl
has-append is k (x ∷ xs) ys = let ih = has-append is k xs ys in ground (arith, ih)

-- No key stands twice.
abbrev pub Distinct : {K : Type 0} → (K → K → Bool) → List K → Type 0
Distinct is [] = Unit
Distinct is (k ∷ ks) = All (λ later. is later k ≡ false) ks × Distinct is ks

-- Each entry has a reason.
abbrev pub Reasoned : {A : Type 0} → (A → Name) → List A → Type 0
Reasoned reason entries = All (λ entry. is_blank (reason entry) ≡ false) entries

require_reason_done :
    (kind : String) (reason : Name) (u : Unit {0})
    → require_reason kind reason ≡ done u
    → is_blank reason ≡ false
unfolding require_reason
require_reason_done kind reason u h = elim (Bool-cases (is_blank reason)) [
  | inl blank ↦
      absurd
        (failed≢done (sym (ap (λ b. if b then failed (empty_reason kind) else done tt) blank) ∙ h))
  | inr there ↦ there
]

All-pair :
    {K : Type 0} (P Q R : K → Type 0) (ks : List K)
    → ((k : K) → P k → Q k × R k)
    → All P ks
    → All Q ks × All R ks
All-pair P Q R [] f h = (tt, tt)
All-pair P Q R (k ∷ ks) f h =
    let one = f k h.0 in let more = All-pair P Q R ks f h.1 in ((one.0, more.0), (one.1, more.1))

-- The loop accepts entries with reasons only, whose keys are all different and not among those
-- that it has.
collect-Distinct :
    {A K : Type 0} (listing : Listing A K) (entries : List A) (keys out : List K)
    → collect listing entries keys ≡ done out
    → All (λ k. has listing.is k keys ≡ false) (map listing.key entries)
      × Distinct listing.is (map listing.key entries)
      × Reasoned listing.reason entries
unfolding collect
collect-Distinct listing [] keys out h = (tt, tt, tt)
collect-Distinct listing (entry ∷ entries) keys out h =
    let key = listing.key entry in
    let (_, reason, h₁) = next_done _ (require_reason listing.kind (listing.reason entry)) out h in
    let (_, _, h₂) = next_done _ (require (listing.known key) (listing.dead key)) out h₁ in
    let (_, new, h₃) =
      next_done _ (require (not (has listing.is key keys)) (listing.duplicate key)) out h₂ in
    let fresh = require_done (not (has listing.is key keys)) (listing.duplicate key) _ new in
    let (apart, rest, reasons) = collect-Distinct listing entries (key ∷ keys) out h₃ in
    let parts =
      All-pair (λ k. has listing.is k (key ∷ keys) ≡ false) (λ k. has listing.is k keys ≡ false)
        (λ k. listing.is k key ≡ false) (map listing.key entries)
        (λ k e. (ground (arith, e), ground (arith, e))) apart in
    (
      (ground (arith, fresh), parts.0),
      (parts.1, rest),
      (require_reason_done listing.kind (listing.reason entry) _ reason, reasons),
    )

-- What the loop leaves: the keys of all entries, each of them known.
collect_lem :
    {A K : Type 0} (listing : Listing A K) (entries : List A) (keys out : List K)
    → collect listing entries keys ≡ done out
    → ((k : K)
        → has listing.is k out
          ≡ (has listing.is k (map listing.key entries) || has listing.is k keys))
      × All (λ k. listing.known k ≡ true) (map listing.key entries)
unfolding collect
collect_lem listing [] keys out h = (λ k. ap (has listing.is k) (sym (done_injective h)), tt)
collect_lem listing (entry ∷ entries) keys out h =
    let key = listing.key entry in
    let (_, _, h₁) = next_done _ (require_reason listing.kind (listing.reason entry)) out h in
    let (_, known, h₂) = next_done _ (require (listing.known key) (listing.dead key)) out h₁ in
    let (_, _, h₃) =
      next_done _ (require (not (has listing.is key keys)) (listing.duplicate key)) out h₂ in
    let (left, rest) = collect_lem listing entries (key ∷ keys) out h₃ in
    (
      λ k. let all = left k in ground (arith, all),
      (require_done (listing.known key) (listing.dead key) _ known, rest),
    )

disjoint_lem :
    (xs ys : List Name)
    → is_disjoint xs ys ≡ true
    → (n : Name) → (contains n xs && contains n ys) ≡ false
disjoint_lem [] ys h n = refl
disjoint_lem (x ∷ xs) ys h n = elim (Bool-cases (is_name n x)) [
  | inl same ↦
      let out : contains n ys ≡ false =
        ap (λ n. contains n ys) ((is_name_iff n x).0 same) ∙ ground (arith, h) in
      ground (arith, out)
  | inr other ↦ let ih = disjoint_lem xs ys (ground (arith, h)) n in ground (arith, ih, other)
]

is_name_sound : (a b : Name) → is_name a b ≡ true → a ≡ b
is_name_sound a b = (is_name_iff a b).0

is_member_sound : (p q : Name × Name) → is_member p q ≡ true → p ≡ q
is_member_sound p q h =
    let first = is_name_sound p.0 q.0 (ground (arith, h)) in
    let second = is_name_sound p.1 q.1 (ground (arith, h)) in
    ap (λ a. (a, p.1)) first ∙ ap (λ b. (q.0, b)) second

abbrev pub no_add_ref_of : DispatchPolicy → List Name
no_add_ref_of policy = map interface_key policy.no_add_ref

-- The entries of one list of a policy: no key stands twice, and each has a reason.
abbrev pub Accepted : {A K : Type 0} → (K → K → Bool) → (A → K) → (A → Name) → List A → Type 0
Accepted is key reason entries = Distinct is (map key entries) × Reasoned reason entries

collect-Accepted :
    {A K : Type 0} (listing : Listing A K) (entries : List A) (out : List K)
    → collect listing entries [] ≡ done out
    → Accepted listing.is listing.key listing.reason entries
collect-Accepted listing entries out h =
    let (_, distinct, reasons) = collect-Distinct listing entries [] out h in (distinct, reasons)

-- Nothing is in an empty list.
or_false : (b : Bool) → (b || false) ≡ b
or_false true = refl
or_false false = refl

validate_skips_lem :
    (interfaces : List TypePair) (policy : DispatchPolicy)
    → validate_skips interfaces policy ≡ done tt
    → ((p : Name × Name)
        → has is_member p (skipped_of policy) ≡ has is_member p required_skipped_members)
      × Accepted is_member skipped_key (λ entry. entry.reason) policy.skip_members
validate_skips_lem interfaces policy h =
    let (keys, collected, same) =
      next_done _ (collect (skip_listing interfaces) policy.skip_members []) tt h in
    let (left, _) = collect_lem (skip_listing interfaces) policy.skip_members [] keys collected in
    (
      λ p.
          sym (left p ∙ or_false (has is_member p (skipped_of policy)))
          ∙ same_set_lem is_member is_member_sound keys required_skipped_members
              (require_done (same_set is_member keys required_skipped_members) wrong_skips tt same)
              p,
      collect-Accepted (skip_listing interfaces) policy.skip_members keys collected,
    )

validate_extras_lem :
    (registry : List DispatchEntry) (policy : DispatchPolicy)
    → validate_extras registry policy ≡ done tt
    → ((n : Name) → contains n (extras_of policy) ≡ contains n required_extra_symbols)
      × All (λ symbol. is_some (get registry symbol) ≡ true) (extras_of policy)
      × Accepted is_name symbol_key (λ entry. entry.reason) policy.extra_symbols
validate_extras_lem registry policy h =
    let (keys, collected, same) =
      next_done _ (collect (extra_listing registry) policy.extra_symbols []) tt h in
    let (left, known) =
      collect_lem (extra_listing registry) policy.extra_symbols [] keys collected in
    (
      λ n.
          sym (left n ∙ or_false (contains n (extras_of policy)))
          ∙ same_set_lem is_name is_name_sound keys required_extra_symbols
              (require_done (same_set is_name keys required_extra_symbols) wrong_extras tt same) n,
      known,
      collect-Accepted (extra_listing registry) policy.extra_symbols keys collected,
    )

validate_interfaces_lem :
    (subset : List Name) (policy : DispatchPolicy)
    → validate_interfaces subset policy ≡ done tt
    → ((n : Name)
        → contains n subset ≡ (contains n (add_ref_of policy) || contains n (no_add_ref_of policy)))
      × ((n : Name) → (contains n (add_ref_of policy) && contains n (no_add_ref_of policy)) ≡ false)
      × Accepted is_name interface_key (λ entry. entry.reason) policy.add_ref
      × Accepted is_name interface_key (λ entry. entry.reason) policy.no_add_ref
validate_interfaces_lem subset policy h =
    let (adds, collected, h₁) =
      next_done _ (collect (interface_listing subset "AddRef") policy.add_ref []) tt h in
    let (others, collected', h₂) =
      next_done _ (collect (interface_listing subset "no-AddRef") policy.no_add_ref []) tt h₁ in
    let (_, apart, same) = next_done _ (require (is_disjoint adds others) overlapping) tt h₂ in
    let (left, _) =
      collect_lem (interface_listing subset "AddRef") policy.add_ref [] adds collected in
    let (left', _) =
      collect_lem (interface_listing subset "no-AddRef") policy.no_add_ref [] others collected' in
    let both : (n : Name) → contains n (adds ++ others) ≡ contains n subset =
      same_set_lem is_name is_name_sound (adds ++ others) subset
        (require_done (same_set is_name (adds ++ others) subset) unaccounted tt same) in
    let disjoint =
      disjoint_lem adds others (require_done (is_disjoint adds others) overlapping _ apart) in
    (
      λ n.
          let a = left n in
          let b = left' n in
          let c = has-append is_name n adds others in let d = both n in ground (arith, a, b, c, d),
      λ n. let a = left n in let b = left' n in let d = disjoint n in ground (arith, a, b, d),
      collect-Accepted (interface_listing subset "AddRef") policy.add_ref adds collected,
      collect-Accepted (interface_listing subset "no-AddRef") policy.no_add_ref others collected',
    )

-- What an accepted policy is: its lists against the fixed ones, the joined interfaces and the
-- registry, and the entries of each list.
pub record IsAccounted (interfaces : List TypePair) (policy : DispatchPolicy)
    (registry : List DispatchEntry) : Type 0 where
  pub skipped :
      (p : Name × Name)
      → has is_member p (skipped_of policy) ≡ has is_member p required_skipped_members
  pub listed :
      (n : Name)
      → contains n (idl_names interfaces)
        ≡ (contains n (add_ref_of policy) || contains n (no_add_ref_of policy))
  pub apart :
      (n : Name) → (contains n (add_ref_of policy) && contains n (no_add_ref_of policy)) ≡ false
  pub extra : (n : Name) → contains n (extras_of policy) ≡ contains n required_extra_symbols
  pub registered : All (λ symbol. is_some (get registry symbol) ≡ true) (extras_of policy)
  pub skip_entries : Accepted is_member skipped_key (λ entry. entry.reason) policy.skip_members
  pub add_ref_entries : Accepted is_name interface_key (λ entry. entry.reason) policy.add_ref
  pub no_add_ref_entries : Accepted is_name interface_key (λ entry. entry.reason) policy.no_add_ref
  pub extra_entries : Accepted is_name symbol_key (λ entry. entry.reason) policy.extra_symbols

-- Of a policy that is accepted, the skipped members and the extra symbols are those that the
-- generator fixes, the registry has each extra symbol, and each joined interface is listed under
-- AddRef or under no-AddRef, and under one of them only. None of the four lists has a key twice, and
-- each entry has a reason that is not blank.
pub validate_dispatch_policy_lem :
    (interfaces : List TypePair) (policy : DispatchPolicy) (registry : List DispatchEntry)
    → validate_dispatch_policy interfaces policy registry ≡ done tt
    → IsAccounted interfaces policy registry
unfolding validate_dispatch_policy
validate_dispatch_policy_lem interfaces policy registry h =
    let (_, skips, h₁) = next_done _ (validate_skips interfaces policy) tt h in
    let (_, listed, extras) =
      next_done _ (validate_interfaces (idl_names interfaces) policy) tt h₁ in
    let (accounted, apart, added, others) =
      validate_interfaces_lem (idl_names interfaces) policy listed in
    let (fixed, known, extra) = validate_extras_lem registry policy extras in
    let (skipped, kept) = validate_skips_lem interfaces policy skips in
    record {
      skipped = skipped;
      listed = accounted;
      apart = apart;
      extra = fixed;
      registered = known;
      skip_entries = kept;
      add_ref_entries = added;
      no_add_ref_entries = others;
      extra_entries = extra;
    }
