-- ===== src/ErrorScopes/Loss.antt =====
-- What a lost device does with errors.
use webgpu_native_js.Prelude.{
  ℕ, String, ◌≡◌, refl, sym, ◌∙◌, subst, inl, inr, Bool-cases, true, false, none, List, [], ◌∷◌,
  map, arith, All,
}
use webgpu_native_js.World.{World, DeviceEvents, ErrorScope, update_self}
use mathlib.Core.Bool.{false≢true}
use webgpu_native_js.ErrorScopes.{
  new, clear, pop_error_scope, generate_validation_error, ScopeOp, push, pop, generate, lose,
  scope_step, scope_run, device_pop_error_scope,
}

abbrev pub NoErrors : List ErrorScope → Type 0
NoErrors = All (λ s. s.error ≡ none)

-- A lost device holds no error in any open scope.
abbrev pub LossInv : DeviceEvents → Type 0
LossInv e = e.lost ≡ true → NoErrors e.error_scopes

NoErrors-clear : (scopes : List ErrorScope) → NoErrors (map clear scopes)
NoErrors-clear [] = tt
NoErrors-clear (s ∷ rest) = (refl, NoErrors-clear rest)

pop-NoErrors :
    (e : DeviceEvents) (scopes : List ErrorScope)
    → e.error_scopes ≡ scopes
    → NoErrors scopes
    → ((pop_error_scope e).0 ≡ none) × NoErrors (pop_error_scope e).1.error_scopes
unfolding pop_error_scope
pop-NoErrors e [] p h = (ground arith, subst NoErrors {x = []} (ground arith) h)
pop-NoErrors e (s ∷ rest) p h = (ground arith, subst NoErrors {x = rest} (ground arith) h.1)

pop-LossInv : (e : DeviceEvents) → LossInv e → LossInv (pop_error_scope e).1
unfolding pop_error_scope
pop-LossInv e h = λ l. (pop-NoErrors e e.error_scopes refl (h (ground arith))).1

generate-LossInv :
    (d : ℕ) (message : String) (w : World)
    → LossInv (w.events d)
    → LossInv ((generate_validation_error d message w).events d)
unfolding generate_validation_error
generate-LossInv d message w h = elim (Bool-cases (w.events d).lost) [
  | inl lost ↦ rw (lost, generate_validation_error) h
  | inr alive ↦ λ l. absurd (false≢true (sym (still alive) ∙ l))
]
  where
    still :
        (w.events d).lost ≡ false → ((generate_validation_error d message w).events d).lost ≡ false
    still alive = ground arith

step-LossInv :
    (d device : ℕ) (op : ScopeOp) (w : World)
    → LossInv (w.events d)
    → LossInv ((scope_step d device op w).events d)
unfolding scope_step
step-LossInv d device (push filter) w h = rw (update_self w.events d) (λ l. (refl, h l))
step-LossInv d device pop w h = rw (update_self w.events d) (pop-LossInv (w.events d) h)
step-LossInv d device (generate message) w h = generate-LossInv d message w h
step-LossInv d device (lose reason message) w h =
    rw (update_self w.events d) (λ l. NoErrors-clear (w.events d).error_scopes)

run-LossInv :
    (d device : ℕ) (ops : List ScopeOp) (w : World)
    → LossInv (w.events d)
    → LossInv ((scope_run d device ops w).events d)
unfolding scope_run
run-LossInv d device [] w h = h
run-LossInv d device (op ∷ ops) w h =
    run-LossInv d device ops (scope_step d device op w) (step-LossInv d device op w h)

step-lost :
    (d device : ℕ) (op : ScopeOp) (w : World)
    → (w.events d).lost ≡ true
    → ((scope_step d device op w).events d).lost ≡ true
unfolding scope_step
step-lost d device (push filter) w h = ground arith
step-lost d device pop w h = ground arith
step-lost d device (generate message) w h = ground arith
step-lost d device (lose reason message) w h = ground arith

run-lost :
    (d device : ℕ) (ops : List ScopeOp) (w : World)
    → (w.events d).lost ≡ true
    → ((scope_run d device ops w).events d).lost ≡ true
unfolding scope_run
run-lost d device [] w h = h
run-lost d device (op ∷ ops) w h =
    run-lost d device ops (scope_step d device op w) (step-lost d device op w h)

lose-lost :
    (d device reason : ℕ) (message : String) (w : World)
    → ((scope_step d device (lose reason message) w).events d).lost ≡ true
unfolding scope_step
lose-lost d device reason message w = ground arith

-- Whatever scopes were opened and errors raised before a device was lost, and whatever happens to
-- its scopes afterwards: every later `popErrorScope` finds no synthetic error, and every later
-- validation error of the binding is dropped.
pub lost_device_is_silent :
    (d device reason : ℕ) (lost_message message : String) (before after : List ScopeOp) (w : World)
    → w.events d ≡ new
    → let w' =
        scope_run d device after
          (scope_step d device (lose reason lost_message) (scope_run d device before w)) in
      ((device_pop_error_scope d device w').0 ≡ none)
      × (generate_validation_error d message w' ≡ w')
unfolding new device_pop_error_scope generate_validation_error
lost_device_is_silent d device reason lost_message message before after w start =
    let w₁ = scope_run d device before w in
    let w₂ = scope_step d device (lose reason lost_message) w₁ in
    let w' = scope_run d device after w₂ in
    let begun : LossInv (w.events d) = rw start (λ l. tt) in
    let inv =
      run-LossInv d device after w₂ (
        step-LossInv d device (lose reason lost_message) w₁
          (run-LossInv d device before w begun)) in
    let lost = run-lost d device after w₂ (lose-lost d device reason lost_message w₁) in
    (
      (pop-NoErrors (w'.events d) (w'.events d).error_scopes refl (inv lost)).0,
      rw (lost, generate_validation_error),
    )
