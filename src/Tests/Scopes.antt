-- ===== src/Tests/Scopes.antt =====
-- Error scopes at concrete devices.
use webgpu_native_js.Prelude.{◌≡◌, refl, false, none, [], ◌∷◌}
use webgpu_native_js.World.{World, ErrorFilter, ErrorScope, DeviceEvents}
use webgpu_native_js.ErrorScopes.{
  new, device_push_error_scope, device_pop_error_scope, push, lose, scope_step, scope_run,
}
use webgpu_native_js.ErrorScopes.Stack.{error_scope_bracket, generate_all, first_error}

abbrev scope : ErrorFilter → ErrorScope
scope filter = record { filter = filter; error = none }

-- A device with an internal scope in a validation scope, and one without scopes
abbrev scoped : DeviceEvents
scoped = record {
  wrapper_finalized = false;
  lost = false;
  lost_settled = false;
  js = none;
  error_scopes = scope ErrorFilter.internal ∷ scope ErrorFilter.validation ∷ [];
  registration = none;
}

abbrev bare : World
bare = record { events = λ d. new; registered = []; settlements = []; releases = []; calls = [] }

abbrev guarded : World
guarded = record {
  events = λ d. scoped;
  registered = [];
  settlements = [];
  releases = [];
  calls = [];
}

error_scope_bracket_example :
    (device_pop_error_scope 0 9 (
      generate_all 0
        ("first" ∷ "second" ∷ [])
        (device_push_error_scope 0 9 ErrorFilter.validation guarded))).0
    ≡ first_error ("first" ∷ "second" ∷ [])
error_scope_bracket_example = (error_scope_bracket 0 9 ("first" ∷ "second" ∷ []) guarded refl).0

abbrev lost_world : World
lost_world =
    scope_run 0 9 (push ErrorFilter.validation ∷ [])
      (scope_step 0 9 (lose 1 "gone") (scope_run 0 9 (push ErrorFilter.validation ∷ []) bare))
