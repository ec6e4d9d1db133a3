-- ===== src/ErrorScopes.antt =====
-- core/src/lib.rs, `DeviceEventState`: the stack of synthetic error scopes beside the native one,
-- the loss of a device, and where a validation error of the binding goes.
pub mod Stack
pub mod Loss
use webgpu_native_js.Prelude.{
  ℕ, String, Bool, true, false, Option, none, some, List, [], ◌∷◌, map, if◌then◌else◌,
}
use webgpu_native_js.World.{
  World, DeviceEvents, DeviceError, ErrorScope, ErrorType, ErrorFilter, Settlement, Call, emit,
  enqueue_settlement, set_events,
}

-- DeviceEventState::new
unfoldable pub new : DeviceEvents
new = record {
  wrapper_finalized = false;
  lost = false;
  lost_settled = false;
  js = none;
  error_scopes = [];
  registration = none;
}

abbrev pub scope : ErrorFilter → ErrorScope
scope filter = record { filter = filter; error = none }

abbrev pub clear : ErrorScope → ErrorScope
clear s = record s { error = none }

-- DeviceEventState::mark_lost: the flag is set, and every open scope forgets its error
unfoldable pub mark_lost : DeviceEvents → DeviceEvents
mark_lost e = record e { lost = true; error_scopes = map clear e.error_scopes }

-- DeviceEventState::push_error_scope
unfoldable pub push_error_scope : ErrorFilter → DeviceEvents → DeviceEvents
push_error_scope filter e = record e { error_scopes = scope filter ∷ e.error_scopes }

-- DeviceEventState::pop_error_scope
unfoldable pub pop_error_scope : DeviceEvents → Option DeviceError × DeviceEvents
pop_error_scope e = elim e.error_scopes [
  | [] ↦ (none, e)
  | s ∷ rest ↦ (s.error, record e { error_scopes = rest })
]

abbrev pub is_validation : ErrorFilter → Bool
is_validation ErrorFilter.validation = true
is_validation _ = false

-- `scope.error.is_none()` decides whether the error is kept
abbrev pub keep_first : DeviceError → Option DeviceError → Option DeviceError
keep_first error none = some error
keep_first error (some first) = some first

-- The search from the innermost scope: the scopes with the error recorded, or `none` if no scope
-- takes validation errors.
unfoldable pub record_validation : DeviceError → List ErrorScope → Option (List ErrorScope)
record_validation error [] = none
record_validation error (s ∷ rest) =
    if is_validation s.filter
    then some (record s { error = keep_first error s.error } ∷ rest)
    else elim (record_validation error rest) [ none ↦ none | some rest' ↦ some (s ∷ rest') ]

-- DeviceEventState::enqueue_uncaptured (the weak reference to the state itself is alive)
unfoldable pub enqueue_uncaptured : ℕ → ErrorType → String → World → World
enqueue_uncaptured d type_ message w =
    if (w.events d).lost
    then w
    else enqueue_settlement (Settlement.uncaptured_error d type_ message) w

-- DeviceErrorSink::generate_validation_error
unfoldable pub generate_validation_error : ℕ → String → World → World
unfolding record_validation enqueue_uncaptured
generate_validation_error d message w =
    if (w.events d).lost
    then w
    else elim (record_validation (record { type_ = ErrorType.validation; message = message })
        (w.events d).error_scopes) [
          | some scopes ↦ set_events d (record (w.events d) { error_scopes = scopes }) w
          | none ↦ enqueue_uncaptured d ErrorType.validation message w
        ]

-- GPUDevice.pushErrorScope, after the conversion of its argument; `device` is the native handle
unfoldable pub device_push_error_scope : ℕ → ℕ → ErrorFilter → World → World
unfolding push_error_scope
device_push_error_scope d device filter w =
    let w' = emit (Call.push_error_scope device filter) w in
    set_events d (push_error_scope filter (w'.events d)) w'

-- GPUDevice.popErrorScope: the synthetic error goes into the request, and the native scope is
-- popped
unfoldable pub device_pop_error_scope : ℕ → ℕ → World → Option DeviceError × World
unfolding pop_error_scope
device_pop_error_scope d device w =
    let (error, e) = pop_error_scope (w.events d) in
    (error, emit (Call.pop_error_scope device) (set_events d e w))

-- DeviceEventState::enqueue_lost
unfoldable pub enqueue_lost : ℕ → ℕ → String → World → World
enqueue_lost d reason message w = enqueue_settlement (Settlement.device_lost d reason message) w

-- The body of `device_lost_callback`, after the message has been copied
unfoldable pub device_lost_callback : ℕ → ℕ → String → World → World
unfolding mark_lost enqueue_lost
device_lost_callback d reason message w =
    enqueue_lost d reason message (set_events d (mark_lost (w.events d)) w)

-- What happens to the scopes of device `d`, with native handle `device`, between two ticks.
pub data ScopeOp : Type 0 where
  push : ErrorFilter → ScopeOp
  pop : ScopeOp
  generate : String → ScopeOp
  lose : ℕ → String → ScopeOp

unfoldable pub scope_step : ℕ → ℕ → ScopeOp → World → World
unfolding device_push_error_scope device_pop_error_scope generate_validation_error
    device_lost_callback
scope_step d device (push filter) w = device_push_error_scope d device filter w
scope_step d device pop w = (device_pop_error_scope d device w).1
scope_step d device (generate message) w = generate_validation_error d message w
scope_step d device (lose reason message) w = device_lost_callback d reason message w

unfoldable pub scope_run : ℕ → ℕ → List ScopeOp → World → World
scope_run d device [] w = w
scope_run d device (op ∷ ops) w = scope_run d device ops (scope_step d device op w)
