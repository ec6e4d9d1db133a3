-- ===== src/ErrorScopes/Stack.antt =====
-- The scopes form a stack, and the innermost one that takes validation errors keeps the first.
use webgpu_native_js.Prelude.{
  ℕ, String, ◌≡◌, refl, ◌∙◌, true, false, Option, none, some, List, [], ◌∷◌, ◌++◌, arith, All,
}
use webgpu_native_js.World.{
  World, DeviceError, ErrorScope, ErrorType, ErrorFilter, Settlement, update, enqueue_settlement,
}
use webgpu_native_js.ErrorScopes.{
  scope, is_validation, keep_first, record_validation, generate_validation_error,
  device_push_error_scope, device_pop_error_scope,
}

abbrev pub synthetic : String → DeviceError
synthetic message = record { type_ = ErrorType.validation; message = message }

-- None of these scopes takes validation errors.
abbrev pub NoneValidation : List ErrorScope → Type 0
NoneValidation = All (λ s. is_validation s.filter ≡ false)

record_validation-inner :
    (error : DeviceError) (inner : List ErrorScope) (s : ErrorScope) (outer : List ErrorScope)
    → NoneValidation inner
    → is_validation s.filter ≡ true
    → record_validation error (inner ++ (s ∷ outer))
      ≡ some (inner ++ (record s { error = keep_first error s.error } ∷ outer))
unfolding record_validation
record_validation-inner error [] s outer h v = rw v
record_validation-inner error (x ∷ inner) s outer h v =
    rw (h.0, record_validation-inner error inner s outer h.1 v)

record_validation-none :
    (error : DeviceError) (scopes : List ErrorScope)
    → NoneValidation scopes
    → record_validation error scopes ≡ none
unfolding record_validation
record_validation-none error [] h = refl
record_validation-none error (x ∷ rest) h = rw (h.0, record_validation-none error rest h.1)

-- On a device that is not lost, a validation error goes to the innermost scope that takes
-- validation errors: that scope keeps its first error, every other scope, the other devices and
-- both queues stay as they are.
pub generate_validation_error_captured :
    (d : ℕ) (message : String) (w : World) (inner : List ErrorScope) (s : ErrorScope)
    (outer : List ErrorScope)
    → (w.events d).lost ≡ false
    → (w.events d).error_scopes ≡ inner ++ (s ∷ outer)
    → NoneValidation inner
    → is_validation s.filter ≡ true
    → generate_validation_error d message w ≡ record w {
      events = update w.events d (record (w.events d) {
        error_scopes =
            inner
            ++ (record s {
              error =
                  keep_first (record { type_ = ErrorType.validation; message = message }) s.error;
            }
                ∷ outer);
      });
    }
unfolding generate_validation_error
generate_validation_error_captured d message w inner s outer alive e h v =
    let error = synthetic message in
    let found : record_validation error (w.events d).error_scopes
        ≡ some (inner ++ (record s { error = keep_first error s.error } ∷ outer)) =
      rw e (record_validation-inner error inner s outer h v) in
    ground (arith, found)

-- With no such scope the error is queued as an uncaptured one, and nothing else changes.
pub generate_validation_error_uncaptured :
    (d : ℕ) (message : String) (w : World)
    → (w.events d).lost ≡ false
    → NoneValidation (w.events d).error_scopes
    → generate_validation_error d message w
      ≡ enqueue_settlement (Settlement.uncaptured_error d ErrorType.validation message) w
unfolding generate_validation_error
generate_validation_error_uncaptured d message w alive h =
    ground (arith, record_validation-none (synthetic message) (w.events d).error_scopes h)

-- The errors that the binding raises in a row.
abbrev pub generate_all : ℕ → List String → World → World
generate_all d [] w = w
generate_all d (m ∷ ms) w = generate_all d ms (generate_validation_error d m w)

abbrev pub first_error : List String → Option DeviceError
first_error [] = none
first_error (m ∷ ms) = some (synthetic m)

-- `generate_all` under a validation scope that has an error already changes nothing that is read
-- here.
generate_all-kept :
    (d : ℕ) (ms : List String) (w : World) (error : DeviceError) (outer : List ErrorScope)
    → (w.events d).lost ≡ false
    → (w.events d).error_scopes
      ≡ record { filter = ErrorFilter.validation; error = some error } ∷ outer
    → let w' = generate_all d ms w in
      ((w'.events d).error_scopes
        ≡ record { filter = ErrorFilter.validation; error = some error } ∷ outer)
      × (w'.settlements ≡ w.settlements)
unfolding generate_validation_error
generate_all-kept d [] w error outer alive e = (e, refl)
generate_all-kept d (m ∷ ms) w error outer alive e =
    let w' = generate_validation_error d m w in
    let same : ((w'.events d).lost ≡ false)
        × ((w'.events d).error_scopes
            ≡ record { filter = ErrorFilter.validation; error = some error } ∷ outer)
        × (w'.settlements ≡ w.settlements) =
      ground arith in
    let (scopes, queue) = generate_all-kept d ms w' error outer same.0 same.1 in
    (scopes, queue ∙ same.2)

generate_all-first :
    (d : ℕ) (ms : List String) (w : World) (outer : List ErrorScope)
    → (w.events d).lost ≡ false
    → (w.events d).error_scopes ≡ scope ErrorFilter.validation ∷ outer
    → let w' = generate_all d ms w in
      ((w'.events d).error_scopes
        ≡ record { filter = ErrorFilter.validation; error = first_error ms } ∷ outer)
      × (w'.settlements ≡ w.settlements)
unfolding generate_validation_error
generate_all-first d [] w outer alive e = (e, refl)
generate_all-first d (m ∷ ms) w outer alive e =
    let w' = generate_validation_error d m w in
    let same : ((w'.events d).lost ≡ false)
        × ((w'.events d).error_scopes
            ≡ record { filter = ErrorFilter.validation; error = some (synthetic m) } ∷ outer)
        × (w'.settlements ≡ w.settlements) =
      ground arith in
    let (scopes, queue) = generate_all-kept d ms w' (synthetic m) outer same.0 same.1 in
    (scopes, queue ∙ same.2)

-- A bracket of `pushErrorScope("validation")` and `popErrorScope()` on a device that is not lost,
-- around any validation errors of the binding: the pop hands out the first of them (or none), no
-- error reaches the queue, and the scopes are those of before.
pub error_scope_bracket :
    (d device : ℕ) (ms : List String) (w : World)
    → (w.events d).lost ≡ false
    → let r =
        device_pop_error_scope d device
          (generate_all d ms (device_push_error_scope d device ErrorFilter.validation w)) in
      (r.0 ≡ first_error ms)
      × ((r.1.events d).error_scopes ≡ (w.events d).error_scopes)
      × (r.1.settlements ≡ w.settlements)
unfolding device_push_error_scope device_pop_error_scope
error_scope_bracket d device ms w alive =
    let pushed = device_push_error_scope d device ErrorFilter.validation w in
    let (scopes, queue) =
      generate_all-first d ms pushed (w.events d).error_scopes (ground arith) (ground arith) in
    ground (arith, scopes, queue)

-- A scope for another kind of error is transparent to a validation error.
pub error_scope_transparent :
    (d device : ℕ) (filter : ErrorFilter) (message : String) (w : World)
    → is_validation filter ≡ false
    → let r =
        device_pop_error_scope d device
          (generate_validation_error d message (device_push_error_scope d device filter w)) in
      let plain = generate_validation_error d message w in
      (r.0 ≡ none)
      × ((r.1.events d).error_scopes ≡ (plain.events d).error_scopes)
      × (r.1.settlements ≡ plain.settlements)
unfolding device_push_error_scope device_pop_error_scope generate_validation_error
error_scope_transparent d device filter message w h = ground arith
