-- ===== src/Buffer/Cancel.antt =====
-- Cancelled maps, and the single native destruction.
use webgpu_native_js.Prelude.{
  ℕ, ◌+◌, ◌^◌, ◌≤◌, ◌<◌, ◌≡◌, ◌≢◌, refl, ◌∙◌, String, Bool, true, false, Option, none, some, List,
  [], ◌∷◌, ◌++◌, arith, if◌then◌else◌, length,
}
use webgpu_native_js.Result.{JsError}
use webgpu_native_js.World.{World, MapRequest, Settlement, Call}
use webgpu_native_js.ErrorScopes.{generate_validation_error}
use webgpu_native_js.Buffer.{
  MappedRange, BufferState, Detached, MapStatus, detach_range, detach_ranges, buffer_map_callback,
}
use webgpu_native_js.Buffer.Invariant.{Inv}
use webgpu_native_js.Buffer.Mapping.{
  Op, map_async, callback, get_mapped_range, unmap, destroy, step, run, map_callback_lem,
}

-- How often webgpu.h was asked to destroy a buffer.
abbrev pub destroys : List Call → ℕ
destroys [] = 0
destroys (Call.buffer_destroy b ∷ cs) = 1 + destroys cs
destroys (_ ∷ cs) = destroys cs

-- The native destructions so far, and the one that is still to come.
abbrev budget : BufferState × World → ℕ
budget (b, w) = destroys w.calls + (if b.destroyed then 0 else 1)

destroys-range :
    (engine : ℕ → Detached) (flush : Bool) (r : MappedRange) (e : Option JsError) (w : World)
    → destroys (detach_range engine flush r (e, w)).1.calls ≡ destroys w.calls
unfolding detach_range
destroys-range engine flush r e w = ground arith

destroys-ranges :
    (engine : ℕ → Detached) (flush : Bool) (rs : List MappedRange) (e : Option JsError) (w : World)
    → destroys (detach_ranges engine flush rs (e, w)).1.calls ≡ destroys w.calls
unfolding detach_ranges
destroys-ranges engine flush [] e w = refl
destroys-ranges engine flush (r ∷ rs) e w =
    let (e', w') = detach_range engine flush r (e, w) in
    destroys-ranges engine flush rs e' w' ∙ destroys-range engine flush r e w

pub calls-generate_validation_error :
    (d : ℕ) (message : String) (w : World) → (generate_validation_error d message w).calls ≡ w.calls
unfolding generate_validation_error
calls-generate_validation_error d message w = ground arith

budget-step : (op : Op) (s : BufferState × World) → budget (step op s) ≡ budget s
unfolding step
budget-step (map_async mode offset size deferred) (b, w) = ground (
  arith,
  calls-generate_validation_error b.error_sink "GPUBuffer is destroyed" w,
  calls-generate_validation_error b.error_sink
      "GPUBuffer.mapAsync requires the buffer to be unmapped" w,
)
budget-step (callback status message request) (b, w) = ground arith
budget-step (get_mapped_range offset size native_range created) (b, w) = ground arith
budget-step (unmap engine) (b, w) = ground (arith, destroys-ranges engine true b.ranges none w)
budget-step (destroy engine) (b, w) = ground (arith, destroys-ranges engine false b.ranges none w)

budget-run : (ops : List Op) (s : BufferState × World) → budget (run ops s) ≡ budget s
unfolding run
budget-run [] s = refl
budget-run (op ∷ ops) s = budget-run ops (step op s) ∙ budget-step op s

-- Over any history of a buffer that is not destroyed at first, webgpu.h is asked to destroy it
-- once if it is destroyed at the end, and never if it is not.
pub destroyed_once :
    (ops : List Op) (b : BufferState) (w : World)
    → b.destroyed ≡ false
    → let (b', w') = run ops (b, w) in
      destroys w'.calls ≡ destroys w.calls + (if b'.destroyed then 1 else 0)
destroyed_once ops b w alive = ground (arith, budget-run ops (b, w))

-- The map `id` is not pending and its number will not come back soon.
abbrev Stale : ℕ → BufferState → Type 0
Stale id b = (id ≤ b.next_map_id) × (b.pending_map ≢ some id)

Stale-step :
    (op : Op) (id : ℕ) (s : BufferState × World)
    → Stale id s.0
    → s.0.next_map_id + 1 < 2 ^ 64
    → Stale id (step op s).0 × ((step op s).0.next_map_id ≤ s.0.next_map_id + 1)
unfolding step
Stale-step (map_async mode offset size deferred) id (b, w) h k = ground arith
Stale-step (callback status message request) id (b, w) h k = ground arith
Stale-step (get_mapped_range offset size native_range created) id (b, w) h k = ground arith
Stale-step (unmap engine) id (b, w) h k = ground arith
Stale-step (destroy engine) id (b, w) h k = ground arith

Stale-run :
    (ops : List Op) (id : ℕ) (s : BufferState × World)
    → Stale id s.0
    → s.0.next_map_id + length ops < 2 ^ 64
    → Stale id (run ops s).0
unfolding run
Stale-run [] id s h k = h
Stale-run (op ∷ ops) id s h k =
    let (h', k') = Stale-step op id s h (omega arith) in
    Stale-run ops id (step op s) h' (omega arith)

abbrev pub cancel_by : Bool → (ℕ → Detached) → Op
cancel_by true engine = unmap engine
cancel_by false engine = destroy engine

cancel-Stale :
    (by_unmap : Bool) (engine : ℕ → Detached) (id : ℕ) (b : BufferState) (w : World)
    → Inv b
    → b.pending_map ≡ some id
    → Stale id (step (cancel_by by_unmap engine) (b, w)).0
      × ((step (cancel_by by_unmap engine) (b, w)).0.next_map_id ≡ b.next_map_id)
unfolding step
cancel-Stale true engine id b w v p = ground arith
cancel-Stale false engine id b w v p = ground arith

-- A pending map of a well-formed buffer that `unmap` or `destroy` cancels stays cancelled, whatever
-- is called afterwards (as long as the map identifiers do not wrap around) and whatever webgpu.h
-- reports for it: its promise is rejected with an AbortError, and its callback neither maps the
-- buffer nor disturbs a later map.
pub canceled_map_aborts :
    (by_unmap : Bool) (engine : ℕ → Detached) (ops : List Op) (status : MapStatus)
    (message : String → String) (request : MapRequest) (deferred : ℕ) (b : BufferState) (w : World)
    → Inv b
    → b.pending_map ≡ some request.map_id
    → request.deferred ≡ some deferred
    → b.next_map_id + length ops < 2 ^ 64
    → let s = run ops (step (cancel_by by_unmap engine) (b, w)) in
      let r = buffer_map_callback status message request s.0 s.1 in
      (r.1.settlements
        ≡ s.1.settlements ++ (Settlement.error deferred "AbortError" "mapAsync was canceled" ∷ []))
      × (r.0.mapped ≡ s.0.mapped)
      × (r.0.map_mode ≡ s.0.map_mode)
      × (r.0.pending_map ≡ s.0.pending_map)
canceled_map_aborts by_unmap engine ops status message request deferred b w v p d k =
    let start = step (cancel_by by_unmap engine) (b, w) in
    let (stale, same) = cancel-Stale by_unmap engine request.map_id b w v p in
    let later = Stale-run ops request.map_id start stale (omega arith) in
    let s = run ops start in
    ground (arith, later, map_callback_lem status message request deferred s.0 s.1 d)
