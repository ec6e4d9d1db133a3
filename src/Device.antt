-- ===== src/Device.antt =====
-- core/src/lib.rs, `DeviceBufferRegistry`, `createBuffer` and `destroy` of a `GPUDevice`, and the
-- finalizers of the device and of a buffer. The registry is kept with the states that its weak
-- references reach; a state that is dropped unregisters itself. What is converted from script and
-- what the engine and webgpu.h answer is an argument.
pub mod Destroy
pub mod Buffers
pub mod Invariant
pub mod References
use webgpu_native_js.Prelude.{
  ℕ, ◌+◌, ◌-◌, ◌%◌, ◌^◌, String, Bool, true, false, not, ◌&&◌, Option, none, some, List, [], ◌∷◌,
  ltb, ◌==◌, if◌then◌else◌,
}
use webgpu_native_js.Result.{Result, ok, err, JsError}
use webgpu_native_js.World.{World, ReleaseRequest, Call, emit, is_null, enqueue_release, set_events}
use webgpu_native_js.ErrorScopes.{mark_lost}
use webgpu_native_js.Registry.{mark_wrapper_finalized}
use webgpu_native_js.Buffer.{
  BufferState, Detached, detach_all_ranges, map_mode_write, keep_first, first_error,
}

-- GPUBufferDescriptor, as it was converted
pub record BufferDescriptor : Type 0 where
  pub size : ℕ
  pub usage : ℕ
  pub label : String
  pub mapped_at_creation : Bool

-- DevicePayload, with its DeviceBufferRegistry in the order of the identifiers; `events` numbers the
-- event state
pub record DevicePayload : Type 0 where
  pub device : ℕ
  pub destroyed : Bool
  pub events : ℕ
  pub next_id : ℕ
  pub buffers : List (ℕ × BufferState)

-- DeviceBufferRegistry::reserve_id; identifiers are `u64`
unfoldable pub reserve_id : DevicePayload → Option ℕ × DevicePayload
reserve_id d =
    if ltb (d.next_id + 1) (2 ^ 64)
    then (some d.next_id, record d { next_id = d.next_id + 1 })
    else (none, d)

-- BTreeMap::insert and BTreeMap::remove
abbrev pub insert : ℕ → BufferState → List (ℕ × BufferState) → List (ℕ × BufferState)
insert id b [] = (id, b) ∷ []
insert id b (p ∷ rest) =
    let more = insert id b rest in
    if ltb id p.0 then (id, b) ∷ p ∷ rest else if id == p.0 then (id, b) ∷ rest else p ∷ more

abbrev pub remove : ℕ → List (ℕ × BufferState) → List (ℕ × BufferState)
remove id [] = []
remove id (p ∷ rest) = let more = remove id rest in if id == p.0 then rest else p ∷ more

-- DeviceBufferRegistry::register and unregister, which the drop of a state calls
unfoldable pub register : ℕ → BufferState → DevicePayload → DevicePayload
register id b d = record d { buffers = insert id b d.buffers }

unfoldable pub unregister : ℕ → DevicePayload → DevicePayload
unregister id d = record d { buffers = remove id d.buffers }

-- The state of a new buffer; `state` is its identity
abbrev pub new_buffer : BufferDescriptor → ℕ → ℕ → ℕ → DevicePayload → BufferState
new_buffer descriptor buffer state id d = record {
  state = state;
  buffer = buffer;
  parent_device = d.device;
  registry_id = id;
  size = descriptor.size;
  usage = descriptor.usage;
  label = descriptor.label;
  destroyed = false;
  mapped = descriptor.mapped_at_creation;
  pending_map = none;
  canceling_map = none;
  next_map_id = 0;
  map_mode = if descriptor.mapped_at_creation then map_mode_write else 0;
  error_sink = d.events;
  ranges = [];
}

-- The `match` on the wrapper; a payload that finds no wrapper is dropped
abbrev pub wrap_buffer : Result ℕ → ℕ → ℕ → DevicePayload → World → Result ℕ × DevicePayload × World
wrap_buffer (ok value) buffer id d w = (ok value, d, w)
wrap_buffer (err error) buffer id d w = (
  err error,
  unregister id d,
  emit (Call.device_release d.device) (emit (Call.buffer_release buffer) w),
)

-- From the identifier on
abbrev pub with_id :
    BufferDescriptor
    → ℕ
    → ℕ
    → Result ℕ
    → Option ℕ
    → DevicePayload
    → World
    → Result ℕ × DevicePayload × World
with_id descriptor buffer state created none d w = (
  err (JsError.operation_error "GPUDevice buffer registry is unavailable"),
  d,
  emit (Call.buffer_release buffer) w,
)
with_id descriptor buffer state created (some id) d w =
    wrap_buffer created buffer id (register id (new_buffer descriptor buffer state id d) d)
      (emit (Call.device_add_ref d.device) w)

-- GPUDevice.createBuffer: `buffer` is the native answer, and `created` the wrapper
unfoldable pub device_create_buffer :
    BufferDescriptor → ℕ → ℕ → Result ℕ → DevicePayload → World → Result ℕ × DevicePayload × World
unfolding reserve_id register unregister
device_create_buffer descriptor buffer state created d w =
    let mapped = descriptor.mapped_at_creation in
    let asked = emit (Call.create_buffer d.device descriptor.usage descriptor.size mapped) w in
    let reserved = reserve_id d in
    if mapped && not (descriptor.size % 4 == 0)
    then (err (JsError.range_error "mappedAtCreation buffer size must be a multiple of 4"), d, w)
    else if mapped && ltb (2 ^ 32 - 1) descriptor.size
    then (
      err (JsError.range_error "mappedAtCreation buffer size exceeds the ArrayBuffer limit"),
      d,
      w,
    )
    else if is_null buffer
    then (
      err (
          if mapped
          then JsError.range_error "mappedAtCreation buffer allocation failed"
          else JsError.operation_error "wgpuDeviceCreateBuffer returned null"),
      d,
      asked,
    )
    else with_id descriptor buffer state created reserved.0 reserved.1 asked

abbrev pub keep_error : Option JsError → Result (Unit {0}) → Option JsError
keep_error first (ok done) = first
keep_error first (err error) = keep_first first error

-- The first loop of `destroy`: the ranges of each live buffer, and the first error
unfoldable pub detach_each :
    (ℕ → Detached)
    → List (ℕ × BufferState)
    → Option JsError
    → World
    → Option JsError × List (ℕ × BufferState) × World
unfolding detach_all_ranges
detach_each engine [] first w = (first, [], w)
detach_each engine (p ∷ rest) first w =
    let r = detach_all_ranges engine false p.1 w in
    let more = detach_each engine rest (keep_error first r.0) r.2 in
    (more.0, (p.0, r.1) ∷ more.1, more.2)

-- The second loop: a pending map is cancelled, and the buffer is unmapped.
abbrev pub let_go : BufferState → BufferState
let_go b = record b {
  canceling_map = b.pending_map;
  pending_map = none;
  mapped = false;
  map_mode = 0;
}

abbrev pub let_go_each : List (ℕ × BufferState) → List (ℕ × BufferState)
let_go_each [] = []
let_go_each (p ∷ rest) = (p.0, let_go p.1) ∷ let_go_each rest

abbrev pub after_detach :
    DevicePayload
    → Option JsError
    → List (ℕ × BufferState)
    → World
    → Result (Unit {0}) × DevicePayload × World
after_detach d (some error) buffers w = (err error, record d { buffers = buffers }, w)
after_detach d none buffers w = (
  ok tt,
  record d { buffers = let_go_each buffers; destroyed = true },
  emit (Call.device_destroy d.device) (set_events d.events (mark_lost (w.events d.events)) w),
)

-- GPUDevice.destroy
unfoldable pub device_destroy :
    (ℕ → Detached) → DevicePayload → World → Result (Unit {0}) × DevicePayload × World
unfolding detach_each mark_lost
device_destroy engine d w =
    let r = detach_each engine d.buffers none w in
    if d.destroyed then (ok tt, d, w) else after_detach d r.0 r.1 r.2

unfoldable pub finalize_device : DevicePayload → World → World
unfolding mark_wrapper_finalized
finalize_device d w =
    enqueue_release (ReleaseRequest.device d.device) (mark_wrapper_finalized d.events w)

unfoldable pub finalize_buffer : BufferState → World → World
finalize_buffer b w =
    enqueue_release (ReleaseRequest.buffer_with_device_ref b.buffer b.parent_device) w
