-- ===== src/Buffer.antt =====
-- core/src/lib.rs, `BufferState` and the operations of a `GPUBuffer`: mapping is asynchronous, a
-- pending map can be cancelled, and script sees copies of the mapped ranges.
-- What the engine and webgpu.h answer is an argument of the operation.
pub mod Ranges
pub mod Detach
pub mod Invariant
pub mod Mapping
pub mod Cancel
use webgpu_native_js.Prelude.{
  ℕ, zero, ◌+◌, ◌-◌, ◌%◌, ◌^◌, String, Bool, true, false, not, ◌&&◌, ◌||◌, Option, none, some, List,
  [], ◌∷◌, leb, ◌==◌, if◌then◌else◌, ◌++◌,
}
use webgpu_native_js.Result.{Result, ok, err, JsError}
use webgpu_native_js.World.{World, MapRequest, Settlement, Call, emit, enqueue_settlement, is_null}
use webgpu_native_js.ErrorScopes.{generate_validation_error}

-- WGPUMapMode_Read and WGPUMapMode_Write of webgpu.h
abbrev pub map_mode_read : ℕ
map_mode_read = 1

abbrev pub map_mode_write : ℕ
map_mode_write = 2

-- MappedRange: `value` is the script's ArrayBuffer
pub record MappedRange : Type 0 where
  pub value : ℕ
  pub offset : ℕ
  pub size : ℕ
  pub native_ptr : ℕ
  pub map_mode : ℕ

-- BufferState; `error_sink` numbers the device whose errors it raises, and `state` is the identity
-- of this shared state. The label is kept as it was converted.
pub record BufferState : Type 0 where
  pub state : ℕ
  pub buffer : ℕ
  pub parent_device : ℕ
  pub registry_id : ℕ
  pub size : ℕ
  pub usage : ℕ
  pub label : String
  pub destroyed : Bool
  pub mapped : Bool
  pub pending_map : Option ℕ
  pub canceling_map : Option ℕ
  pub next_map_id : ℕ
  pub map_mode : ℕ
  pub error_sink : ℕ
  pub ranges : List MappedRange

abbrev pub is_some {ℓ} : {A : Type ℓ} → Option A → Bool
is_some none = false
is_some (some _) = true

abbrev pub is_id : Option ℕ → ℕ → Bool
is_id none id = false
is_id (some i) id = i == id

-- `usize` has 64 bits
unfoldable pub mapped_ranges_overlap : ℕ → ℕ → ℕ → ℕ → Bool
mapped_ranges_overlap first_offset first_size second_offset second_size =
    if leb (2 ^ 64) (first_offset + first_size)
    then true
    else if leb (2 ^ 64) (second_offset + second_size)
    then true
    else not (
        leb (second_offset + second_size) first_offset
        || leb (first_offset + first_size) second_offset)

-- What the engine answers when a range is detached: the error, the length of the ArrayBuffer
-- afterwards, and the bytes that it held, which are copied out only if they are asked for.
pub record Detached : Type 0 where
  pub error : Option JsError
  pub len : Option ℕ
  pub bytes : List ℕ

abbrev pub keep_first : Option JsError → JsError → Option JsError
keep_first none e = some e
keep_first (some first) e = some first

abbrev pub is_detached : Option ℕ → Bool
is_detached (some zero) = true
is_detached _ = false

-- The body of the loop of `detach_all_ranges`, for one range
unfoldable pub detach_range :
    (ℕ → Detached) → Bool → MappedRange → Option JsError × World → Option JsError × World
detach_range engine flush range (first_error, w) =
    let copy = flush && range.map_mode == map_mode_write in
    elim (engine range.value).error [
      | some e ↦ (keep_first first_error e, emit (Call.release_value range.value) w)
      | none ↦
          if not (is_detached (engine range.value).len)
          then (
            keep_first first_error (JsError.operation_error "mapped range detach failed"),
            emit (Call.release_value range.value) w,
          )
          else (
            first_error,
            emit (Call.release_value range.value) (
                if copy
                then emit (Call.copy_back range.native_ptr (engine range.value).bytes) w
                else w),
          )
    ]

unfoldable pub detach_ranges :
    (ℕ → Detached) → Bool → List MappedRange → Option JsError × World → Option JsError × World
detach_ranges engine flush [] s = s
detach_ranges engine flush (range ∷ rest) s =
    detach_ranges engine flush rest (detach_range engine flush range s)

abbrev pub first_error : Option JsError → Result (Unit {0})
first_error none = ok tt
first_error (some e) = err e

-- detach_all_ranges: the ranges are gone whatever the engine answers
unfoldable pub detach_all_ranges :
    (ℕ → Detached) → Bool → BufferState → World → Result (Unit {0}) × BufferState × World
unfolding detach_range detach_ranges
detach_all_ranges engine flush b w =
    let (error, w') = detach_ranges engine flush b.ranges (none, w) in
    (first_error error, record b { ranges = [] }, w')

-- GPUBuffer.unmap
unfoldable pub buffer_unmap :
    (ℕ → Detached) → BufferState → World → Result (Unit {0}) × BufferState × World
unfolding detach_all_ranges
buffer_unmap engine b w =
    if b.destroyed
    then (ok tt, b, w)
    else let pending = b.pending_map in
      let b₁ = record b {
        pending_map = none;
        canceling_map = if is_some pending then pending else b.canceling_map;
      } in
      let (detached, b₂, w₂) =
        if b₁.mapped then detach_all_ranges engine true b₁ w else (ok tt, b₁, w) in
      elim detached [
        | err e ↦ (err e, b₂, w₂)
        | ok _ ↦ (
          ok tt,
          record b₂ { mapped = false; map_mode = 0 },
          if b₂.mapped || is_some pending then emit (Call.buffer_unmap b.buffer) w₂ else w₂,
        )
      ]

-- GPUBuffer.destroy
unfoldable pub buffer_destroy :
    (ℕ → Detached) → BufferState → World → Result (Unit {0}) × BufferState × World
unfolding detach_all_ranges
buffer_destroy engine b w =
    if b.destroyed
    then (ok tt, b, w)
    else let b₁ = record b { canceling_map = b.pending_map; pending_map = none } in
      let (detached, b₂, w₂) = detach_all_ranges engine false b₁ w in
      elim detached [
        | err e ↦ (err e, b₂, w₂)
        | ok _ ↦ (
          ok tt,
          record b₂ { destroyed = true; mapped = false; map_mode = 0 },
          emit (Call.buffer_destroy b.buffer) w₂,
        )
      ]

-- start_buffer_map
abbrev pub start_buffer_map : ℕ → ℕ → ℕ → ℕ → MapRequest → World → World
start_buffer_map buffer mode offset size request w =
    emit (Call.buffer_map_async buffer mode offset size request) w

-- buffer_map_async_inner, after the conversion of its arguments: `deferred` is the promise that
-- `promise_operation` made, and it stays there on an error
unfoldable pub buffer_map_async_inner :
    ℕ → ℕ → ℕ → ℕ → BufferState → World → Result (Unit {0}) × BufferState × World
buffer_map_async_inner mode offset size deferred b w =
    if b.destroyed
    then (
      ok tt,
      b,
      enqueue_settlement (Settlement.error deferred "OperationError" "GPUBuffer is destroyed")
          (generate_validation_error b.error_sink "GPUBuffer is destroyed" w),
    )
    else if b.mapped || is_some b.pending_map
    then (
      err (JsError.operation_error "GPUBuffer.mapAsync requires the buffer to be unmapped"),
      b,
      generate_validation_error b.error_sink "GPUBuffer.mapAsync requires the buffer to be unmapped"
          w,
    )
    else let map_id = (b.next_map_id + 1) % 2 ^ 64 in
      let request : MapRequest = record {
        deferred = some deferred;
        mode = mode;
        map_id = map_id;
        state = b.state;
      } in
      (
        ok tt,
        record b { next_map_id = map_id; pending_map = some map_id },
        if is_some b.canceling_map
            then enqueue_settlement (Settlement.start_map b.buffer mode offset size request) w
            else start_buffer_map b.buffer mode offset size request w,
      )

-- WGPUMapAsyncStatus
pub data MapStatus : Type 0 where
  success error aborted callback_cancelled other : MapStatus

abbrev pub map_failure : MapStatus → String × String
map_failure MapStatus.error = ("OperationError", "mapAsync error")
map_failure MapStatus.aborted = ("AbortError", "mapAsync aborted")
map_failure MapStatus.callback_cancelled = ("AbortError", "mapAsync callback cancelled")
map_failure _ = ("OperationError", "mapAsync failed")

abbrev pub is_success : MapStatus → Bool
is_success MapStatus.success = true
is_success _ = false

-- The critical section of `buffer_map_callback`: whether the map was cancelled, and the new state
unfoldable pub map_callback_state : MapStatus → MapRequest → BufferState → Bool × BufferState
map_callback_state status request b =
    if not (is_id b.pending_map request.map_id)
    then (
      true,
      record b {
        canceling_map = if is_id b.canceling_map request.map_id then none else b.canceling_map;
      },
    )
    else (
      false,
      if is_success status
          then record b { pending_map = none; mapped = true; map_mode = request.mode }
          else record b { pending_map = none },
    )

-- `callback_message`, whose text is built from what the backend reports, is the argument `message`
abbrev pub map_settlement : MapStatus → (String → String) → ℕ → Bool → Settlement
map_settlement status message deferred true =
    Settlement.error deferred "AbortError" "mapAsync was canceled"
map_settlement status message deferred false =
    if is_success status
    then Settlement.success deferred
    else Settlement.error deferred (map_failure status).0 (message (map_failure status).1)

-- buffer_map_callback
unfoldable pub buffer_map_callback :
    MapStatus → (String → String) → MapRequest → BufferState → World → BufferState × World
unfolding map_callback_state
buffer_map_callback status message request b w = elim request.deferred [
  | none ↦ (b, w)
  | some deferred ↦
      let (canceled, b') = map_callback_state status request b in
      (b', enqueue_settlement (map_settlement status message deferred canceled) w)
]

abbrev pub any_overlap : ℕ → ℕ → List MappedRange → Bool
any_overlap offset size [] = false
any_overlap offset size (r ∷ rest) =
    mapped_ranges_overlap offset size r.offset r.size || any_overlap offset size rest

-- The size of `getMappedRange` without an explicit one
unfoldable pub default_range_size : BufferState → ℕ → Result ℕ
default_range_size b offset =
    if leb (b.size - offset) (2 ^ 32 - 1)
    then ok (b.size - offset)
    else err (JsError.operation_error "mapped range size is unsupported")

abbrev pub range_size : BufferState → ℕ → Option ℕ → Result ℕ
range_size b offset (some size) = ok size
range_size b offset none = default_range_size b offset

-- GPUBuffer.getMappedRange, after the conversion of its arguments; `ptr` is what webgpu.h returns
-- for the range, and `created` the ArrayBuffer that the engine makes of it
unfoldable pub buffer_get_mapped_range :
    ℕ → Option ℕ → (ℕ → ℕ → ℕ) → Result ℕ → BufferState → World → Result ℕ × BufferState × World
unfolding default_range_size
buffer_get_mapped_range offset explicit_size native_range created b w =
    if b.destroyed || not b.mapped
    then (err (JsError.operation_error "buffer is not mapped"), b, w)
    else elim (range_size b offset explicit_size) [
      | err e ↦ (err e, b, w)
      | ok size ↦
          if any_overlap offset size b.ranges
          then (
            err (JsError.operation_error "mapped range overlaps an existing mapped range"),
            b,
            w,
          )
          else if is_null (native_range offset size)
          then (
            err (
                JsError.operation_error
                  "wgpuBufferGetMappedRange returned null for current map mode"),
            b,
            w,
          )
          else elim created [
            | err e ↦ (err e, b, w)
            | ok value ↦ (
              ok value,
              record b {
                ranges =
                    b.ranges
                    ++ (record {
                      value = value;
                      offset = offset;
                      size = size;
                      native_ptr = native_range offset size;
                      map_mode = b.map_mode;
                    }
                        ∷ []);
              },
              emit (Call.duplicate_value value) w,
            )
          ]
    ]

-- GPUBuffer.mapState
pub data MapState : Type 0 where
  mapped pending unmapped : MapState

unfoldable pub buffer_map_state_get : BufferState → MapState
buffer_map_state_get b =
    if b.mapped
    then MapState.mapped
    else if is_some b.pending_map
    then MapState.pending
    else MapState.unmapped
