-- ===== src/World.antt =====
-- core/src/lib.rs: what the components of the binding share. A `World` holds the event state of
-- each device, the two queues of the environment, and the calls that left the binding, newest
-- first: calls of webgpu.h and of the engine, which are not part of this code.
-- Handles, engine values and promises are opaque numbers; the null handle is 0. A mutex is never
-- poisoned (no thread panics while it holds one), so the branches on a poisoned lock are left out.
use webgpu_native_js.Prelude.{
  ℕ, String, Bool, Option, List, [], ◌∷◌, ◌++◌, ◌==◌, if◌then◌else◌, ◌≡◌, arith,
}
use webgpu_native_js.Result.{JsError}

-- `handle.is_null()`
abbrev pub is_null : ℕ → Bool
is_null handle = handle == 0

-- WGPUErrorType, WGPUErrorFilter
pub data ErrorType : Type 0 where
  no_error validation out_of_memory internal unknown : ErrorType

pub data ErrorFilter : Type 0 where
  validation out_of_memory internal : ErrorFilter

-- SyntheticDeviceError, SyntheticErrorScope
pub record DeviceError : Type 0 where
  pub type_ : ErrorType
  pub message : String

pub record ErrorScope : Type 0 where
  pub filter : ErrorFilter
  pub error : Option DeviceError

-- RegisteredEventListener; `callback` is `none` for the place of the `onuncapturederror` handler
pub record Listener : Type 0 where
  pub id : ℕ
  pub type_ : String
  pub callback : Option ℕ
  pub once : Bool

-- DeviceEventJs
pub record DeviceEventJs : Type 0 where
  pub handler : Option ℕ
  pub listeners : List Listener
  pub next_listener_id : ℕ
  pub lost_promise : Option ℕ
  pub lost_deferred : Option ℕ
  pub lost_registered : Bool

-- DeviceEventState; the vector of scopes is kept innermost first
pub record DeviceEvents : Type 0 where
  pub wrapper_finalized : Bool
  pub lost : Bool
  pub lost_settled : Bool
  pub js : Option DeviceEventJs
  pub error_scopes : List ErrorScope
  -- the device under which the state is registered with the environment
  pub registration : Option ℕ

-- MapRequest; `buffer` is the buffer state that it shares
pub record MapRequest : Type 0 where
  pub deferred : Option ℕ
  pub mode : ℕ
  pub map_id : ℕ
  pub state : ℕ

-- The status of `WGPUCreatePipelineAsyncStatus` and of `WGPUPopErrorScopeStatus`
pub data PipelineStatus : Type 0 where
  success validation_error internal_error callback_cancelled : PipelineStatus

pub data PopStatus : Type 0 where
  success callback_cancelled error : PopStatus

-- ReleaseRequest, the variants that core/src/lib.rs builds
pub data ReleaseRequest : Type 0 where
  adapter device queue command_buffer render_bundle : ℕ → ReleaseRequest
  compute_pass_encoder render_pass_encoder shader_module : ℕ → ReleaseRequest
  pipeline_layout texture_view_only : ℕ → ReleaseRequest
  -- buffer, device
  buffer_with_device_ref : ℕ → ℕ → ReleaseRequest
  -- pipeline, module, layout
  compute_pipeline : ℕ → ℕ → ℕ → ReleaseRequest
  -- pipeline, vertex module, fragment module, layout
  render_pipeline : ℕ → ℕ → ℕ → ℕ → ReleaseRequest

-- SettlementRequest; `state` numbers the device whose event state the request shares
pub data Settlement : Type 0 where
  -- deferred, native handle
  adapter : ℕ → ℕ → Settlement
  adapter_unavailable : ℕ → Settlement
  -- deferred, native handle, state, label
  device : ℕ → ℕ → ℕ → String → Settlement
  -- deferred, pipeline, status, message, state, lost at start, module, layout, label
  compute_pipeline : ℕ → ℕ → PipelineStatus → String → ℕ → Bool → ℕ → ℕ → String → Settlement
  -- deferred, pipeline, status, message, state, lost at start, vertex module, fragment module,
  -- layout, label
  render_pipeline : ℕ → ℕ → PipelineStatus → String → ℕ → Bool → ℕ → ℕ → ℕ → String → Settlement
  -- deferred, messages (opaque)
  compilation_info : ℕ → ℕ → Settlement
  success : ℕ → Settlement
  -- deferred, name, message
  error : ℕ → String → String → Settlement
  -- buffer, mode, offset, size, request
  start_map : ℕ → ℕ → ℕ → ℕ → MapRequest → Settlement
  -- deferred, status, type, message, synthetic error, state
  pop_error_scope : ℕ → PopStatus → ErrorType → String → Option DeviceError → ℕ → Settlement
  -- state, type, message
  uncaptured_error : ℕ → ErrorType → String → Settlement
  -- state, reason, message
  device_lost : ℕ → ℕ → String → Settlement

-- How a promise is settled: with a value, or with a reason. The values that the engine builds are
-- named by what they are built from.
pub data Outcome : Type 0 where
  undefined null : Outcome
  -- an instance, as the engine numbers it
  instance_of : ℕ → Outcome
  -- a GPUError of a type
  gpu_error : ErrorType → String → Outcome
  compilation_messages : ℕ → Outcome
  -- reason, message
  lost_info : ℕ → String → Outcome
  -- a rejection with a named error
  async_error : String → String → Outcome
  -- a rejection with a GPUPipelineError: whether it is a validation error, and the message
  pipeline_error : Bool → String → Outcome
  -- a rejection with the error that the engine raised
  engine_error : JsError → Outcome

-- A call that leaves the binding.
pub data Call : Type 0 where
  buffer_destroy buffer_unmap device_destroy device_add_ref buffer_release device_release : ℕ → Call
  adapter_release shader_module_add_ref pipeline_layout_add_ref : ℕ → Call
  -- buffer, mode, offset, size, request
  buffer_map_async : ℕ → ℕ → ℕ → ℕ → MapRequest → Call
  -- native pointer, bytes: the copy back of a range that was mapped for writing
  copy_back : ℕ → List ℕ → Call
  -- device, usage, size, mapped at creation
  create_buffer : ℕ → ℕ → ℕ → Bool → Call
  push_error_scope : ℕ → ErrorFilter → Call
  pop_error_scope : ℕ → Call
  run_release : ReleaseRequest → Call
  queue_submit : List ℕ → Call
  pass_end pass_release encoder_finish command_buffer_release : ℕ → Call
  process_events drain_microtasks : Call
  settle_deferreds : List (ℕ × Outcome) → Call
  -- callback, event
  call_function : ℕ → ℕ → Call
  duplicate_value release_value release_deferred : ℕ → Call

pub record World : Type 0 where
  pub events : ℕ → DeviceEvents
  -- DeviceEventRegistry: device and state, oldest first
  pub registered : List (ℕ × ℕ)
  pub settlements : List Settlement
  pub releases : List ReleaseRequest
  pub calls : List Call

abbrev pub update {ℓ} : {State : Type ℓ} (of : ℕ → State) (p : ℕ) (new : State) (q : ℕ) → State
update of p new q = if p == q then new else of q

-- Call out.
abbrev pub emit : Call → World → World
emit c w = record w { calls = c ∷ w.calls }

-- SettlementQueue::enqueue and ReleaseQueue::enqueue
abbrev pub enqueue_settlement : Settlement → World → World
enqueue_settlement s w = record w { settlements = w.settlements ++ (s ∷ []) }

abbrev pub enqueue_release : ReleaseRequest → World → World
enqueue_release r w = record w { releases = w.releases ++ (r ∷ []) }

abbrev pub set_events : ℕ → DeviceEvents → World → World
set_events d e w = record w { events = update w.events d e }

pub update_self : {A : Type 0} (f : ℕ → A) (p : ℕ) (v : A) → update f p v p ≡ v
update_self f p v = ground arith
