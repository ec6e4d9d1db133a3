-- ===== src/Callbacks.antt =====
-- core/src/lib.rs: the callbacks that webgpu.h calls in `wgpuInstanceProcessEvents`. Each takes the
-- deferred of its request, which is gone if the engine was torn down meanwhile, and puts a request
-- on the settlement queue. The userdata is never null, a callback does not panic, and a message is
-- the string that `callback_string` copies. What `copy_compilation_messages` makes of the native
-- messages is an argument.
pub mod Answers
pub mod Owners
use Prim.Native.String
use text.Mathlib.Text
use webgpu_native_js.Prelude.{
  ℕ, ◌+◌, String, Bool, true, false, not, ◌&&◌, Option, none, some, List, [], ◌∷◌, ◌++◌, ◌==◌,
  if◌then◌else◌,
}
use webgpu_native_js.World.{
  World, ErrorType, DeviceError, PipelineStatus, PopStatus, MapRequest, ReleaseRequest, Settlement,
  Call, emit, is_null, enqueue_settlement, enqueue_release,
}
use webgpu_native_js.ErrorScopes.{enqueue_uncaptured, device_lost_callback}
use webgpu_native_js.Buffer.{BufferState, MapStatus, buffer_map_callback}
use webgpu_native_js.Settlement.{enqueue_compute_pipeline_release, enqueue_render_pipeline_release}

-- WGPURequestAdapterStatus and its like of webgpu.h
pub data RequestStatus : Type 0 where
  success callback_cancelled unavailable error : RequestStatus

abbrev pub request_succeeded : RequestStatus → Bool
request_succeeded RequestStatus.success = true
request_succeeded _ = false

-- callback_message
unfoldable pub callback_message : String → String → String
callback_message message fallback =
    if Text.◌==◌ message "" then fallback else String.◌++◌ fallback (String.◌++◌ ": " message)

-- request_adapter_callback: the status, the adapter, and the deferred of the request
unfoldable pub request_adapter_callback : RequestStatus → ℕ → Option ℕ → World → World
request_adapter_callback status adapter none w =
    if is_null adapter then w else emit (Call.adapter_release adapter) w
request_adapter_callback status adapter (some deferred) w =
    if request_succeeded status && not (is_null adapter)
    then enqueue_settlement (Settlement.adapter deferred adapter) w
    else (let w' =
          if is_null adapter then w else enqueue_release (ReleaseRequest.adapter adapter) w in
        enqueue_settlement (Settlement.adapter_unavailable deferred) w')

-- request_device_callback; `state` numbers the event state, and `label` is the request's
unfoldable pub request_device_callback :
    RequestStatus → ℕ → String → ℕ → String → Option ℕ → World → World
unfolding callback_message
request_device_callback status device message state label none w =
    if is_null device then w else emit (Call.device_release device) w
request_device_callback status device message state label (some deferred) w =
    if request_succeeded status && not (is_null device)
    then enqueue_settlement (Settlement.device deferred device state label) w
    else (let w' = if is_null device then w else enqueue_release (ReleaseRequest.device device) w in
        enqueue_settlement
          (Settlement.error deferred "OperationError"
            (callback_message message "requestDevice failed"))
          w')

-- ComputePipelineRequest and RenderPipelineRequest, less the deferred and the queues
pub record ComputePipelineRequest : Type 0 where
  pub state : ℕ
  pub lost_at_start : Bool
  pub module_ : ℕ
  pub layout : ℕ
  pub label : String

pub record RenderPipelineRequest : Type 0 where
  pub state : ℕ
  pub lost_at_start : Bool
  pub vertex_module : ℕ
  pub fragment_module : ℕ
  pub layout : ℕ
  pub label : String

-- create_compute_pipeline_callback
unfoldable pub create_compute_pipeline_callback :
    PipelineStatus → ℕ → String → ComputePipelineRequest → Option ℕ → World → World
unfolding enqueue_compute_pipeline_release
create_compute_pipeline_callback status pipeline message r none w =
    enqueue_compute_pipeline_release pipeline r.module_ r.layout w
create_compute_pipeline_callback status pipeline message r (some deferred) w =
    enqueue_settlement
      (Settlement.compute_pipeline deferred pipeline status message r.state r.lost_at_start
        r.module_ r.layout r.label)
      w

-- create_render_pipeline_callback
unfoldable pub create_render_pipeline_callback :
    PipelineStatus → ℕ → String → RenderPipelineRequest → Option ℕ → World → World
unfolding enqueue_render_pipeline_release
create_render_pipeline_callback status pipeline message r none w =
    enqueue_render_pipeline_release pipeline r.vertex_module r.fragment_module r.layout w
create_render_pipeline_callback status pipeline message r (some deferred) w =
    enqueue_settlement
      (Settlement.render_pipeline deferred pipeline status message r.state r.lost_at_start
        r.vertex_module r.fragment_module r.layout r.label)
      w

-- What `copy_compilation_messages` answers: the messages, or what is wrong with them
pub data Copied : Type 0 where
  messages : ℕ → Copied
  failure : String → Copied

-- compilation_info_callback; a null information is none
abbrev pub copied_settlement : ℕ → Option Copied → Settlement
copied_settlement deferred none =
    Settlement.error deferred "OperationError" "getCompilationInfo returned null"
copied_settlement deferred (some (messages m)) = Settlement.compilation_info deferred m
copied_settlement deferred (some (failure message)) =
    Settlement.error deferred "OperationError" message

abbrev pub compilation_settlement : RequestStatus → ℕ → Option Copied → Settlement
compilation_settlement RequestStatus.success deferred info = copied_settlement deferred info
compilation_settlement RequestStatus.callback_cancelled deferred info =
    Settlement.error deferred "OperationError" "getCompilationInfo callback cancelled"
compilation_settlement _ deferred info =
    Settlement.error deferred "OperationError" "getCompilationInfo failed"

unfoldable pub compilation_info_callback : RequestStatus → Option Copied → Option ℕ → World → World
compilation_info_callback status info none w = w
compilation_info_callback status info (some deferred) w =
    enqueue_settlement (compilation_settlement status deferred info) w

-- queue_work_done_callback
unfoldable pub queue_work_done_callback : RequestStatus → String → Option ℕ → World → World
unfolding callback_message
queue_work_done_callback status message none w = w
queue_work_done_callback status message (some deferred) w =
    enqueue_settlement
      (if request_succeeded status
        then Settlement.success deferred
        else Settlement.error deferred "OperationError"
            (callback_message message "onSubmittedWorkDone failed"))
      w

-- uncaptured_error_callback
unfoldable pub uncaptured_error_callback : ErrorType → String → ℕ → World → World
unfolding enqueue_uncaptured
uncaptured_error_callback type_ message state w = enqueue_uncaptured state type_ message w

-- pop_error_scope_callback
unfoldable pub pop_error_scope_callback :
    PopStatus → ErrorType → String → Option DeviceError → ℕ → Option ℕ → World → World
pop_error_scope_callback status type_ message synthetic state none w = w
pop_error_scope_callback status type_ message synthetic state (some deferred) w =
    enqueue_settlement (Settlement.pop_error_scope deferred status type_ message synthetic state) w

-- A callback, with what webgpu.h passes and what its request holds; that of `mapAsync` also changes
-- the state of its buffer.
pub data Callback : Type 0 where
  adapter : RequestStatus → ℕ → Option ℕ → Callback
  device : RequestStatus → ℕ → String → ℕ → String → Option ℕ → Callback
  compute_pipeline : PipelineStatus → ℕ → String → ComputePipelineRequest → Option ℕ → Callback
  render_pipeline : PipelineStatus → ℕ → String → RenderPipelineRequest → Option ℕ → Callback
  compilation_info : RequestStatus → Option Copied → Option ℕ → Callback
  buffer_map : MapStatus → (String → String) → MapRequest → BufferState → Callback
  work_done : RequestStatus → String → Option ℕ → Callback
  uncaptured_error : ErrorType → String → ℕ → Callback
  -- reason, message, state
  device_lost : ℕ → String → ℕ → Callback
  pop_error_scope : PopStatus → ErrorType → String → Option DeviceError → ℕ → Option ℕ → Callback

unfoldable pub run_callback : Callback → World → World
unfolding request_adapter_callback request_device_callback create_compute_pipeline_callback
    create_render_pipeline_callback compilation_info_callback buffer_map_callback
    queue_work_done_callback uncaptured_error_callback device_lost_callback pop_error_scope_callback
run_callback (Callback.adapter status a d) w = request_adapter_callback status a d w
run_callback (Callback.device status native message state label d) w =
    request_device_callback status native message state label d w
run_callback (Callback.compute_pipeline status p message r d) w =
    create_compute_pipeline_callback status p message r d w
run_callback (Callback.render_pipeline status p message r d) w =
    create_render_pipeline_callback status p message r d w
run_callback (Callback.compilation_info status info d) w = compilation_info_callback status info d w
run_callback (Callback.buffer_map status message r b) w =
    (buffer_map_callback status message r b w).1
run_callback (Callback.work_done status message d) w = queue_work_done_callback status message d w
run_callback (Callback.uncaptured_error type_ message state) w =
    uncaptured_error_callback type_ message state w
run_callback (Callback.device_lost reason message state) w =
    device_lost_callback state reason message w
run_callback (Callback.pop_error_scope status type_ message synthetic state d) w =
    pop_error_scope_callback status type_ message synthetic state d w

-- The callbacks of one `wgpuInstanceProcessEvents`, in their order
unfoldable pub run_callbacks : List Callback → World → World
unfolding run_callback
run_callbacks [] w = w
run_callbacks (c ∷ cs) w = run_callbacks cs (run_callback c w)
