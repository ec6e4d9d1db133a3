-- ===== src/Settlement.antt =====
-- core/src/lib.rs, `SettlementRequest` and `SettlementQueue`: what a request becomes when it is
-- drained (`prepare`), the drain, and the release of what is left at teardown. Callbacks of
-- webgpu.h only run inside `wgpuInstanceProcessEvents`, and building a value runs no script, so
-- that the queue gets no request while it is drained. The mutex of the queue is never poisoned, and
-- all requests are of the one engine.
pub mod Queue
pub mod Owed
pub mod Arms
pub mod Conserve
pub mod Steady
pub mod Drain
pub mod Retry
pub mod Notified
pub mod Losses
pub mod Starts
pub mod Teardown
use Prim.Native.String
use text.Mathlib.Text
use webgpu_native_js.Prelude.{
  ℕ, ◌+◌, String, Bool, true, false, not, ◌&&◌, ◌||◌, Option, none, some, [], ◌++◌, ◌==◌,
  if◌then◌else◌,
}
use webgpu_native_js.Result.{Result, ok, err, JsError}
use webgpu_native_js.World.{
  World, DeviceEvents, DeviceEventJs, DeviceError, ErrorType, PipelineStatus, PopStatus, MapRequest,
  ReleaseRequest, Settlement, Outcome, Call, emit, is_null, enqueue_release, set_events,
}
use webgpu_native_js.Registry.{register_device_events, mark_lost_settled}
use webgpu_native_js.Buffer.{start_buffer_map}

-- What the engine answers: whether the value for a promise can be built, and the promise of a
-- device's loss with its deferred, for the event state of the device.
pub record Engine : Type 0 where
  pub fails : ℕ → Option JsError
  pub promise : ℕ → Result (ℕ × ℕ)

-- SettlementOutcome
pub data Prepared : Type 0 where
  deferred : ℕ → Outcome → Prepared
  retry : Settlement → Prepared
  uncaptured : ℕ → ErrorType → String → Prepared
  nothing : Prepared

-- A value, or the error that building it raised
abbrev pub value_or_error : Option JsError → Outcome → Outcome
value_or_error none value = value
value_or_error (some error) value = Outcome.engine_error error

-- A value that is built, or else the error, and what is released then
abbrev pub made : Option JsError → ℕ → Outcome → World → World → Prepared × World
made none d value w failed = (deferred d value, w)
made (some error) d value w failed = (deferred d (Outcome.engine_error error), failed)

-- enqueue_compute_pipeline_release
unfoldable pub enqueue_compute_pipeline_release : ℕ → ℕ → ℕ → World → World
enqueue_compute_pipeline_release pipeline module_ layout w =
    if is_null pipeline
    then (let w' = enqueue_release (ReleaseRequest.shader_module module_) w in
        if is_null layout then w' else enqueue_release (ReleaseRequest.pipeline_layout layout) w')
    else enqueue_release (ReleaseRequest.compute_pipeline pipeline module_ layout) w

-- enqueue_render_pipeline_release
unfoldable pub enqueue_render_pipeline_release : ℕ → ℕ → ℕ → ℕ → World → World
enqueue_render_pipeline_release pipeline vertex fragment layout w =
    if is_null pipeline
    then (let w₁ = enqueue_release (ReleaseRequest.shader_module vertex) w in
        let w₂ =
          if is_null fragment
          then w₁
          else enqueue_release (ReleaseRequest.shader_module fragment) w₁ in
        if is_null layout then w₂ else enqueue_release (ReleaseRequest.pipeline_layout layout) w₂)
    else enqueue_release (ReleaseRequest.render_pipeline pipeline vertex fragment layout) w

-- DeviceEventState::initialize
unfoldable pub initialize : Result (ℕ × ℕ) → ℕ → World → Option JsError × World
initialize (err error) d w = (some error, w)
initialize (ok promise) d w = (
  none,
  set_events d
      (record (w.events d) {
        js = some (record {
          handler = none;
          listeners = [];
          next_listener_id = 0;
          lost_promise = some promise.0;
          lost_deferred = some promise.1;
          lost_registered = true;
        });
      })
      (emit (Call.duplicate_value promise.0) w),
)

abbrev pub release_deferred : Option ℕ → World → World
release_deferred none w = w
release_deferred (some d) w = emit (Call.release_deferred d) w

abbrev pub release_value : Option ℕ → World → World
release_value none w = w
release_value (some v) w = emit (Call.release_value v) w

-- DeviceEventState::release_after_failed_wrap
unfoldable pub release_after_failed_wrap : Option DeviceEventJs → ℕ → World → World
release_after_failed_wrap none d w = w
release_after_failed_wrap (some js) d w =
    release_value js.lost_promise
      (release_deferred js.lost_deferred (set_events d (record (w.events d) { js = none }) w))

-- The arm of a device: its loss promise, its wrapper, and its registration
abbrev pub wrap_failed : ℕ → ℕ → JsError → World → ℕ → Prepared × World
wrap_failed d native error w state = (
  deferred d (Outcome.engine_error error),
  enqueue_release (ReleaseRequest.device native)
      (release_after_failed_wrap (w.events state).js state w),
)

abbrev pub wrap_device : Option JsError × World → Option JsError → ℕ → ℕ → ℕ → Prepared × World
wrap_device (some error, w) fails d native state = wrap_failed d native error w state
wrap_device (none, w) (some error) d native state = wrap_failed d native error w state
wrap_device (none, w) none d native state =
    (deferred d (Outcome.instance_of native), register_device_events native state w)

-- A pipeline waits for the loss of its device to be settled.
abbrev pub waits : DeviceEvents → Bool → Bool
waits e lost_at_start = e.lost && not lost_at_start && not e.lost_settled

abbrev pub excused : DeviceEvents → Bool → Bool
excused e lost_at_start = e.lost && (lost_at_start || e.lost_settled)

abbrev pub succeeded : PipelineStatus → Bool
succeeded PipelineStatus.success = true
succeeded _ = false

abbrev pub is_validation_error : PipelineStatus → Bool
is_validation_error PipelineStatus.validation_error = true
is_validation_error _ = false

-- The rejection of a pipeline's promise
abbrev pub pipeline_rejection : Option JsError → PipelineStatus → String → String → Outcome
pipeline_rejection fails status message default = value_or_error fails (
    Outcome.pipeline_error (is_validation_error status)
      (if Text.◌==◌ message "" then default else message))

-- new_gpu_error
abbrev pub gpu_error : Option JsError → ErrorType → String → Result Outcome
gpu_error fails ErrorType.no_error message =
    err (JsError.operation_error "unknown WebGPU error type")
gpu_error (some error) type_ message = err error
gpu_error none type_ message = ok (Outcome.gpu_error type_ message)

abbrev pub settled : ℕ → Result Outcome → Prepared
settled d (ok value) = deferred d value
settled d (err error) = deferred d (Outcome.engine_error error)

-- The error of a popped scope: the native one, or else the synthetic one
abbrev pub popped_error : ErrorType → String → Option DeviceError → ErrorType × String
popped_error ErrorType.no_error message (some error) = (error.type_, error.message)
popped_error type_ message synthetic = (type_, message)

abbrev pub popped : Option JsError → ℕ → ErrorType × String → Prepared
popped fails d (ErrorType.no_error, message) = deferred d Outcome.null
popped fails d (type_, message) = settled d (gpu_error fails type_ message)

-- The arm of `popErrorScope`
unfoldable pub prepare_pop :
    Option JsError → Bool → ℕ → PopStatus → ErrorType → String → Option DeviceError → Prepared
prepare_pop fails lost d PopStatus.success type_ message synthetic =
    if lost then deferred d Outcome.null else popped fails d (popped_error type_ message synthetic)
prepare_pop fails lost d status type_ message synthetic = deferred d (
    Outcome.async_error "OperationError" (
      if Text.◌==◌ message ""
      then "popErrorScope failed"
      else String.◌++◌ "popErrorScope failed: " message))

-- The arm of a lost device, from its deferred on, and from its event state on
abbrev pub answer_lost :
    Engine → ℕ → ℕ → String → DeviceEventJs → Option ℕ → World → Prepared × World
answer_lost engine state reason message js none w = (nothing, w)
answer_lost engine state reason message js (some d) w = (
  deferred d (value_or_error (engine.fails d) (Outcome.lost_info reason message)),
  set_events state
      (record (w.events state) {
        js = some (record js { lost_deferred = none; lost_registered = false });
      })
      w,
)

abbrev pub take_lost : Engine → ℕ → ℕ → String → Option DeviceEventJs → World → Prepared × World
take_lost engine state reason message none w = (nothing, w)
take_lost engine state reason message (some js) w =
    answer_lost engine state reason message js js.lost_deferred w

-- SettlementRequest::prepare
unfoldable pub prepare : Engine → Settlement → World → Prepared × World
unfolding enqueue_compute_pipeline_release enqueue_render_pipeline_release initialize
    release_after_failed_wrap register_device_events mark_lost_settled prepare_pop
prepare engine (Settlement.adapter d native) w =
    made (engine.fails d) d (Outcome.instance_of native) w
      (enqueue_release (ReleaseRequest.adapter native) w)
prepare engine (Settlement.adapter_unavailable d) w = (deferred d Outcome.null, w)
prepare engine (Settlement.device d native state label) w =
    wrap_device (initialize (engine.promise state) state w) (engine.fails d) d native state
prepare engine
      (Settlement.compute_pipeline d pipeline status message state lost_at_start module_ layout
        label)
      w =
    let e = w.events state in
    let released = enqueue_compute_pipeline_release pipeline module_ layout w in
    if waits e lost_at_start
    then (
      retry (
          Settlement.compute_pipeline d pipeline status message state lost_at_start module_ layout
            label),
      w,
    )
    else if (not (succeeded status) || is_null pipeline) && not (excused e lost_at_start)
    then (
      deferred d
          (pipeline_rejection (engine.fails d) status message "createComputePipelineAsync failed"),
      released,
    )
    else made (engine.fails d) d (Outcome.instance_of pipeline) w released
prepare engine
      (Settlement.render_pipeline d pipeline status message state lost_at_start vertex fragment
        layout label)
      w =
    let e = w.events state in
    let released = enqueue_render_pipeline_release pipeline vertex fragment layout w in
    if waits e lost_at_start
    then (
      retry (
          Settlement.render_pipeline d pipeline status message state lost_at_start vertex fragment
            layout label),
      w,
    )
    else if (not (succeeded status) || is_null pipeline) && not (excused e lost_at_start)
    then (
      deferred d
          (pipeline_rejection (engine.fails d) status message "createRenderPipelineAsync failed"),
      released,
    )
    else made (engine.fails d) d (Outcome.instance_of pipeline) w released
prepare engine (Settlement.compilation_info d messages) w =
    (deferred d (value_or_error (engine.fails d) (Outcome.compilation_messages messages)), w)
prepare engine (Settlement.success d) w = (deferred d Outcome.undefined, w)
prepare engine (Settlement.error d name message) w =
    (deferred d (Outcome.async_error name message), w)
prepare engine (Settlement.start_map buffer mode offset size request) w =
    (nothing, start_buffer_map buffer mode offset size request w)
prepare engine (Settlement.pop_error_scope d status type_ message synthetic state) w =
    (prepare_pop (engine.fails d) (w.events state).lost d status type_ message synthetic, w)
prepare engine (Settlement.uncaptured_error state type_ message) w =
    (if (w.events state).lost then nothing else uncaptured state type_ message, w)
prepare engine (Settlement.device_lost state reason message) w =
    let w' = mark_lost_settled state w in
    take_lost engine state reason message (w'.events state).js w'
