-- ===== src/Requests.antt =====
-- core/src/lib.rs: the operations that ask webgpu.h for something that a callback answers, and hand
-- the deferred of their promise to it. What the engine reads and converts is an argument, in the
-- order in which it is asked; a member whose value is not used answers a unit.
pub mod Asked
pub mod Calm
pub mod Journey
use text.Mathlib.Text
use webgpu_native_js.Prelude.{
  ℕ, String, Bool, ◌||◌, Option, none, some, List, [], ◌∷◌, ◌==◌, if◌then◌else◌,
}
use webgpu_native_js.Result.{Result, ok, err, JsError}
use webgpu_native_js.Number.{Number}
use webgpu_native_js.Data.{require}
use webgpu_native_js.World.{World, Outcome, Call, emit, set_events, is_null}
use webgpu_native_js.ErrorScopes.{new}
use webgpu_native_js.Limits.{Limit, required_limits}
use webgpu_native_js.Callbacks.{ComputePipelineRequest, RenderPipelineRequest}
use webgpu_native_js.Tick.{PromiseHost, promise_operation}

-- The request that is boxed into the callback's userdata, with its deferred
pub data Request : Type 0 where
  adapter : ℕ → Request
  -- event state, label, limits of the descriptor, deferred
  device : ℕ → String → Option (Limit → ℕ) → ℕ → Request
  compute_pipeline : ComputePipelineRequest → ℕ → Request
  render_pipeline : RenderPipelineRequest → ℕ → Request
  -- shader module or queue, deferred
  compilation_info work_done : ℕ → ℕ → Request

-- How an operation ends: its result, what it leaves of the deferred, and what it asked for
pub record Answered : Type 0 where
  pub result : Result (Unit {0})
  pub left : Option ℕ
  pub request : Option Request
  pub world : World

abbrev pub refused : JsError → ℕ → World → Answered
refused error d w = record { result = err error; left = some d; request = none; world = w }

abbrev pub sent : Request → World → Answered
sent r w = record { result = ok tt; left = none; request = some r; world = w }

-- The `?` of an operation that still has its deferred
abbrev pub try {ℓ} : {A : Type ℓ} → Result A → ℕ → World → (A → Answered) → Answered
try (err error) d w next = refused error d w
try (ok a) d w next = next a

-- What is read for requestAdapter
pub record AdapterAnswers : Type 0 where
  pub receiver : Bool
  pub feature_level : Result (Option String)
  pub power_preference : Result (Unit {0})
  pub force_fallback_adapter : Result (Unit {0})
  pub xr_compatible : Result (Unit {0})
  -- what settling the promise with null answers
  pub settles : Result (Unit {0})

abbrev pub incompatible : String → JsError
incompatible message = JsError.type_error message

abbrev pub feature_level_of : Option String → String
feature_level_of none = "core"
feature_level_of (some level) = level

abbrev pub unknown_level : AdapterAnswers → ℕ → World → Answered
unknown_level a d w = record {
  result = a.settles;
  left = none;
  request = none;
  world = emit (Call.settle_deferreds ((d, Outcome.null) ∷ [])) w;
}

-- The closure of `gpu_request_adapter`
unfoldable pub gpu_request_adapter : AdapterAnswers → ℕ → World → Answered
unfolding require
gpu_request_adapter a d w =
    try (require a.receiver (incompatible "GPU.requestAdapter called on an incompatible object")) d
      w
      (λ _. try a.feature_level d w (λ level. try a.power_preference d w (λ _.
        try a.force_fallback_adapter d w (λ _. try a.xr_compatible d w (λ _.
          if Text.◌==◌ (feature_level_of level) "core"
            || Text.◌==◌ (feature_level_of level) "compatibility"
          then sent (Request.adapter d) w
          else unknown_level a d w)))))

-- What is read for requestDevice; `supported` is the answer of the adapter.
pub record DeviceAnswers : Type 0 where
  pub receiver : Bool
  pub label : Result String
  pub required_features : Result (Unit {0})
  pub limits : Result (List (String × Result (Option Number)))
  pub supported : Result (Limit → ℕ)
  -- the number of the event state that is made
  pub state : ℕ

abbrev pub limits_of : DeviceAnswers → Result (Option (Limit → ℕ))
limits_of a = elim a.limits [
  | err error ↦ err error
  | ok answers ↦ required_limits answers a.supported
]

unfoldable pub adapter_request_device_inner : DeviceAnswers → ℕ → World → Answered
unfolding require new
adapter_request_device_inner a d w =
    try
      (require a.receiver
        (incompatible "GPUAdapter.requestDevice called on an incompatible object"))
      d w
      (λ _. try a.label d w (λ label. try a.required_features d w (λ _.
        try (limits_of a) d w
          (λ limits. sent (Request.device a.state label limits d) (set_events a.state new w)))))

abbrev pub add_ref_unless_null : ℕ → (ℕ → Call) → World → World
add_ref_unless_null handle call w = if is_null handle then w else emit (call handle) w

-- The device's state with its native handles and label once the descriptor is converted, and the
-- registration of the class
pub record ComputeAnswers : Type 0 where
  pub state : Result ℕ
  -- module, layout, label
  pub converted : Result (ℕ × ℕ × String)
  pub class : Result (Unit {0})

unfoldable pub device_create_compute_pipeline_async : ComputeAnswers → ℕ → World → Answered
device_create_compute_pipeline_async a d w = try a.state d w (λ state. try a.converted d w (λ c.
    try a.class d w (λ _.
      sent
        (Request.compute_pipeline
          (record {
            state = state;
            lost_at_start = (w.events state).lost;
            module_ = c.0;
            layout = c.1;
            label = c.2;
          })
          d)
        (add_ref_unless_null c.1 Call.pipeline_layout_add_ref
          (emit (Call.shader_module_add_ref c.0) w)))))

pub record RenderAnswers : Type 0 where
  pub state : Result ℕ
  -- vertex module, fragment module, layout, label
  pub converted : Result (ℕ × ℕ × ℕ × String)
  pub class : Result (Unit {0})

unfoldable pub device_create_render_pipeline_async : RenderAnswers → ℕ → World → Answered
device_create_render_pipeline_async a d w = try a.state d w (λ state. try a.converted d w (λ c.
    try a.class d w (λ _.
      sent
        (Request.render_pipeline
          (record {
            state = state;
            lost_at_start = (w.events state).lost;
            vertex_module = c.0;
            fragment_module = c.1;
            layout = c.2;
            label = c.3;
          })
          d)
        (add_ref_unless_null c.2 Call.pipeline_layout_add_ref (
          add_ref_unless_null c.1 Call.shader_module_add_ref
            (emit (Call.shader_module_add_ref c.0) w))))))

-- The receiver's native module, or the error of an incompatible object or a dead handle
unfoldable pub shader_module_get_compilation_info : Result ℕ → ℕ → World → Answered
shader_module_get_compilation_info module_ d w =
    try module_ d w (λ handle. sent (Request.compilation_info handle d) w)

-- The receiver's native queue, if it has one
unfoldable pub queue_on_submitted_work_done : Option ℕ → ℕ → World → Answered
queue_on_submitted_work_done none d w =
    refused (incompatible "GPUQueue.onSubmittedWorkDone called on an incompatible object") d w
queue_on_submitted_work_done (some queue) d w = sent (Request.work_done queue d) w

-- One of the operations, with what is read for it
pub data Asking : Type 0 where
  request_adapter : AdapterAnswers → Asking
  request_device : DeviceAnswers → Asking
  compute_pipeline : ComputeAnswers → Asking
  render_pipeline : RenderAnswers → Asking
  compilation_info : Result ℕ → Asking
  work_done : Option ℕ → Asking

unfoldable pub operation : Asking → ℕ → World → Answered
unfolding gpu_request_adapter adapter_request_device_inner device_create_compute_pipeline_async
    device_create_render_pipeline_async shader_module_get_compilation_info
    queue_on_submitted_work_done
operation (Asking.request_adapter a) d w = gpu_request_adapter a d w
operation (Asking.request_device a) d w = adapter_request_device_inner a d w
operation (Asking.compute_pipeline a) d w = device_create_compute_pipeline_async a d w
operation (Asking.render_pipeline a) d w = device_create_render_pipeline_async a d w
operation (Asking.compilation_info m) d w = shader_module_get_compilation_info m d w
operation (Asking.work_done q) d w = queue_on_submitted_work_done q d w

-- `promise_operation` with one of them. What the engine does when it makes the promise, or settles
-- it, runs no script.
abbrev pub run_asking : Asking → Option ℕ → World → Result (Unit {0}) × Option ℕ × World
run_asking asking none w = (ok tt, none, w)
run_asking asking (some d) w = let a = operation asking d w in (a.result, a.left, a.world)

unfoldable pub asking_host : Result (ℕ × ℕ) → Result (Unit {0}) → Asking → PromiseHost
unfolding operation
asking_host promise settles asking = record {
  new_promise = λ w. (promise, w);
  settle_deferreds = λ batch w. (settles, w);
  operation = run_asking asking;
}
