-- ===== src/Requests/Calm.antt =====
-- core/src/lib.rs: what asking leaves alone.
use webgpu_native_js.Prelude.{ℕ, ◌≡◌, refl, ◌∙◌, Option, none, some, arith, if_keeps}
use webgpu_native_js.Result.{Result, ok, err}
use webgpu_native_js.Data.{require}
use webgpu_native_js.World.{World, Call, emit, is_null}
use webgpu_native_js.ErrorScopes.{new}
use webgpu_native_js.Settlement.Owed.{started, Apart, Apart-update}
use webgpu_native_js.Tick.{promise_operation, after_operation}
use webgpu_native_js.Requests.{
  Answered, try, AdapterAnswers, unknown_level, gpu_request_adapter, DeviceAnswers, limits_of,
  adapter_request_device_inner, add_ref_unless_null, ComputeAnswers,
  device_create_compute_pipeline_async, RenderAnswers, device_create_render_pipeline_async,
  shader_module_get_compilation_info, queue_on_submitted_work_done, Asking, operation, asking_host,
}

-- No native map is started, the promises of losses stay, and so does the settlement queue.
abbrev pub Calm : ℕ → World → World → Type 0
Calm v w w' =
    (started v w'.calls ≡ started v w.calls)
    × (Apart v w.events → Apart v w'.events)
    × (w'.settlements ≡ w.settlements)

module _ (v : ℕ) where
  Calm-refl : (w : World) → Calm v w w
  Calm-refl w = (refl, λ a. a, refl)

  Calm-then : (w w' w'' : World) → Calm v w w' → Calm v w' w'' → Calm v w w''
  Calm-then w w' w'' a b = (b.0 ∙ a.0, λ h. b.1 (a.1 h), b.2 ∙ a.2)

  try-Calm {ℓ} :
      {A : Type ℓ} (r : Result A) (d : ℕ) (w : World) (next : A → Answered)
      → ((a : A) → Calm v w (next a).world)
      → Calm v w (try r d w next).world
  try-Calm (err error) d w next h = Calm-refl w
  try-Calm (ok a) d w next h = h a

  module_-Calm : (handle : ℕ) (w : World) → Calm v w (emit (Call.shader_module_add_ref handle) w)
  module_-Calm handle w = (omega arith, λ a. a, refl)

  fragment-Calm :
      (handle : ℕ) (w : World) → Calm v w (add_ref_unless_null handle Call.shader_module_add_ref w)
  fragment-Calm handle w =
      if_keeps (Calm v w) (is_null handle) w (emit (Call.shader_module_add_ref handle) w)
        (Calm-refl w) (module_-Calm handle w)

  layout-Calm :
      (handle : ℕ) (w : World)
      → Calm v w (add_ref_unless_null handle Call.pipeline_layout_add_ref w)
  layout-Calm handle w =
      let called : Calm v w (emit (Call.pipeline_layout_add_ref handle) w) =
        (omega arith, λ a. a, refl) in
      if_keeps (Calm v w) (is_null handle) w (emit (Call.pipeline_layout_add_ref handle) w)
        (Calm-refl w) called

  adapter-Calm :
      (a : AdapterAnswers) (d : ℕ) (w : World) → Calm v w (gpu_request_adapter a d w).world
  unfolding gpu_request_adapter
  adapter-Calm a d w =
      let settled : Calm v w (unknown_level a d w).world = (omega arith, λ a. a, refl) in
      try-Calm (require a.receiver _) d w _ (λ _. try-Calm a.feature_level d w _ (λ level.
        try-Calm a.power_preference d w _ (λ _. try-Calm a.force_fallback_adapter d w _ (λ _.
          try-Calm a.xr_compatible d w _
            (λ _. if_keeps (λ (x : Answered). Calm v w x.world) _ _ _ (Calm-refl w) settled)))))

  device-Calm :
      (a : DeviceAnswers) (d : ℕ) (w : World) → Calm v w (adapter_request_device_inner a d w).world
  unfolding adapter_request_device_inner
  device-Calm a d w = try-Calm (require a.receiver _) d w _ (λ _. try-Calm a.label d w _ (λ label.
      try-Calm a.required_features d w _ (λ _.
        try-Calm (limits_of a) d w _
          (λ limits. (refl, λ h. Apart-update v w.events a.state new h refl, refl)))))

  compute-Calm :
      (a : ComputeAnswers) (d : ℕ) (w : World)
      → Calm v w (device_create_compute_pipeline_async a d w).world
  unfolding device_create_compute_pipeline_async
  compute-Calm a d w = try-Calm a.state d w _ (λ state. try-Calm a.converted d w _ (λ c.
      try-Calm a.class d w _ (λ _.
        let shader = emit (Call.shader_module_add_ref c.0) w in
        Calm-then w shader (add_ref_unless_null c.1 Call.pipeline_layout_add_ref shader)
          (module_-Calm c.0 w) (layout-Calm c.1 shader))))

  render-Calm :
      (a : RenderAnswers) (d : ℕ) (w : World)
      → Calm v w (device_create_render_pipeline_async a d w).world
  unfolding device_create_render_pipeline_async
  render-Calm a d w = try-Calm a.state d w _ (λ state. try-Calm a.converted d w _ (λ c.
      try-Calm a.class d w _ (λ _.
        let vertex = emit (Call.shader_module_add_ref c.0) w in
        let fragment = add_ref_unless_null c.1 Call.shader_module_add_ref vertex in
        Calm-then w vertex (add_ref_unless_null c.2 Call.pipeline_layout_add_ref fragment)
          (module_-Calm c.0 w)
          (Calm-then vertex fragment (add_ref_unless_null c.2 Call.pipeline_layout_add_ref fragment)
            (fragment-Calm c.1 vertex) (layout-Calm c.2 fragment)))))

  operation-Calm : (asking : Asking) (d : ℕ) (w : World) → Calm v w (operation asking d w).world
  unfolding operation shader_module_get_compilation_info queue_on_submitted_work_done
  operation-Calm (Asking.request_adapter a) d w = adapter-Calm a d w
  operation-Calm (Asking.request_device a) d w = device-Calm a d w
  operation-Calm (Asking.compute_pipeline a) d w = compute-Calm a d w
  operation-Calm (Asking.render_pipeline a) d w = render-Calm a d w
  operation-Calm (Asking.compilation_info m) d w = try-Calm m d w _ (λ handle. Calm-refl w)
  operation-Calm (Asking.work_done none) d w = Calm-refl w
  operation-Calm (Asking.work_done (some q)) d w = Calm-refl w

  after-Calm :
      (promise : Result (ℕ × ℕ)) (settles : Result (Unit {0})) (asking : Asking) (p : ℕ)
      (r : Result (Unit {0})) (left : Option ℕ) (w : World)
      → Calm v w (after_operation (asking_host promise settles asking) p r left w).1
  unfolding asking_host
  after-Calm promise settles asking p (ok done) none w = Calm-refl w
  after-Calm promise settles asking p (ok done) (some d) w = (omega arith, λ a. a, refl)
  after-Calm promise settles asking p (err e) none w = Calm-refl w
  after-Calm promise (ok done) asking p (err e) (some d) w = (omega arith, λ a. a, refl)
  after-Calm promise (err e') asking p (err e) (some d) w = (omega arith, λ a. a, refl)

  pub promise_operation-Calm :
      (asking : Asking) (p : ℕ × ℕ) (settles : Result (Unit {0})) (w : World)
      → Calm v w (promise_operation (asking_host (ok p) settles asking) w).1
  unfolding promise_operation asking_host
  promise_operation-Calm asking p settles w =
      let a = operation asking p.1 w in
      Calm-then w a.world
        (after_operation (asking_host (ok p) settles asking) p.0 a.result a.left a.world).1
        (operation-Calm asking p.1 w) (after-Calm (ok p) settles asking p.0 a.result a.left a.world)
