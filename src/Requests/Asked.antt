-- ===== src/Requests/Asked.antt =====
-- core/src/lib.rs: the promise of an operation is with one request, or is settled at once.
use webgpu_native_js.Prelude.{
  ℕ, ◌+◌, ◌≡◌, refl, ap, ◌∙◌, ◌⊎◌, inl, inr, Option, none, some, arith, if_keeps,
}
use webgpu_native_js.Result.{Result, ok, err}
use webgpu_native_js.Data.{require}
use webgpu_native_js.World.{World, Call, emit, is_null}
use webgpu_native_js.Settlement.Owed.{is_it, is_it?}
use webgpu_native_js.Tick.{promise_operation, after_operation}
use webgpu_native_js.Tick.Promise.{disposed, disposed_once}
use webgpu_native_js.Requests.{
  Request, Answered, sent, try, AdapterAnswers, unknown_level, gpu_request_adapter, DeviceAnswers,
  limits_of, adapter_request_device_inner, add_ref_unless_null, ComputeAnswers,
  device_create_compute_pipeline_async, RenderAnswers, device_create_render_pipeline_async,
  shader_module_get_compilation_info, queue_on_submitted_work_done, Asking, operation, asking_host,
}

abbrev pub deferred_of : Request → ℕ
deferred_of (Request.adapter d) = d
deferred_of (Request.device state label limits d) = d
deferred_of (Request.compute_pipeline r d) = d
deferred_of (Request.render_pipeline r d) = d
deferred_of (Request.compilation_info m d) = d
deferred_of (Request.work_done q d) = d

-- Nothing was settled or released, and the settlement queue is as it was.
abbrev pub Undisposed : World → World → Type 0
Undisposed w w' =
    ((v : ℕ) → disposed v w'.calls ≡ disposed v w.calls) × (w'.settlements ≡ w.settlements)

-- A request took the deferred.
abbrev Took : ℕ → World → Answered → Type 0
Took d w a =
    (q : Request) × (a.request ≡ some q)
    × (deferred_of q ≡ d)
    × (a.left ≡ none)
    × (a.result ≡ ok tt)
    × Undisposed w a.world

-- The deferred is left, or was settled.
abbrev Left : ℕ → World → Answered → Type 0
Left d w a =
    (a.request ≡ none)
    × ((v : ℕ) → is_it? v a.left + disposed v a.world.calls ≡ is_it v d + disposed v w.calls)
    × (a.world.settlements ≡ w.settlements)

abbrev Fate : ℕ → World → Answered → Type 0
Fate d w a = Took d w a ⊎ Left d w a

try-Fate {ℓ} :
    {A : Type ℓ} (r : Result A) (d : ℕ) (w : World) (next : A → Answered)
    → ((a : A) → Fate d w (next a))
    → Fate d w (try r d w next)
try-Fate (err error) d w next h = inr (refl, λ v. refl, refl)
try-Fate (ok a) d w next h = h a

sent-Fate : (q : Request) (w w' : World) → Undisposed w w' → Fate (deferred_of q) w (sent q w')
sent-Fate q w w' h = inl (q, refl, refl, refl, refl, h)

Undisposed-refl : (w : World) → Undisposed w w
Undisposed-refl w = (λ v. refl, refl)

unknown_level-Fate : (a : AdapterAnswers) (d : ℕ) (w : World) → Fate d w (unknown_level a d w)
unknown_level-Fate a d w = inr (refl, λ v. omega arith, refl)

adapter-Fate : (a : AdapterAnswers) (d : ℕ) (w : World) → Fate d w (gpu_request_adapter a d w)
unfolding gpu_request_adapter
adapter-Fate a d w = try-Fate (require a.receiver _) d w _ (λ _.
    try-Fate a.feature_level d w _ (λ level. try-Fate a.power_preference d w _ (λ _.
      try-Fate a.force_fallback_adapter d w _ (λ _. try-Fate a.xr_compatible d w _ (λ _.
        if_keeps (Fate d w) _ _ _ (sent-Fate (Request.adapter d) w w (Undisposed-refl w))
          (unknown_level-Fate a d w))))))

device-Fate :
    (a : DeviceAnswers) (d : ℕ) (w : World) → Fate d w (adapter_request_device_inner a d w)
unfolding adapter_request_device_inner
device-Fate a d w = try-Fate (require a.receiver _) d w _ (λ _. try-Fate a.label d w _ (λ label.
    try-Fate a.required_features d w _ (λ _.
      try-Fate (limits_of a) d w _ (λ limits. inl (_, refl, refl, refl, refl, (λ v. refl, refl))))))

add_ref-Undisposed :
    (handle : ℕ) (w w' : World)
    → Undisposed w w'
    → Undisposed w (add_ref_unless_null handle Call.pipeline_layout_add_ref w')
      × Undisposed w (add_ref_unless_null handle Call.shader_module_add_ref w')
add_ref-Undisposed handle w w' h =
    let called : (call : Call) → Type 0 = λ call. Undisposed w (emit call w') in
    let layout : called (Call.pipeline_layout_add_ref handle) = (λ v. omega (arith, h.0 v), h.1) in
    let shader : called (Call.shader_module_add_ref handle) = (λ v. omega (arith, h.0 v), h.1) in
    (
      if_keeps (Undisposed w) (is_null handle) w' (emit (Call.pipeline_layout_add_ref handle) w') h
          layout,
      if_keeps (Undisposed w) (is_null handle) w' (emit (Call.shader_module_add_ref handle) w') h
          shader,
    )

compute-Fate :
    (a : ComputeAnswers) (d : ℕ) (w : World) → Fate d w (device_create_compute_pipeline_async a d w)
unfolding device_create_compute_pipeline_async
compute-Fate a d w = try-Fate a.state d w _ (λ state. try-Fate a.converted d w _ (λ c.
    try-Fate a.class d w _ (λ _.
      sent-Fate _ w
        (add_ref_unless_null c.1 Call.pipeline_layout_add_ref
          (emit (Call.shader_module_add_ref c.0) w))
        (add_ref-Undisposed c.1 w (emit (Call.shader_module_add_ref c.0) w)
          (λ v. omega arith, refl)).0)))

render-Fate :
    (a : RenderAnswers) (d : ℕ) (w : World) → Fate d w (device_create_render_pipeline_async a d w)
unfolding device_create_render_pipeline_async
render-Fate a d w = try-Fate a.state d w _ (λ state. try-Fate a.converted d w _ (λ c.
    try-Fate a.class d w _ (λ _.
      let vertex = emit (Call.shader_module_add_ref c.0) w in
      let fragment = add_ref_unless_null c.1 Call.shader_module_add_ref vertex in
      sent-Fate _ w (add_ref_unless_null c.2 Call.pipeline_layout_add_ref fragment)
        (add_ref-Undisposed c.2 w fragment
          (add_ref-Undisposed c.1 w vertex (λ v. omega arith, refl)).1).0)))

operation-Fate : (asking : Asking) (d : ℕ) (w : World) → Fate d w (operation asking d w)
unfolding operation shader_module_get_compilation_info queue_on_submitted_work_done
operation-Fate (Asking.request_adapter a) d w = adapter-Fate a d w
operation-Fate (Asking.request_device a) d w = device-Fate a d w
operation-Fate (Asking.compute_pipeline a) d w = compute-Fate a d w
operation-Fate (Asking.render_pipeline a) d w = render-Fate a d w
operation-Fate (Asking.compilation_info m) d w =
    try-Fate m d w _
      (λ handle. sent-Fate (Request.compilation_info handle d) w w (Undisposed-refl w))
operation-Fate (Asking.work_done none) d w = inr (refl, λ v. refl, refl)
operation-Fate (Asking.work_done (some q)) d w =
    sent-Fate (Request.work_done q d) w w (Undisposed-refl w)

-- What `promise_operation` does after an operation keeps the settlement queue.
after-settlements :
    (promise : Result (ℕ × ℕ)) (settles : Result (Unit {0})) (asking : Asking) (p : ℕ)
    (r : Result (Unit {0})) (left : Option ℕ) (w : World)
    → (after_operation (asking_host promise settles asking) p r left w).1.settlements
      ≡ w.settlements
unfolding asking_host
after-settlements promise settles asking p (ok done) none w = refl
after-settlements promise settles asking p (ok done) (some d) w = refl
after-settlements promise settles asking p (err e) none w = refl
after-settlements promise (ok done) asking p (err e) (some d) w = refl
after-settlements promise (err e') asking p (err e) (some d) w = refl

-- Whatever is read for requestAdapter, requestDevice, one of the two pipelines that are created
-- asynchronously, getCompilationInfo or onSubmittedWorkDone, once their promise is made: either one
-- request has its deferred, the promise is returned, and nothing is settled or released; or nothing
-- is asked for, and the deferred is settled or released once. The settlement queue stays as it was.
pub asked_once :
    (asking : Asking) (p : ℕ × ℕ) (settles : Result (Unit {0})) (w : World)
    → let a = operation asking p.1 w in
      let r = promise_operation (asking_host (ok p) settles asking) w in
      (((q : Request) × (a.request ≡ some q)
          × (deferred_of q ≡ p.1)
          × (r.0 ≡ ok p.0)
          × ((v : ℕ) → disposed v r.1.calls ≡ disposed v w.calls))
        ⊎ ((a.request ≡ none)
            × ((v : ℕ) → disposed v r.1.calls ≡ is_it v p.1 + disposed v w.calls)))
      × (r.1.settlements ≡ w.settlements)
unfolding promise_operation asking_host
asked_once asking p settles w =
    let host = asking_host (ok p) settles asking in
    let a = operation asking p.1 w in
    (
      elim (operation-Fate asking p.1 w) [
        | inl (q, asked, same, gone, fine, kept) ↦
            let end : after_operation host p.0 a.result a.left a.world ≡ (ok p.0, a.world) =
              ap (λ r. after_operation host p.0 r a.left a.world) fine
              ∙ ap (λ left. after_operation host p.0 (ok tt) left a.world) gone in
            inl (
              q,
              asked,
              same,
              ap (λ (r : Result ℕ × World). r.0) end,
              λ v. ap (λ (r : Result ℕ × World). disposed v r.1.calls) end ∙ kept.0 v,
            )
        | inr (none_asked, once, queue) ↦
            inr (none_asked, λ v. disposed_once v host w w p refl (λ batch w. refl) ∙ once v)
      ],
      after-settlements (ok p) settles asking p.0 a.result a.left a.world
          ∙ elim (operation-Fate asking p.1 w) [
            | inl (q, asked, same, gone, fine, kept) ↦ kept.1
            | inr (none_asked, once, queue) ↦ queue
          ],
    )
