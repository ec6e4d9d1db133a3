-- ===== src/Settlement/Steady.antt =====
-- core/src/lib.rs: what preparing a request never changes: the settlement queue, and whether a
-- device is lost; and a loss that is settled stays settled.
use webgpu_native_js.Prelude.{
  ℕ, String, ◌≡◌, refl, ap, ◌∙◌, Bool, true, not, ◌&&◌, ◌||◌, Option, none, some, arith,
  if◌then◌else◌, if_keeps,
}
use webgpu_native_js.Result.{Result, ok, err, JsError}
use webgpu_native_js.World.{
  World, DeviceEvents, DeviceEventJs, Settlement, Outcome, set_events, update, is_null,
}
use webgpu_native_js.Registry.{register_device_events, mark_lost_settled}
use webgpu_native_js.Registry.Laws.{mark_lost_settled-same}
use webgpu_native_js.Settlement.{
  Engine, Prepared, deferred, retry, prepare, made, answer_lost, take_lost, waits, excused,
  succeeded, pipeline_rejection, wrap_device, wrap_failed, initialize, release_after_failed_wrap,
  release_value, release_deferred, enqueue_compute_pipeline_release,
  enqueue_render_pipeline_release,
}

pub record Steady (w w' : World) : Type 0 where
  pub queue : w'.settlements ≡ w.settlements
  pub lost : (d : ℕ) → (w'.events d).lost ≡ (w.events d).lost
  pub settled : (d : ℕ) → (w.events d).lost_settled ≡ true → (w'.events d).lost_settled ≡ true

pub Steady-refl : (w : World) → Steady w w
Steady-refl w = record { queue = refl; lost = λ d. refl; settled = λ d h. h }

pub Steady-trans : (u v w : World) → Steady u v → Steady v w → Steady u w
Steady-trans u v w a b = record {
  queue = b.queue ∙ a.queue;
  lost = λ d. b.lost d ∙ a.lost d;
  settled = λ d h. b.settled d (a.settled d h);
}

-- The queue and the events stay.
Steady-same : (w w' : World) → w'.settlements ≡ w.settlements → w'.events ≡ w.events → Steady w w'
Steady-same w w' q e = record {
  queue = q;
  lost = λ d. ap (λ E. DeviceEvents.lost (E d)) e;
  settled = λ d h. ap (λ E. DeviceEvents.lost_settled (E d)) e ∙ h;
}

-- The events of one device change, and its flags stay or its loss is settled.
Steady-update :
    (w w' : World) (state : ℕ) (e : DeviceEvents)
    → w'.settlements ≡ w.settlements
    → w'.events ≡ update w.events state e
    → e.lost ≡ (w.events state).lost
    → ((w.events state).lost_settled ≡ true → e.lost_settled ≡ true)
    → Steady w w'
Steady-update w w' state e q same lost settled = record {
  queue = q;
  lost = λ d. ap (λ E. DeviceEvents.lost (E d)) same ∙ ground (arith, lost);
  settled = λ d h. ap (λ E. DeviceEvents.lost_settled (E d)) same ∙ ground (arith, settled, h);
}

made-Steady :
    (o : Option JsError) (d : ℕ) (value : Outcome) (w failed : World)
    → Steady w failed
    → Steady w (made o d value w failed).1
made-Steady none d value w failed s = Steady-refl w
made-Steady (some error) d value w failed s = s

compute-Steady : (p m l : ℕ) (w : World) → Steady w (enqueue_compute_pipeline_release p m l w)
unfolding enqueue_compute_pipeline_release
compute-Steady p m l w = Steady-same w _ (ground arith) (ground arith)

render-Steady : (p m f l : ℕ) (w : World) → Steady w (enqueue_render_pipeline_release p m f l w)
unfolding enqueue_render_pipeline_release
render-Steady p m f l w = Steady-same w _ (ground arith) (ground arith)

release_value-Steady : (o : Option ℕ) (w : World) → Steady w (release_value o w)
release_value-Steady none w = Steady-refl w
release_value-Steady (some d) w = Steady-same w _ refl refl

release_deferred-Steady : (o : Option ℕ) (w : World) → Steady w (release_deferred o w)
release_deferred-Steady none w = Steady-refl w
release_deferred-Steady (some d) w = Steady-same w _ refl refl

release-Steady :
    (js : Option DeviceEventJs) (state : ℕ) (w : World)
    → Steady w (release_after_failed_wrap js state w)
unfolding release_after_failed_wrap
release-Steady none state w = Steady-refl w
release-Steady (some js) state w =
    let gone = set_events state (record (w.events state) { js = none }) w in
    let freed = release_deferred js.lost_deferred gone in
    Steady-trans w gone (release_value js.lost_promise freed)
      (Steady-update w gone state _ refl refl refl (λ h. h))
      (Steady-trans gone freed _ (release_deferred-Steady js.lost_deferred gone)
        (release_value-Steady js.lost_promise freed))

initialize-Steady : (p : Result (ℕ × ℕ)) (state : ℕ) (w : World) → Steady w (initialize p state w).1
unfolding initialize
initialize-Steady (err e) state w = Steady-refl w
initialize-Steady (ok p) state w = Steady-update w _ state _ refl refl refl (λ h. h)

wrap_failed-Steady :
    (d native : ℕ) (error : JsError) (w : World) (state : ℕ)
    → Steady w (wrap_failed d native error w state).1
wrap_failed-Steady d native error w state =
    let freed = release_after_failed_wrap (w.events state).js state w in
    Steady-trans w freed _ (release-Steady (w.events state).js state w)
      (Steady-same freed _ refl refl)

register-Steady : (device state : ℕ) (w : World) → Steady w (register_device_events device state w)
unfolding register_device_events
register-Steady device state w = Steady-update w _ state _ refl refl refl (λ h. h)

wrap_device-Steady :
    (i : Option JsError × World) (fails : Option JsError) (d native state : ℕ)
    → Steady i.1 (wrap_device i fails d native state).1
wrap_device-Steady (some error, w) fails d native state = wrap_failed-Steady d native error w state
wrap_device-Steady (none, w) (some error) d native state = wrap_failed-Steady d native error w state
wrap_device-Steady (none, w) none d native state = register-Steady native state w

answer_lost-Steady :
    (engine : Engine) (state reason : ℕ) (message : String) (js : DeviceEventJs) (o : Option ℕ)
    (w : World)
    → Steady w (answer_lost engine state reason message js o w).1
answer_lost-Steady engine state reason message js none w = Steady-refl w
answer_lost-Steady engine state reason message js (some d) w =
    Steady-update w _ state _ refl refl refl (λ h. h)

pub take_lost-Steady :
    (engine : Engine) (state reason : ℕ) (message : String) (js : Option DeviceEventJs) (w : World)
    → Steady w (take_lost engine state reason message js w).1
take_lost-Steady engine state reason message none w = Steady-refl w
take_lost-Steady engine state reason message (some js) w =
    answer_lost-Steady engine state reason message js js.lost_deferred w

pub mark_lost_settled-Steady : (state : ℕ) (w : World) → Steady w (mark_lost_settled state w)
mark_lost_settled-Steady state w =
    let same = mark_lost_settled-same state w in
    Steady-update w _ state _ same.2 same.0 refl (λ h. refl)

-- A request is prepared.
abbrev Keeps : World → Prepared × World → Type 0
Keeps w p = Steady w p.1

pipeline-Steady :
    (again : Settlement) (waiting failing : Bool) (rejected : Prepared) (o : Option JsError) (d : ℕ)
    (value : Outcome) (w released : World)
    → Steady w released
    → Keeps w (
        if waiting
        then (retry again, w)
        else if failing
        then (rejected, released)
        else made o d value w released)
pipeline-Steady again waiting failing rejected o d value w released s =
    if_keeps (Keeps w) waiting _ _ (Steady-refl w)
      (if_keeps (Keeps w) failing _ _ s (made-Steady o d value w released s))

pub prepare-Steady :
    (engine : Engine) (s : Settlement) (w : World) → Steady w (prepare engine s w).1
unfolding prepare
prepare-Steady engine (Settlement.adapter d native) w =
    made-Steady (engine.fails d) d _ w _ (Steady-same w _ refl refl)
prepare-Steady engine (Settlement.adapter_unavailable d) w = Steady-refl w
prepare-Steady engine (Settlement.device d native state label) w =
    let i = initialize (engine.promise state) state w in
    Steady-trans w i.1 _ (initialize-Steady (engine.promise state) state w)
      (wrap_device-Steady i (engine.fails d) d native state)
prepare-Steady engine (Settlement.compute_pipeline d p status m state l mo la label) w =
    pipeline-Steady (Settlement.compute_pipeline d p status m state l mo la label)
      (waits (w.events state) l)
      ((not (succeeded status) || is_null p) && not (excused (w.events state) l))
      (deferred d
        (pipeline_rejection (engine.fails d) status m "createComputePipelineAsync failed"))
      (engine.fails d) d (Outcome.instance_of p) w _ (compute-Steady p mo la w)
prepare-Steady engine (Settlement.render_pipeline d p status m state l ve fr la label) w =
    pipeline-Steady (Settlement.render_pipeline d p status m state l ve fr la label)
      (waits (w.events state) l)
      ((not (succeeded status) || is_null p) && not (excused (w.events state) l))
      (deferred d (pipeline_rejection (engine.fails d) status m "createRenderPipelineAsync failed"))
      (engine.fails d) d (Outcome.instance_of p) w _ (render-Steady p ve fr la w)
prepare-Steady engine (Settlement.compilation_info d messages) w = Steady-refl w
prepare-Steady engine (Settlement.success d) w = Steady-refl w
prepare-Steady engine (Settlement.error d name message) w = Steady-refl w
prepare-Steady engine (Settlement.start_map b mode o size request) w = Steady-same w _ refl refl
prepare-Steady engine (Settlement.pop_error_scope d s t m e state) w = Steady-refl w
prepare-Steady engine (Settlement.uncaptured_error state t m) w = Steady-refl w
prepare-Steady engine (Settlement.device_lost state reason m) w =
    let w' = mark_lost_settled state w in
    Steady-trans w w' _ (mark_lost_settled-Steady state w)
      (take_lost-Steady engine state reason m (w'.events state).js w')
