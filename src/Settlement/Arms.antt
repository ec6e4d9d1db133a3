-- ===== src/Settlement/Arms.antt =====
-- core/src/lib.rs: the arms of `prepare` keep each promise.
use webgpu_native_js.Prelude.{
  ℕ, String, ◌≡◌, refl, sym, ◌∙◌, subst, Bool, true, false, Option, none, some, arith,
}
use webgpu_native_js.Result.{Result, ok, err, JsError}
use webgpu_native_js.World.{
  World, DeviceEventJs, ErrorType, PopStatus, DeviceError, Outcome, set_events,
}
use webgpu_native_js.Registry.{register_device_events}
use webgpu_native_js.Settlement.{
  Engine, made, popped, popped_error, settled, gpu_error, prepare_pop, answer_lost, take_lost,
  wrap_device, wrap_failed, initialize, release_after_failed_wrap, release_value, release_deferred,
  enqueue_compute_pipeline_release, enqueue_render_pipeline_release,
}
use webgpu_native_js.Settlement.Owed.{
  is_it, is_it?, started, kept, lost_deferred_of, Apart, promised, Balanced, Apart-update,
}

module _ (v : ℕ) where
  pub made-Balanced :
      (o : Option JsError) (d : ℕ) (value : Outcome) (w failed : World) (before : ℕ)
      → before ≡ started v w.calls
      → before ≡ started v failed.calls
      → Apart v w.events
      → Apart v failed.events
      → Balanced v (is_it v d) before (made o d value w failed)
  made-Balanced none d value w failed before e e' a a' = (omega (arith, e), a)
  made-Balanced (some error) d value w failed before e e' a a' = (omega (arith, e'), a')

  pub compute-same :
      (p m l : ℕ) (w : World)
      → (started v (enqueue_compute_pipeline_release p m l w).calls ≡ started v w.calls)
        × ((enqueue_compute_pipeline_release p m l w).events ≡ w.events)
  unfolding enqueue_compute_pipeline_release
  compute-same p m l w = ground arith

  pub render-same :
      (p m f l : ℕ) (w : World)
      → (started v (enqueue_render_pipeline_release p m f l w).calls ≡ started v w.calls)
        × ((enqueue_render_pipeline_release p m f l w).events ≡ w.events)
  unfolding enqueue_render_pipeline_release
  render-same p m f l w = ground arith

  pub settled-kept : (d : ℕ) (r : Result Outcome) → kept v (settled d r) ≡ is_it v d
  settled-kept d (ok value) = refl
  settled-kept d (err error) = refl

  pub popped-kept :
      (fails : Option JsError) (d : ℕ) (e : ErrorType × String)
      → kept v (popped fails d e) ≡ is_it v d
  popped-kept fails d (ErrorType.no_error, m) = refl
  popped-kept fails d (ErrorType.validation, m) =
      settled-kept d (gpu_error fails ErrorType.validation m)
  popped-kept fails d (ErrorType.out_of_memory, m) =
      settled-kept d (gpu_error fails ErrorType.out_of_memory m)
  popped-kept fails d (ErrorType.internal, m) =
      settled-kept d (gpu_error fails ErrorType.internal m)
  popped-kept fails d (ErrorType.unknown, m) = settled-kept d (gpu_error fails ErrorType.unknown m)

  pub pop-kept :
      (fails : Option JsError) (lost : Bool) (d : ℕ) (status : PopStatus) (t : ErrorType)
      (m : String) (e : Option DeviceError)
      → kept v (prepare_pop fails lost d status t m e) ≡ is_it v d
  unfolding prepare_pop
  pop-kept fails true d PopStatus.success t m e = refl
  pop-kept fails false d PopStatus.success t m e = popped-kept fails d (popped_error t m e)
  pop-kept fails lost d PopStatus.callback_cancelled t m e = refl
  pop-kept fails lost d PopStatus.error t m e = refl

  pub register-same :
      (device state : ℕ) (w : World)
      → Apart v w.events
      → (started v (register_device_events device state w).calls ≡ started v w.calls)
        × Apart v (register_device_events device state w).events
  unfolding register_device_events
  register-same device state w a = (refl, Apart-update v w.events state _ a (a state))

  pub release_value-same :
      (o : Option ℕ) (w : World)
      → (started v (release_value o w).calls ≡ started v w.calls)
        × ((release_value o w).events ≡ w.events)
  release_value-same none w = (refl, refl)
  release_value-same (some d) w = (omega arith, refl)

  pub release_deferred-same :
      (o : Option ℕ) (w : World)
      → (started v (release_deferred o w).calls ≡ started v w.calls)
        × ((release_deferred o w).events ≡ w.events)
  release_deferred-same none w = (refl, refl)
  release_deferred-same (some d) w = (omega arith, refl)

  pub release-same :
      (js : Option DeviceEventJs) (state : ℕ) (w : World)
      → Apart v w.events
      → (started v (release_after_failed_wrap js state w).calls ≡ started v w.calls)
        × Apart v (release_after_failed_wrap js state w).events
  unfolding release_after_failed_wrap
  release-same none state w a = (refl, a)
  release-same (some js) state w a =
      let gone = set_events state (record (w.events state) { js = none }) w in
      let d = release_deferred-same js.lost_deferred gone in
      let p = release_value-same js.lost_promise (release_deferred js.lost_deferred gone) in
      (p.0 ∙ d.0, subst (Apart v) (sym (p.1 ∙ d.1)) (Apart-update v w.events state _ a refl))

  pub initialize-same :
      (p : Result (ℕ × ℕ)) (state : ℕ) (w : World)
      → is_it? v (promised p) ≡ 0
      → Apart v w.events
      → (started v (initialize p state w).1.calls ≡ started v w.calls)
        × Apart v (initialize p state w).1.events
  unfolding initialize
  initialize-same (err e) state w h a = (refl, a)
  initialize-same (ok p) state w h a = (omega arith, Apart-update v w.events state _ a h)

  pub wrap_failed-Balanced :
      (d native : ℕ) (error : JsError) (w : World) (state : ℕ) (before : ℕ)
      → before ≡ started v w.calls
      → Apart v w.events
      → Balanced v (is_it v d) before (wrap_failed d native error w state)
  wrap_failed-Balanced d native error w state before e a =
      let r = release-same (w.events state).js state w a in (omega (arith, e, r.0), r.1)

  pub wrap_device-Balanced :
      (i : Option JsError × World) (fails : Option JsError) (d native state before : ℕ)
      → before ≡ started v i.1.calls
      → Apart v i.1.events
      → Balanced v (is_it v d) before (wrap_device i fails d native state)
  wrap_device-Balanced (some error, w) fails d native state before e a =
      wrap_failed-Balanced d native error w state before e a
  wrap_device-Balanced (none, w) (some error) d native state before e a =
      wrap_failed-Balanced d native error w state before e a
  wrap_device-Balanced (none, w) none d native state before e a =
      let r = register-same native state w a in (omega (arith, e, r.0), r.1)

  pub answer_lost-Balanced :
      (engine : Engine) (state reason : ℕ) (message : String) (js : DeviceEventJs) (o : Option ℕ)
      (w : World) (before : ℕ)
      → before ≡ started v w.calls
      → Apart v w.events
      → is_it? v o ≡ 0
      → Balanced v 0 before (answer_lost engine state reason message js o w)
  answer_lost-Balanced engine state reason message js none w before e a h = (omega (arith, e), a)
  answer_lost-Balanced engine state reason message js (some d) w before e a h =
      (omega (arith, e, h), Apart-update v w.events state _ a refl)

  -- The loss of a device settles its own promise, which is not `v`.
  pub take_lost-Balanced :
      (engine : Engine) (state reason : ℕ) (message : String) (js : Option DeviceEventJs)
      (w : World) (before : ℕ)
      → before ≡ started v w.calls
      → Apart v w.events
      → is_it? v (lost_deferred_of js) ≡ 0
      → Balanced v 0 before (take_lost engine state reason message js w)
  take_lost-Balanced engine state reason message none w before e a h = (omega (arith, e), a)
  take_lost-Balanced engine state reason message (some js) w before e a h =
      answer_lost-Balanced engine state reason message js js.lost_deferred w before e a h
