-- ===== src/Settlement/Retry.antt =====
-- core/src/lib.rs: a pipeline's promise waits for the settled loss of its device, and not longer.
use webgpu_native_js.Prelude.{
  ℕ, String, ◌≡◌, refl, sym, ◌∙◌, ◌⊎◌, inl, inr, Bool, true, false, Option, none, some, List, [],
  ◌∷◌, arith, if◌then◌else◌, if_keeps, if_cases, All,
}
use webgpu_native_js.Result.{Result, ok, err, JsError}
use webgpu_native_js.World.{
  World, DeviceEvents, DeviceEventJs, PopStatus, ErrorType, DeviceError, Settlement, Outcome,
}
use webgpu_native_js.Registry.{mark_lost_settled}
use webgpu_native_js.Settlement.{
  Engine, Prepared, deferred, retry, uncaptured, nothing, prepare, made, answer_lost, take_lost,
  waits, wrap_device, initialize, prepare_pop, popped, popped_error, gpu_error, settled,
}
use webgpu_native_js.Settlement.Queue.{Collected, add, collect}
use webgpu_native_js.Settlement.Steady.{Steady, prepare-Steady}

-- Whether a request is put back, for the event states `E`
abbrev pub waits_in : (ℕ → DeviceEvents) → Settlement → Bool
waits_in E (Settlement.compute_pipeline d p s m state lost_at_start mo la label) =
    waits (E state) lost_at_start
waits_in E (Settlement.render_pipeline d p s m state lost_at_start ve fr la label) =
    waits (E state) lost_at_start
waits_in E _ = false

-- `p` is not a retry, or the retry of a request with `Q`.
abbrev pub Answered : (Settlement → Type 0) → Prepared → Type 0
Answered Q (retry s) = Q s
Answered Q _ = Unit

abbrev Answers : (Settlement → Type 0) → Prepared × World → Type 0
Answers Q p = Answered Q p.0

-- The request is a pipeline of a device whose loss webgpu.h still owes.
abbrev pub owing : (ℕ → Bool) → Settlement → Bool
owing owes (Settlement.compute_pipeline d p s m state lost_at_start mo la label) = owes state
owing owes (Settlement.render_pipeline d p s m state lost_at_start ve fr la label) = owes state
owing owes _ = false

-- Under `E` the loss of each device that `w` has lost is settled, or webgpu.h still owes it.
abbrev pub Covers : (ℕ → Bool) → (ℕ → DeviceEvents) → World → Type 0
Covers owes E w = (d : ℕ) → (w.events d).lost ≡ true → ((E d).lost_settled ≡ true) ⊎ (owes d ≡ true)

-- The request is not put back under `E`, or waits for what webgpu.h owes.
abbrev pub Over : (ℕ → Bool) → (ℕ → DeviceEvents) → Settlement → Type 0
Over owes E s = (waits_in E s ≡ false) ⊎ (owing owes s ≡ true)

made-Answers :
    (Q : Settlement → Type 0) (o : Option JsError) (d : ℕ) (value : Outcome) (w failed : World)
    → Answered Q (made o d value w failed).0
made-Answers Q none d value w failed = tt
made-Answers Q (some error) d value w failed = tt

settled-Answered : (Q : Settlement → Type 0) (d : ℕ) (r : Result Outcome) → Answered Q (settled d r)
settled-Answered Q d (ok value) = tt
settled-Answered Q d (err error) = tt

popped-Answered :
    (Q : Settlement → Type 0) (fails : Option JsError) (d : ℕ) (e : ErrorType × String)
    → Answered Q (popped fails d e)
popped-Answered Q fails d (ErrorType.no_error, m) = tt
popped-Answered Q fails d (ErrorType.validation, m) =
    settled-Answered Q d (gpu_error fails ErrorType.validation m)
popped-Answered Q fails d (ErrorType.out_of_memory, m) =
    settled-Answered Q d (gpu_error fails ErrorType.out_of_memory m)
popped-Answered Q fails d (ErrorType.internal, m) =
    settled-Answered Q d (gpu_error fails ErrorType.internal m)
popped-Answered Q fails d (ErrorType.unknown, m) =
    settled-Answered Q d (gpu_error fails ErrorType.unknown m)

pop-Answered :
    (Q : Settlement → Type 0) (fails : Option JsError) (lost : Bool) (d : ℕ) (status : PopStatus)
    (t : ErrorType) (m : String) (e : Option DeviceError)
    → Answered Q (prepare_pop fails lost d status t m e)
unfolding prepare_pop
pop-Answered Q fails true d PopStatus.success t m e = tt
pop-Answered Q fails false d PopStatus.success t m e =
    popped-Answered Q fails d (popped_error t m e)
pop-Answered Q fails lost d PopStatus.callback_cancelled t m e = tt
pop-Answered Q fails lost d PopStatus.error t m e = tt

wrap_device-Answers :
    (Q : Settlement → Type 0) (i : Option JsError × World) (fails : Option JsError)
    (d native state : ℕ)
    → Answered Q (wrap_device i fails d native state).0
wrap_device-Answers Q (some error, w) fails d native state = tt
wrap_device-Answers Q (none, w) (some error) d native state = tt
wrap_device-Answers Q (none, w) none d native state = tt

answer_lost-Answers :
    (Q : Settlement → Type 0) (engine : Engine) (state reason : ℕ) (message : String)
    (js : DeviceEventJs) (o : Option ℕ) (w : World)
    → Answered Q (answer_lost engine state reason message js o w).0
answer_lost-Answers Q engine state reason message js none w = tt
answer_lost-Answers Q engine state reason message js (some d) w = tt

take_lost-Answers :
    (Q : Settlement → Type 0) (engine : Engine) (state reason : ℕ) (message : String)
    (js : Option DeviceEventJs) (w : World)
    → Answered Q (take_lost engine state reason message js w).0
take_lost-Answers Q engine state reason message none w = tt
take_lost-Answers Q engine state reason message (some js) w =
    answer_lost-Answers Q engine state reason message js js.lost_deferred w

pipeline-Answers :
    (Q : Settlement → Type 0) (again : Settlement) (waiting failing : Bool) (d : ℕ)
    (rejection value : Outcome) (o : Option JsError) (w released : World)
    → (waiting ≡ true → Q again)
    → Answers Q (
        if waiting
        then (retry again, w)
        else if failing
        then (deferred d rejection, released)
        else made o d value w released)
pipeline-Answers Q again waiting failing d rejection value o w released h =
    if_cases (Answers Q) waiting _ _ h
      (λ _. if_keeps (Answers Q) failing _ _ tt (made-Answers Q o d value w released))

-- A loss that is settled ends the waiting.
waits_over :
    (owed : Bool) (e e' : DeviceEvents) (lost_at_start : Bool)
    → (e.lost ≡ true → (e'.lost_settled ≡ true) ⊎ (owed ≡ true))
    → waits e lost_at_start ≡ true
    → (waits e' lost_at_start ≡ false) ⊎ (owed ≡ true)
waits_over owed e e' lost_at_start covered h = elim (covered (ground (arith, h))) [
  | inl over ↦ inl (ground (arith, over))
  | inr owes ↦ inr owes
]

request-Over :
    (owes : ℕ → Bool) (E : ℕ → DeviceEvents) (s : Settlement) (w : World)
    → Covers owes E w
    → waits_in w.events s ≡ true
    → Over owes E s
request-Over owes E (Settlement.compute_pipeline d p s m state l mo la label) w c h =
    waits_over (owes state) (w.events state) (E state) l (c state) h
request-Over owes E (Settlement.render_pipeline d p s m state l ve fr la label) w c h =
    waits_over (owes state) (w.events state) (E state) l (c state) h
request-Over owes E (Settlement.adapter e n) w c h = inl refl
request-Over owes E (Settlement.adapter_unavailable e) w c h = inl refl
request-Over owes E (Settlement.device e n st la) w c h = inl refl
request-Over owes E (Settlement.compilation_info e m) w c h = inl refl
request-Over owes E (Settlement.success e) w c h = inl refl
request-Over owes E (Settlement.error e n m) w c h = inl refl
request-Over owes E (Settlement.start_map b m o s r) w c h = inl refl
request-Over owes E (Settlement.pop_error_scope e s t m x st) w c h = inl refl
request-Over owes E (Settlement.uncaptured_error st t m) w c h = inl refl
request-Over owes E (Settlement.device_lost st r m) w c h = inl refl

pub prepare-Answers :
    (Q : Settlement → Type 0) (engine : Engine) (s : Settlement) (w : World)
    → (waits_in w.events s ≡ true → Q s)
    → Answers Q (prepare engine s w)
unfolding prepare
prepare-Answers Q engine (Settlement.adapter d native) w c = made-Answers Q (engine.fails d) d _ w _
prepare-Answers Q engine (Settlement.adapter_unavailable d) w c = tt
prepare-Answers Q engine (Settlement.device d native state label) w c =
    wrap_device-Answers Q (initialize (engine.promise state) state w) (engine.fails d) d native
      state
prepare-Answers Q engine (Settlement.compute_pipeline d p status m state l mo la label) w c =
    pipeline-Answers Q (Settlement.compute_pipeline d p status m state l mo la label)
      (waits (w.events state) l) _ d _ (Outcome.instance_of p) (engine.fails d) w _ c
prepare-Answers Q engine (Settlement.render_pipeline d p status m state l ve fr la label) w c =
    pipeline-Answers Q (Settlement.render_pipeline d p status m state l ve fr la label)
      (waits (w.events state) l) _ d _ (Outcome.instance_of p) (engine.fails d) w _ c
prepare-Answers Q engine (Settlement.compilation_info d messages) w c = tt
prepare-Answers Q engine (Settlement.success d) w c = tt
prepare-Answers Q engine (Settlement.error d name message) w c = tt
prepare-Answers Q engine (Settlement.start_map b mode o size request) w c = tt
prepare-Answers Q engine (Settlement.pop_error_scope d s t m e state) w c =
    pop-Answered Q (engine.fails d) (w.events state).lost d s t m e
prepare-Answers Q engine (Settlement.uncaptured_error state t m) w c =
    if_keeps (Answered Q) (w.events state).lost _ _ tt tt
prepare-Answers Q engine (Settlement.device_lost state reason m) w c =
    take_lost-Answers Q engine state reason m ((mark_lost_settled state w).events state).js
      (mark_lost_settled state w)

pub add-retries :
    (Q : Settlement → Type 0) (p : Prepared) (c : Collected)
    → Answered Q p
    → All Q c.retries
    → All Q (add p c).retries
add-retries Q (deferred d outcome) c h hs = hs
add-retries Q (retry request) c h hs = (h, hs)
add-retries Q (uncaptured state t m) c h hs = hs
add-retries Q nothing c h hs = hs

pub collect-retries :
    (owes : ℕ → Bool) (E : ℕ → DeviceEvents) (engine : Engine) (q : List Settlement) (w : World)
    → Covers owes E w
    → All (Over owes E) (collect engine q w).0.retries
unfolding collect
collect-retries owes E engine [] w c = tt
collect-retries owes E engine (s ∷ q) w c =
    let p = prepare engine s w in
    add-retries (Over owes E) p.0 (collect engine q p.1).0
      (prepare-Answers (Over owes E) engine s w (request-Over owes E s w c))
      (collect-retries owes E engine q p.1
        (λ d lost. c d (sym (Steady.lost (prepare-Steady engine s w) d) ∙ lost)))
