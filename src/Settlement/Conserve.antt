-- ===== src/Settlement/Conserve.antt =====
-- core/src/lib.rs: the drain neither loses nor doubles a promise.
use webgpu_native_js.Prelude.{
  ℕ, ◌+◌, ◌≡◌, refl, sym, ap, subst, Bool, Option, List, [], ◌∷◌, arith, if◌then◌else◌, if_keeps,
}
use webgpu_native_js.Result.{JsError}
use webgpu_native_js.World.{World, Settlement, Outcome}
use webgpu_native_js.Registry.{mark_lost_settled}
use webgpu_native_js.Registry.Laws.{mark_lost_settled-same}
use webgpu_native_js.Settlement.{
  Engine, Prepared, deferred, retry, uncaptured, nothing, prepare, made, initialize,
}
use webgpu_native_js.Settlement.Queue.{Collected, add, collect}
use webgpu_native_js.Settlement.Owed.{
  is_it, owed, owed_all, settled_in, started, kept, Apart, NotPromised, Balanced, Apart-update,
}
use webgpu_native_js.Settlement.Arms.{
  made-Balanced, compute-same, render-same, pop-kept, initialize-same, wrap_device-Balanced,
  take_lost-Balanced,
}

module _ (v : ℕ) where
  pipeline-Balanced :
      (again : Settlement) (waiting failing : Bool) (rejection : Outcome) (o : Option JsError)
      (d : ℕ) (value : Outcome) (w released : World)
      → owed v again ≡ is_it v d
      → started v released.calls ≡ started v w.calls
      → released.events ≡ w.events
      → Apart v w.events
      → Balanced v (is_it v d) (started v w.calls) (
          if waiting
          then (retry again, w)
          else if failing
          then (deferred d rejection, released)
          else made o d value w released)
  pipeline-Balanced again waiting failing rejection o d value w released owes same events a =
      let a' = subst (Apart v) (sym events) a in
      let P = λ (p : Prepared × World). Balanced v (is_it v d) (started v w.calls) p in
      if_keeps P waiting _ _ (omega (arith, owes), a)
        (if_keeps P failing _ _ (omega (arith, same), a')
          (made-Balanced v o d value w released (started v w.calls) refl (sym same) a a'))

  pub prepare-Balanced :
      (engine : Engine) (s : Settlement) (w : World)
      → NotPromised v engine
      → Apart v w.events
      → Balanced v (owed v s) (started v w.calls) (prepare engine s w)
  unfolding prepare
  prepare-Balanced engine (Settlement.adapter d native) w n a =
      made-Balanced v (engine.fails d) d _ w _ _ refl refl a a
  prepare-Balanced engine (Settlement.adapter_unavailable d) w n a = (omega arith, a)
  prepare-Balanced engine (Settlement.device d native state label) w n a =
      let i = initialize-same v (engine.promise state) state w (n state) a in
      wrap_device-Balanced v (initialize (engine.promise state) state w) (engine.fails d) d native
        state _ (sym i.0) i.1
  prepare-Balanced engine (Settlement.compute_pipeline d p status m state l mo la label) w n a =
      let same = compute-same v p mo la w in
      pipeline-Balanced (Settlement.compute_pipeline d p status m state l mo la label) _ _ _ _ d _ w
        _ refl same.0 same.1 a
  prepare-Balanced engine (Settlement.render_pipeline d p status m state l ve fr la label) w n a =
      let same = render-same v p ve fr la w in
      pipeline-Balanced (Settlement.render_pipeline d p status m state l ve fr la label) _ _ _ _ d _
        w _ refl same.0 same.1 a
  prepare-Balanced engine (Settlement.compilation_info d messages) w n a = (omega arith, a)
  prepare-Balanced engine (Settlement.success d) w n a = (omega arith, a)
  prepare-Balanced engine (Settlement.error d name message) w n a = (omega arith, a)
  prepare-Balanced engine (Settlement.start_map b mode o size request) w n a = (omega arith, a)
  prepare-Balanced engine (Settlement.pop_error_scope d s t m e state) w n a =
      (omega (arith, pop-kept v (engine.fails d) (w.events state).lost d s t m e), a)
  prepare-Balanced engine (Settlement.uncaptured_error state t m) w n a =
      if_keeps (λ (p : Prepared). Balanced v 0 (started v w.calls) (p, w)) (w.events state).lost _ _
        (omega arith, a) (omega arith, a)
  prepare-Balanced engine (Settlement.device_lost state reason m) w n a =
      let same = mark_lost_settled-same state w in
      let w' = mark_lost_settled state w in
      let a' = subst (Apart v) (sym same.0) (Apart-update v w.events state _ a (a state)) in
      take_lost-Balanced v engine state reason m (w'.events state).js w' _
        (ap (started v) (sym same.1)) a' (a' state)

  -- What the loop collected
  abbrev held : Collected → ℕ
  held c = settled_in v c.requests + owed_all v c.retries

  add-held : (p : Prepared) (c : Collected) → held (add p c) ≡ kept v p + held c
  add-held (deferred d outcome) c = omega arith
  add-held (retry request) c = omega arith
  add-held (uncaptured state t m) c = omega arith
  add-held nothing c = omega arith

  pub collect-Balanced :
      (engine : Engine) (q : List Settlement) (w : World)
      → NotPromised v engine
      → Apart v w.events
      → let c = collect engine q w in
        owed_all v q + started v w.calls ≡ held c.0 + started v c.1.calls
  unfolding collect
  collect-Balanced engine [] w n a = omega arith
  collect-Balanced engine (s ∷ q) w n a =
      let p = prepare engine s w in
      let b = prepare-Balanced engine s w n a in
      omega (arith, b.0, collect-Balanced engine q p.1 n b.1, add-held p.0 (collect engine q p.1).0)
