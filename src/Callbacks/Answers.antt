-- ===== src/Callbacks/Answers.antt =====
-- core/src/lib.rs: each callback hands its promise to the settlement queue once.
use webgpu_native_js.Prelude.{
  ℕ, ◌+◌, String, ◌≡◌, refl, sym, ap, ◌∙◌, subst, Bool, true, false, not, ◌&&◌, Option, none, some,
  List, [], ◌∷◌, ◌++◌, arith, if◌then◌else◌, if_keeps,
}
use webgpu_native_js.World.{
  World, MapRequest, Settlement, ReleaseRequest, Call, enqueue_release, is_null, emit,
  enqueue_settlement,
}
use webgpu_native_js.ErrorScopes.{mark_lost, enqueue_lost, enqueue_uncaptured, device_lost_callback}
use webgpu_native_js.Buffer.{
  BufferState, MapStatus, map_settlement, map_callback_state, buffer_map_callback,
}
use webgpu_native_js.Settlement.{
  Engine, enqueue_compute_pipeline_release, enqueue_render_pipeline_release,
}
use webgpu_native_js.Settlement.Queue.{drain_queue}
use webgpu_native_js.Settlement.Owed.{
  is_it, is_it?, owed, owed_all, settled_in, started, Apart, NotPromised, Apart-update,
}
use webgpu_native_js.Settlement.Drain.{drain_conserves}
use webgpu_native_js.Callbacks.{
  Callback, callback_message, RequestStatus, request_succeeded, Copied, copied_settlement,
  compilation_settlement, run_callback, run_callbacks, request_adapter_callback,
  request_device_callback, create_compute_pipeline_callback, create_render_pipeline_callback,
  compilation_info_callback, queue_work_done_callback, uncaptured_error_callback,
  pop_error_scope_callback,
}

-- The promise of a callback's request
abbrev pub deferred_of : Callback → Option ℕ
deferred_of (Callback.adapter s a d) = d
deferred_of (Callback.device s n m st la d) = d
deferred_of (Callback.compute_pipeline s p m r d) = d
deferred_of (Callback.render_pipeline s p m r d) = d
deferred_of (Callback.compilation_info s i d) = d
deferred_of (Callback.buffer_map s m r b) = r.deferred
deferred_of (Callback.work_done s m d) = d
deferred_of (Callback.uncaptured_error t m st) = none
deferred_of (Callback.device_lost r m st) = none
deferred_of (Callback.pop_error_scope s t m e st d) = d

abbrev pub requested : ℕ → List Callback → ℕ
requested v [] = 0
requested v (c ∷ cs) = is_it? v (deferred_of c) + requested v cs

module _ (v : ℕ) where
  owed_all-append : (q r : List Settlement) → owed_all v (q ++ r) ≡ owed_all v q + owed_all v r
  owed_all-append [] r = omega arith
  owed_all-append (s ∷ q) r = omega (arith, owed_all-append q r)

  -- A callback owes `n` more, starts no map, and keeps the promises of losses.
  abbrev pub Owes : ℕ → World → World → Type 0
  Owes n w w' =
      (owed_all v w'.settlements ≡ n + owed_all v w.settlements)
      × (started v w'.calls ≡ started v w.calls)
      × (Apart v w.events → Apart v w'.events)

  enqueued : (s : Settlement) (w : World) → Owes (owed v s) w (enqueue_settlement s w)
  enqueued s w = (omega (arith, owed_all-append w.settlements (s ∷ [])), refl, λ a. a)

  -- The queue, the calls that start maps, and the events stay.
  still :
      (w w' : World)
      → w'.settlements ≡ w.settlements
      → started v w'.calls ≡ started v w.calls
      → w'.events ≡ w.events
      → Owes 0 w w'
  still w w' q c e = (ap (owed_all v) q ∙ omega arith, c, λ a. subst (Apart v) (sym e) a)

  Owes-then : (n : ℕ) (w w' w'' : World) → Owes 0 w w' → Owes n w' w'' → Owes n w w''
  Owes-then n w w' w'' a b = (omega (arith, a.0, b.0), b.1 ∙ a.1, λ h. b.2 (a.2 h))

  adapter-Owes :
      (s : RequestStatus) (h : ℕ) (d : Option ℕ) (w : World)
      → Owes (is_it? v d) w (request_adapter_callback s h d w)
  unfolding request_adapter_callback
  adapter-Owes s h none w =
      if_keeps (Owes 0 w) (is_null h) _ _ (still w w refl refl refl)
        (still w (emit (Call.adapter_release h) w) refl (omega arith) refl)
  adapter-Owes s h (some d) w =
      let w' : World = if is_null h then w else enqueue_release (ReleaseRequest.adapter h) w in
      let failed = Settlement.adapter_unavailable d in
      if_keeps (Owes (is_it v d) w) (request_succeeded s && not (is_null h)) _ _
        (enqueued (Settlement.adapter d h) w)
        (Owes-then (is_it v d) w w' (enqueue_settlement failed w')
          (if_keeps (Owes 0 w) (is_null h) w (enqueue_release (ReleaseRequest.adapter h) w)
            (still w w refl refl refl)
            (still w (enqueue_release (ReleaseRequest.adapter h) w) refl refl refl))
          (enqueued failed w'))

  device-Owes :
      (s : RequestStatus) (h : ℕ) (m : String) (st : ℕ) (la : String) (d : Option ℕ) (w : World)
      → Owes (is_it? v d) w (request_device_callback s h m st la d w)
  unfolding request_device_callback
  device-Owes s h m st la none w =
      if_keeps (Owes 0 w) (is_null h) _ _ (still w w refl refl refl)
        (still w (emit (Call.device_release h) w) refl (omega arith) refl)
  device-Owes s h m st la (some d) w =
      let w' : World = if is_null h then w else enqueue_release (ReleaseRequest.device h) w in
      let failed =
        Settlement.error d "OperationError" (callback_message m "requestDevice failed") in
      if_keeps (Owes (is_it v d) w) (request_succeeded s && not (is_null h)) _ _
        (enqueued (Settlement.device d h st la) w)
        (Owes-then (is_it v d) w w' (enqueue_settlement failed w')
          (if_keeps (Owes 0 w) (is_null h) w (enqueue_release (ReleaseRequest.device h) w)
            (still w w refl refl refl)
            (still w (enqueue_release (ReleaseRequest.device h) w) refl refl refl))
          (enqueued failed w'))

  compute-Owes : (p m l : ℕ) (w : World) → Owes 0 w (enqueue_compute_pipeline_release p m l w)
  unfolding enqueue_compute_pipeline_release
  compute-Owes p m l w =
      still w (enqueue_compute_pipeline_release p m l w) (ground arith) (ground arith)
        (ground arith)

  render-Owes : (p m f l : ℕ) (w : World) → Owes 0 w (enqueue_render_pipeline_release p m f l w)
  unfolding enqueue_render_pipeline_release
  render-Owes p m f l w =
      still w (enqueue_render_pipeline_release p m f l w) (ground arith) (ground arith)
        (ground arith)

  copied-owed : (d : ℕ) (i : Option Copied) → owed v (copied_settlement d i) ≡ is_it v d
  copied-owed d none = refl
  copied-owed d (some (Copied.messages m)) = refl
  copied-owed d (some (Copied.failure m)) = refl

  compilation-owed :
      (s : RequestStatus) (d : ℕ) (i : Option Copied)
      → owed v (compilation_settlement s d i) ≡ is_it v d
  compilation-owed RequestStatus.success d i = copied-owed d i
  compilation-owed RequestStatus.callback_cancelled d i = refl
  compilation-owed RequestStatus.unavailable d i = refl
  compilation-owed RequestStatus.error d i = refl

  map_settlement-owed :
      (s : MapStatus) (m : String → String) (d : ℕ) (canceled : Bool)
      → owed v (map_settlement s m d canceled) ≡ is_it v d
  map_settlement-owed s m d true = refl
  map_settlement-owed s m d false = ground arith

  -- What is enqueued owes the deferred.
  enqueued_for :
      (d : ℕ) (s : Settlement) (w : World)
      → owed v s ≡ is_it v d
      → Owes (is_it v d) w (enqueue_settlement s w)
  enqueued_for d s w same = subst (λ n. Owes n w (enqueue_settlement s w)) same (enqueued s w)

  buffer_map-Owes :
      (s : MapStatus) (m : String → String) (r : MapRequest) (o : Option ℕ) (b : BufferState)
      (w : World)
      → Owes (is_it? v o) w (buffer_map_callback s m (record r { deferred = o }) b w).1
  unfolding buffer_map_callback
  buffer_map-Owes s m r none b w = still w w refl refl refl
  buffer_map-Owes s m r (some d) b w =
      let canceled = (map_callback_state s (record r { deferred = some d }) b).0 in
      enqueued_for d _ w (map_settlement-owed s m d canceled)

  lost-Owes :
      (reason : ℕ) (m : String) (st : ℕ) (w : World) → Owes 0 w (device_lost_callback st reason m w)
  unfolding device_lost_callback mark_lost enqueue_lost
  lost-Owes reason m st w = (
    omega (arith, owed_all-append w.settlements (Settlement.device_lost st reason m ∷ [])),
    refl,
    λ a. Apart-update v w.events st (mark_lost (w.events st)) a (a st),
  )

  pub run_callback-Owes :
      (c : Callback) (w : World) → Owes (is_it? v (deferred_of c)) w (run_callback c w)
  unfolding run_callback create_compute_pipeline_callback create_render_pipeline_callback
      compilation_info_callback queue_work_done_callback uncaptured_error_callback
      pop_error_scope_callback enqueue_uncaptured
  run_callback-Owes (Callback.adapter s h d) w = adapter-Owes s h d w
  run_callback-Owes (Callback.device s h m st la d) w = device-Owes s h m st la d w
  run_callback-Owes (Callback.compute_pipeline s p m r none) w = compute-Owes p r.module_ r.layout w
  run_callback-Owes (Callback.compute_pipeline s p m r (some d)) w = enqueued _ w
  run_callback-Owes (Callback.render_pipeline s p m r none) w =
      render-Owes p r.vertex_module r.fragment_module r.layout w
  run_callback-Owes (Callback.render_pipeline s p m r (some d)) w = enqueued _ w
  run_callback-Owes (Callback.compilation_info s i none) w = still w w refl refl refl
  run_callback-Owes (Callback.compilation_info s i (some d)) w =
      enqueued_for d _ w (compilation-owed s d i)
  run_callback-Owes (Callback.buffer_map s m r b) w = buffer_map-Owes s m r r.deferred b w
  run_callback-Owes (Callback.work_done s m none) w = still w w refl refl refl
  run_callback-Owes (Callback.work_done s m (some d)) w = enqueued_for d _ w (ground arith)
  run_callback-Owes (Callback.uncaptured_error t m st) w =
      if_keeps (Owes 0 w) (w.events st).lost _ _ (still w w refl refl refl)
        (enqueued (Settlement.uncaptured_error st t m) w)
  run_callback-Owes (Callback.device_lost r m st) w = lost-Owes r m st w
  run_callback-Owes (Callback.pop_error_scope s t m e st none) w = still w w refl refl refl
  run_callback-Owes (Callback.pop_error_scope s t m e st (some d)) w = enqueued _ w

  run_callbacks-Owes :
      (cs : List Callback) (w : World) → Owes (requested v cs) w (run_callbacks cs w)
  unfolding run_callbacks
  run_callbacks-Owes [] w = still w w refl refl refl
  run_callbacks-Owes (c ∷ cs) w =
      let one = run_callback-Owes c w in
      let more = run_callbacks-Owes cs (run_callback c w) in
      (omega (arith, one.0, more.0), more.1 ∙ one.1, λ a. more.2 (one.2 a))

-- The promises of the callbacks of `wgpuInstanceProcessEvents`, and those that were queued before,
-- are neither lost nor doubled by the drain after it: as often as a promise was asked for or queued,
-- it is in the batch that is settled, still owed by the queue, or handed to a native map that the
-- drain started. It is none of the promises of a device's loss.
pub answered_once :
    (v : ℕ) (engine : Engine) (cs : List Callback) (w : World)
    → NotPromised v engine
    → Apart v w.events
    → let c = drain_queue engine (run_callbacks cs w) in
      requested v cs + owed_all v w.settlements + started v w.calls
      ≡ settled_in v c.0.requests + owed_all v c.1.settlements + started v c.1.calls
answered_once v engine cs w n a =
    let owes = run_callbacks-Owes v cs w in
    omega (arith, owes.0, owes.1, drain_conserves v engine (run_callbacks cs w) n (owes.2 a))
