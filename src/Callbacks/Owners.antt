-- ===== src/Callbacks/Owners.antt =====
-- core/src/lib.rs: who owns a native object that a callback is given.
use webgpu_native_js.Prelude.{
  ℕ, ◌+◌, String, ◌≡◌, refl, Bool, true, false, not, ◌&&◌, Option, none, some, List, [], ◌∷◌, ◌++◌,
  arith, ◌==◌, if◌then◌else◌, if_keeps,
}
use webgpu_native_js.World.{
  World, MapRequest, ReleaseRequest, Settlement, Call, is_null, enqueue_settlement, enqueue_release,
}
use webgpu_native_js.ErrorScopes.{mark_lost, enqueue_lost, enqueue_uncaptured, device_lost_callback}
use webgpu_native_js.Buffer.{
  MapStatus, BufferState, map_settlement, map_callback_state, buffer_map_callback,
}
use webgpu_native_js.Settlement.{enqueue_compute_pipeline_release, enqueue_render_pipeline_release}
use webgpu_native_js.Callbacks.{
  Callback, callback_message, Copied, copied_settlement, compilation_settlement, run_callback,
  run_callbacks, compilation_info_callback, queue_work_done_callback, uncaptured_error_callback,
  pop_error_scope_callback, RequestStatus, request_adapter_callback, request_device_callback,
  create_compute_pipeline_callback, create_render_pipeline_callback,
}

-- A native object, by its class
pub data Native : Type 0 where
  adapter device compute_pipeline render_pipeline : ℕ → Native

abbrev pub is_same : Native → Native → Bool
is_same (Native.adapter a) (Native.adapter b) = a == b
is_same (Native.device a) (Native.device b) = a == b
is_same (Native.compute_pipeline a) (Native.compute_pipeline b) = a == b
is_same (Native.render_pipeline a) (Native.render_pipeline b) = a == b
is_same _ _ = false

abbrev pub one_if : Native → Bool → Native → ℕ
one_if n null x = if not null && is_same n x then 1 else 0

-- How often `n` is owned by a request for a promise, by a request for a release, and was released
abbrev pub in_settlement : Native → Settlement → ℕ
in_settlement n (Settlement.adapter d h) = one_if n false (Native.adapter h)
in_settlement n (Settlement.device d h st la) = one_if n false (Native.device h)
in_settlement n (Settlement.compute_pipeline d p s m st l mo la label) =
    one_if n (is_null p) (Native.compute_pipeline p)
in_settlement n (Settlement.render_pipeline d p s m st l ve fr la label) =
    one_if n (is_null p) (Native.render_pipeline p)
in_settlement n _ = 0

abbrev pub in_settlements : Native → List Settlement → ℕ
in_settlements n [] = 0
in_settlements n (s ∷ q) = in_settlement n s + in_settlements n q

abbrev pub in_release : Native → ReleaseRequest → ℕ
in_release n (ReleaseRequest.adapter h) = one_if n false (Native.adapter h)
in_release n (ReleaseRequest.device h) = one_if n false (Native.device h)
in_release n (ReleaseRequest.compute_pipeline p mo la) = one_if n false (Native.compute_pipeline p)
in_release n (ReleaseRequest.render_pipeline p ve fr la) = one_if n false (Native.render_pipeline p)
in_release n _ = 0

abbrev pub in_releases : Native → List ReleaseRequest → ℕ
in_releases n [] = 0
in_releases n (r ∷ q) = in_release n r + in_releases n q

abbrev pub released_now : Native → List Call → ℕ
released_now n [] = 0
released_now n (c ∷ cs) =
    (elim c [
      | Call.adapter_release h ↦ one_if n false (Native.adapter h)
      | Call.device_release h ↦ one_if n false (Native.device h)
      | _ ↦ 0
    ])
    + released_now n cs

abbrev pub owners : Native → World → ℕ
owners n w = in_settlements n w.settlements + in_releases n w.releases + released_now n w.calls

module _ (n : Native) where
  in_settlements-append :
      (q : List Settlement) (s : Settlement)
      → in_settlements n (q ++ (s ∷ [])) ≡ in_settlements n q + in_settlement n s
  in_settlements-append [] s = omega arith
  in_settlements-append (x ∷ q) s = omega (arith, in_settlements-append q s)

  in_releases-append :
      (q : List ReleaseRequest) (r : ReleaseRequest)
      → in_releases n (q ++ (r ∷ [])) ≡ in_releases n q + in_release n r
  in_releases-append [] r = omega arith
  in_releases-append (x ∷ q) r = omega (arith, in_releases-append q r)

  settlement-owners :
      (s : Settlement) (w : World)
      → owners n (enqueue_settlement s w) ≡ in_settlement n s + owners n w
  settlement-owners s w = omega (arith, in_settlements-append w.settlements s)

  release-owners :
      (r : ReleaseRequest) (w : World)
      → owners n (enqueue_release r w) ≡ in_release n r + owners n w
  release-owners r w = omega (arith, in_releases-append w.releases r)

  adapter-owners :
      (s : RequestStatus) (h : ℕ) (d : Option ℕ) (w : World)
      → owners n (request_adapter_callback s h d w)
        ≡ one_if n (is_null h) (Native.adapter h) + owners n w
  unfolding request_adapter_callback
  adapter-owners s h none w = ground arith
  adapter-owners s h (some d) w =
      let kept = settlement-owners (Settlement.adapter d h) w in
      let gone = settlement-owners (Settlement.adapter_unavailable d) w in
      let queued = release-owners (ReleaseRequest.adapter h) w in
      let both =
        settlement-owners (Settlement.adapter_unavailable d)
          (enqueue_release (ReleaseRequest.adapter h) w) in
      ground (arith, kept, gone, queued, both)

  device-owners :
      (s : RequestStatus) (h : ℕ) (m : String) (st : ℕ) (la : String) (d : Option ℕ) (w : World)
      → owners n (request_device_callback s h m st la d w)
        ≡ one_if n (is_null h) (Native.device h) + owners n w
  unfolding request_device_callback
  device-owners s h m st la none w = ground arith
  device-owners s h m st la (some d) w =
      let rejected =
        Settlement.error d "OperationError" (callback_message m "requestDevice failed") in
      let released = enqueue_release (ReleaseRequest.device h) w in
      let kept = settlement-owners (Settlement.device d h st la) w in
      let gone = settlement-owners rejected w in
      let queued = release-owners (ReleaseRequest.device h) w in
      let both = settlement-owners rejected released in ground (arith, kept, gone, queued, both)

  compute-owners :
      (p m l : ℕ) (w : World)
      → owners n (enqueue_compute_pipeline_release p m l w)
        ≡ one_if n (is_null p) (Native.compute_pipeline p) + owners n w
  unfolding enqueue_compute_pipeline_release
  compute-owners p m l w =
      let module_ = release-owners (ReleaseRequest.shader_module m) w in
      let layout =
        release-owners (ReleaseRequest.pipeline_layout l)
          (enqueue_release (ReleaseRequest.shader_module m) w) in
      let whole = release-owners (ReleaseRequest.compute_pipeline p m l) w in
      ground (arith, module_, layout, whole)

  render-owners :
      (p ve fr l : ℕ) (w : World)
      → owners n (enqueue_render_pipeline_release p ve fr l w)
        ≡ one_if n (is_null p) (Native.render_pipeline p) + owners n w
  unfolding enqueue_render_pipeline_release
  render-owners p ve fr l w =
      let w₁ = enqueue_release (ReleaseRequest.shader_module ve) w in
      let w₂ = enqueue_release (ReleaseRequest.shader_module fr) w₁ in
      let vertex = release-owners (ReleaseRequest.shader_module ve) w in
      let fragment = release-owners (ReleaseRequest.shader_module fr) w₁ in
      let layout₁ = release-owners (ReleaseRequest.pipeline_layout l) w₁ in
      let layout₂ = release-owners (ReleaseRequest.pipeline_layout l) w₂ in
      let whole = release-owners (ReleaseRequest.render_pipeline p ve fr l) w in
      ground (arith, vertex, fragment, layout₁, layout₂, whole)

  -- How often a callback is given `n`
  abbrev given : Callback → ℕ
  given (Callback.adapter s h d) = one_if n (is_null h) (Native.adapter h)
  given (Callback.device s h m st la d) = one_if n (is_null h) (Native.device h)
  given (Callback.compute_pipeline s p m r d) = one_if n (is_null p) (Native.compute_pipeline p)
  given (Callback.render_pipeline s p m r d) = one_if n (is_null p) (Native.render_pipeline p)
  given _ = 0

  -- A request that owns nothing
  ownerless :
      (s : Settlement) (w : World)
      → in_settlement n s ≡ 0
      → owners n (enqueue_settlement s w) ≡ 0 + owners n w
  ownerless s w h = omega (arith, settlement-owners s w, h)

  copied-ownerless : (d : ℕ) (i : Option Copied) → in_settlement n (copied_settlement d i) ≡ 0
  copied-ownerless d none = refl
  copied-ownerless d (some (Copied.messages m)) = refl
  copied-ownerless d (some (Copied.failure m)) = refl

  compilation-ownerless :
      (s : RequestStatus) (d : ℕ) (i : Option Copied)
      → in_settlement n (compilation_settlement s d i) ≡ 0
  compilation-ownerless RequestStatus.success d i = copied-ownerless d i
  compilation-ownerless RequestStatus.callback_cancelled d i = refl
  compilation-ownerless RequestStatus.unavailable d i = refl
  compilation-ownerless RequestStatus.error d i = refl

  map_settlement-ownerless :
      (s : MapStatus) (m : String → String) (d : ℕ) (canceled : Bool)
      → in_settlement n (map_settlement s m d canceled) ≡ 0
  map_settlement-ownerless s m d true = refl
  map_settlement-ownerless s m d false = ground arith

  buffer_map-ownerless :
      (s : MapStatus) (m : String → String) (r : MapRequest) (o : Option ℕ) (b : BufferState)
      (w : World)
      → owners n (buffer_map_callback s m (record r { deferred = o }) b w).1 ≡ 0 + owners n w
  unfolding buffer_map_callback
  buffer_map-ownerless s m r none b w = omega arith
  buffer_map-ownerless s m r (some d) b w =
      ownerless _ w
        (map_settlement-ownerless s m d (map_callback_state s (record r { deferred = some d }) b).0)

  lost-ownerless :
      (r : ℕ) (m : String) (st : ℕ) (w : World)
      → owners n (device_lost_callback st r m w) ≡ 0 + owners n w
  unfolding device_lost_callback enqueue_lost mark_lost
  lost-ownerless r m st w =
      omega (arith, in_settlements-append w.settlements (Settlement.device_lost st r m))

  run_callback-owners :
      (c : Callback) (w : World) → owners n (run_callback c w) ≡ given c + owners n w
  unfolding run_callback create_compute_pipeline_callback create_render_pipeline_callback
      compilation_info_callback queue_work_done_callback uncaptured_error_callback
      pop_error_scope_callback enqueue_uncaptured
  run_callback-owners (Callback.adapter s h d) w = adapter-owners s h d w
  run_callback-owners (Callback.device s h m st la d) w = device-owners s h m st la d w
  run_callback-owners (Callback.compute_pipeline s p m r none) w =
      compute-owners p r.module_ r.layout w
  run_callback-owners (Callback.compute_pipeline s p m r (some d)) w = settlement-owners _ w
  run_callback-owners (Callback.render_pipeline s p m r none) w =
      render-owners p r.vertex_module r.fragment_module r.layout w
  run_callback-owners (Callback.render_pipeline s p m r (some d)) w = settlement-owners _ w
  run_callback-owners (Callback.compilation_info s i none) w = omega arith
  run_callback-owners (Callback.compilation_info s i (some d)) w =
      ownerless _ w (compilation-ownerless s d i)
  run_callback-owners (Callback.buffer_map s m r b) w = buffer_map-ownerless s m r r.deferred b w
  run_callback-owners (Callback.work_done s m none) w = omega arith
  run_callback-owners (Callback.work_done s m (some d)) w = ownerless _ w (ground arith)
  run_callback-owners (Callback.uncaptured_error t m st) w =
      if_keeps (λ (w' : World). owners n w' ≡ 0 + owners n w) (w.events st).lost _ _ (omega arith)
        (ownerless (Settlement.uncaptured_error st t m) w refl)
  run_callback-owners (Callback.device_lost r m st) w = lost-ownerless r m st w
  run_callback-owners (Callback.pop_error_scope s t m e st none) w = omega arith
  run_callback-owners (Callback.pop_error_scope s t m e st (some d)) w = ownerless _ w refl

  abbrev given_to : List Callback → ℕ
  given_to [] = 0
  given_to (c ∷ cs) = given c + given_to cs

  -- Each native adapter, device and pipeline that the callbacks of `wgpuInstanceProcessEvents` are
  -- given has exactly one owner more after them: the request for its promise, a request for its
  -- release, or it was released at once. None is lost and none is owned twice, also after the
  -- engine was torn down.
  pub run_callbacks-owners :
      (cs : List Callback) (w : World) → owners n (run_callbacks cs w) ≡ given_to cs + owners n w
  unfolding run_callbacks
  run_callbacks-owners [] w = omega arith
  run_callbacks-owners (c ∷ cs) w =
      let one = run_callback-owners c w in
      omega (arith, one, run_callbacks-owners cs (run_callback c w))
