-- ===== src/Tick/Order.antt =====
-- core/src/lib.rs: `tick` and `frame` against a list of phases, of which each runs in its turn, and
-- the first error is kept.
use webgpu_native_js.Prelude.{
  ℕ, ◌+◌, String, ◌≡◌, refl, sym, ap, ◌∙◌, Option, none, some, List, [], ◌∷◌, ◌++◌, arith, length,
}
use webgpu_native_js.Result.{Result, ok, err}
use webgpu_native_js.World.{World, Call, emit}
use webgpu_native_js.Settlement.Queue.{drain}
use webgpu_native_js.Tick.{
  Host, FrameError, TickError, HostResult, drained, failed, stuck, Called, returned, raised,
  call_global_function, frame_error_from_tick, drain_releases, host_result, tick, frame, pump,
  pump_result, microtasks, frame_error, after_pump,
}
use webgpu_native_js.Tick.Releases.{run_all, drain_releases_lem}

pub data Phase : Type 0 where
  events settlements tasks callback releases : Phase

-- What has run so far: the first error, and how many releases
pub record Progress : Type 0 where
  pub error : Option FrameError
  pub released : ℕ
  pub world : World

abbrev pub keep_first : Option FrameError → Option FrameError → Option FrameError
keep_first (some error) later = some error
keep_first none later = later

abbrev pub result_error : {A : Type 0} → Result A → Option FrameError
result_error (ok value) = none
result_error (err error) = some (FrameError.engine error)

abbrev pub called_error : Called → Option FrameError
called_error (returned value) = none
called_error (raised error) = some error

abbrev pub after : Progress → Option FrameError × World → Progress
after p r = record p { error = keep_first p.error r.0; world = r.1 }

-- One phase
abbrev pub run_phase : Host → String → List ℕ → Phase → Progress → Progress
run_phase host name args Phase.events p =
    after p (none, host.process_events (emit Call.process_events p.world))
run_phase host name args Phase.settlements p =
    let r = drain host.values host.reactions p.world in after p (result_error r.0, r.1)
run_phase host name args Phase.tasks p =
    let r = microtasks host p.world in after p (result_error r.0, r.1)
run_phase host name args Phase.callback p =
    let r = call_global_function host name args p.world in after p (called_error r.0, r.1)
run_phase host name args Phase.releases p = record p {
  released = p.released + length p.world.releases;
  world = record p.world { releases = []; calls = run_all p.world.releases p.world.calls };
}

abbrev pub run_phases : Host → String → List ℕ → List Phase → Progress → Progress
run_phases host name args [] p = p
run_phases host name args (phase ∷ phases) p =
    run_phases host name args phases (run_phase host name args phase p)

abbrev pub start : World → Progress
start w = record { error = none; released = 0; world = w }

abbrev pub pumping : List Phase
pumping = Phase.events ∷ Phase.settlements ∷ Phase.tasks ∷ []

-- The callback and its microtasks are left out after an error.
abbrev pub rest_of_frame : Option FrameError → List Phase
rest_of_frame none = Phase.callback ∷ Phase.tasks ∷ Phase.releases ∷ []
rest_of_frame (some error) = Phase.releases ∷ []

abbrev pub answer : Progress → HostResult FrameError × World
answer p = (host_result p.error (some p.released), p.world)

abbrev pub as_frame : HostResult TickError → HostResult FrameError
as_frame (drained n) = drained n
as_frame (failed error) = failed (frame_error_from_tick error)
as_frame stuck = stuck

abbrev pub lifted : Option TickError → Option FrameError
lifted none = none
lifted (some error) = some (frame_error_from_tick error)

pump_result-keep_first :
    (s : Result ℕ) (t : Result (Unit {0}))
    → lifted (pump_result s t) ≡ keep_first (keep_first none (result_error s)) (result_error t)
unfolding frame_error_from_tick
pump_result-keep_first (err e) t = refl
pump_result-keep_first (ok n) (err e) = refl
pump_result-keep_first (ok n) (ok done) = refl

-- The pump is its three phases.
pump-run_phases :
    (host : Host) (name : String) (args : List ℕ) (w : World)
    → run_phases host name args pumping (start w)
      ≡ record { error = lifted (pump host w).0; released = 0; world = (pump host w).1 }
unfolding pump
pump-run_phases host name args w =
    let s = drain host.values host.reactions (host.process_events (emit Call.process_events w)) in
    let t = microtasks host s.1 in
    ap (λ e. record { error = e; released = 0; world = t.1 }) (sym (pump_result-keep_first s.0 t.0))

frame_error-keep_first :
    (c : Called) (t : Result (Unit {0}))
    → frame_error c t ≡ keep_first (keep_first none (called_error c)) (result_error t)
frame_error-keep_first (raised e) t = refl
frame_error-keep_first (returned v) (err e) = refl
frame_error-keep_first (returned v) (ok done) = refl

-- The last phase
last_phase :
    (host : Host) (name : String) (args : List ℕ) (e : Option FrameError) (w : World)
    → (host_result e (drain_releases w).0, (drain_releases w).1)
      ≡ answer
          (run_phase host name args Phase.releases (record { error = e; released = 0; world = w }))
last_phase host name args e w =
    let emptied : World = record w { releases = []; calls = run_all w.releases w.calls } in
    ap (λ (r : Option ℕ × World). (host_result e r.0, r.1)) (drain_releases_lem w)
    ∙ ap (λ k. (host_result e (some k), emptied)) (omega arith)

as_frame-host_result :
    (e : Option TickError) (n : Option ℕ) → as_frame (host_result e n) ≡ host_result (lifted e) n
as_frame-host_result none none = refl
as_frame-host_result none (some n) = refl
as_frame-host_result (some e) n = refl

-- A tick is its phases, processing of events, settlements, microtasks and releases, each of which
-- runs whatever failed before; its answer is the first error, or else how many requests were
-- released.
pub tick-run_phases :
    (host : Host) (name : String) (args : List ℕ) (w : World)
    → (as_frame (tick host w).0, (tick host w).1)
      ≡ answer (run_phases host name args (pumping ++ (Phase.releases ∷ [])) (start w))
unfolding tick
tick-run_phases host name args w =
    let p = pump host w in
    let r = drain_releases p.1 in
    ap (λ a. (a, r.1)) (as_frame-host_result p.0 r.0)
    ∙ last_phase host name args (lifted p.0) p.1
    ∙ ap (λ q. answer (run_phase host name args Phase.releases q))
        (sym (pump-run_phases host name args w))

-- The frame after its pump
rest-run_phases :
    (host : Host) (name : String) (args : List ℕ) (e : Option TickError) (w : World)
    → after_pump host name args (e, w)
      ≡ answer (
          run_phases host name args
            (rest_of_frame (lifted e))
            (record { error = lifted e; released = 0; world = w }))
rest-run_phases host name args (some e) w =
    last_phase host name args (some (frame_error_from_tick e)) w
rest-run_phases host name args none w =
    let c = call_global_function host name args w in
    let t = microtasks host c.1 in
    let r = drain_releases t.1 in
    ap (λ e. (host_result e r.0, r.1)) (frame_error-keep_first c.0 t.0)
    ∙ last_phase host name args _ t.1

-- A frame is the same phases with the callback and a second run of the microtasks before the
-- releases; the two are left out if a phase of the pump failed, and the releases never are. Its
-- answer is the first error, or else how many requests were released.
pub frame-run_phases :
    (host : Host) (name : String) (args : List ℕ) (w : World)
    → let pumped = run_phases host name args pumping (start w) in
      frame host name args w
      ≡ answer (run_phases host name args (rest_of_frame pumped.error) pumped)
unfolding frame
frame-run_phases host name args w =
    rest-run_phases host name args (pump host w).0 (pump host w).1
    ∙ ap (λ p. answer (run_phases host name args (rest_of_frame p.error) p))
        (sym (pump-run_phases host name args w))

-- The releases come last.
last_releases :
    (host : Host) (name : String) (args : List ℕ) (e : Option FrameError) (p : Progress)
    → (answer (run_phases host name args (rest_of_frame e) p)).1.releases ≡ []
last_releases host name args none p = refl
last_releases host name args (some e) p = refl

-- Whatever script and the callbacks of webgpu.h do, and whatever fails, a frame leaves the release
-- queue empty.
pub frame_releases :
    (host : Host) (name : String) (args : List ℕ) (w : World)
    → (frame host name args w).1.releases ≡ []
frame_releases host name args w =
    let pumped = run_phases host name args pumping (start w) in
    ap (λ (r : HostResult FrameError × World). r.1.releases) (frame-run_phases host name args w)
    ∙ last_releases host name args pumped.error pumped
