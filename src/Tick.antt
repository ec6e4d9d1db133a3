-- ===== src/Tick.antt =====
-- core/src/lib.rs: `ReleaseQueue::drain`, `pump`, `call_global_function`, `tick`, `frame` and
-- `promise_operation`. What leaves the core acts on the world as an argument says: the callbacks of
-- webgpu.h in `wgpuInstanceProcessEvents`, the engine with the script that it runs, and the
-- operation of a promise. Running a release request calls webgpu.h only, and is a call that leaves
-- the core. A queue error comes of a poisoned mutex or of a second engine, and is left out.
pub mod Releases
pub mod Order
pub mod Promise
use webgpu_native_js.Prelude.{
  ℕ, zero, suc, ◌+◌, String, Bool, not, Option, none, some, List, [], ◌∷◌, if◌then◌else◌, length,
}
use webgpu_native_js.Result.{Result, ok, err, JsError}
use webgpu_native_js.World.{World, ReleaseRequest, Outcome, Call, emit}
use webgpu_native_js.Settlement.{Engine}
use webgpu_native_js.Settlement.Queue.{Reactions, drain}

-- ReleaseQueue::drain; `none` is the end of the fuel
abbrev pub pop_front : World → List ReleaseRequest → Option (ReleaseRequest × World)
pop_front w [] = none
pop_front w (request ∷ rest) = some (request, record w { releases = rest })

unfoldable pub release_loop : ℕ → ℕ → World → Option ℕ × World
release_loop zero drained w = (none, w)
release_loop (suc fuel) drained w = elim (pop_front w w.releases) [
  | none ↦ (some drained, w)
  | some p ↦ release_loop fuel (drained + 1) (emit (Call.run_release p.0) p.1)
]

unfoldable pub drain_releases : World → Option ℕ × World
unfolding release_loop
drain_releases w = release_loop (suc (length w.releases)) 0 w

-- TickError and FrameError
pub data TickError : Type 0 where
  engine : JsError → TickError

pub data FrameError : Type 0 where
  engine : JsError → FrameError
  async_callback not_callable : String → FrameError

unfoldable pub frame_error_from_tick : TickError → FrameError
frame_error_from_tick (TickError.engine error) = FrameError.engine error

-- What the host's environment does: the callbacks that webgpu.h calls, what the engine answers, and
-- the script of its reactions, microtasks, getters and functions.
pub record Host : Type 0 where
  pub process_events : World → World
  pub values : Engine
  pub reactions : Reactions
  pub drain_microtasks : World → Result (Unit {0}) × World
  pub global : ℕ
  -- object, key
  pub get_property : ℕ → String → World → Result ℕ × World
  -- function, receiver, arguments
  pub call : ℕ → ℕ → List ℕ → World → Result ℕ × World
  pub is_callable : ℕ → Bool
  pub is_object : ℕ → Bool

abbrev pub microtasks : Host → World → Result (Unit {0}) × World
microtasks host w = host.drain_microtasks (emit Call.drain_microtasks w)

-- The `match` of `pump`: the first error
abbrev pub pump_result : Result ℕ → Result (Unit {0}) → Option TickError
pump_result (err error) result = some (TickError.engine error)
pump_result (ok n) (err error) = some (TickError.engine error)
pump_result (ok n) (ok done) = none

unfoldable pub pump : Host → World → Option TickError × World
unfolding drain
pump host w =
    let events = host.process_events (emit Call.process_events w) in
    let settlements = drain host.values host.reactions events in
    let tasks = microtasks host settlements.1 in (pump_result settlements.0 tasks.0, tasks.1)

-- A result of a host call: the drained releases, or the error; `stuck` is the end of the fuel
pub data HostResult {ℓ} (E : Type ℓ) : Type ℓ where
  drained : ℕ → HostResult E
  failed : E → HostResult E
  stuck : HostResult E

abbrev pub host_result : {E : Type 0} → Option E → Option ℕ → HostResult E
host_result (some error) releases = failed error
host_result none (some n) = drained n
host_result none none = stuck

unfoldable pub tick : Host → World → HostResult TickError × World
unfolding pump drain_releases
tick host w =
    let pumped = pump host w in
    let releases = drain_releases pumped.1 in (host_result pumped.0 releases.0, releases.1)

-- The result of `call_global_function`
pub data Called : Type 0 where
  returned : ℕ → Called
  raised : FrameError → Called

-- `call_global_function`, by what is done with the callback, with its result and with the `then`
-- of the result
abbrev pub check_then : Host → String → ℕ → Result ℕ × World → Called × World
check_then host name result (err error, w) = (raised (FrameError.engine error), w)
check_then host name result (ok method, w) = (
  if host.is_callable method then raised (FrameError.async_callback name) else returned result,
  w,
)

abbrev pub check_result : Host → String → Result ℕ × World → Called × World
check_result host name (err error, w) = (raised (FrameError.engine error), w)
check_result host name (ok result, w) =
    if host.is_object result
    then check_then host name result (host.get_property result "then" w)
    else (returned result, w)

abbrev pub call_it : Host → String → List ℕ → Result ℕ × World → Called × World
call_it host name args (err error, w) = (raised (FrameError.engine error), w)
call_it host name args (ok callback, w) =
    if host.is_callable callback
    then check_result host name (host.call callback host.global args w)
    else (raised (FrameError.not_callable name), w)

unfoldable pub call_global_function : Host → String → List ℕ → World → Called × World
call_global_function host name args w =
    call_it host name args (host.get_property host.global name w)

-- The `match` of `frame`: the first error
abbrev pub frame_error : Called → Result (Unit {0}) → Option FrameError
frame_error (raised error) result = some error
frame_error (returned value) (err error) = some (FrameError.engine error)
frame_error (returned value) (ok done) = none

-- `frame` after its pump
abbrev pub after_pump :
    Host → String → List ℕ → Option TickError × World → HostResult FrameError × World
after_pump host name args (some error, w) =
    (failed (frame_error_from_tick error), (drain_releases w).1)
after_pump host name args (none, w) =
    let callback = call_global_function host name args w in
    let tasks = microtasks host callback.1 in
    let releases = drain_releases tasks.1 in
    (host_result (frame_error callback.0 tasks.0) releases.0, releases.1)

unfoldable pub frame : Host → String → List ℕ → World → HostResult FrameError × World
unfolding pump call_global_function drain_releases frame_error_from_tick
frame host name args w = after_pump host name args (pump host w)

-- What `promise_operation` asks of the engine: a promise with its deferred, and to settle one; and
-- the operation, which may take the deferred.
pub record PromiseHost : Type 0 where
  pub new_promise : World → Result (ℕ × ℕ) × World
  pub settle_deferreds : List (ℕ × Outcome) → World → Result (Unit {0}) × World
  pub operation : Option ℕ → World → Result (Unit {0}) × Option ℕ × World

abbrev pub settled_with : ℕ → Result (Unit {0}) × World → Result ℕ × World
settled_with promise (err error, w) = (err error, w)
settled_with promise (ok done, w) = (ok promise, w)

-- The two arms, by what is left of the deferred
abbrev pub after_operation :
    PromiseHost → ℕ → Result (Unit {0}) → Option ℕ → World → Result ℕ × World
after_operation host promise (ok done) none w = (ok promise, w)
after_operation host promise (ok done) (some deferred) w = (
  err (JsError.operation_error "promise operation did not retain its deferred"),
  emit (Call.release_deferred deferred) w,
)
after_operation host promise (err error) none w = (err error, w)
after_operation host promise (err error) (some deferred) w =
    let batch : List (ℕ × Outcome) = (deferred, Outcome.engine_error error) ∷ [] in
    settled_with promise (host.settle_deferreds batch (emit (Call.settle_deferreds batch) w))

abbrev pub run_operation : PromiseHost → Result (ℕ × ℕ) × World → Result ℕ × World
run_operation host (err error, w) = (err error, w)
run_operation host (ok p, w) =
    let r = host.operation (some p.1) w in after_operation host p.0 r.0 r.1 r.2

unfoldable pub promise_operation : PromiseHost → World → Result ℕ × World
promise_operation host w = run_operation host (host.new_promise w)
