-- ===== src/Tests/Asking.antt =====
-- requestAdapter and createComputePipelineAsync at concrete answers of the engine.
use webgpu_native_js.Prelude.{ℕ, ◌+◌, ◌≡◌, refl, ◌⊎◌, true, none, some, List, [], ◌∷◌, arith}
use webgpu_native_js.Result.{ok}
use webgpu_native_js.Data.{require}
use webgpu_native_js.World.{World, Call, PipelineStatus}
use webgpu_native_js.ErrorScopes.{new}
use webgpu_native_js.Settlement.Owed.{is_it}
use webgpu_native_js.Tick.{promise_operation}
use webgpu_native_js.Tick.Promise.{disposed}
use webgpu_native_js.Requests.{
  Request, queue_on_submitted_work_done, device_create_compute_pipeline_async, gpu_request_adapter,
  Asking, operation, asking_host,
}
use webgpu_native_js.Settlement.{Engine}
use webgpu_native_js.Callbacks.{RequestStatus}
use webgpu_native_js.Requests.Journey.{
  Journey, Reply, Event, ask, answer, drain, run, step, taken, held, journey_conserves,
}
use webgpu_native_js.Requests.Asked.{deferred_of, asked_once}

abbrev quiet : World
quiet = record { events = λ _. new; registered = []; settlements = []; releases = []; calls = [] }

abbrev pipeline_asked : Asking
pipeline_asked =
    Asking.compute_pipeline (record { state = ok 0; converted = ok (5, 0, "blur"); class = ok tt })

abbrev level_asked : Asking
level_asked = Asking.request_adapter (record {
  receiver = true;
  feature_level = ok (some "ultra");
  power_preference = ok tt;
  force_fallback_adapter = ok tt;
  xr_compatible = ok tt;
  settles = ok tt;
})

module_is_shared :
    (promise_operation (asking_host (ok (3, 4)) (ok tt) pipeline_asked) quiet).1.calls
    ≡ Call.shader_module_add_ref 5 ∷ []
unfolding promise_operation asking_host operation device_create_compute_pipeline_async
module_is_shared = refl

unknown_level_is_settled :
    disposed 4 (promise_operation (asking_host (ok (3, 4)) (ok tt) level_asked) quiet).1.calls ≡ 1
unfolding promise_operation asking_host operation gpu_request_adapter require
unknown_level_is_settled = refl

asked_once_example :
    let a = operation level_asked 4 quiet in
    let r = promise_operation (asking_host (ok (3, 4)) (ok tt) level_asked) quiet in
    (((q : Request) × (a.request ≡ some q)
        × (deferred_of q ≡ 4)
        × (r.0 ≡ ok 3)
        × ((v : ℕ) → disposed v r.1.calls ≡ disposed v quiet.calls))
      ⊎ ((a.request ≡ none)
          × ((v : ℕ) → disposed v r.1.calls ≡ is_it v 4 + disposed v quiet.calls)))
    × (r.1.settlements ≡ quiet.settlements)
asked_once_example = asked_once level_asked (3, 4) (ok tt) quiet

abbrev engine : Engine
engine = record { fails = λ d. none; promise = λ d. ok (100 + d, 200 + d) }

abbrev reply : Reply
reply = record {
  status = RequestStatus.success;
  pipeline_status = PipelineStatus.success;
  handle = 9;
  message = "";
  info = none;
}

-- A pipeline and onSubmittedWorkDone are asked for; the second is answered first, and drained.
abbrev events : List Event
events =
    ask pipeline_asked (3, 4) (ok tt)
    ∷ ask (Asking.work_done (some 8)) (5, 6) (ok tt)
    ∷ answer 0 reply
    ∷ drain engine
    ∷ answer 0 reply
    ∷ []

abbrev start : Journey
start = record { world = quiet; outstanding = []; settled = [] }

journey_conserves_example : held 4 (run events start) ≡ taken 4 events start + 0
unfolding new
journey_conserves_example =
    journey_conserves 4 events start (tt, (tt, (tt, ((λ d. ground arith), (tt, tt))))) (λ d. refl)

is_taken : taken 4 events start ≡ 1
unfolding step operation device_create_compute_pipeline_async queue_on_submitted_work_done
is_taken = refl
