-- ===== src/Tests/Answering.antt =====
-- The callbacks of webgpu.h at a concrete world.
use webgpu_native_js.Prelude.{◌+◌, ◌≡◌, refl, false, none, some, List, [], ◌∷◌, arith}
use webgpu_native_js.Result.{ok}
use webgpu_native_js.World.{World, PipelineStatus}
use webgpu_native_js.ErrorScopes.{new}
use webgpu_native_js.Settlement.{Engine}
use webgpu_native_js.Settlement.Queue.{drain_queue}
use webgpu_native_js.Settlement.Owed.{owed_all, settled_in, started}
use webgpu_native_js.Callbacks.{Callback, RequestStatus, ComputePipelineRequest, run_callbacks}
use webgpu_native_js.Callbacks.Answers.{answered_once}
use webgpu_native_js.Callbacks.Owners.{Native, owners, run_callbacks-owners}

abbrev engine : Engine
engine = record { fails = λ d. none; promise = λ d. ok (100 + d, 200 + d) }

abbrev idle : World
idle = record { events = λ d. new; registered = []; settlements = []; releases = []; calls = [] }

abbrev compute : ComputePipelineRequest
compute = record { state = 0; lost_at_start = false; module_ = 4; layout = 5; label = "p" }

-- An adapter, a device whose request failed, a pipeline whose promise is gone, and a lost device
abbrev callbacks : List Callback
callbacks =
    Callback.adapter RequestStatus.success 7 (some 1)
    ∷ Callback.device RequestStatus.error 8 "no" 1 "d" (some 2)
    ∷ Callback.compute_pipeline PipelineStatus.success 9 "" compute none
    ∷ Callback.device_lost 1 "gone" 0
    ∷ []

answered_once_example :
    1 + 0 + 0
    ≡ settled_in 2 (drain_queue engine (run_callbacks callbacks idle)).0.requests
      + owed_all 2 (drain_queue engine (run_callbacks callbacks idle)).1.settlements
      + started 2 (drain_queue engine (run_callbacks callbacks idle)).1.calls
unfolding new
answered_once_example = answered_once 2 engine callbacks idle (λ d. ground arith) (λ d. refl)

run_callbacks-owners_example :
    owners (Native.compute_pipeline 9) (run_callbacks callbacks idle) ≡ 1 + 0
run_callbacks-owners_example = run_callbacks-owners (Native.compute_pipeline 9) callbacks idle
