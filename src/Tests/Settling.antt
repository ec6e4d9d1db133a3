-- ===== src/Tests/Settling.antt =====
-- The settlement queue, its losses, and the registry at concrete worlds.
use webgpu_native_js.Prelude.{ℕ, ◌+◌, ◌≡◌, refl, Bool, false, none, some, List, [], ◌∷◌, arith}
use mathlib.Core.Bool.{false≢true}
use webgpu_native_js.Result.{ok}
use webgpu_native_js.World.{World, ErrorType, PipelineStatus, PopStatus, MapRequest, Settlement}
use webgpu_native_js.ErrorScopes.{new, device_lost_callback}
use webgpu_native_js.Registry.{register_device_events, mark_wrapper_finalized, mark_lost_settled}
use webgpu_native_js.Registry.Lifetime.{
  InRegistry, register, finalize, settle_loss, registered_until_complete, RegistryReach,
}
use webgpu_native_js.Settlement.{Engine, prepare}
use webgpu_native_js.Buffer.{Detached}
use webgpu_native_js.Device.{DevicePayload, device_destroy}
use webgpu_native_js.Settlement.Queue.{collect, drain_queue}
use webgpu_native_js.Settlement.Owed.{owed_all, settled_in, started}
use webgpu_native_js.Settlement.Drain.{drain_conserves}
use webgpu_native_js.Settlement.Notified.{LossNotified}
use webgpu_native_js.Settlement.Losses.{LossReach, LossStep, reported, marked, losses_are_announced}

-- An engine that builds every value
abbrev calm : Engine
calm = record { fails = λ d. none; promise = λ d. ok (100 + d, 200 + d) }

abbrev request : MapRequest
request = record { deferred = some 3; mode = 1; map_id = 0; state = 0 }

abbrev pipeline : Settlement
pipeline = Settlement.compute_pipeline 2 9 PipelineStatus.success "" 0 false 4 5 "p"

-- An adapter, a pipeline of device 0, a map and a popped scope
abbrev queue : List Settlement
queue =
    Settlement.adapter 1 7
    ∷ pipeline
    ∷ Settlement.start_map 6 1 0 8 request
    ∷ Settlement.pop_error_scope 4 PopStatus.success ErrorType.validation "bad" none 0
    ∷ []

abbrev queued : World
queued = record {
  events = λ d. new;
  registered = [];
  settlements = queue;
  releases = [];
  calls = [];
}

drain_conserves_example :
    owed_all 2 queue + 0
    ≡ settled_in 2 (drain_queue calm queued).0.requests
      + owed_all 2 (drain_queue calm queued).1.settlements
      + started 2 (drain_queue calm queued).1.calls
unfolding new
drain_conserves_example = drain_conserves 2 calm queued (λ d. ground arith) (λ d. refl)

-- Device 0 is lost after its pipeline was queued: the pipeline waits for the loss.
abbrev lossy : World
lossy = device_lost_callback 0 1 "gone" queued

-- webgpu.h owes no loss at first.
abbrev nothing_owed : ℕ → Bool
nothing_owed d = false

queued-LossNotified : LossNotified nothing_owed queued
unfolding new
queued-LossNotified d lost = absurd (false≢true lost)

-- Device 0 with no buffer
abbrev lone_device : DevicePayload
lone_device = record { device = 5; destroyed = false; events = 0; next_id = 1; buffers = [] }

abbrev detaching : ℕ → Detached
detaching value = record { error = none; len = some 0; bytes = [] }

-- Script destroys the device; then webgpu.h reports the loss.
abbrev destroyed : World
destroyed = (device_destroy detaching lone_device queued).2

abbrev owed : ℕ → Bool
owed = marked queued destroyed nothing_owed

losses_are_announced_example :
    LossNotified (reported 0 owed) (device_lost_callback 0 1 "destroyed" destroyed)
losses_are_announced_example = losses_are_announced queued-LossNotified (
    LossReach.next
      (LossReach.next LossReach.here (LossStep.destroy detaching lone_device nothing_owed queued))
      (LossStep.report 0 1 "destroyed" owed destroyed))

-- Nothing is owed of device 0 then.
none_owed : reported 0 owed 0 ≡ false
none_owed = refl

-- And of no device in the other history.
abbrev still_owed : ℕ → Bool
still_owed = reported 0 nothing_owed

-- The pipeline is put back by the first drain.
put_back : (drain_queue calm lossy).0.retries ≡ pipeline ∷ []
unfolding drain_queue collect prepare device_lost_callback new
put_back = refl

-- No state is registered at first.
queued-InRegistry : InRegistry queued
unfolding new
queued-InRegistry device d = refl

registered_until_complete_example :
    InRegistry (mark_lost_settled 0 (mark_wrapper_finalized 0 (register_device_events 5 0 queued)))
unfolding new
registered_until_complete_example = registered_until_complete queued-InRegistry (
    RegistryReach.next
      (RegistryReach.next (RegistryReach.next RegistryReach.here (register 5 0 queued refl refl))
        (finalize 0 _))
      (settle_loss 0 _))
