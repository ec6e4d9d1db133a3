-- ===== src/Registry.antt =====
-- core/src/lib.rs: the registry of device event states in the environment
-- (`DeviceEventRegistry`), which the host's forwarder reads and from which a state is taken once
-- its wrapper is finalized and its loss is settled. The map from devices to lists of states is the
-- list of its pairs, each device's states in their order. The registry itself outlives its weak
-- references.
pub mod Laws
pub mod Lifetime
use webgpu_native_js.Prelude.{
  ℕ, ◌+◌, String, Bool, true, false, ◌&&◌, Option, none, some, List, [], ◌∷◌, ◌++◌, ◌==◌,
  if◌then◌else◌,
}
use webgpu_native_js.World.{World, DeviceEvents, ErrorType, set_events}
use webgpu_native_js.ErrorScopes.{mark_lost, enqueue_uncaptured, enqueue_lost}

-- OnceLock::set of the registration: the first one stays
abbrev pub set_once : Option ℕ → ℕ → Option ℕ
set_once none device = some device
set_once (some first) device = some first

-- Environment::register_device_events, of the state that `d` numbers
unfoldable pub register_device_events : ℕ → ℕ → World → World
register_device_events device d w =
    let e = w.events d in
    let w' = set_events d (record e { registration = set_once e.registration device }) w in
    record w' { registered = w.registered ++ ((device, d) ∷ []) }

-- Vec::retain of the states of one device that are not `d`
abbrev pub without : ℕ → ℕ → List (ℕ × ℕ) → List (ℕ × ℕ)
without device d [] = []
without device d (entry ∷ rest) =
    let kept = without device d rest in
    if entry.0 == device && entry.1 == d then kept else entry ∷ kept

abbrev pub prune : Bool → Option ℕ → ℕ → World → World
prune complete none d w = w
prune false (some device) d w = w
prune true (some device) d w = record w { registered = without device d w.registered }

-- DeviceEventState::prune_registration_if_complete
abbrev pub prune_registration_if_complete : ℕ → World → World
prune_registration_if_complete d w =
    let e = w.events d in prune (e.wrapper_finalized && e.lost_settled) e.registration d w

-- DeviceEventState::mark_wrapper_finalized and mark_lost_settled
unfoldable pub mark_wrapper_finalized : ℕ → World → World
mark_wrapper_finalized d w =
    prune_registration_if_complete d
      (set_events d (record (w.events d) { wrapper_finalized = true }) w)

unfoldable pub mark_lost_settled : ℕ → World → World
mark_lost_settled d w =
    prune_registration_if_complete d (set_events d (record (w.events d) { lost_settled = true }) w)

-- DeviceEventForwarder::device_events
abbrev pub states_of : ℕ → List (ℕ × ℕ) → List ℕ
states_of device [] = []
states_of device (entry ∷ rest) =
    let more = states_of device rest in if entry.0 == device then entry.1 ∷ more else more

-- The errors of QueueError that the forwarder returns
pub data ForwardError : Type 0 where
  unknown_device : ForwardError
  invalid_uncaptured_error_type : ErrorType → ForwardError

abbrev pub enqueue_each : (ℕ → World → World) → List ℕ → World → World
enqueue_each enqueue [] w = w
enqueue_each enqueue (d ∷ ds) w = enqueue_each enqueue ds (enqueue d w)

abbrev pub forward_to : (ℕ → World → World) → List ℕ → World → Option ForwardError × World
forward_to enqueue [] w = (some unknown_device, w)
forward_to enqueue (d ∷ ds) w = (none, enqueue_each enqueue (d ∷ ds) w)

-- DeviceEventForwarder::forward_uncaptured_error
unfoldable pub forward_uncaptured_error :
    ℕ → ErrorType → String → World → Option ForwardError × World
unfolding enqueue_uncaptured
forward_uncaptured_error device ErrorType.no_error message w =
    (some (invalid_uncaptured_error_type ErrorType.no_error), w)
forward_uncaptured_error device type_ message w =
    forward_to (λ d. enqueue_uncaptured d type_ message) (states_of device w.registered) w

-- The body of the loop of `forward_device_lost`
abbrev pub lose : ℕ → String → ℕ → World → World
lose reason message d w = enqueue_lost d reason message (set_events d (mark_lost (w.events d)) w)

-- DeviceEventForwarder::forward_device_lost
unfoldable pub forward_device_lost : ℕ → ℕ → String → World → Option ForwardError × World
unfolding mark_lost enqueue_lost
forward_device_lost device reason message w =
    forward_to (lose reason message) (states_of device w.registered) w
