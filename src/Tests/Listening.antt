-- ===== src/Tests/Listening.antt =====
-- Handlers, listeners and events at concrete targets.
use webgpu_native_js.Prelude.{ℕ, ◌≡◌, refl, true, false, none, some, List, [], ◌∷◌, map, arith}
use webgpu_native_js.Result.{Result, err, JsError}
use webgpu_native_js.World.{DeviceEventJs}
use webgpu_native_js.Listeners.{Target, snapshot_listeners}
use webgpu_native_js.Listeners.Order.{Op, set_handler, add, snapshot, Inv, run}
use webgpu_native_js.Listeners.Events.{listeners_stay_ordered, snapshot_listeners_lem}
use webgpu_native_js.Listeners.Balance.{Even, perform_all, references_balance}

abbrev silent : DeviceEventJs
silent = record {
  handler = none;
  listeners = [];
  next_listener_id = 0;
  lost_promise = none;
  lost_deferred = none;
  lost_registered = false;
}

abbrev target : Target
target = record { js = some silent; calls = [] }

-- A handler, a listener and a listener for one event
abbrev script : List Op
script =
    set_handler (some 4)
    ∷ add "uncapturederror" 5 false
    ∷ add "uncapturederror" 6 true
    ∷ snapshot "uncapturederror"
    ∷ set_handler none
    ∷ []

listeners_stay_ordered_example : Inv (run script target).js
listeners_stay_ordered_example = listeners_stay_ordered script target (tt, tt, refl, tt)

-- The state after the first three
abbrev listening : DeviceEventJs
listening = record {
  handler = some 4;
  listeners =
      record { id = 0; type_ = "uncapturederror"; callback = none; once = false }
      ∷ record { id = 1; type_ = "uncapturederror"; callback = some 5; once = false }
      ∷ record { id = 2; type_ = "uncapturederror"; callback = some 6; once = true }
      ∷ [];
  next_listener_id = 3;
  lost_promise = none;
  lost_deferred = none;
  lost_registered = false;
}

snapshot_listeners_lem_example :
    map some (snapshot_listeners "uncapturederror" (some listening) []).0
    ≡ some 4 ∷ some 5 ∷ some 6 ∷ []
snapshot_listeners_lem_example =
    (snapshot_listeners_lem "uncapturederror" listening [] (
      (omega arith, (omega arith, (omega arith, tt))),
      ((omega arith, (omega arith, tt)), ((omega arith, tt), (tt, tt))),
      refl,
      (refl, (refl, (refl, tt))),
    )).0

-- Script that fails in every callback
abbrev failing : ℕ → Target → Result (Unit {0}) × Target
failing c t = (err (JsError.thrown c), t)

references_balance_example : let t = perform_all failing script target in Even 6 [] t.js t.calls
references_balance_example = references_balance failing 6 script target (λ c extra t h. h) refl
