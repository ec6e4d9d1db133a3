-- ===== src/Requests/Journey.antt =====
-- core/src/lib.rs: a promise from the operation that makes it to the batch that settles it.
use webgpu_native_js.Prelude.{
  some_injective, ℕ, zero, suc, ◌+◌, String, ◌≡◌, refl, ap, subst, ◌≢◌, Option, none, some, List,
  [], ◌∷◌, ◌++◌, arith, All,
}
use webgpu_native_js.Result.{Result, ok}
use webgpu_native_js.World.{World, PipelineStatus, Outcome, Settlement}
use webgpu_native_js.Settlement.{Engine, prepare}
use webgpu_native_js.Settlement.Queue.{collect, drain_queue}
use webgpu_native_js.Settlement.Owed.{is_it, owed_all, settled_in, started, Apart, NotPromised}
use webgpu_native_js.Settlement.Conserve.{prepare-Balanced}
use webgpu_native_js.Settlement.Drain.{drain_conserves}
use webgpu_native_js.Callbacks.{Callback, RequestStatus, Copied, run_callback}
use webgpu_native_js.Callbacks.Answers.{run_callback-Owes}
use webgpu_native_js.Tick.{promise_operation}
use webgpu_native_js.Requests.{Request, Asking, operation, asking_host}
use webgpu_native_js.Requests.Asked.{deferred_of}
use webgpu_native_js.Requests.Calm.{promise_operation-Calm}

-- The core, the requests that webgpu.h has not answered, and what the engine was told to settle
pub record Journey : Type 0 where
  pub world : World
  pub outstanding : List Request
  pub settled : List (ℕ × Outcome)

-- What webgpu.h passes to a callback: each callback reads its own part.
pub record Reply : Type 0 where
  pub status : RequestStatus
  pub pipeline_status : PipelineStatus
  pub handle : ℕ
  pub message : String
  pub info : Option Copied

abbrev pub reply_to : Request → Reply → Callback
reply_to (Request.adapter d) r = Callback.adapter r.status r.handle (some d)
reply_to (Request.device state label limits d) r =
    Callback.device r.status r.handle r.message state label (some d)
reply_to (Request.compute_pipeline p d) r =
    Callback.compute_pipeline r.pipeline_status r.handle r.message p (some d)
reply_to (Request.render_pipeline p d) r =
    Callback.render_pipeline r.pipeline_status r.handle r.message p (some d)
reply_to (Request.compilation_info m d) r = Callback.compilation_info r.status r.info (some d)
reply_to (Request.work_done q d) r = Callback.work_done r.status r.message (some d)

-- Script asks, with the promise and its deferred; webgpu.h answers one of the requests, in any
-- order; and the settlement queue is drained.
pub data Event : Type 0 where
  ask : Asking → ℕ × ℕ → Result (Unit {0}) → Event
  answer : ℕ → Reply → Event
  drain : Engine → Event

abbrev pub as_list : Option Request → List Request
as_list none = []
as_list (some q) = q ∷ []

abbrev pub behind : Request → Option (Request × List Request) → Option (Request × List Request)
behind q none = none
behind q (some p) = some (p.0, q ∷ p.1)

-- The request at a place, and the others
abbrev pub pick : ℕ → List Request → Option (Request × List Request)
pick n [] = none
pick zero (q ∷ qs) = some (q, qs)
pick (suc n) (q ∷ qs) = behind q (pick n qs)

abbrev pub answered : Reply → Journey → Option (Request × List Request) → Journey
answered reply j none = j
answered reply j (some p) = record j {
  world = run_callback (reply_to p.0 reply) j.world;
  outstanding = p.1;
}

unfoldable pub step : Event → Journey → Journey
unfolding promise_operation asking_host operation drain_queue run_callback
step (ask asking p settles) j = record j {
  world = (promise_operation (asking_host (ok p) settles asking) j.world).1;
  outstanding = as_list (operation asking p.1 j.world).request ++ j.outstanding;
}
step (answer n reply) j = answered reply j (pick n j.outstanding)
step (drain engine) j =
    let c = drain_queue engine j.world in
    record j { world = c.1; settled = c.0.requests ++ j.settled }

unfoldable pub run : List Event → Journey → Journey
unfolding step
run [] j = j
run (e ∷ es) j = run es (step e j)

-- How often requests took the promise on the way
abbrev pub waiting : ℕ → List Request → ℕ
waiting v [] = 0
waiting v (q ∷ qs) = is_it v (deferred_of q) + waiting v qs

abbrev pub taken_by : ℕ → Event → Journey → ℕ
taken_by v (ask asking p settles) j = waiting v (as_list (operation asking p.1 j.world).request)
taken_by v (answer n reply) j = 0
taken_by v (drain engine) j = 0

abbrev pub taken : ℕ → List Event → Journey → ℕ
taken v [] j = 0
taken v (e ∷ es) j = taken_by v e j + taken v es (step e j)

-- The places of a promise: with webgpu.h, in the settlement queue, in a native map that a drain
-- started, or in a batch that was settled
abbrev pub held : ℕ → Journey → ℕ
held v j =
    waiting v j.outstanding
    + owed_all v j.world.settlements
    + started v j.world.calls
    + settled_in v j.settled

-- The engine makes other promises for the losses of devices.
abbrev pub Fair : ℕ → Event → Type 0
Fair v (ask asking p settles) = Unit
Fair v (answer n reply) = Unit
Fair v (drain engine) = NotPromised v engine

none≢pair : {p : Request × List Request} → none ≢ some p
none≢pair e = ground (arith, e)

module _ (v : ℕ) where
  waiting-append : (q r : List Request) → waiting v (q ++ r) ≡ waiting v q + waiting v r
  waiting-append [] r = omega arith
  waiting-append (s ∷ q) r = omega (arith, waiting-append q r)

  settled_in-append :
      (q r : List (ℕ × Outcome)) → settled_in v (q ++ r) ≡ settled_in v q + settled_in v r
  settled_in-append [] r = omega arith
  settled_in-append (s ∷ q) r = omega (arith, settled_in-append q r)

  abbrev Split : List Request → Request × List Request → Type 0
  Split qs p = waiting v qs ≡ is_it v (deferred_of p.0) + waiting v p.1

  behind-Split :
      (q : Request) (qs : List Request) (o : Option (Request × List Request))
      (p : Request × List Request)
      → ((p : Request × List Request) → o ≡ some p → Split qs p)
      → behind q o ≡ some p
      → Split (q ∷ qs) p
  behind-Split q qs none p h e = absurd (none≢pair e)
  behind-Split q qs (some o) p h e =
      let rest = h o refl in
      let here : Split (q ∷ qs) (o.0, q ∷ o.1) = omega (arith, rest) in
      subst (Split (q ∷ qs)) (some_injective e) here

  -- Picking takes one request away.
  pick-Split :
      (n : ℕ) (qs : List Request) (p : Request × List Request) → pick n qs ≡ some p → Split qs p
  pick-Split n [] p e = absurd (none≢pair e)
  pick-Split zero (q ∷ qs) p e = subst (Split (q ∷ qs)) (some_injective e) refl
  pick-Split (suc n) (q ∷ qs) p e = behind-Split q qs (pick n qs) p (pick-Split n qs) e

  -- What one event makes of a promise
  abbrev Moves : ℕ → Journey → Journey → Type 0
  Moves n j j' = (held v j' ≡ n + held v j) × (Apart v j.world.events → Apart v j'.world.events)

  reply_to-Owes :
      (q : Request) (r : Reply) (w : World)
      → (owed_all v (run_callback (reply_to q r) w).settlements
          ≡ is_it v (deferred_of q) + owed_all v w.settlements)
        × (started v (run_callback (reply_to q r) w).calls ≡ started v w.calls)
        × (Apart v w.events → Apart v (run_callback (reply_to q r) w).events)
  reply_to-Owes (Request.adapter d) r w = run_callback-Owes v _ w
  reply_to-Owes (Request.device state label limits d) r w = run_callback-Owes v _ w
  reply_to-Owes (Request.compute_pipeline p d) r w = run_callback-Owes v _ w
  reply_to-Owes (Request.render_pipeline p d) r w = run_callback-Owes v _ w
  reply_to-Owes (Request.compilation_info m d) r w = run_callback-Owes v _ w
  reply_to-Owes (Request.work_done q d) r w = run_callback-Owes v _ w

  collect-Apart :
      (engine : Engine) (q : List Settlement) (w : World)
      → NotPromised v engine
      → Apart v w.events
      → Apart v (collect engine q w).1.events
  unfolding collect
  collect-Apart engine [] w n a = a
  collect-Apart engine (s ∷ q) w n a =
      collect-Apart engine q (prepare engine s w).1 n (prepare-Balanced v engine s w n a).1

  drain-Apart :
      (engine : Engine) (w : World)
      → NotPromised v engine
      → Apart v w.events
      → Apart v (drain_queue engine w).1.events
  unfolding drain_queue
  drain-Apart engine w n a = collect-Apart engine w.settlements (record w { settlements = [] }) n a

  answered-Moves :
      (n : ℕ) (reply : Reply) (j : Journey) (o : Option (Request × List Request))
      → pick n j.outstanding ≡ o
      → Moves 0 j (answered reply j o)
  answered-Moves n reply j none e = (omega arith, λ a. a)
  answered-Moves n reply j (some p) e =
      let owes = reply_to-Owes p.0 reply j.world in
      let split = pick-Split n j.outstanding p e in (omega (arith, owes.0, owes.1, split), owes.2)

  step-Moves :
      (e : Event) (j : Journey)
      → Fair v e
      → Apart v j.world.events
      → Moves (taken_by v e j) j (step e j)
  unfolding step
  step-Moves (ask asking p settles) j fair a =
      let calm = promise_operation-Calm v asking p settles j.world in
      let queue = ap (owed_all v) calm.2 in
      let more = waiting-append (as_list (operation asking p.1 j.world).request) j.outstanding in
      (omega (arith, calm.0, queue, more), calm.1)
  step-Moves (answer n reply) j fair a = answered-Moves n reply j (pick n j.outstanding) refl
  step-Moves (drain engine) j fair a =
      let c = drain_queue engine j.world in
      let kept = drain_conserves v engine j.world fair a in
      let all = settled_in-append c.0.requests j.settled in
      (omega (arith, kept, all), λ _. drain-Apart engine j.world fair a)

-- Through any operations that ask for a promise, any answers of webgpu.h to their requests, each at
-- most once and in any order, and any drains: as often as a request took the promise, it is with
-- webgpu.h, in the settlement queue, with a native map that a drain started, or in one batch that
-- was settled, besides what was there before. It is none of the promises of a device's loss.
pub journey_conserves :
    (v : ℕ) (es : List Event) (j : Journey)
    → All (Fair v) es
    → Apart v j.world.events
    → held v (run es j) ≡ taken v es j + held v j
unfolding run
journey_conserves v [] j fair a = omega arith
journey_conserves v (e ∷ es) j fair a =
    let one = step-Moves v e j fair.0 a in
    let more = journey_conserves v es (step e j) fair.1 (one.1 a) in omega (arith, one.0, more)
