-- ===== src/Settlement/Drain.antt =====
-- core/src/lib.rs: what a drain leaves of the queue, and of each promise in it.
use webgpu_native_js.Prelude.{ℕ, ◌+◌, ◌≡◌, sym, ap, subst, List, [], ◌∷◌, ◌++◌}
use webgpu_native_js.World.{World, Settlement}
use webgpu_native_js.Settlement.{Engine, prepare}
use webgpu_native_js.Settlement.Queue.{collect, drain_queue}
use webgpu_native_js.Settlement.Owed.{owed_all, settled_in, started, Apart, NotPromised}
use webgpu_native_js.Settlement.Conserve.{collect-Balanced}
use webgpu_native_js.Settlement.Steady.{Steady, Steady-refl, Steady-trans, prepare-Steady}

pub collect-Steady :
    (engine : Engine) (q : List Settlement) (w : World) → Steady w (collect engine q w).1
unfolding collect
collect-Steady engine [] w = Steady-refl w
collect-Steady engine (s ∷ q) w =
    let p = prepare engine s w in
    Steady-trans w p.1 _ (prepare-Steady engine s w) (collect-Steady engine q p.1)

-- After the loop the queue holds what has to be tried again, and nothing else.
pub drain_queue-settlements :
    (engine : Engine) (w : World)
    → (drain_queue engine w).1.settlements ≡ (drain_queue engine w).0.retries
unfolding drain_queue
drain_queue-settlements engine w =
    let emptied : World = record w { settlements = [] } in
    ap (λ q. q ++ (collect engine w.settlements emptied).0.retries)
      (Steady.queue (collect-Steady engine w.settlements emptied))

drained :
    (v : ℕ) (engine : Engine) (w : World)
    → NotPromised v engine
    → Apart v w.events
    → let c = drain_queue engine w in
      owed_all v w.settlements + started v w.calls
      ≡ settled_in v c.0.requests + owed_all v c.0.retries + started v c.1.calls
unfolding drain_queue
drained v engine w n a = collect-Balanced v engine w.settlements (record w { settlements = [] }) n a

-- A drain neither loses nor doubles a promise, whatever the engine answers: as often as the queue
-- owed it, the promise is in the batch that is settled, still owed by the queue, or handed to a
-- native map that was started. The promise is none of those of a device's loss.
pub drain_conserves :
    (v : ℕ) (engine : Engine) (w : World)
    → NotPromised v engine
    → Apart v w.events
    → let c = drain_queue engine w in
      owed_all v w.settlements + started v w.calls
      ≡ settled_in v c.0.requests + owed_all v c.1.settlements + started v c.1.calls
drain_conserves v engine w n a =
    subst
      (λ q.
        owed_all v w.settlements + started v w.calls
        ≡ settled_in v (drain_queue engine w).0.requests
          + owed_all v q
          + started v (drain_queue engine w).1.calls)
      (sym (drain_queue-settlements engine w)) (drained v engine w n a)
