-- ===== src/Settlement/Notified.antt =====
-- core/src/lib.rs: a device that is lost has its loss settled by the next drain once webgpu.h has
-- reported it, so that no request is put back twice for it after that.
use webgpu_native_js.Prelude.{
  ℕ, ◌≡◌, ap, ◌∙◌, ◌⊎◌, inl, inr, Bool, true, false, ◌||◌, List, [], ◌∷◌, arith, ◌==◌, Bool-cases,
}
use mathlib.Core.Bool.{false≢true}
use webgpu_native_js.World.{World, DeviceEvents, Settlement}
use webgpu_native_js.Registry.{mark_lost_settled}
use webgpu_native_js.Registry.Laws.{mark_lost_settled-same}
use webgpu_native_js.Settlement.{Engine, prepare}
use webgpu_native_js.Settlement.Queue.{collect, drain_queue}
use webgpu_native_js.Settlement.Steady.{Steady, take_lost-Steady}
use webgpu_native_js.Settlement.Drain.{collect-Steady}
use webgpu_native_js.Settlement.Retry.{Covers}

abbrev pub announces : ℕ → Settlement → Bool
announces d (Settlement.device_lost state reason m) = state == d
announces d _ = false

-- The loss of `d` is in the queue.
abbrev pub announced : ℕ → List Settlement → Bool
announced d [] = false
announced d (s ∷ q) = announces d s || announced d q

-- The loss of each lost device is settled, in the queue, or still owed by webgpu.h.
abbrev pub LossNotified : (ℕ → Bool) → World → Type 0
LossNotified owes w =
    (d : ℕ)
    → (w.events d).lost ≡ true
    → ((w.events d).lost_settled ≡ true) ⊎ ((announced d w.settlements ≡ true) ⊎ (owes d ≡ true))

prepare-announces :
    (engine : Engine) (s : Settlement) (w : World) (d : ℕ)
    → announces d s ≡ true
    → ((prepare engine s w).1.events d).lost_settled ≡ true
unfolding prepare
prepare-announces engine (Settlement.device_lost state reason m) w d h =
    let w' = mark_lost_settled state w in
    let here : (w'.events d).lost_settled ≡ true =
      ap (λ E. DeviceEvents.lost_settled (E d)) (mark_lost_settled-same state w).0
      ∙ ground (arith, h) in
    Steady.settled (take_lost-Steady engine state reason m (w'.events state).js w') d here
prepare-announces engine (Settlement.adapter e n) w d h = absurd (false≢true h)
prepare-announces engine (Settlement.adapter_unavailable e) w d h = absurd (false≢true h)
prepare-announces engine (Settlement.device e n st la) w d h = absurd (false≢true h)
prepare-announces engine (Settlement.compute_pipeline e p s m st l mo la label) w d h =
    absurd (false≢true h)
prepare-announces engine (Settlement.render_pipeline e p s m st l ve fr la label) w d h =
    absurd (false≢true h)
prepare-announces engine (Settlement.compilation_info e m) w d h = absurd (false≢true h)
prepare-announces engine (Settlement.success e) w d h = absurd (false≢true h)
prepare-announces engine (Settlement.error e n m) w d h = absurd (false≢true h)
prepare-announces engine (Settlement.start_map b m o s r) w d h = absurd (false≢true h)
prepare-announces engine (Settlement.pop_error_scope e s t m x st) w d h = absurd (false≢true h)
prepare-announces engine (Settlement.uncaptured_error st t m) w d h = absurd (false≢true h)

-- A drain settles each loss that is in its queue.
collect-announced :
    (engine : Engine) (q : List Settlement) (w : World) (d : ℕ)
    → announced d q ≡ true
    → ((collect engine q w).1.events d).lost_settled ≡ true
unfolding collect
collect-announced engine [] w d h = absurd (false≢true h)
collect-announced engine (s ∷ q) w d h =
    let p = prepare engine s w in
    elim (Bool-cases (announces d s)) [
      | inl here ↦
          Steady.settled (collect-Steady engine q p.1) d (prepare-announces engine s w d here)
      | inr there ↦ collect-announced engine q p.1 d (ground (arith, h, there))
    ]

-- After the drain the loss of each lost device is settled, unless webgpu.h owes it.
pub drain_queue-Covers :
    (owes : ℕ → Bool) (engine : Engine) (w : World)
    → LossNotified owes w
    → Covers owes (drain_queue engine w).1.events w
unfolding drain_queue
drain_queue-Covers owes engine w notified d lost = elim (notified d lost) [
  | inl over ↦
      inl (
        Steady.settled (collect-Steady engine w.settlements (record w { settlements = [] })) d over)
  | inr other ↦ elim other [
    | inl queued ↦
        inl (collect-announced engine w.settlements (record w { settlements = [] }) d queued)
    | inr owed ↦ inr owed
  ]
]
