-- ===== src/Settlement/Losses.antt =====
-- core/src/lib.rs: every loss of a device is announced, by the callback, by the host's forwarder,
-- and across drains, or owed by webgpu.h after `destroy`.
use webgpu_native_js.Prelude.{
  ℕ, String, ◌≡◌, refl, sym, ap, ◌∙◌, ◌⊎◌, inl, inr, Bool, true, false, ◌||◌, List, [], ◌∷◌, ◌++◌,
  arith, ◌==◌, ==_iff, if◌then◌else◌, not, ◌&&◌, Bool-cases, Option-cases,
}
use webgpu_native_js.Result.{Result}
use webgpu_native_js.Buffer.{Detached}
use webgpu_native_js.Buffer.Detach.{first_detach_error}
use webgpu_native_js.Device.{DevicePayload, device_destroy}
use webgpu_native_js.Device.Destroy.{lost, all_ranges, device_destroy_lem, device_destroy-again}
use webgpu_native_js.World.{World, DeviceEvents, Settlement, update}
use webgpu_native_js.ErrorScopes.{device_lost_callback, mark_lost, enqueue_lost}
use webgpu_native_js.Registry.{forward_device_lost, forward_to, enqueue_each, lose, states_of}
use webgpu_native_js.Settlement.{Engine}
use webgpu_native_js.Settlement.Queue.{drain_queue}
use webgpu_native_js.Settlement.Steady.{Steady}
use webgpu_native_js.Settlement.Drain.{collect-Steady}
use webgpu_native_js.Settlement.Notified.{announced, LossNotified, drain_queue-Covers}

announced-append :
    (d : ℕ) (q r : List Settlement) → announced d (q ++ r) ≡ (announced d q || announced d r)
announced-append d [] r = refl
announced-append d (s ∷ q) r = let ih = announced-append d q r in ground (arith, ih)

-- A state that is marked and announced
lost-Announced :
    (E : ℕ → DeviceEvents) (o o' : ℕ → Bool) (here : Bool) (d d' : ℕ) (e : DeviceEvents)
    (q : List Settlement) (reason : ℕ) (message : String)
    → here ≡ (d == d')
    → (here ≡ false → o' d' ≡ o d')
    → ((E d').lost ≡ true
        → ((E d').lost_settled ≡ true) ⊎ ((announced d' q ≡ true) ⊎ (o d' ≡ true)))
    → (if here then e else E d').lost ≡ true
    → ((if here then e else E d').lost_settled ≡ true)
      ⊎ ((announced d' (q ++ (Settlement.device_lost d reason message ∷ [])) ≡ true)
          ⊎ (o' d' ≡ true))
lost-Announced E o o' true d d' e q reason message h kept old lost =
    inr (inl (announced-append d' q _ ∙ ground (arith, h)))
lost-Announced E o o' false d d' e q reason message h kept old lost = elim (old lost) [
  | inl over ↦ inl over
  | inr other ↦ elim other [
    | inl queued ↦ inr (inl (announced-append d' q _ ∙ ground (arith, queued)))
    | inr owed ↦ inr (inr (kept refl ∙ owed))
  ]
]

-- webgpu.h has reported the loss of `d`.
abbrev pub reported : ℕ → (ℕ → Bool) → ℕ → Bool
reported d o d' = if d == d' then false else o d'

device_lost_callback-LossNotified :
    (d reason : ℕ) (message : String) (o : ℕ → Bool) (w : World)
    → LossNotified o w
    → LossNotified (reported d o) (device_lost_callback d reason message w)
unfolding device_lost_callback mark_lost enqueue_lost
device_lost_callback-LossNotified d reason message o w old d' lost =
    lost-Announced w.events o (reported d o) (d == d') d d' (mark_lost (w.events d)) w.settlements
      reason message refl (λ other. rw other refl) (old d') lost

lose-LossNotified :
    (reason : ℕ) (message : String) (d : ℕ) (o : ℕ → Bool) (w : World)
    → LossNotified o w
    → LossNotified o (lose reason message d w)
unfolding mark_lost enqueue_lost
lose-LossNotified reason message d o w old d' lost =
    lost-Announced w.events o o (d == d') d d' (mark_lost (w.events d)) w.settlements reason message
      refl (λ _. refl) (old d') lost

enqueue_each-LossNotified :
    (reason : ℕ) (message : String) (ds : List ℕ) (o : ℕ → Bool) (w : World)
    → LossNotified o w
    → LossNotified o (enqueue_each (lose reason message) ds w)
enqueue_each-LossNotified reason message [] o w old = old
enqueue_each-LossNotified reason message (d ∷ ds) o w old =
    enqueue_each-LossNotified reason message ds o _ (lose-LossNotified reason message d o w old)

forward_to-LossNotified :
    (reason : ℕ) (message : String) (ds : List ℕ) (o : ℕ → Bool) (w : World)
    → LossNotified o w
    → LossNotified o (forward_to (lose reason message) ds w).1
forward_to-LossNotified reason message [] o w old = old
forward_to-LossNotified reason message (d ∷ ds) o w old =
    enqueue_each-LossNotified reason message (d ∷ ds) o w old

forward_device_lost-LossNotified :
    (device reason : ℕ) (message : String) (o : ℕ → Bool) (w : World)
    → LossNotified o w
    → LossNotified o (forward_device_lost device reason message w).1
unfolding forward_device_lost
forward_device_lost-LossNotified device reason message o w =
    forward_to-LossNotified reason message (states_of device w.registered) o w

drain_queue-lost :
    (engine : Engine) (w : World) (d : ℕ)
    → ((drain_queue engine w).1.events d).lost ≡ (w.events d).lost
unfolding drain_queue
drain_queue-lost engine w =
    Steady.lost (collect-Steady engine w.settlements (record w { settlements = [] }))

-- A drain answers the losses of its queue, and loses none.
drain_queue-LossNotified :
    (engine : Engine) (o : ℕ → Bool) (w : World)
    → LossNotified o w
    → LossNotified o (drain_queue engine w).1
drain_queue-LossNotified engine o w old d lost =
    elim (drain_queue-Covers o engine w old d (sym (drain_queue-lost engine w d) ∙ lost)) [
      | inl over ↦ inl over
      | inr owed ↦ inr (inr owed)
    ]

-- What webgpu.h owes after `destroy`: also the losses of the states that it marked
abbrev pub marked : World → World → (ℕ → Bool) → ℕ → Bool
marked w w' o d = o d || ((w'.events d).lost && not (w.events d).lost)

marked-LossNotified :
    (o : ℕ → Bool) (w w' : World)
    → w'.settlements ≡ w.settlements
    → ((d : ℕ) → (w'.events d).lost_settled ≡ (w.events d).lost_settled)
    → LossNotified o w
    → LossNotified (marked w w' o) w'
marked-LossNotified o w w' same kept old d lost = elim (Bool-cases (w.events d).lost) [
  | inl before ↦ elim (old d before) [
    | inl over ↦ inl (kept d ∙ over)
    | inr other ↦ elim other [
      | inl queued ↦ inr (inl (ap (announced d) same ∙ queued))
      | inr owed ↦ inr (inr (ground (arith, owed)))
    ]
  ]
  | inr after ↦ inr (inr (ground (arith, lost, after)))
]

-- `destroy` of a device settles no loss and queues nothing.
device_destroy-kept :
    (engine : ℕ → Detached) (device : DevicePayload) (w : World)
    → let w' = (device_destroy engine device w).2 in
      (w'.settlements ≡ w.settlements)
      × ((d : ℕ) → (w'.events d).lost_settled ≡ (w.events d).lost_settled)
device_destroy-kept engine device w = elim (Bool-cases device.destroyed) [
  | inl gone ↦
      let same =
        ap (λ (r : Result (Unit {0}) × DevicePayload × World). r.2)
          (device_destroy-again engine device w gone) in
      (ap World.settlements same, λ d. ap (λ (w : World). (w.events d).lost_settled) same)
  | inr alive ↦
      let v = device_destroy_lem engine device w alive in
      (
        v.queue,
        elim (Option-cases (first_detach_error engine (all_ranges device.buffers))) [
          | inl none_ ↦ λ d.
              ap (λ E. DeviceEvents.lost_settled (E d)) (v.done none_).2
              ∙ settled_stays device.events d w.events
          | inr e ↦ λ d. ap (λ E. DeviceEvents.lost_settled (E d)) (v.failed e.0 e.1).2
        ],
      )
]
  where
    settled_stays :
        (e d : ℕ) (E : ℕ → DeviceEvents)
        → (update E e (lost (E e)) d).lost_settled ≡ (E d).lost_settled
    settled_stays e d E = elim (Bool-cases (e == d)) [
      | inl p ↦ rw p (ap (λ x. (E x).lost_settled) ((==_iff e d).0 p))
      | inr q ↦ rw q refl
    ]

-- What happens to the losses, with those that webgpu.h owes, because script destroyed the device
-- and webgpu.h has not reported since: one is reported by webgpu.h or by the host, the queue is
-- drained, a device is destroyed, or something else happens, which neither loses a device nor takes
-- from the queue or from what is settled.
pub data LossStep : (ℕ → Bool) → World → (ℕ → Bool) → World → Type 0 where
  report :
      (d reason : ℕ) (message : String) (o : ℕ → Bool) (w : World)
      → LossStep o w (reported d o) (device_lost_callback d reason message w)
  forward :
      (device reason : ℕ) (message : String) (o : ℕ → Bool) (w : World)
      → LossStep o w o (forward_device_lost device reason message w).1
  drain : (engine : Engine) (o : ℕ → Bool) (w : World) → LossStep o w o (drain_queue engine w).1
  destroy :
      (engine : ℕ → Detached) (device : DevicePayload) (o : ℕ → Bool) (w : World)
      → LossStep o w
          (marked w (device_destroy engine device w).2 o)
          (device_destroy engine device w).2
  change :
      (o : ℕ → Bool) (w w' : World) (q : List Settlement)
      → w'.settlements ≡ w.settlements ++ q
      → ((d : ℕ)
          → ((w'.events d).lost ≡ true → (w.events d).lost ≡ true)
            × ((w.events d).lost_settled ≡ true → (w'.events d).lost_settled ≡ true))
      → LossStep o w o w'

pub data LossReach (o : ℕ → Bool) (s : World) : (ℕ → Bool) → World → Type 0 where
  here : LossReach o s o s
  next :
      {o₁ o₂ : ℕ → Bool} {t u : World}
      → LossReach o s o₁ t
      → LossStep o₁ t o₂ u
      → LossReach o s o₂ u

change-LossNotified :
    (o : ℕ → Bool) (w w' : World) (q : List Settlement)
    → w'.settlements ≡ w.settlements ++ q
    → ((d : ℕ)
        → ((w'.events d).lost ≡ true → (w.events d).lost ≡ true)
          × ((w.events d).lost_settled ≡ true → (w'.events d).lost_settled ≡ true))
    → LossNotified o w
    → LossNotified o w'
change-LossNotified o w w' q longer kept old d lost = elim (old d ((kept d).0 lost)) [
  | inl over ↦ inl ((kept d).1 over)
  | inr other ↦ elim other [
    | inl queued ↦ inr (
        inl (
          ap (announced d) longer
          ∙ announced-append d w.settlements q
          ∙ ap (λ b. b || announced d q) queued))
    | inr owed ↦ inr (inr owed)
  ]
]

LossStep-LossNotified :
    {o : ℕ → Bool} {w : World} {o' : ℕ → Bool} {w' : World}
    → LossStep o w o' w'
    → LossNotified o w
    → LossNotified o' w'
LossStep-LossNotified (report d reason message o w) =
    device_lost_callback-LossNotified d reason message o w
LossStep-LossNotified (forward device reason message o w) =
    forward_device_lost-LossNotified device reason message o w
LossStep-LossNotified (drain engine o w) = drain_queue-LossNotified engine o w
LossStep-LossNotified (destroy engine device o w) =
    let (same, kept) = device_destroy-kept engine device w in
    marked-LossNotified o w (device_destroy engine device w).2 same kept
LossStep-LossNotified (change o w w' q longer kept) = change-LossNotified o w w' q longer kept

-- The loss of each lost device is settled, waits in the queue to be, or is owed by webgpu.h, since
-- script destroyed the device and webgpu.h has not reported its loss since: through any reports of
-- webgpu.h and of the host, drains, destructions of devices, and anything else that neither loses a
-- device nor takes from the queue or from what is settled.
pub losses_are_announced :
    {o : ℕ → Bool} {s : World} {o' : ℕ → Bool} {w : World}
    → LossNotified o s
    → LossReach o s o' w
    → LossNotified o' w
losses_are_announced start here = start
losses_are_announced start (next r step) = LossStep-LossNotified step (losses_are_announced start r)
