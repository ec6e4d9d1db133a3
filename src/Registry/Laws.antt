-- ===== src/Registry/Laws.antt =====
-- core/src/lib.rs: what taking a state from the registry leaves as it was.
use webgpu_native_js.Prelude.{ℕ, ◌≡◌, refl, Bool, true, false, Option, none, some}
use webgpu_native_js.World.{World, update}
use webgpu_native_js.Registry.{prune, mark_lost_settled}

pub prune-same :
    (complete : Bool) (o : Option ℕ) (d : ℕ) (w : World)
    → ((prune complete o d w).events ≡ w.events)
      × ((prune complete o d w).calls ≡ w.calls)
      × ((prune complete o d w).settlements ≡ w.settlements)
prune-same complete none d w = (refl, refl, refl)
prune-same false (some device) d w = (refl, refl, refl)
prune-same true (some device) d w = (refl, refl, refl)

pub mark_lost_settled-same :
    (state : ℕ) (w : World)
    → ((mark_lost_settled state w).events
        ≡ update w.events state (record (w.events state) { lost_settled = true }))
      × ((mark_lost_settled state w).calls ≡ w.calls)
      × ((mark_lost_settled state w).settlements ≡ w.settlements)
unfolding mark_lost_settled
mark_lost_settled-same state w = prune-same _ _ state _
