-- ===== src/Registry/Lifetime.antt =====
-- core/src/lib.rs: how long the registry keeps the event state of a device.
use webgpu_native_js.Prelude.{
  ℕ, ◌+◌, ◌≡◌, refl, sym, ap, ◌∙◌, subst, Bool, true, false, not, ◌&&◌, Option, none, some, List,
  [], ◌∷◌, ◌++◌, arith, ◌==◌, if◌then◌else◌, ==_iff,
}
use webgpu_native_js.World.{World, DeviceEvents, update, update_self, set_events}
use webgpu_native_js.Registry.Laws.{prune-same}
use webgpu_native_js.Registry.{
  register_device_events, without, prune, prune_registration_if_complete, mark_wrapper_finalized,
  mark_lost_settled, set_once,
}

-- How often the state `d` is registered under `device`
abbrev pub count : ℕ → ℕ → List (ℕ × ℕ) → ℕ
count device d [] = 0
count device d (entry ∷ rest) =
    (if entry.0 == device && entry.1 == d then 1 else 0) + count device d rest

abbrev pub is_registered_as : ℕ → Option ℕ → Bool
is_registered_as device none = false
is_registered_as device (some first) = first == device

-- The state is done with: its wrapper is finalized and its loss is settled.
abbrev pub is_complete : DeviceEvents → Bool
is_complete e = e.wrapper_finalized && e.lost_settled

abbrev pub expected : ℕ → DeviceEvents → ℕ
expected device e = if is_registered_as device e.registration && not (is_complete e) then 1 else 0

abbrev pub InRegistry : World → Type 0
InRegistry w = (device d : ℕ) → count device d w.registered ≡ expected device (w.events d)

count-append :
    (device d : ℕ) (l r : List (ℕ × ℕ))
    → count device d (l ++ r) ≡ count device d l + count device d r
count-append device d [] r = omega arith
count-append device d (entry ∷ l) r = omega (arith, count-append device d l r)

count-without :
    (device d device' d' : ℕ) (l : List (ℕ × ℕ))
    → count device d (without device' d' l)
      ≡ (if device' == device && d' == d then 0 else count device d l)
count-without device d device' d' [] = ground arith
count-without device d device' d' (entry ∷ l) =
    let ih = count-without device d device' d' l in ground (arith, ih)

count-prune :
    (complete : Bool) (o : Option ℕ) (device d d' : ℕ) (w : World)
    → count device d' (prune complete o d w).registered ≡ (
        if complete && is_registered_as device o && d == d'
        then 0
        else count device d' w.registered)
count-prune complete none device d d' w = ground arith
count-prune false (some first) device d d' w = refl
count-prune true (some first) device d d' w = count-without device d' first d w.registered

-- A state changes, or stays, and only grows complete.
expected-cases :
    (here : Bool) (old e : DeviceEvents) (device n : ℕ)
    → (here ≡ true
        → (is_registered_as device e.registration ≡ is_registered_as device old.registration)
          × (is_complete old ≡ true → is_complete e ≡ true))
    → n ≡ expected device old
    → (if is_complete e && is_registered_as device e.registration && here then 0 else n)
      ≡ expected device (if here then e else old)
expected-cases false old e device n grows h = ground (arith, h)
expected-cases true old e device n grows h = let g = grows refl in ground (arith, h, g.0, g.1)

expected-update :
    (E : ℕ → DeviceEvents) (d : ℕ) (e : DeviceEvents) (device d' n : ℕ)
    → e.registration ≡ (E d).registration
    → (is_complete (E d) ≡ true → is_complete e ≡ true)
    → n ≡ expected device (E d')
    → (if is_complete e && is_registered_as device e.registration && d == d' then 0 else n)
      ≡ expected device (update E d e d')
expected-update E d e device d' n same grows h =
    expected-cases (d == d') (E d') e device n
      (λ here.
        subst
          (λ d'.
            (is_registered_as device e.registration ≡ is_registered_as device (E d').registration)
            × (is_complete (E d') ≡ true → is_complete e ≡ true))
          ((==_iff d d').0 here) (ap (is_registered_as device) same, grows))
      h

prune-InRegistry :
    (d : ℕ) (e : DeviceEvents) (w : World)
    → e.registration ≡ (w.events d).registration
    → (is_complete (w.events d) ≡ true → is_complete e ≡ true)
    → InRegistry w
    → InRegistry (prune_registration_if_complete d (set_events d e w))
prune-InRegistry d e w same grows inv device d' =
    let u = set_events d e w in
    let s = u.events d in
    count-prune (is_complete s) s.registration device d d' u
    ∙ ap
        (λ s.
          if is_complete s && is_registered_as device s.registration && d == d'
          then 0
          else count device d' w.registered)
        (update_self w.events d e)
    ∙ expected-update w.events d e device d' _ same grows (inv device d')
    ∙ ap (λ E. expected device (E d')) (sym (prune-same (is_complete s) s.registration d u).0)

-- A fresh state is registered.
register-cases :
    (here : Bool) (old e : DeviceEvents) (device first n : ℕ)
    → (here ≡ true
        → (is_registered_as device old.registration ≡ false)
          × (is_registered_as device e.registration ≡ (first == device))
          × (is_complete e ≡ false))
    → n ≡ expected device old
    → n + ((if first == device && here then 1 else 0) + 0)
      ≡ expected device (if here then e else old)
register-cases false old e device first n fresh h = ground (arith, h)
register-cases true old e device first n fresh h =
    let f = fresh refl in ground (arith, h, f.0, f.1, f.2)

set_once-fresh : (o : Option ℕ) (device : ℕ) → o ≡ none → set_once o device ≡ some device
set_once-fresh o device fresh = ap (λ o. set_once o device) fresh

register-InRegistry :
    (device d : ℕ) (w : World)
    → (w.events d).registration ≡ none
    → (w.events d).wrapper_finalized ≡ false
    → InRegistry w
    → InRegistry (register_device_events device d w)
unfolding register_device_events
register-InRegistry device d w fresh unfinalized inv device' d' =
    let e = w.events d in
    let new : DeviceEvents = record e { registration = set_once e.registration device } in
    count-append device' d' w.registered ((device, d) ∷ [])
    ∙ register-cases (d == d') (w.events d') new device' device _
        (λ here.
          subst
            (λ d'.
              (is_registered_as device' (w.events d').registration ≡ false)
              × (is_registered_as device' new.registration ≡ (device == device'))
              × (is_complete new ≡ false))
            ((==_iff d d').0 here)
            (
              ap (is_registered_as device') fresh,
              ap (is_registered_as device') (set_once-fresh e.registration device fresh),
              ap (λ b. b && e.lost_settled) unfinalized,
            ))
        (inv device' d')

-- What happens to the registry: a fresh state is registered, a wrapper is finalized, a loss is
-- settled, or something else happens, which leaves the registry and what it goes by as they are.
pub data RegistryStep : World → World → Type 0 where
  register :
      (device d : ℕ) (w : World)
      → (w.events d).registration ≡ none
      → (w.events d).wrapper_finalized ≡ false
      → RegistryStep w (register_device_events device d w)
  finalize : (d : ℕ) (w : World) → RegistryStep w (mark_wrapper_finalized d w)
  settle_loss : (d : ℕ) (w : World) → RegistryStep w (mark_lost_settled d w)
  change :
      (w w' : World)
      → w'.registered ≡ w.registered
      → ((d : ℕ)
          → ((w'.events d).registration ≡ (w.events d).registration)
            × (is_complete (w'.events d) ≡ is_complete (w.events d)))
      → RegistryStep w w'

pub data RegistryReach (s : World) : World → Type 0 where
  here : RegistryReach s s
  next : {t u : World} → RegistryReach s t → RegistryStep t u → RegistryReach s u

mark_lost_settled-InRegistry :
    (d : ℕ) (w : World) → InRegistry w → InRegistry (mark_lost_settled d w)
unfolding mark_lost_settled
mark_lost_settled-InRegistry d w = prune-InRegistry d _ w refl (λ h. ground (arith, h))

mark_wrapper_finalized-InRegistry :
    (d : ℕ) (w : World) → InRegistry w → InRegistry (mark_wrapper_finalized d w)
unfolding mark_wrapper_finalized
mark_wrapper_finalized-InRegistry d w = prune-InRegistry d _ w refl (λ h. ground (arith, h))

change-InRegistry :
    (w w' : World)
    → w'.registered ≡ w.registered
    → ((d : ℕ)
        → ((w'.events d).registration ≡ (w.events d).registration)
          × (is_complete (w'.events d) ≡ is_complete (w.events d)))
    → InRegistry w
    → InRegistry w'
change-InRegistry w w' same kept inv device d =
    let registered = ap (is_registered_as device) (kept d).0 in
    ap (count device d) same ∙ inv device d ∙ ground (arith, registered, (kept d).1)

RegistryStep-InRegistry : {w w' : World} → RegistryStep w w' → InRegistry w → InRegistry w'
RegistryStep-InRegistry (register device d w fresh unfinalized) inv =
    register-InRegistry device d w fresh unfinalized inv
RegistryStep-InRegistry (finalize d w) inv = mark_wrapper_finalized-InRegistry d w inv
RegistryStep-InRegistry (settle_loss d w) inv = mark_lost_settled-InRegistry d w inv
RegistryStep-InRegistry (change w w' same kept) inv = change-InRegistry w w' same kept inv

-- However states are registered, wrappers finalized and losses settled, in whatever order, a state
-- is in the registry once under the device it was registered with until its wrapper is finalized
-- and its loss is settled, and then no more, and under no other device ever. A state is registered
-- while it is unregistered and its wrapper is not finalized; anything else may happen in between
-- that does not touch registrations, finalization and the settling of a loss.
pub registered_until_complete : {s w : World} → InRegistry s → RegistryReach s w → InRegistry w
registered_until_complete inv here = inv
registered_until_complete inv (next r step) =
    RegistryStep-InRegistry step (registered_until_complete inv r)
