-- ===== src/Listeners/Events.antt =====
-- core/src/lib.rs: what an event reaches, and what it leaves of the listeners.
use webgpu_native_js.Prelude.{
  ℕ, String, ◌≡◌, refl, ap, ◌∙◌, Bool, false, not, ◌&&◌, Option, none, some, List, [], ◌∷◌, map,
  arith, All,
}
use webgpu_native_js.World.{Call, DeviceEventJs, Listener}
use webgpu_native_js.Listeners.{
  Target, retain, has_type, callbacks_of, once_ids, contains, keeps_id, snapshot_listeners,
}
use webgpu_native_js.Listeners.Order.{
  places, holds, Fresh, Unique, Steady, Inv, All-retain, Unique-retain, set_handler-Inv, add-Inv,
  remove-Inv, Op, set_handler, add, remove, snapshot, step, run,
}

-- A listener that is there for one event of the type
abbrev pub is_once : String → Listener → Bool
is_once type_ l = has_type type_ l && l.once

-- An identifier that no listener has is not among those of the listeners to drop.
once_ids-Fresh :
    (type_ : String) (n : ℕ) (ls : List Listener)
    → Fresh n ls
    → contains n (once_ids type_ ls) ≡ false
once_ids-Fresh type_ n [] h = refl
once_ids-Fresh type_ n (l ∷ ls) h = ground (arith, h.0, once_ids-Fresh type_ n ls h.1)

-- Two tests that agree on a list keep the same of it.
retain_ext :
    (f g : Listener → Bool) (ls : List Listener)
    → All (λ l. f l ≡ g l) ls
    → retain f ls ≡ retain g ls
retain_ext f g [] h = refl
retain_ext f g (l ∷ ls) h = rw (h.0, retain_ext f g ls h.1) refl

-- Identifiers pick out the listeners to drop.
module _ (type_ : String) where
  agree_more :
      (l : Listener) (ms ls : List Listener)
      → Fresh l.id ls
      → All (λ k. contains k.id (once_ids type_ ms) ≡ is_once type_ k) ls
      → All (λ k. contains k.id (once_ids type_ (l ∷ ms)) ≡ is_once type_ k) ls
  agree_more l ms [] fresh h = tt
  agree_more l ms (k ∷ ks) fresh h = (ground (arith, fresh.0, h.0), agree_more l ms ks fresh.1 h.1)

  agree :
      (ls : List Listener)
      → Unique ls
      → All (λ k. contains k.id (once_ids type_ ls) ≡ is_once type_ k) ls
  agree [] u = tt
  agree (l ∷ ls) u =
      (ground (arith, once_ids-Fresh type_ l.id ls u.0), agree_more l ls ls u.0 (agree ls u.1))

  All-not :
      (ids : List ℕ) (ls : List Listener)
      → All (λ k. contains k.id ids ≡ is_once type_ k) ls
      → All (λ k. keeps_id ids k ≡ not (is_once type_ k)) ls
  All-not ids [] h = tt
  All-not ids (l ∷ ls) h = (ap not h.0, All-not ids ls h.1)

  retain_once :
      (ls : List Listener)
      → Unique ls
      → retain (keeps_id (once_ids type_ ls)) ls ≡ retain (λ l. not (is_once type_ l)) ls
  retain_once ls u = retain_ext _ _ ls (All-not (once_ids type_ ls) ls (agree ls u))

  places-once :
      (ls : List Listener) → Steady ls → places (retain (λ l. not (is_once type_ l)) ls) ≡ places ls
  places-once [] h = refl
  places-once (l ∷ ls) h = ground (arith, h.0, places-once ls h.1)

  snapshot-Inv :
      (js : Option DeviceEventJs) (calls : List Call)
      → Inv js
      → Inv (snapshot_listeners type_ js calls).2.js
  unfolding snapshot_listeners
  snapshot-Inv none calls v = tt
  snapshot-Inv (some js) calls v =
      let keep = keeps_id (once_ids type_ js.listeners) in
      (
        All-retain _ keep js.listeners v.0,
        Unique-retain keep js.listeners v.1,
        ap places (retain_once js.listeners v.1) ∙ places-once js.listeners v.3 ∙ v.2,
        All-retain _ keep js.listeners v.3,
      )

step-Inv : (op : Op) (t : Target) → Inv t.js → Inv (step op t).js
step-Inv (set_handler new) t v = set_handler-Inv new t.js t.calls v
step-Inv (add type_ callback once) t v = add-Inv type_ callback once t.js t.calls v
step-Inv (remove type_ callback) t v = remove-Inv type_ callback t.js t.calls v
step-Inv (snapshot type_) t v = snapshot-Inv type_ t.js t.calls v

-- Through all operations a target that is well-formed stays so: the identifiers of its listeners
-- are different and below the next one, and the handler has exactly one place, which no event
-- removes, if it is set, and none if it is not.
pub listeners_stay_ordered : (ops : List Op) (t : Target) → Inv t.js → Inv (run ops t).js
listeners_stay_ordered [] t v = v
listeners_stay_ordered (op ∷ ops) t v = listeners_stay_ordered ops (step op t) (step-Inv op t v)

-- What a listener calls: its own callback, or else the handler, for which it keeps the place
abbrev pub callee : Option ℕ → Listener → Option ℕ
callee handler l = elim l.callback [ none ↦ handler | some c ↦ some c ]

callbacks_of-some :
    (handler : ℕ) (type_ : String) (ls : List Listener)
    → map some (callbacks_of (some handler) type_ ls)
      ≡ map (callee (some handler)) (retain (has_type type_) ls)
callbacks_of-some handler type_ [] = refl
callbacks_of-some handler type_ (l ∷ ls) =
    let ih = callbacks_of-some handler type_ ls in ground (arith, ih)

-- Without a handler no listener keeps a place for it.
callbacks_of-none :
    (type_ : String) (ls : List Listener)
    → places ls ≡ 0
    → map some (callbacks_of none type_ ls) ≡ map (callee none) (retain (has_type type_) ls)
callbacks_of-none type_ [] h = refl
callbacks_of-none type_ (l ∷ ls) h =
    let ih = callbacks_of-none type_ ls (ground (arith, h)) in ground (arith, ih, h)

callbacks_of-callee :
    (handler : Option ℕ) (type_ : String) (ls : List Listener)
    → places ls ≡ holds handler
    → map some (callbacks_of handler type_ ls) ≡ map (callee handler) (retain (has_type type_) ls)
callbacks_of-callee none type_ ls h = callbacks_of-none type_ ls h
callbacks_of-callee (some handler) type_ ls h = callbacks_of-some handler type_ ls

-- On a well-formed target an event calls one callback for each listener of its type, in their
-- order: the listener's own, or the handler at the handler's place, whether a handler is set or not.
-- It leaves exactly the listeners that are not once listeners of the type, in their order.
pub snapshot_listeners_lem :
    (type_ : String) (js : DeviceEventJs) (calls : List Call)
    → Inv (some js)
    → let r = snapshot_listeners type_ (some js) calls in
      (map some r.0 ≡ map (callee js.handler) (retain (has_type type_) js.listeners))
      × (r.2.js ≡ some (record js { listeners = retain (λ l. not (is_once type_ l)) js.listeners }))
unfolding snapshot_listeners
snapshot_listeners_lem type_ js calls v = (
  callbacks_of-callee js.handler type_ js.listeners v.2,
  ap (λ ls. some (record js { listeners = ls })) (retain_once type_ js.listeners v.1),
)
