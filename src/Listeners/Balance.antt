-- ===== src/Listeners/Balance.antt =====
-- core/src/lib.rs: every engine value that a target keeps is duplicated once and released once.
use webgpu_native_js.Prelude.{
  ℕ, suc, ◌+◌, String, ◌≡◌, refl, Bool, false, Option, none, some, List, [], ◌∷◌, ◌++◌, arith, ◌==◌,
  if◌then◌else◌, if_keeps,
}
use webgpu_native_js.Result.{Result, JsError}
use webgpu_native_js.World.{Call, DeviceEventJs, Listener}
use webgpu_native_js.Listeners.{
  Target, handler_type, has_callback, retain, replace_handler, device_on_uncaptured_error_set,
  is_for, any_for, add_listener, event_target_add_event_listener, remove_listener,
  event_target_remove_event_listener, callbacks_of, once_ids, dropped, keeps_id, snapshot_listeners,
  released, duplicated, duplicate_all, release_all, dispatch_callbacks, event_target_dispatch_event,
}
use webgpu_native_js.Listeners.Order.{Op, set_handler, add, remove, snapshot, step}

module _ (v : ℕ) where
  abbrev pub count : List ℕ → ℕ
  count [] = 0
  count (c ∷ cs) = if c == v then suc (count cs) else count cs

  abbrev pub count_option : Option ℕ → ℕ
  count_option none = 0
  count_option (some c) = if c == v then 1 else 0

  abbrev pub duplicates : List Call → ℕ
  duplicates [] = 0
  duplicates (c ∷ cs) =
      (elim c [ Call.duplicate_value w ↦ if w == v then 1 else 0 | _ ↦ 0 ]) + duplicates cs

  abbrev pub releases : List Call → ℕ
  releases [] = 0
  releases (c ∷ cs) =
      (elim c [ Call.release_value w ↦ if w == v then 1 else 0 | _ ↦ 0 ]) + releases cs

  abbrev pub held_by : List Listener → ℕ
  held_by [] = 0
  held_by (l ∷ ls) = count_option l.callback + held_by ls

  -- How often the event state keeps the value
  abbrev pub held : Option DeviceEventJs → ℕ
  held none = 0
  held (some js) = count_option js.handler + held_by js.listeners

  -- It was duplicated as often as it was released, is kept by the state or is in `extra`.
  abbrev pub Even : List ℕ → Option DeviceEventJs → List Call → Type 0
  Even extra js calls = duplicates calls ≡ releases calls + held js + count extra

  released-lem :
      (o : Option ℕ) (calls : List Call)
      → (releases (released o calls) ≡ count_option o + releases calls)
        × (duplicates (released o calls) ≡ duplicates calls)
  released-lem none calls = (omega arith, omega arith)
  released-lem (some w) calls = (omega arith, omega arith)

  duplicated-lem :
      (o : Option ℕ) (calls : List Call)
      → (duplicates (duplicated o calls) ≡ count_option o + duplicates calls)
        × (releases (duplicated o calls) ≡ releases calls)
  duplicated-lem none calls = (omega arith, omega arith)
  duplicated-lem (some w) calls = (omega arith, omega arith)

  held_by-append :
      (ls : List Listener) (l : Listener)
      → held_by (ls ++ (l ∷ [])) ≡ held_by ls + count_option l.callback
  held_by-append [] l = omega arith
  held_by-append (k ∷ ks) l = omega (arith, held_by-append ks l)

  held_by-has_callback : (ls : List Listener) → held_by (retain has_callback ls) ≡ held_by ls
  held_by-has_callback [] = omega arith
  held_by-has_callback (l ∷ ls) = ground (arith, held_by-has_callback ls)

  replace_handler-held :
      (new old : Option ℕ) (js : DeviceEventJs)
      → js.handler ≡ old
      → held (some (replace_handler new old js)) + count_option old
        ≡ held (some js) + count_option new
  unfolding replace_handler
  replace_handler-held (some new) none js h = ground (
    arith,
    h,
    held_by-append js.listeners
        (record { id = js.next_listener_id; type_ = handler_type; callback = none; once = false }),
  )
  replace_handler-held (some new) (some old) js h = ground (arith, h)
  replace_handler-held none (some old) js h = ground (arith, h, held_by-has_callback js.listeners)
  replace_handler-held none none js h = ground (arith, h)

  -- The handler is set.
  set_handler-Even :
      (extra : List ℕ) (new : Option ℕ) (js : Option DeviceEventJs) (calls : List Call)
      → Even extra js calls
      → let t = (device_on_uncaptured_error_set new js calls).1 in Even extra t.js t.calls
  unfolding device_on_uncaptured_error_set
  set_handler-Even extra new none calls h =
      omega (arith, h, released-lem new (duplicated new calls), duplicated-lem new calls)
  set_handler-Even extra new (some js) calls h = omega (
    arith,
    h,
    released-lem js.handler (duplicated new calls),
    duplicated-lem new calls,
    replace_handler-held new js.handler js refl,
  )

  -- A listener is added.
  add-Even :
      (extra : List ℕ) (type_ : String) (callback : ℕ) (once : Bool) (js : Option DeviceEventJs)
      (calls : List Call)
      → Even extra js calls
      → let t = (event_target_add_event_listener type_ callback once js calls).1 in
        Even extra t.js t.calls
  unfolding event_target_add_event_listener add_listener
  add-Even extra type_ callback once none calls h = h
  add-Even extra type_ callback once (some js) calls h =
      let l : Listener = record {
        id = js.next_listener_id;
        type_ = type_;
        callback = some callback;
        once = once;
      } in
      if_keeps (λ (t : Target). Even extra t.js t.calls) (any_for type_ callback js.listeners) _ _ h
        (omega (arith, h, held_by-append js.listeners l))

  remove_listener-held :
      (type_ : String) (callback : ℕ) (ls : List Listener)
      → let r = remove_listener type_ callback ls in held_by ls ≡ count_option r.0 + held_by r.1
  unfolding remove_listener
  remove_listener-held type_ callback [] = omega arith
  remove_listener-held type_ callback (l ∷ ls) =
      let ih = remove_listener-held type_ callback ls in
      if_keeps (λ (r : Option ℕ × List Listener). held_by (l ∷ ls) ≡ count_option r.0 + held_by r.1)
        (is_for type_ callback l) _ _ (omega arith) (omega (arith, ih))

  -- A listener is removed.
  remove-Even :
      (extra : List ℕ) (type_ : String) (callback : ℕ) (js : Option DeviceEventJs)
      (calls : List Call)
      → Even extra js calls
      → let t = event_target_remove_event_listener type_ callback js calls in
        Even extra t.js t.calls
  unfolding event_target_remove_event_listener
  remove-Even extra type_ callback none calls h = h
  remove-Even extra type_ callback (some js) calls h =
      let r = remove_listener type_ callback js.listeners in
      omega (arith, h, released-lem r.0 calls, remove_listener-held type_ callback js.listeners)

  dropped-held :
      (keep : Listener → Bool) (ls : List Listener)
      → held_by ls ≡ count (dropped keep ls) + held_by (retain keep ls)
  dropped-held keep [] = omega arith
  dropped-held keep (l ∷ ls) = ground (arith, dropped-held keep ls)

  duplicate_all-lem :
      (cs : List ℕ) (calls : List Call)
      → (duplicates (duplicate_all cs calls) ≡ count cs + duplicates calls)
        × (releases (duplicate_all cs calls) ≡ releases calls)
  duplicate_all-lem [] calls = (omega arith, omega arith)
  duplicate_all-lem (c ∷ cs) calls =
      ground (arith, duplicate_all-lem cs (Call.duplicate_value c ∷ calls))

  release_all-lem :
      (cs : List ℕ) (calls : List Call)
      → (releases (release_all cs calls) ≡ count cs + releases calls)
        × (duplicates (release_all cs calls) ≡ duplicates calls)
  release_all-lem [] calls = (omega arith, omega arith)
  release_all-lem (c ∷ cs) calls = ground (arith, release_all-lem cs (Call.release_value c ∷ calls))

  count-append : (xs ys : List ℕ) → count (xs ++ ys) ≡ count xs + count ys
  count-append [] ys = omega arith
  count-append (x ∷ xs) ys = ground (arith, count-append xs ys)

  -- A snapshot is taken, and the listeners that it drops are released.
  snapshot-Even :
      (extra : List ℕ) (type_ : String) (js : Option DeviceEventJs) (calls : List Call)
      → Even extra js calls
      → let s = snapshot_listeners type_ js calls in
        Even (s.0 ++ extra) s.2.js (release_all s.1 s.2.calls)
  unfolding snapshot_listeners
  snapshot-Even extra type_ none calls h = omega (arith, h)
  snapshot-Even extra type_ (some js) calls h =
      let keep = keeps_id (once_ids type_ js.listeners) in
      let callbacks = callbacks_of js.handler type_ js.listeners in
      omega (
        arith,
        h,
        count-append callbacks extra,
        dropped-held keep js.listeners,
        release_all-lem (dropped keep js.listeners) (duplicate_all callbacks calls),
        duplicate_all-lem callbacks calls,
      )

-- Script that runs in a callback keeps the balance, as each operation of a target does.
abbrev pub Fair : (ℕ → Target → Result (Unit {0}) × Target) → ℕ → Type 0
Fair call v =
    (c : ℕ) (extra : List ℕ) (t : Target)
    → Even v extra t.js t.calls
    → Even v extra (call c t).1.js (call c t).1.calls

dispatch_callbacks-Even :
    (call : ℕ → Target → Result (Unit {0}) × Target) (v : ℕ)
    → Fair call v
    → (cs extra : List ℕ) (first_error : Option JsError) (t : Target)
    → Even v (cs ++ extra) t.js t.calls
    → let r = dispatch_callbacks call cs first_error t in Even v extra r.1.js r.1.calls
unfolding dispatch_callbacks
dispatch_callbacks-Even call v fair [] extra first_error t h = h
dispatch_callbacks-Even call v fair (c ∷ cs) extra first_error t h =
    let h' = fair c ((c ∷ cs) ++ extra) t h in
    dispatch_callbacks-Even call v fair cs extra _ _ (ground (arith, h'))

event_target_dispatch_event-Even :
    (call : ℕ → Target → Result (Unit {0}) × Target) (v : ℕ)
    → Fair call v
    → (type_ : String) (t : Target) → Even v [] t.js t.calls
    → let r = event_target_dispatch_event call type_ t in Even v [] r.1.js r.1.calls
unfolding event_target_dispatch_event
event_target_dispatch_event-Even call v fair type_ t h =
    let s = snapshot_listeners type_ t.js t.calls in
    dispatch_callbacks-Even call v fair s.0 [] none _ (snapshot-Even v [] type_ t.js t.calls h)

-- An operation, where `snapshot` stands for the whole dispatch of an event
abbrev pub perform : (ℕ → Target → Result (Unit {0}) × Target) → Op → Target → Target
perform call (set_handler new) t = step (set_handler new) t
perform call (add type_ callback once) t = step (add type_ callback once) t
perform call (remove type_ callback) t = step (remove type_ callback) t
perform call (snapshot type_) t = (event_target_dispatch_event call type_ t).1

perform-Even :
    (call : ℕ → Target → Result (Unit {0}) × Target) (v : ℕ)
    → Fair call v
    → (op : Op) (t : Target) → Even v [] t.js t.calls
    → Even v [] (perform call op t).js (perform call op t).calls
perform-Even call v fair (set_handler new) t h = set_handler-Even v [] new t.js t.calls h
perform-Even call v fair (add type_ callback once) t h =
    add-Even v [] type_ callback once t.js t.calls h
perform-Even call v fair (remove type_ callback) t h =
    remove-Even v [] type_ callback t.js t.calls h
perform-Even call v fair (snapshot type_) t h =
    event_target_dispatch_event-Even call v fair type_ t h

abbrev pub perform_all : (ℕ → Target → Result (Unit {0}) × Target) → List Op → Target → Target
perform_all call [] t = t
perform_all call (op ∷ ops) t = perform_all call ops (perform call op t)

-- After any operations and dispatched events, each engine value was duplicated exactly as often
-- as it was released and is kept by the target, if that holds at the start and script that runs
-- in a callback keeps such a balance.
pub references_balance :
    (call : ℕ → Target → Result (Unit {0}) × Target) (v : ℕ) (ops : List Op) (t : Target)
    → Fair call v
    → Even v [] t.js t.calls
    → let t' = perform_all call ops t in Even v [] t'.js t'.calls
references_balance call v [] t fair h = h
references_balance call v (op ∷ ops) t fair h =
    references_balance call v ops (perform call op t) fair (perform-Even call v fair op t h)
