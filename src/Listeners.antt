-- ===== src/Listeners.antt =====
-- core/src/lib.rs: the `uncapturederror` handler and the event listeners of a device or of an
-- `EventTarget`, and the dispatch of an event. A target has its event state (none once the device
-- is torn down) and the calls of the engine that its operations made, newest first. An
-- `EventTarget` has no handler. Engine values are numbered by identity, so that `same_value` is
-- equality. The type and the callback come converted, as `listener_type` and `is_callable` read
-- them; the object of a device dispatches as every other target.
pub mod Order
pub mod Events
pub mod Balance
use webgpu_native_js.Prelude.{
  ℕ, suc, ◌+◌, String, Bool, true, false, not, ◌&&◌, ◌||◌, Option, none, some, List, [], ◌∷◌, ◌++◌,
  ◌==◌, if◌then◌else◌,
}
use text.Mathlib.Text
use webgpu_native_js.Result.{Result, ok, err, JsError}
use webgpu_native_js.World.{Call, DeviceEventJs, Listener}

pub record Target : Type 0 where
  pub js : Option DeviceEventJs
  pub calls : List Call

abbrev pub released : Option ℕ → List Call → List Call
released none calls = calls
released (some v) calls = Call.release_value v ∷ calls

abbrev pub duplicated : Option ℕ → List Call → List Call
duplicated none calls = calls
duplicated (some v) calls = Call.duplicate_value v ∷ calls

abbrev pub unavailable : JsError
unavailable = JsError.operation_error "GPUDevice event state is unavailable"

abbrev pub handler_type : String
handler_type = "uncapturederror"

abbrev pub has_callback : Listener → Bool
has_callback l = elim l.callback [ none ↦ false | some c ↦ true ]

-- Vec::retain
abbrev pub retain : (Listener → Bool) → List Listener → List Listener
retain keep [] = []
retain keep (l ∷ ls) = if keep l then l ∷ retain keep ls else retain keep ls

-- The handler and its place among the listeners, for the replacement and the old handler
unfoldable pub replace_handler : Option ℕ → Option ℕ → DeviceEventJs → DeviceEventJs
replace_handler (some new) none js = record js {
  handler = some new;
  listeners =
      js.listeners
      ++ (record { id = js.next_listener_id; type_ = handler_type; callback = none; once = false }
          ∷ []);
  next_listener_id = suc js.next_listener_id;
}
replace_handler (some new) (some old) js = record js { handler = some new }
replace_handler none (some old) js = record js {
  handler = none;
  listeners = retain has_callback js.listeners;
}
replace_handler none none js = record js { handler = none }

-- GPUDevice.onuncapturederror = …; `replacement` is the value if it is callable.
unfoldable pub device_on_uncaptured_error_set :
    Option ℕ → Option DeviceEventJs → List Call → Result (Unit {0}) × Target
unfolding replace_handler
device_on_uncaptured_error_set replacement none calls = (
  err unavailable,
  record { js = none; calls = released replacement (duplicated replacement calls) },
)
device_on_uncaptured_error_set replacement (some js) calls = (
  ok tt,
  record {
    js = some (replace_handler replacement js.handler js);
    calls = released js.handler (duplicated replacement calls);
  },
)

-- Whether a listener is the one for a type and a callback
abbrev pub is_for : String → ℕ → Listener → Bool
is_for type_ callback l =
    Text.◌==◌ l.type_ type_ && (elim l.callback [ none ↦ false | some c ↦ c == callback ])

abbrev pub any_for : String → ℕ → List Listener → Bool
any_for type_ callback [] = false
any_for type_ callback (l ∷ ls) = is_for type_ callback l || any_for type_ callback ls

unfoldable pub add_listener : String → ℕ → Bool → DeviceEventJs → List Call → Target
add_listener type_ callback once js calls =
    if any_for type_ callback js.listeners then record { js = some js; calls = calls } else record {
      js = some (record js {
        listeners =
            js.listeners
            ++ (record {
              id = js.next_listener_id;
              type_ = type_;
              callback = some callback;
              once = once;
            }
                ∷ []);
        next_listener_id = suc js.next_listener_id;
      });
      calls = Call.duplicate_value callback ∷ calls;
    }

-- addEventListener, of a callable callback
unfoldable pub event_target_add_event_listener :
    String → ℕ → Bool → Option DeviceEventJs → List Call → Result (Unit {0}) × Target
unfolding add_listener
event_target_add_event_listener type_ callback once none calls =
    (err unavailable, record { js = none; calls = calls })
event_target_add_event_listener type_ callback once (some js) calls =
    (ok tt, add_listener type_ callback once js calls)

-- `entries.remove(index)` at the first that fits: its callback, and the rest
unfoldable pub remove_listener : String → ℕ → List Listener → Option ℕ × List Listener
remove_listener type_ callback [] = (none, [])
remove_listener type_ callback (l ∷ ls) =
    let rest = remove_listener type_ callback ls in
    if is_for type_ callback l then (l.callback, ls) else (rest.0, l ∷ rest.1)

-- removeEventListener
unfoldable pub event_target_remove_event_listener :
    String → ℕ → Option DeviceEventJs → List Call → Target
unfolding remove_listener
event_target_remove_event_listener type_ callback none calls = record { js = none; calls = calls }
event_target_remove_event_listener type_ callback (some js) calls =
    let r = remove_listener type_ callback js.listeners in
    record { js = some (record js { listeners = r.1 }); calls = released r.0 calls }

abbrev pub has_type : String → Listener → Bool
has_type type_ l = Text.◌==◌ l.type_ type_

-- `listener.callback.or_else(|| state.handler.get())`
abbrev pub or_else : Option ℕ → Option ℕ → Option ℕ
or_else none o = o
or_else (some c) o = some c

abbrev pub push : Option ℕ → List ℕ → List ℕ
push none cs = cs
push (some c) cs = c ∷ cs

abbrev pub callbacks_of : Option ℕ → String → List Listener → List ℕ
callbacks_of handler type_ [] = []
callbacks_of handler type_ (l ∷ ls) =
    let rest = callbacks_of handler type_ ls in
    if has_type type_ l then push (or_else l.callback handler) rest else rest

abbrev pub once_ids : String → List Listener → List ℕ
once_ids type_ [] = []
once_ids type_ (l ∷ ls) =
    let rest = once_ids type_ ls in if has_type type_ l && l.once then l.id ∷ rest else rest

abbrev pub contains : ℕ → List ℕ → Bool
contains n [] = false
contains n (m ∷ ms) = (m == n) || contains n ms

-- The callbacks of the listeners that `retain` drops
abbrev pub dropped : (Listener → Bool) → List Listener → List ℕ
dropped keep [] = []
dropped keep (l ∷ ls) = let rest = dropped keep ls in if keep l then rest else push l.callback rest

abbrev pub duplicate_all : List ℕ → List Call → List Call
duplicate_all [] calls = calls
duplicate_all (c ∷ cs) calls = duplicate_all cs (Call.duplicate_value c ∷ calls)

abbrev pub release_all : List ℕ → List Call → List Call
release_all [] calls = calls
release_all (c ∷ cs) calls = release_all cs (Call.release_value c ∷ calls)

abbrev pub keeps_id : List ℕ → Listener → Bool
keeps_id ids l = not (contains l.id ids)

-- snapshot_device_listeners, and snapshot_target_listeners where there is no handler: the
-- callbacks to call, those to release, and the target
unfoldable pub snapshot_listeners :
    String → Option DeviceEventJs → List Call → List ℕ × List ℕ × Target
snapshot_listeners type_ none calls = ([], [], record { js = none; calls = calls })
snapshot_listeners type_ (some js) calls =
    let callbacks = callbacks_of js.handler type_ js.listeners in
    let keep = keeps_id (once_ids type_ js.listeners) in
    (
      callbacks,
      dropped keep js.listeners,
      record {
        js = some (record js { listeners = retain keep js.listeners });
        calls = duplicate_all callbacks calls;
      },
    )

abbrev pub first_of : Option JsError → Result (Unit {0}) → Option JsError
first_of (some error) result = some error
first_of none (err error) = some error
first_of none (ok done) = none

-- `first_error.map_or(Ok(()), Err)`
abbrev pub or_done : Option JsError → Result (Unit {0})
or_done none = ok tt
or_done (some error) = err error

-- What calling a function does to the target, script included, is an argument.
module _ (call : ℕ → Target → Result (Unit {0}) × Target) where
  unfoldable pub dispatch_callbacks : List ℕ → Option JsError → Target → Result (Unit {0}) × Target
  dispatch_callbacks [] first_error t = (or_done first_error, t)
  dispatch_callbacks (c ∷ cs) first_error t =
      let r = call c t in
      dispatch_callbacks cs (first_of first_error r.0)
        (record { js = r.1.js; calls = Call.release_value c ∷ r.1.calls })

  -- dispatchEvent, and dispatch_uncaptured_error once its event is made
  unfoldable pub event_target_dispatch_event : String → Target → Result (Unit {0}) × Target
  unfolding snapshot_listeners dispatch_callbacks
  event_target_dispatch_event type_ t =
      let s = snapshot_listeners type_ t.js t.calls in
      dispatch_callbacks s.0 none (record { js = s.2.js; calls = release_all s.1 s.2.calls })
