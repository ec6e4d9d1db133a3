-- ===== src/Listeners/Order.antt =====
-- core/src/lib.rs: what the listeners of a target are at every time, and what an event reaches.
use webgpu_native_js.Prelude.{
  ℕ, suc, ◌+◌, ◌<◌, String, ◌≡◌, refl, ◌∙◌, ◌≢◌, inl, inr, Bool, true, false, not, ◌||◌, Option,
  none, some, List, [], ◌∷◌, ◌++◌, arith, if◌then◌else◌, Bool-cases, if_keeps, All, All-append,
}
use webgpu_native_js.World.{Call, DeviceEventJs, Listener}
use webgpu_native_js.Listeners.{
  Target, handler_type, has_callback, retain, replace_handler, device_on_uncaptured_error_set,
  is_for, any_for, add_listener, event_target_add_event_listener, remove_listener,
  event_target_remove_event_listener, snapshot_listeners,
}

-- The listeners that are the handler's place
abbrev pub places : List Listener → ℕ
places [] = 0
places (l ∷ ls) = if has_callback l then places ls else suc (places ls)

abbrev pub holds : Option ℕ → ℕ
holds none = 0
holds (some v) = 1

abbrev pub Fresh : ℕ → List Listener → Type 0
Fresh n ls = All (λ l. l.id ≢ n) ls

abbrev pub Unique : List Listener → Type 0
Unique [] = Unit
Unique (l ∷ ls) = Fresh l.id ls × Unique ls

abbrev pub Below : ℕ → List Listener → Type 0
Below n ls = All (λ l. l.id < n) ls

-- The handler's place stays when its event comes.
abbrev pub Steady : List Listener → Type 0
Steady ls = All (λ l. (has_callback l || not l.once) ≡ true) ls

-- Identifiers are below the next one and differ, and the handler has one place, which stays,
-- exactly if it is set.
abbrev pub Inv : Option DeviceEventJs → Type 0
Inv none = Unit
Inv (some js) =
    Below js.next_listener_id js.listeners
    × Unique js.listeners
    × (places js.listeners ≡ holds js.handler)
    × Steady js.listeners

Below-append :
    (n : ℕ) (ls : List Listener) (l : Listener)
    → Below n ls
    → l.id ≡ n
    → Below (suc n) (ls ++ (l ∷ []))
Below-append n [] l h same = (omega (arith, same), tt)
Below-append n (k ∷ ks) l h same = (omega (arith, h.0), Below-append n ks l h.1 same)

Fresh-append :
    (m n : ℕ) (ls : List Listener) (l : Listener)
    → Fresh m ls
    → l.id ≡ n
    → m < n
    → Fresh m (ls ++ (l ∷ []))
Fresh-append m n [] l h same lt = (omega (arith, same, lt), tt)
Fresh-append m n (k ∷ ks) l h same lt = (h.0, Fresh-append m n ks l h.1 same lt)

Unique-append :
    (n : ℕ) (ls : List Listener) (l : Listener)
    → Below n ls
    → Unique ls
    → l.id ≡ n
    → Unique (ls ++ (l ∷ []))
Unique-append n [] l h u same = (tt, tt)
Unique-append n (k ∷ ks) l h u same =
    (Fresh-append k.id n ks l u.0 same h.0, Unique-append n ks l h.1 u.1 same)

places-append :
    (ls : List Listener) (l : Listener) → places (ls ++ (l ∷ [])) ≡ places ls + places (l ∷ [])
places-append [] l = omega arith
places-append (k ∷ ks) l = ground (arith, places-append ks l)

-- What holds of all holds of those that stay.
pub All-retain :
    (P : Listener → Type 0) (keep : Listener → Bool) (ls : List Listener)
    → All P ls
    → All P (retain keep ls)
All-retain P keep [] h = tt
All-retain P keep (l ∷ ls) h =
    if_keeps (All P) (keep l) _ _ (h.0, All-retain P keep ls h.1) (All-retain P keep ls h.1)

pub Unique-retain :
    (keep : Listener → Bool) (ls : List Listener) → Unique ls → Unique (retain keep ls)
Unique-retain keep [] u = tt
Unique-retain keep (l ∷ ls) u =
    if_keeps Unique (keep l) _ _
      (All-retain (λ k. k.id ≢ l.id) keep ls u.0, Unique-retain keep ls u.1)
      (Unique-retain keep ls u.1)

places-retain : (ls : List Listener) → places (retain has_callback ls) ≡ 0
places-retain [] = refl
places-retain (l ∷ ls) = ground (arith, places-retain ls)

replace_handler-Inv :
    (new old : Option ℕ) (js : DeviceEventJs)
    → js.handler ≡ old
    → Inv (some js)
    → Inv (some (replace_handler new old js))
unfolding replace_handler
replace_handler-Inv (some new) none js h v =
    let place : Listener = record {
      id = js.next_listener_id;
      type_ = handler_type;
      callback = none;
      once = false;
    } in
    (
      Below-append js.next_listener_id js.listeners place v.0 refl,
      Unique-append js.next_listener_id js.listeners place v.0 v.1 refl,
      places-append js.listeners place ∙ ground (arith, v.2, h),
      All-append _ (place ∷ []) (refl, tt) js.listeners v.3,
    )
replace_handler-Inv (some new) (some old) js h v = (v.0, v.1, ground (arith, v.2, h), v.3)
replace_handler-Inv none (some old) js h v = (
  All-retain _ has_callback js.listeners v.0,
  Unique-retain has_callback js.listeners v.1,
  places-retain js.listeners,
  All-retain _ has_callback js.listeners v.3,
)
replace_handler-Inv none none js h v = (v.0, v.1, ground (arith, v.2, h), v.3)

add_listener-Inv :
    (type_ : String) (callback : ℕ) (once : Bool) (js : DeviceEventJs) (calls : List Call)
    → Inv (some js)
    → Inv (add_listener type_ callback once js calls).js
unfolding add_listener
add_listener-Inv type_ callback once js calls v =
    let l : Listener = record {
      id = js.next_listener_id;
      type_ = type_;
      callback = some callback;
      once = once;
    } in
    if_keeps (λ (t : Target). Inv t.js) (any_for type_ callback js.listeners) _ _ v
      (
        Below-append js.next_listener_id js.listeners l v.0 refl,
        Unique-append js.next_listener_id js.listeners l v.0 v.1 refl,
        places-append js.listeners l ∙ ground (arith, v.2),
        All-append _ (l ∷ []) (refl, tt) js.listeners v.3,
      )

-- What holds of all holds of those that stay.
All-remove :
    (P : Listener → Type 0) (type_ : String) (callback : ℕ) (ls : List Listener)
    → All P ls
    → All P (remove_listener type_ callback ls).1
unfolding remove_listener
All-remove P type_ callback [] h = tt
All-remove P type_ callback (l ∷ ls) h =
    if_keeps (λ (r : Option ℕ × List Listener). All P r.1) (is_for type_ callback l) _ _ h.1
      (h.0, All-remove P type_ callback ls h.1)

Unique-remove :
    (type_ : String) (callback : ℕ) (ls : List Listener)
    → Unique ls
    → Unique (remove_listener type_ callback ls).1
unfolding remove_listener
Unique-remove type_ callback [] u = tt
Unique-remove type_ callback (l ∷ ls) u =
    if_keeps (λ (r : Option ℕ × List Listener). Unique r.1) (is_for type_ callback l) _ _ u.1
      (All-remove (λ k. k.id ≢ l.id) type_ callback ls u.0, Unique-remove type_ callback ls u.1)

is_for-callback :
    (type_ : String) (callback : ℕ) (l : Listener)
    → is_for type_ callback l ≡ true
    → has_callback l ≡ true
is_for-callback type_ callback l h = ground arith

-- The handler's place is never removed.
places-remove :
    (type_ : String) (callback : ℕ) (ls : List Listener)
    → places (remove_listener type_ callback ls).1 ≡ places ls
unfolding remove_listener
places-remove type_ callback [] = refl
places-remove type_ callback (l ∷ ls) = elim (Bool-cases (is_for type_ callback l)) [
  | inl found ↦ rw (found, is_for-callback type_ callback l found) refl
  | inr other ↦ rw other (ground (arith, places-remove type_ callback ls))
]

-- What script does with a target; an event is dispatched by its type.
pub data Op : Type 0 where
  set_handler : Option ℕ → Op
  add : String → ℕ → Bool → Op
  remove : String → ℕ → Op
  snapshot : String → Op

abbrev pub step : Op → Target → Target
step (set_handler new) t = (device_on_uncaptured_error_set new t.js t.calls).1
step (add type_ callback once) t =
    (event_target_add_event_listener type_ callback once t.js t.calls).1
step (remove type_ callback) t = event_target_remove_event_listener type_ callback t.js t.calls
step (snapshot type_) t = (snapshot_listeners type_ t.js t.calls).2

abbrev pub run : List Op → Target → Target
run [] t = t
run (op ∷ ops) t = run ops (step op t)

-- What an operation of the event state keeps, whether there is one or not.
pub set_handler-Inv :
    (new : Option ℕ) (js : Option DeviceEventJs) (calls : List Call)
    → Inv js
    → Inv (device_on_uncaptured_error_set new js calls).1.js
unfolding device_on_uncaptured_error_set
set_handler-Inv new none calls v = tt
set_handler-Inv new (some js) calls v = replace_handler-Inv new js.handler js refl v

pub add-Inv :
    (type_ : String) (callback : ℕ) (once : Bool) (js : Option DeviceEventJs) (calls : List Call)
    → Inv js
    → Inv (event_target_add_event_listener type_ callback once js calls).1.js
unfolding event_target_add_event_listener
add-Inv type_ callback once none calls v = tt
add-Inv type_ callback once (some js) calls v = add_listener-Inv type_ callback once js calls v

pub remove-Inv :
    (type_ : String) (callback : ℕ) (js : Option DeviceEventJs) (calls : List Call)
    → Inv js
    → Inv (event_target_remove_event_listener type_ callback js calls).js
unfolding event_target_remove_event_listener
remove-Inv type_ callback none calls v = tt
remove-Inv type_ callback (some js) calls v = (
  All-remove _ type_ callback js.listeners v.0,
  Unique-remove type_ callback js.listeners v.1,
  places-remove type_ callback js.listeners ∙ v.2,
  All-remove _ type_ callback js.listeners v.3,
)
