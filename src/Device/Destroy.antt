-- ===== src/Device/Destroy.antt =====
-- core/src/lib.rs: what `destroy` of a device does to the device's buffers.
use webgpu_native_js.Prelude.{
  ℕ, ◌≡◌, refl, sym, ap, ◌∙◌, subst, some_injective, map, arith, Bool, true, false, Option, none,
  some, List, [], ◌∷◌, ◌++◌, if◌then◌else◌,
}
use webgpu_native_js.Result.{Result, ok, err, JsError}
use webgpu_native_js.World.{World, Call, DeviceEvents, ErrorScope, update}
use webgpu_native_js.ErrorScopes.{mark_lost}
use webgpu_native_js.Buffer.{
  MappedRange, BufferState, Detached, detach_range, detach_ranges, detach_all_ranges, first_error,
}
use webgpu_native_js.Buffer.Detach.{
  released, onto, onto-append, values, detach_error, first_detach_error, detach_all_ranges_lem,
}
use webgpu_native_js.Device.{
  DevicePayload, keep_error, detach_each, let_go_each, after_detach, device_destroy,
}

none≢some : {A : Type 0} {a : A} → none ≡ some a → ⊥
none≢some h = ground (arith, h)

-- The ranges of all buffers, in the order of their identifiers
abbrev pub all_ranges : List (ℕ × BufferState) → List MappedRange
all_ranges [] = []
all_ranges (p ∷ rest) = p.1.ranges ++ all_ranges rest

abbrev pub without_ranges : List (ℕ × BufferState) → List (ℕ × BufferState)
without_ranges [] = []
without_ranges (p ∷ rest) = (p.0, record p.1 { ranges = [] }) ∷ without_ranges rest

abbrev pub or_else : Option JsError → Option JsError → Option JsError
or_else none later = later
or_else (some error) later = some error

keep_error-first_error :
    (first e : Option JsError) → keep_error first (first_error e) ≡ or_else first e
keep_error-first_error none none = refl
keep_error-first_error (some f) none = refl
keep_error-first_error none (some e) = refl
keep_error-first_error (some f) (some e) = refl

or_else-none : (first : Option JsError) → first ≡ or_else first none
or_else-none none = refl
or_else-none (some e) = refl

or_else_assoc : (a b c : Option JsError) → or_else (or_else a b) c ≡ or_else a (or_else b c)
or_else_assoc none b c = refl
or_else_assoc (some a) b c = refl

elim-or_else :
    (o later : Option JsError) → (elim o [ some e ↦ some e | none ↦ later ]) ≡ or_else o later
elim-or_else none later = refl
elim-or_else (some e) later = refl

first_detach_error-append :
    (engine : ℕ → Detached) (q r : List MappedRange)
    → first_detach_error engine (q ++ r)
      ≡ or_else (first_detach_error engine q) (first_detach_error engine r)
first_detach_error-append engine [] r = refl
first_detach_error-append engine (x ∷ q) r =
    elim-or_else (detach_error engine x) (first_detach_error engine (q ++ r))
    ∙ ap (or_else (detach_error engine x)) (first_detach_error-append engine q r)
    ∙ sym (
        or_else_assoc (detach_error engine x) (first_detach_error engine q)
          (first_detach_error engine r))
    ∙ ap (λ e. or_else e (first_detach_error engine r))
        (sym (elim-or_else (detach_error engine x) (first_detach_error engine q)))

values-append : (q r : List MappedRange) → values (q ++ r) ≡ values q ++ values r
values-append [] r = refl
values-append (x ∷ q) r = ap (λ l. x.value ∷ l) (values-append q r)

-- The loop empties all ranges, keeps the first error, and gives each value back once.
detach_each_lem :
    (engine : ℕ → Detached) (l : List (ℕ × BufferState)) (first : Option JsError) (w : World)
    → let r = detach_each engine l first w in
      (r.0 ≡ or_else first (first_detach_error engine (all_ranges l)))
      × (r.1 ≡ without_ranges l)
      × (released r.2.calls ≡ onto (values (all_ranges l)) (released w.calls))
unfolding detach_each
detach_each_lem engine [] first w = (or_else-none first, refl, refl)
detach_each_lem engine (p ∷ l) first w =
    let one = detach_all_ranges_lem engine false p.1 w in
    let r = detach_all_ranges engine false p.1 w in
    let more = detach_each_lem engine l (keep_error first r.0) r.2 in
    let here = first_detach_error engine p.1.ranges in
    (
      more.0
          ∙ ap (λ e. or_else e (first_detach_error engine (all_ranges l)))
              (ap (keep_error first) one.0 ∙ keep_error-first_error first here)
          ∙ or_else_assoc first here (first_detach_error engine (all_ranges l))
          ∙ ap (or_else first) (sym (first_detach_error-append engine p.1.ranges (all_ranges l))),
      ap (λ b. (p.0, record p.1 { ranges = [] }) ∷ b) more.1,
      more.2
          ∙ ap (onto (values (all_ranges l))) one.2
          ∙ sym (onto-append (values p.1.ranges) (values (all_ranges l)) (released w.calls))
          ∙ ap (λ v. onto v (released w.calls)) (sym (values-append p.1.ranges (all_ranges l))),
    )

-- The devices that webgpu.h was asked to destroy
abbrev pub destroyed_natively : List Call → List ℕ
destroyed_natively [] = []
destroyed_natively (Call.device_destroy device ∷ cs) = device ∷ destroyed_natively cs
destroyed_natively (_ ∷ cs) = destroyed_natively cs

-- Detaching a range is not heard of by the devices, the queue or the native device.
pub record Quiet (w w' : World) : Type 0 where
  pub events : w'.events ≡ w.events
  pub settlements : w'.settlements ≡ w.settlements
  pub native : destroyed_natively w'.calls ≡ destroyed_natively w.calls

detach_range-Quiet :
    (engine : ℕ → Detached) (flush : Bool) (r : MappedRange) (e : Option JsError) (w : World)
    → Quiet w (detach_range engine flush r (e, w)).1
unfolding detach_range
detach_range-Quiet engine flush r e w = record {
  events = ground arith;
  settlements = ground arith;
  native = ground arith;
}

Quiet-trans : {u v w : World} → Quiet u v → Quiet v w → Quiet u w
Quiet-trans a b = record {
  events = b.events ∙ a.events;
  settlements = b.settlements ∙ a.settlements;
  native = b.native ∙ a.native;
}

detach_ranges-Quiet :
    (engine : ℕ → Detached) (flush : Bool) (rs : List MappedRange) (e : Option JsError) (w : World)
    → Quiet w (detach_ranges engine flush rs (e, w)).1
unfolding detach_ranges
detach_ranges-Quiet engine flush [] e w = record {
  events = refl;
  settlements = refl;
  native = refl;
}
detach_ranges-Quiet engine flush (r ∷ rs) e w =
    let (e', w') = detach_range engine flush r (e, w) in
    Quiet-trans (detach_range-Quiet engine flush r e w) (detach_ranges-Quiet engine flush rs e' w')

pub detach_each-Quiet :
    (engine : ℕ → Detached) (l : List (ℕ × BufferState)) (first : Option JsError) (w : World)
    → Quiet w (detach_each engine l first w).2
unfolding detach_each detach_all_ranges
detach_each-Quiet engine [] first w = record { events = refl; settlements = refl; native = refl }
detach_each-Quiet engine (p ∷ l) first w =
    let r = detach_all_ranges engine false p.1 w in
    Quiet-trans (detach_ranges-Quiet engine false p.1.ranges none w)
      (detach_each-Quiet engine l (keep_error first r.0) r.2)

-- A buffer that is unmapped, with no range, and with its pending map cancelled
abbrev pub idle : BufferState → BufferState
idle b = record b {
  ranges = [];
  mapped = false;
  map_mode = 0;
  canceling_map = b.pending_map;
  pending_map = none;
}

abbrev pub idle_each : List (ℕ × BufferState) → List (ℕ × BufferState)
idle_each [] = []
idle_each (p ∷ rest) = (p.0, idle p.1) ∷ idle_each rest

pub let_go_each-idle : (l : List (ℕ × BufferState)) → let_go_each (without_ranges l) ≡ idle_each l
let_go_each-idle [] = refl
let_go_each-idle (p ∷ l) = ap (λ rest. (p.0, idle p.1) ∷ rest) (let_go_each-idle l)

-- A device's event state once it is lost: no scope keeps an error.
abbrev pub lost : DeviceEvents → DeviceEvents
lost e = record e {
  lost = true;
  error_scopes = map (λ (s : ErrorScope). record s { error = none }) e.error_scopes;
}

-- What `destroy` answers, what it leaves of the device, of the event states, and whether webgpu.h
-- was asked to destroy the device, for the first error of its loop
pub record IsDestroyed (first : Option JsError) (d : DevicePayload) (w : World)
    (r : Result (Unit {0}) × DevicePayload × World) : Type 0 where
  pub failed :
      (e : JsError)
      → first ≡ some e
      → (r.0 ≡ err e)
        × (r.1 ≡ record d { buffers = without_ranges d.buffers })
        × (r.2.events ≡ w.events)
        × (destroyed_natively r.2.calls ≡ destroyed_natively w.calls)
  pub done :
      first ≡ none
      → (r.0 ≡ ok tt)
        × (r.1 ≡ record d { buffers = idle_each d.buffers; destroyed = true })
        × (r.2.events ≡ update w.events d.events (lost (w.events d.events)))
        × (destroyed_natively r.2.calls ≡ d.device ∷ destroyed_natively w.calls)
  pub ranges : released r.2.calls ≡ onto (values (all_ranges d.buffers)) (released w.calls)
  pub queue : r.2.settlements ≡ w.settlements

after_detach_lem :
    (d : DevicePayload) (e : Option JsError) (w w' : World)
    → Quiet w w'
    → released w'.calls ≡ onto (values (all_ranges d.buffers)) (released w.calls)
    → IsDestroyed e d w (after_detach d e (without_ranges d.buffers) w')
unfolding mark_lost
after_detach_lem d none w w' quiet given = record {
  failed = λ e h. absurd (none≢some h);
  done = λ _. (
    refl,
    ap (λ l. record d { buffers = l; destroyed = true }) (let_go_each-idle d.buffers),
    ap (λ E. update E d.events (lost (E d.events))) quiet.events,
    ap (λ l. d.device ∷ l) quiet.native,
  );
  ranges = given;
  queue = quiet.settlements;
}
after_detach_lem d (some error) w w' quiet given = record {
  failed = λ e h. (ap err (some_injective h), refl, quiet.events, quiet.native);
  done = λ h. absurd (none≢some (sym h));
  ranges = given;
  queue = quiet.settlements;
}

-- A device that is destroyed is not destroyed again.
pub device_destroy-again :
    (engine : ℕ → Detached) (d : DevicePayload) (w : World)
    → d.destroyed ≡ true
    → device_destroy engine d w ≡ (ok tt, d, w)
unfolding device_destroy
device_destroy-again engine d w gone =
    let r = detach_each engine d.buffers none w in
    ap (λ b. if b then (ok tt, d, w) else after_detach d r.0 r.1 r.2) gone

-- `destroy` of a device that is not destroyed gives back each range of each of its buffers exactly
-- once, in the order of the buffers' identifiers, and empties them, and queues nothing. If one does
-- not detach, it fails with the first error and changes nothing else of the device, its buffers and
-- the event states, and the native device is left. Otherwise each buffer is unmapped and its pending
-- map is cancelled, the device is destroyed and its event state lost, with no error left in a scope,
-- and webgpu.h is asked once more, to destroy this device.
pub device_destroy_lem :
    (engine : ℕ → Detached) (d : DevicePayload) (w : World)
    → d.destroyed ≡ false
    → IsDestroyed (first_detach_error engine (all_ranges d.buffers)) d w (device_destroy engine d w)
unfolding device_destroy
device_destroy_lem engine d w alive =
    let r = detach_each engine d.buffers none w in
    let each = detach_each_lem engine d.buffers none w in
    let e = first_detach_error engine (all_ranges d.buffers) in
    let total : device_destroy engine d w ≡ after_detach d e (without_ranges d.buffers) r.2 =
      ap (λ b. if b then (ok tt, d, w) else after_detach d r.0 r.1 r.2) alive
      ∙ ap (λ e. after_detach d e r.1 r.2) each.0
      ∙ ap (λ l. after_detach d e l r.2) each.1 in
    subst (IsDestroyed e d w) (sym total)
      (after_detach_lem d e w r.2 (detach_each-Quiet engine d.buffers none w) each.2)
