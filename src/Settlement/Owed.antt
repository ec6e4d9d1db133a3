-- ===== src/Settlement/Owed.antt =====
-- core/src/lib.rs: how often a promise is owed, settled, or handed to a native map.
use webgpu_native_js.Prelude.{
  ℕ, ◌+◌, ◌≡◌, Option, none, some, List, [], ◌∷◌, ◌==◌, if◌then◌else◌, if_keeps,
}
use webgpu_native_js.Result.{Result, ok, err}
use webgpu_native_js.World.{World, DeviceEvents, DeviceEventJs, Settlement, Outcome, Call, update}
use webgpu_native_js.Settlement.{Engine, Prepared, deferred, retry, uncaptured, nothing}

abbrev pub is_it : ℕ → ℕ → ℕ
is_it v d = if d == v then 1 else 0

abbrev pub is_it? : ℕ → Option ℕ → ℕ
is_it? v none = 0
is_it? v (some d) = is_it v d

-- How often a request owes the promise `v`
abbrev pub owed : ℕ → Settlement → ℕ
owed v (Settlement.adapter d native) = is_it v d
owed v (Settlement.adapter_unavailable d) = is_it v d
owed v (Settlement.device d native state label) = is_it v d
owed v (Settlement.compute_pipeline d p s m state l mo la label) = is_it v d
owed v (Settlement.render_pipeline d p s m state l ve fr la label) = is_it v d
owed v (Settlement.compilation_info d messages) = is_it v d
owed v (Settlement.success d) = is_it v d
owed v (Settlement.error d name message) = is_it v d
owed v (Settlement.start_map buffer mode offset size request) = is_it? v request.deferred
owed v (Settlement.pop_error_scope d s t m e state) = is_it v d
owed v (Settlement.uncaptured_error state t m) = 0
owed v (Settlement.device_lost state r m) = 0

abbrev pub owed_all : ℕ → List Settlement → ℕ
owed_all v [] = 0
owed_all v (s ∷ ss) = owed v s + owed_all v ss

abbrev pub settled_in : ℕ → List (ℕ × Outcome) → ℕ
settled_in v [] = 0
settled_in v (r ∷ rs) = is_it v r.0 + settled_in v rs

-- How often a native map was started that answers `v`
abbrev pub started : ℕ → List Call → ℕ
started v [] = 0
started v (c ∷ cs) =
    (elim c [ Call.buffer_map_async b m o s request ↦ is_it? v request.deferred | _ ↦ 0 ])
    + started v cs

abbrev pub kept : ℕ → Prepared → ℕ
kept v (deferred d outcome) = is_it v d
kept v (retry request) = owed v request
kept v (uncaptured state t m) = 0
kept v nothing = 0

abbrev pub lost_deferred_of : Option DeviceEventJs → Option ℕ
lost_deferred_of none = none
lost_deferred_of (some js) = js.lost_deferred

-- `v` is not the promise of a device's loss, and never becomes one.
abbrev pub Apart : ℕ → (ℕ → DeviceEvents) → Type 0
Apart v E = (d : ℕ) → is_it? v (lost_deferred_of (E d).js) ≡ 0

abbrev pub promised : Result (ℕ × ℕ) → Option ℕ
promised (ok p) = some p.1
promised (err e) = none

abbrev pub NotPromised : ℕ → Engine → Type 0
NotPromised v engine = (d : ℕ) → is_it? v (promised (engine.promise d)) ≡ 0

-- What one request becomes, and that `v` stays apart
abbrev pub Balanced : ℕ → ℕ → ℕ → Prepared × World → Type 0
Balanced v owes before p = (owes + before ≡ kept v p.0 + started v p.1.calls) × Apart v p.1.events

module _ (v : ℕ) where
  -- The events change in one place, to a state without `v`.
  pub Apart-update :
      (E : ℕ → DeviceEvents) (state : ℕ) (e : DeviceEvents)
      → Apart v E
      → is_it? v (lost_deferred_of e.js) ≡ 0
      → Apart v (update E state e)
  Apart-update E state e a h d =
      if_keeps (λ (s : DeviceEvents). is_it? v (lost_deferred_of s.js) ≡ 0) (state == d) _ _ h (a d)
