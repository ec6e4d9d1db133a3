-- ===== src/Device/Invariant.antt =====
-- core/src/lib.rs: what holds of a device's registry of buffers between two calls.
use webgpu_native_js.Prelude.{
  ℕ, ◌+◌, ◌-◌, ◌%◌, ◌^◌, refl, sym, subst, inl, inr, Bool, not, ◌&&◌, Option, none, some, List, [],
  ◌∷◌, arith, ltb, ◌==◌, if◌then◌else◌, Bool-cases, if_keeps,
}
use mathlib.Core.Bool.{false≢true}
use webgpu_native_js.Result.{Result, ok, err, JsError}
use webgpu_native_js.World.{World, Call, emit, is_null}
use webgpu_native_js.Buffer.{BufferState, Detached}
use webgpu_native_js.Buffer.Mapping.{Op, step}
use webgpu_native_js.Buffer.Detach.{first_detach_error}
use webgpu_native_js.Device.{
  BufferDescriptor, DevicePayload, reserve_id, register, unregister, new_buffer, wrap_buffer,
  with_id, device_create_buffer, device_destroy, detach_each, after_detach,
}
use webgpu_native_js.Device.Destroy.{IsDestroyed, all_ranges, let_go_each-idle, device_destroy_lem}
use webgpu_native_js.Device.Buffers.{
  BelongsTo, Registered, insert-Registered, remove-Registered, without_ranges-Registered,
  let_go_each-Registered, step-BelongsTo,
}

-- The invariant of a device
abbrev pub IsConsistent : DevicePayload → Type 0
IsConsistent d = Registered d.device d.next_id 1 d.buffers

-- What happens to a device's buffers: one is created, one of them is used, one is dropped, and the
-- device is destroyed.
pub data DeviceOp : Type 0 where
  create : BufferDescriptor → ℕ → ℕ → Result ℕ → DeviceOp
  use_buffer : ℕ → Op → DeviceOp
  drop_buffer : ℕ → DeviceOp
  destroy_device : (ℕ → Detached) → DeviceOp

abbrev pub use_one : ℕ → Op → List (ℕ × BufferState) → World → List (ℕ × BufferState) × World
use_one id op [] w = ([], w)
use_one id op (p ∷ rest) w =
    let used = step op (p.1, w) in
    let more = use_one id op rest w in
    if p.0 == id then ((p.0, used.0) ∷ rest, used.1) else (p ∷ more.0, more.1)

unfoldable pub device_step : DeviceOp → DevicePayload × World → DevicePayload × World
unfolding device_create_buffer unregister device_destroy
device_step (create descriptor buffer state created) (d, w) =
    let r = device_create_buffer descriptor buffer state created d w in (r.1, r.2)
device_step (use_buffer id op) (d, w) =
    let r = use_one id op d.buffers w in (record d { buffers = r.0 }, r.1)
device_step (drop_buffer id) (d, w) = (unregister id d, w)
device_step (destroy_device engine) (d, w) = let r = device_destroy engine d w in (r.1, r.2)

unfoldable pub device_run : List DeviceOp → DevicePayload × World → DevicePayload × World
device_run [] s = s
device_run (op ∷ ops) s = device_run ops (device_step op s)

use_one-Registered :
    (device next low id : ℕ) (op : Op) (l : List (ℕ × BufferState)) (w : World)
    → Registered device next low l
    → Registered device next low (use_one id op l w).0
use_one-Registered device next low id op [] w h = h
use_one-Registered device next low id op (p ∷ l) w h =
    if_keeps (λ (r : List (ℕ × BufferState) × World). Registered device next low r.0) (p.0 == id) _
      _ (h.0, step-BelongsTo op device p.0 p.1 w h.1, h.2)
      (h.0, h.1, use_one-Registered device next (p.0 + 1) id op l w h.2)

new_buffer-BelongsTo :
    (descriptor : BufferDescriptor) (buffer state id : ℕ) (d : DevicePayload)
    → BelongsTo d.device id (new_buffer descriptor buffer state id d)
new_buffer-BelongsTo descriptor buffer state id d = record {
  inv = record {
    exclusive = λ e. refl;
    destroyed_idle = λ e. absurd (false≢true e);
    unmapped_empty = λ e. ground (arith, e);
    current = inl refl;
    disjoint = tt;
    modes = tt;
  };
  registry_id = refl;
  parent_device = refl;
}

wrap_buffer-IsConsistent :
    (created : Result ℕ) (buffer id : ℕ) (d : DevicePayload) (w : World)
    → IsConsistent d
    → IsConsistent (wrap_buffer created buffer id d w).1
unfolding unregister
wrap_buffer-IsConsistent (ok value) buffer id d w h = h
wrap_buffer-IsConsistent (err error) buffer id d w h =
    remove-Registered d.device d.next_id id 1 d.buffers h

create-IsConsistent :
    (descriptor : BufferDescriptor) (buffer state : ℕ) (created : Result ℕ) (d : DevicePayload)
    (w : World)
    → IsConsistent d
    → IsConsistent (device_create_buffer descriptor buffer state created d w).1
unfolding device_create_buffer reserve_id register
create-IsConsistent descriptor buffer state created d w h =
    let P = λ (r : Result ℕ × DevicePayload × World). IsConsistent r.1 in
    let mapped = descriptor.mapped_at_creation in
    let asked : World =
      emit (Call.create_buffer d.device descriptor.usage descriptor.size mapped) w in
    let bumped : DevicePayload = record d { next_id = d.next_id + 1 } in
    if_keeps P (mapped && not (descriptor.size % 4 == 0)) _ _ h (
      if_keeps P (mapped && ltb (2 ^ 32 - 1) descriptor.size) _ _ h (
        if_keeps P (is_null buffer) _ _ h (
          if_keeps
            (λ (r : Option ℕ × DevicePayload).
              IsConsistent (with_id descriptor buffer state created r.0 r.1 asked).1)
            (ltb (d.next_id + 1) (2 ^ 64)) _ _
            (wrap_buffer-IsConsistent created buffer d.next_id _ _ (
              insert-Registered d.device d.next_id
                (new_buffer descriptor buffer state d.next_id bumped) 1 d.buffers
                (new_buffer-BelongsTo descriptor buffer state d.next_id bumped) h))
            h)))

destroyed-IsConsistent :
    (e : Option JsError) (d : DevicePayload) (w : World)
    (r : Result (Unit {0}) × DevicePayload × World)
    → IsDestroyed e d w r
    → IsConsistent d
    → IsConsistent r.1
destroyed-IsConsistent none d w r v h = subst IsConsistent (sym (v.done refl).1) (
    subst (Registered d.device d.next_id 1) (let_go_each-idle d.buffers)
      (let_go_each-Registered d.device d.next_id 1 d.buffers h))
destroyed-IsConsistent (some error) d w r v h =
    subst IsConsistent (sym (v.failed error refl).1)
      (without_ranges-Registered d.device d.next_id 1 d.buffers h)

destroy-IsConsistent :
    (engine : ℕ → Detached) (d : DevicePayload) (w : World)
    → IsConsistent d
    → IsConsistent (device_destroy engine d w).1
unfolding device_destroy
destroy-IsConsistent engine d w h =
    let r = detach_each engine d.buffers none w in
    let answer : Bool → Result (Unit {0}) × DevicePayload × World =
      λ destroyed. if destroyed then (ok tt, d, w) else after_detach d r.0 r.1 r.2 in
    elim (Bool-cases d.destroyed) [
      | inl gone ↦ subst (λ destroyed. IsConsistent (answer destroyed).1) (sym gone) h
      | inr alive ↦
          destroyed-IsConsistent (first_detach_error engine (all_ranges d.buffers)) d w _
            (device_destroy_lem engine d w alive) h
    ]

step-IsConsistent :
    (op : DeviceOp) (s : DevicePayload × World)
    → IsConsistent s.0
    → IsConsistent (device_step op s).0
unfolding device_step
step-IsConsistent (create descriptor buffer state created) (d, w) h =
    create-IsConsistent descriptor buffer state created d w h
step-IsConsistent (use_buffer id op) (d, w) h =
    use_one-Registered d.device d.next_id 1 id op d.buffers w h
step-IsConsistent (drop_buffer id) (d, w) h = remove-Registered d.device d.next_id id 1 d.buffers h
step-IsConsistent (destroy_device engine) (d, w) h = destroy-IsConsistent engine d w h

-- Through any history of a device, creations that fail included, its registry keeps the identifiers
-- of its buffers ascending and below the next one, so that no identifier is given twice; each buffer
-- is registered under its own identifier, belongs to the device, and is well-formed.
pub run-IsConsistent :
    (ops : List DeviceOp) (s : DevicePayload × World)
    → IsConsistent s.0
    → IsConsistent (device_run ops s).0
unfolding device_run
run-IsConsistent [] s h = h
run-IsConsistent (op ∷ ops) s h = run-IsConsistent ops (device_step op s) (step-IsConsistent op s h)
