-- ===== src/Device/References.antt =====
-- core/src/lib.rs: the native references that `createBuffer` takes and gives back.
use webgpu_native_js.Prelude.{
  ℕ, ◌+◌, ◌-◌, ◌%◌, ◌^◌, ◌≡◌, refl, subst, Bool, false, not, ◌&&◌, Option, none, some, List, [],
  ◌∷◌, arith, ltb, ◌==◌, if◌then◌else◌, if_keeps, if_cases,
}
use webgpu_native_js.Result.{Result, ok, err}
use webgpu_native_js.World.{World, Call, emit, is_null}
use webgpu_native_js.Device.{
  BufferDescriptor, DevicePayload, reserve_id, register, new_buffer, wrap_buffer, with_id,
  device_create_buffer,
}

-- How often a reference to `h` was taken on a device, or given back on a device or a buffer
abbrev pub taken : ℕ → List Call → ℕ
taken h [] = 0
taken h (c ∷ cs) =
    (elim c [ Call.device_add_ref d ↦ (if d == h then 1 else 0) | _ ↦ 0 ]) + taken h cs

abbrev pub given_back : ℕ → List Call → ℕ
given_back h [] = 0
given_back h (c ∷ cs) =
    (elim c [ Call.device_release d ↦ (if d == h then 1 else 0) | _ ↦ 0 ]) + given_back h cs

abbrev pub freed : ℕ → List Call → ℕ
freed h [] = 0
freed h (c ∷ cs) =
    (elim c [ Call.buffer_release b ↦ (if b == h then 1 else 0) | _ ↦ 0 ]) + freed h cs

abbrev pub count_ok : {A : Type 0} → Result A → ℕ
count_ok (ok value) = 1
count_ok (err error) = 0

-- How often webgpu.h was asked for a buffer
abbrev pub asked : List Call → ℕ
asked [] = 0
asked (c ∷ cs) = (elim c [ Call.create_buffer d u s m ↦ 1 | _ ↦ 0 ]) + asked cs

-- How often webgpu.h handed out `buffer`, which is its answer
abbrev pub handed : ℕ → List Call → ℕ
handed buffer calls = if is_null buffer then 0 else asked calls

-- Each reference that was taken on the device, and each buffer that was handed out, is given back or
-- belongs to a wrapper.
abbrev pub Balanced : ℕ → ℕ → World → Result ℕ × DevicePayload × World → Type 0
Balanced device buffer w r =
    (taken device r.2.calls + given_back device w.calls
      ≡ given_back device r.2.calls + taken device w.calls + count_ok r.0)
    × (freed buffer r.2.calls + count_ok r.0 + handed buffer w.calls
        ≡ freed buffer w.calls + handed buffer r.2.calls)

wrap_buffer-Balanced :
    (created : Result ℕ) (device buffer id : ℕ) (d : DevicePayload) (w : World) (m : Bool) (u s : ℕ)
    → d.device ≡ device
    → is_null buffer ≡ false
    → Balanced device buffer w (
        wrap_buffer created buffer id d
          (emit (Call.device_add_ref device) (emit (Call.create_buffer device u s m) w)))
wrap_buffer-Balanced (ok value) device buffer id d w m u s same h = ground (arith, h)
wrap_buffer-Balanced (err error) device buffer id d w m u s same h = ground (arith, h, same)

with_id-Balanced :
    (descriptor : BufferDescriptor) (buffer state : ℕ) (created : Result ℕ) (o : Option ℕ)
    (d : DevicePayload) (w : World) (m : Bool) (u s : ℕ)
    → is_null buffer ≡ false
    → Balanced d.device buffer w
        (with_id descriptor buffer state created o d (emit (Call.create_buffer d.device u s m) w))
unfolding register
with_id-Balanced descriptor buffer state created none d w m u s h = ground (arith, h)
with_id-Balanced descriptor buffer state created (some id) d w m u s h =
    wrap_buffer-Balanced created d.device buffer id
      (register id (new_buffer descriptor buffer state id d) d) w m u s refl h

reserve_id-device : (d : DevicePayload) → (reserve_id d).1.device ≡ d.device
unfolding reserve_id
reserve_id-device d = ground arith

-- `createBuffer` takes one reference on its device and hands one native buffer to the wrapper if it
-- succeeds, and on every error gives back what it took and what webgpu.h handed out: the device's
-- references balance, and a buffer that no wrapper got is released exactly once.
pub create_buffer_balances :
    (descriptor : BufferDescriptor) (buffer state : ℕ) (created : Result ℕ) (d : DevicePayload)
    (w : World)
    → Balanced d.device buffer w (device_create_buffer descriptor buffer state created d w)
unfolding device_create_buffer
create_buffer_balances descriptor buffer state created d w =
    let P = λ (r : Result ℕ × DevicePayload × World). Balanced d.device buffer w r in
    let mapped = descriptor.mapped_at_creation in
    let reserved = reserve_id d in
    if_keeps P (mapped && not (descriptor.size % 4 == 0)) _ _ (omega arith, omega arith)
      (if_keeps P (mapped && ltb (2 ^ 32 - 1) descriptor.size) _ _ (omega arith, omega arith)
        (if_cases P (is_null buffer) _ _ (λ null. ground (arith, null))
          (λ handed_out.
            subst
              (λ device. Balanced device buffer w (
                with_id descriptor buffer state created reserved.0 reserved.1
                  (emit (Call.create_buffer device descriptor.usage descriptor.size mapped) w)))
              (reserve_id-device d)
              (with_id-Balanced descriptor buffer state created reserved.0 reserved.1 w mapped
                descriptor.usage descriptor.size handed_out))))
