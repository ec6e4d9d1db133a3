-- ===== src/Tests/Devices.antt =====
-- A device with its buffers at concrete values.
use webgpu_native_js.Prelude.{ℕ, refl, true, false, none, some, List, [], ◌∷◌, arith}
use webgpu_native_js.Result.{ok, err, JsError}
use webgpu_native_js.World.{World}
use webgpu_native_js.ErrorScopes.{new}
use webgpu_native_js.Buffer.{BufferState, Detached, map_mode_write}
use webgpu_native_js.Buffer.Mapping.{Op}
use webgpu_native_js.Device.{BufferDescriptor, DevicePayload, device_create_buffer, device_destroy}
use webgpu_native_js.Device.Destroy.{IsDestroyed, device_destroy_lem}
use webgpu_native_js.Device.Invariant.{DeviceOp, device_run, IsConsistent, run-IsConsistent}
use webgpu_native_js.Device.References.{Balanced, create_buffer_balances}

abbrev quiet : World
quiet = record { events = λ d. new; registered = []; settlements = []; releases = []; calls = [] }

abbrev descriptor : BufferDescriptor
descriptor = record { size = 16; usage = 1; label = "b"; mapped_at_creation = true }

abbrev empty : DevicePayload
empty = record { device = 9; destroyed = false; events = 0; next_id = 1; buffers = [] }

-- A buffer that is mapped for writing, with one range
abbrev mapped_buffer : BufferState
mapped_buffer = record {
  state = 0;
  buffer = 5;
  parent_device = 9;
  registry_id = 1;
  size = 16;
  usage = 1;
  label = "b";
  destroyed = false;
  mapped = true;
  pending_map = none;
  canceling_map = none;
  next_map_id = 0;
  map_mode = map_mode_write;
  error_sink = 0;
  ranges =
      record { value = 70; offset = 0; size = 8; native_ptr = 1000; map_mode = map_mode_write }
      ∷ [];
}

abbrev populated : DevicePayload
populated = record {
  device = 9;
  destroyed = false;
  events = 0;
  next_id = 2;
  buffers = (1, mapped_buffer) ∷ [];
}

-- An engine that detaches every range
abbrev detaching : ℕ → Detached
detaching value = record { error = none; len = some 0; bytes = [] }

device_destroy_lem_example :
    IsDestroyed none populated quiet (device_destroy detaching populated quiet)
device_destroy_lem_example = device_destroy_lem detaching populated quiet refl

-- No wrapper can be made of the buffer.
create_buffer_balances_example :
    Balanced 9 5 quiet
      (device_create_buffer descriptor 5 0 (err (JsError.type_error "no")) empty quiet)
create_buffer_balances_example =
    create_buffer_balances descriptor 5 0 (err (JsError.type_error "no")) empty quiet

abbrev history : List DeviceOp
history =
    DeviceOp.create descriptor 5 0 (ok 80)
    ∷ DeviceOp.create descriptor 6 1 (err (JsError.type_error "no"))
    ∷ DeviceOp.use_buffer 1 (Op.get_mapped_range 0 (some 8) (λ o s. 1000) (ok 70))
    ∷ DeviceOp.destroy_device detaching
    ∷ DeviceOp.drop_buffer 1
    ∷ []

run-IsConsistent_example : IsConsistent (device_run history (empty, quiet)).0
run-IsConsistent_example = run-IsConsistent history (empty, quiet) (omega arith)
