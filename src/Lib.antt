-- ===== src/Lib.antt =====
-- A model of the core of webgpu-native-js (core/src), the engine-neutral layer that gives
-- JavaScript the WebGPU API on top of a native webgpu.h, and of the part of its binding generator
-- (codegen/src) that chooses the functions of webgpu.h which the core calls.
--
-- The parts, their files, and the code of core/src/lib.rs that they follow, if no other is named:
-- - World: what the parts share. The event state of each device (`DeviceEventState`), the two
--   queues of the environment (`SettlementQueue`, `ReleaseQueue`) as lists, and the calls that left
--   the core, newest first. Handles, promises and engine values are numbers; the null handle is 0.
-- - Result, Prelude: errors that reach script, Boolean tests, lists on native numbers.
-- - Number: `enforce_u64`, `enforce_u32`, `enforce_i32`, `clamp_u16` and
--   `enforce_required_limit_value`, over an exact model of `f64` (in units of 2 ^ -1074).
-- - Source (Offsets, WgslLines, Lines): `clamp_utf8_byte_offset`, `utf16_message_span`, `wgsl_line_range` and
--   `utf16_line_position`. A panic of a slice is `none`. The fuel of the loop of
--   `utf16_line_position` is one more than the position it starts at; `none` would also be its end.
-- - ErrorScopes (Stack, Loss): `DeviceEventState`'s synthetic scopes, `generate_validation_error`,
--   `device_push_error_scope`, `device_pop_error_scope`, `device_lost_callback`.
-- - Buffer (Ranges, Detach, Invariant, Mapping, Cancel): `BufferState` with `mapAsync`, its
--   callback, `getMappedRange`, `unmap`, `destroy` and `mapState`. Errors go to ErrorScopes.
-- - Encoder (Passes, Finish, Misuse, Nested): `CommandEncoderState`, the two pass states and
--   `CommandBufferState`, which share one another, in a store; `begin…Pass`, with the script that
--   runs while its descriptor is converted, `end`, `finish` and the guards of commands.
-- - Submit (Once): `queue_submit` over the command buffers of Encoder.
-- - Listeners (Order, Events, Balance): the `onuncapturederror` handler, `addEventListener`,
--   `removeEventListener` and the dispatch of an event, with script that runs in between as an
--   argument.
-- - Data (Bounds, Holds, Immediates): `convert_buffer_source`, and the bytes that
--   `queue_write_buffer` and `convert_immediates` take of it. `none` is a panic.
-- - CommonJs (Literals): `escape_js_string` of core/src/commonjs.rs.
-- - Registry (Laws, Lifetime): `DeviceEventRegistry`, `DeviceEventForwarder` and the pruning of a
--   `DeviceEventState` that is done with.
-- - Settlement: `SettlementRequest::prepare`, what a request becomes. Its children: Queue (the drain
--   and the teardown of `SettlementQueue`), Owed, Arms, Conserve and Drain (promises through a
--   drain), Steady (what preparing a request keeps), Retry, Notified and Losses (pipelines that wait
--   for a device loss), Starts (maps that wait in the queue), Teardown.
-- - Tick (Releases, Order, Promise): `ReleaseQueue::drain`, `pump`, `call_global_function`, `tick`,
--   `frame` and `promise_operation`. The loop of the drain has one more fuel than the queue is long.
-- - Device (Destroy, Buffers, Invariant, References): `DeviceBufferRegistry`, `device_create_buffer`,
--   `device_destroy`, `finalize_device` and `finalize_buffer`.
-- - Callbacks (Answers, Owners): what webgpu.h calls in `wgpuInstanceProcessEvents`, from
--   `request_adapter_callback` to `pop_error_scope_callback`.
-- - Arguments (Words, Windows, Offsets): `convert_sequence`, the optional numbers, and
--   `convert_dynamic_offsets`. An iteration is the list of what `next` answers; one that never ends
--   is left out.
-- - Limits (Names, Granted, Bounds): the limits of `adapter_request_device_inner`, from
--   `coerce_required_limits` to `convert_required_limits`. A `WGPULimits` with its compatibility
--   chain is a function from the names of its fields.
-- - Requests (Asked, Calm, Journey): `gpu_request_adapter`, `adapter_request_device_inner`, the two
--   pipelines that are created asynchronously, `shader_module_get_compilation_info` and
--   `queue_on_submitted_work_done`, run by `promise_operation` of Tick. Callbacks has the answers.
--   Journey puts these, the callbacks and the drains of Settlement together, as a history of
--   events.
-- - Codegen: `snake_case`, `pascal_case` and the C names of codegen/src/lib.rs; and of
--   codegen/src/dispatch.rs, in Dispatch (Registered) `dispatch_registry`, in Policy (Validated)
--   `validate_dispatch_policy`, and in Selection (Pushed, Needed) `selected_entries`.
-- - Tests: the theorems at concrete inputs.
--
-- Machine integers: `usize` and `u64` have 64 bits; map identifiers wrap around at 2 ^ 64, and
-- what needs them distinct says for how many maps. Listener identifiers do not wrap.
--
-- What the JavaScript engine and webgpu.h answer is an argument of the operation. Not modelled:
-- the conversion of descriptors, the operations that only call webgpu.h, creation and finalization
-- of the other wrappers, the rest of the CommonJS loader, the rest of the binding generator (its
-- parsers, the join of WebIDL with the C header, and the text that it prints), the engine adapters,
-- the mock engine, build scripts, tools and examples. A mutex is never poisoned.
pub mod Prelude
pub mod Result
pub mod Number
pub mod Source
pub mod World
pub mod ErrorScopes
pub mod Buffer
pub mod Encoder
pub mod Submit
pub mod Listeners
pub mod Data
pub mod CommonJs
pub mod Registry
pub mod Settlement
pub mod Tick
pub mod Device
pub mod Callbacks
pub mod Arguments
pub mod Codegen
pub mod Limits
pub mod Requests
pub mod Tests
