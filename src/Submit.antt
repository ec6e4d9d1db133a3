-- ===== src/Submit.antt =====
-- core/src/lib.rs: `queue_submit`, over the command buffers of Encoder. What
-- `convert_command_buffer_sequence` finds is the list of the states' numbers, or its error; the
-- queue's own handle is left out.
pub mod Once
use webgpu_native_js.Prelude.{
  ℕ, String, Bool, true, false, ◌&&◌, ◌||◌, Option, none, some, List, [], ◌∷◌, ◌==◌,
}
use webgpu_native_js.Result.{Result, ok, err}
use webgpu_native_js.World.{Call, update, emit}
use webgpu_native_js.ErrorScopes.{generate_validation_error}
use webgpu_native_js.Encoder.{CommandBufferState, Store}

abbrev pub has : ℕ → List ℕ → Bool
has b [] = false
has b (c ∷ cs) = (c == b) || has b cs

abbrev pub Fault : Type 0
Fault = Option (ℕ × String)

-- `if condition && invalid_sink.is_none() { invalid_sink = … }`
abbrev pub note : Bool → ℕ → String → Fault → Fault
note true sink message none = some (sink, message)
note true sink message (some first) = some first
note false sink message fault = fault

-- The body of the loop for one command buffer
abbrev pub note_state : Bool → CommandBufferState → Fault → Fault
note_state duplicate state fault =
    note state.invalid state.error_sink "GPUCommandBuffer is invalid" (
      note state.consumed state.error_sink "GPUCommandBuffer is consumed"
        (note duplicate state.error_sink "GPUCommandBuffer occurs more than once in submit" fault))

-- The loop: what is wrong first, and the handles
unfoldable pub inspect : (ℕ → CommandBufferState) → List ℕ → Fault → List ℕ → Fault × List ℕ
inspect B seen fault [] = (fault, [])
inspect B seen fault (b ∷ bs) =
    let rest = inspect B (b ∷ seen) (note_state (has b seen) (B b) fault) bs in
    (rest.0, (B b).command_buffer ∷ rest.1)

unfoldable pub consume_all : List ℕ → (ℕ → CommandBufferState) → ℕ → CommandBufferState
consume_all [] B = B
consume_all (b ∷ bs) B = consume_all bs (update B b (record (B b) { consumed = true }))

abbrev pub conclude : Fault → List ℕ → Store → Store
conclude (some fault) handles s = record s {
  world = generate_validation_error fault.0 fault.1 s.world;
}
conclude none handles s = record s { world = emit (Call.queue_submit handles) s.world }

unfoldable pub submit : List ℕ → Store → Store
unfolding inspect consume_all
submit ids s =
    let r = inspect s.command_buffers [] none ids in
    conclude r.0 r.1 (record s { command_buffers = consume_all ids s.command_buffers })

-- GPUQueue.submit
unfoldable pub queue_submit : Result (List ℕ) → Store → Result (Unit {0}) × Store
unfolding submit
queue_submit (err error) s = (err error, s)
queue_submit (ok ids) s = (ok tt, submit ids s)

unfoldable pub submit_all : List (List ℕ) → Store → Store
submit_all [] s = s
submit_all (ids ∷ more) s = submit_all more (submit ids s)
