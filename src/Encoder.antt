-- ===== src/Encoder.antt =====
-- core/src/lib.rs, the encoders: `CommandEncoderState`, `ComputePassState`, `RenderPassState` and
-- `CommandBufferState`, with `begin…Pass`, `end`, `finish` and the guards of the recorded commands.
-- Passes share their encoder's state, so that the states live in a store and name one another by
-- number. Compute and render passes run the same code with other messages, and are one definition
-- here. What the engine and webgpu.h answer is an argument, and so is what script does that the
-- engine runs while a pass's descriptor is converted. Labels are left out.
pub mod Passes
pub mod Finish
pub mod Misuse
pub mod Nested
use webgpu_native_js.Prelude.{
  ℕ, suc, String, Bool, true, false, not, ◌||◌, Option, none, some, if◌then◌else◌, List, [], ◌∷◌,
}
use webgpu_native_js.Result.{Result, ok, err, JsError}
use webgpu_native_js.World.{World, Call, emit, is_null, update}
use webgpu_native_js.ErrorScopes.{generate_validation_error}

pub record CommandEncoderState : Type 0 where
  pub encoder : ℕ
  pub ended : Bool
  pub locked : Bool
  pub pending_validation_error : Option String
  pub error_sink : ℕ

pub data PassKind : Type 0 where
  compute render : PassKind

-- ComputePassState and RenderPassState
pub record PassState : Type 0 where
  pub kind : PassKind
  pub pass : ℕ
  pub ended : Bool
  pub parent : ℕ
  pub error_sink : ℕ

pub record CommandBufferState : Type 0 where
  pub command_buffer : ℕ
  pub consumed : Bool
  pub invalid : Bool
  pub error_sink : ℕ

-- The shared states; the numbers from `pass_count` and `buffer_count` on are free.
pub record Store : Type 0 where
  pub encoders : ℕ → CommandEncoderState
  pub passes : ℕ → PassState
  pub pass_count : ℕ
  pub command_buffers : ℕ → CommandBufferState
  pub buffer_count : ℕ
  pub world : World

abbrev pub raise : ℕ → String → Store → Store
raise sink message s = record s { world = generate_validation_error sink message s.world }

abbrev pub set_encoder : ℕ → CommandEncoderState → Store → Store
set_encoder e state s = record s { encoders = update s.encoders e state }

abbrev pub call_out : Call → Store → Store
call_out c s = record s { world = emit c s.world }

-- Option::get_or_insert_with
abbrev pub get_or_insert : Option String → String → Option String
get_or_insert none message = some message
get_or_insert (some first) message = some first

abbrev pub locked_message : String
locked_message = "GPUCommandEncoder was used while locked by an active pass"

abbrev pub finished_message : String
finished_message = "GPUCommandEncoder is finished"

abbrev pub depth_slice_message : String
depth_slice_message =
    "GPURenderPassColorAttachment.depthSlice must be provided only for 3d views and be less than the mip depth"

-- The pass number, and the store with a new pass of encoder `e`
abbrev pub add_pass : PassKind → ℕ → ℕ → Store → Store
add_pass kind pass e s = record s {
  passes = update s.passes s.pass_count (record {
    kind = kind;
    pass = pass;
    ended = false;
    parent = e;
    error_sink = (s.encoders e).error_sink;
  });
  pass_count = suc s.pass_count;
}

-- `register_class` and then `new_instance` of a wrapper
abbrev pub wrapped : Option JsError → Option JsError → Option JsError
wrapped (some e) created = some e
wrapped none created = created

abbrev pub null_pass_message : PassKind → String
null_pass_message compute = "wgpuCommandEncoderBeginComputePass returned null"
null_pass_message render = "wgpuCommandEncoderBeginRenderPass returned null"

-- The two ways out of it: an error, or the number of the new state
abbrev pub either_way : Option JsError → Store → ℕ × Store → Result ℕ × Store
either_way (some error) failed made = (err error, failed)
either_way none failed made = (ok made.0, made.1)

-- The answers for `begin…Pass`: the conversion of the descriptor (and whether it found a wrong
-- depth slice, which only a render pass can), the native pass, and the two steps of the wrapper.
pub record BeginAnswers : Type 0 where
  pub descriptor : Result Bool
  pub pass : ℕ
  pub registered : Option JsError
  pub created : Option JsError

-- A pass that records nothing, for a finished or locked encoder
abbrev pub invalid_pass : PassKind → BeginAnswers → ℕ → Store → Result ℕ × Store
invalid_pass kind a e s =
    either_way (wrapped a.registered a.created) s (s.pass_count, add_pass kind 0 e s)

-- What `begin…Pass` does on an encoder that is open, once the descriptor is converted
unfoldable pub open_pass : PassKind → BeginAnswers → Bool → ℕ → Store → Result ℕ × Store
open_pass kind a depth_error e s =
    let before = s.encoders e in
    let noted =
      if depth_error
      then get_or_insert before.pending_validation_error depth_slice_message
      else before.pending_validation_error in
    let s₁ = set_encoder e (record before { pending_validation_error = noted; locked = true }) s in
    if is_null a.pass
    then (
      err (JsError.operation_error (null_pass_message kind)),
      set_encoder e (record before { pending_validation_error = noted; locked = false }) s,
    )
    else either_way (wrapped a.registered a.created) (call_out (Call.pass_release a.pass) s₁)
        (s.pass_count, add_pass kind a.pass e s₁)

-- The conversion of the descriptor: what is read of it, and the store that script left meanwhile
abbrev pub described : Result Bool → Store → (Bool → Store → Result ℕ × Store) → Result ℕ × Store
described (err error) s next = (err error, s)
described (ok depth_error) s next = next depth_error s

-- GPUCommandEncoder.beginComputePass and beginRenderPass. Getters of the descriptor are script:
-- `script` is what they do to the store, between the test of the lock and the taking of it.
unfoldable pub begin_pass : PassKind → BeginAnswers → (Store → Store) → ℕ → Store → Result ℕ × Store
unfolding open_pass
begin_pass kind a script e s =
    let state = s.encoders e in
    if state.ended
    then invalid_pass kind a e (raise state.error_sink finished_message s)
    else if state.locked
    then invalid_pass kind a e (
        set_encoder e
          (record state {
            pending_validation_error = get_or_insert state.pending_validation_error locked_message;
          })
          s)
    else described a.descriptor (script s) (λ depth_error s'. open_pass kind a depth_error e s')

-- live_command_encoder
unfoldable pub live_command_encoder : ℕ → Store → Option ℕ × Store
live_command_encoder e s =
    let state = s.encoders e in
    if state.ended
    then (none, raise state.error_sink finished_message s)
    else if state.locked
    then (
      none,
      set_encoder e
          (record state {
            pending_validation_error = get_or_insert state.pending_validation_error locked_message;
          })
          s,
    )
    else (some state.encoder, s)

abbrev pub ended_message : PassKind → String
ended_message compute = "GPUComputePassEncoder is ended"
ended_message render = "GPURenderPassEncoder is ended"

abbrev pub invalid_message : PassKind → String
invalid_message compute = "GPUComputePassEncoder is invalid"
invalid_message render = "GPURenderPassEncoder is invalid"

abbrev pub unlocked_message : PassKind → String
unlocked_message compute = "GPUCommandEncoder is not locked by this compute pass"
unlocked_message render = "GPUCommandEncoder is not locked by this render pass"

-- live_compute_pass and live_render_pass
unfoldable pub live_pass : ℕ → Store → Option ℕ × Store
live_pass p s =
    let state = s.passes p in
    let parent = s.encoders state.parent in
    if state.ended
    then (none, raise state.error_sink (ended_message state.kind) s)
    else if parent.ended
    then (none, raise state.error_sink finished_message s)
    else if is_null state.pass
    then (none, raise state.error_sink (invalid_message state.kind) s)
    else if not parent.locked
    then (none, raise state.error_sink (unlocked_message state.kind) s)
    else (some state.pass, s)

abbrev pub end_pass : ℕ → Store → Store
end_pass p s = record s { passes = update s.passes p (record (s.passes p) { ended = true }) }

-- GPUComputePassEncoder.end and GPURenderPassEncoder.end
unfoldable pub pass_end : ℕ → Store → Store
pass_end p s =
    let state = s.passes p in
    let parent = s.encoders state.parent in
    if state.ended
    then raise state.error_sink (ended_message state.kind) s
    else if parent.ended
    then raise state.error_sink finished_message s
    else if is_null state.pass
    then end_pass p (raise state.error_sink (invalid_message state.kind) s)
    else if not parent.locked
    then raise state.error_sink (unlocked_message state.kind) s
    else end_pass p (
        call_out (Call.pass_end state.pass)
          (set_encoder state.parent (record parent { locked = false }) s))

abbrev pub add_buffer : ℕ → Bool → ℕ → Store → Store
add_buffer handle invalid sink s = record s {
  command_buffers =
      update s.command_buffers s.buffer_count (record {
        command_buffer = handle;
        consumed = false;
        invalid = invalid;
        error_sink = sink;
      });
  buffer_count = suc s.buffer_count;
}

-- The answers for `finish`
pub record FinishAnswers : Type 0 where
  pub descriptor : Option JsError
  pub command_buffer : ℕ
  pub registered : Option JsError
  pub created : Option JsError

abbrev pub is_some {ℓ} : {A : Type ℓ} → Option A → Bool
is_some none = false
is_some (some _) = true

-- The validation errors of `finish`: what was noted while the encoder was locked, or that it is
-- locked, and that it is finished
unfoldable pub noted_error : CommandEncoderState → World → World
noted_error state w = elim state.pending_validation_error [
  | some message ↦ generate_validation_error state.error_sink message w
  | none ↦
      if state.locked
      then generate_validation_error state.error_sink
          "GPUCommandEncoder is locked by an active pass" w
      else w
]

unfoldable pub finish_errors : CommandEncoderState → World → World
unfolding noted_error
finish_errors state w =
    if state.ended
    then generate_validation_error state.error_sink finished_message (noted_error state w)
    else noted_error state w

-- `finish` with its descriptor converted
unfoldable pub finish_converted : FinishAnswers → ℕ → Store → Result ℕ × Store
finish_converted a e s =
    let state = s.encoders e in
    let done = record state { ended = true; locked = false; pending_validation_error = none } in
    let s₁ = record (set_encoder e done s) { world = finish_errors state s.world } in
    if state.ended || state.locked || is_some state.pending_validation_error
    then either_way (wrapped a.registered a.created) s₁
        (s₁.buffer_count, add_buffer 0 true state.error_sink s₁)
    else let s₂ = call_out (Call.encoder_finish state.encoder) s₁ in
      if is_null a.command_buffer
      then (err (JsError.operation_error "wgpuCommandEncoderFinish returned null"), s₂)
      else either_way (wrapped a.registered a.created)
          (call_out (Call.command_buffer_release a.command_buffer) s₂)
          (s₂.buffer_count, add_buffer a.command_buffer false state.error_sink s₂)

abbrev pub unless : Option JsError → Store → Result ℕ × Store → Result ℕ × Store
unless (some error) s next = (err error, s)
unless none s next = next

-- GPUCommandEncoder.finish: the command buffer's number. The descriptor is converted before the
-- state is read, so that script which that runs is an operation before this one.
unfoldable pub command_encoder_finish : FinishAnswers → ℕ → Store → Result ℕ × Store
unfolding finish_converted
command_encoder_finish a e s = unless a.descriptor s (finish_converted a e s)

-- What script can do to encoders and their passes: nothing, two things in a row, or one operation.
-- A pass is begun with the script that runs while its descriptor is converted.
pub data Op : Type 0 where
  idle : Op
  also : Op → Op → Op
  begin : PassKind → BeginAnswers → Op → ℕ → Op
  command : ℕ → Op
  record_in : ℕ → Op
  finish : FinishAnswers → ℕ → Op
  close : ℕ → Op

-- A command looks up its live encoder or pass first.
unfoldable pub step : Op → Store → Store
unfolding begin_pass live_command_encoder live_pass pass_end command_encoder_finish
step idle s = s
step (also first second) s = step second (step first s)
step (begin kind a script e) s = (begin_pass kind a (step script) e s).1
step (command e) s = (live_command_encoder e s).1
step (record_in p) s = (live_pass p s).1
step (finish a e) s = (command_encoder_finish a e s).1
step (close p) s = pass_end p s

unfoldable pub run : List Op → Store → Store
run [] s = s
run (op ∷ ops) s = run ops (step op s)
