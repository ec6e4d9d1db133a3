-- ===== src/Tests/Encoders.antt =====
-- Encoders, passes and command buffers at concrete stores.
use webgpu_native_js.Prelude.{
  ℕ, String, ◌≡◌, refl, ap, Bool, true, false, Option, none, some, [], ◌∷◌, arith,
}
use webgpu_native_js.Result.{ok, err, JsError}
use webgpu_native_js.World.{World, Call}
use webgpu_native_js.ErrorScopes.{new, generate_validation_error}
use webgpu_native_js.Encoder.{
  PassKind, CommandEncoderState, CommandBufferState, Store, BeginAnswers, FinishAnswers, begin_pass,
  command_encoder_finish, live_command_encoder, Op, begin, command, step, run,
}
use webgpu_native_js.Encoder.Passes.{start, next, one_live_pass}
use webgpu_native_js.Encoder.Finish.{finish_lem, failed_wrapper_locks}
use webgpu_native_js.Encoder.Misuse.{misuse_is_fatal}
use webgpu_native_js.Submit.{submit, submit_all}
use webgpu_native_js.Submit.Once.{submit_accepted, submit_refused, submitted_once}

abbrev world : World
world = record { events = λ d. new; registered = []; settlements = []; releases = []; calls = [] }

abbrev open_encoder : Bool → CommandEncoderState
open_encoder locked = record {
  encoder = 1;
  ended = false;
  locked = locked;
  pending_validation_error = none;
  error_sink = 0;
}

abbrev buffer : ℕ → CommandBufferState
buffer handle = record {
  command_buffer = handle;
  consumed = false;
  invalid = false;
  error_sink = 0;
}

abbrev store : Bool → Store
store locked = record {
  encoders = λ e. open_encoder locked;
  passes =
      λ p. record { kind = PassKind.compute; pass = 0; ended = true; parent = 0; error_sink = 0 };
  pass_count = 0;
  command_buffers = buffer;
  buffer_count = 5;
  world = world;
}

abbrev answers : Option JsError → BeginAnswers
answers created = record { descriptor = ok false; pass = 9; registered = none; created = created }

abbrev finished : FinishAnswers
finished = record { descriptor = none; command_buffer = 7; registered = none; created = none }

-- One compute pass is open; a getter of its descriptor used the encoder for a command.
abbrev begun : Op
begun = begin PassKind.compute (answers none) (command 0) 0

abbrev opened : Store
opened = step begun (store false)

one_live_pass_example : (opened.encoders (opened.passes 0).parent).locked ≡ true
unfolding step begin_pass live_command_encoder
one_live_pass_example =
    (one_live_pass opened 0 0
      (next begun (store false) (λ alive free. (tt, free)) (start (store false) refl)) (omega arith)
      (omega arith) refl refl refl).1

finish_lem_example : (command_encoder_finish finished 0 (store false)).0 ≡ ok 5
finish_lem_example = (finish_lem finished 0 (store false) refl (omega arith) refl).0

abbrev misused : Store
misused = run (command 0 ∷ command 1 ∷ []) (store true)

misuse_is_fatal_example :
    ((command_encoder_finish finished 0 misused).1.command_buffers misused.buffer_count).invalid
    ≡ true
misuse_is_fatal_example =
    (misuse_is_fatal 0 (command 1 ∷ []) finished (store true) refl refl refl (tt, tt) refl refl).1

failed_wrapper_locks_example :
    (begin_pass PassKind.render (answers (some (JsError.thrown 4))) (λ s. s) 0 (store false)).0
    ≡ err (JsError.thrown 4)
failed_wrapper_locks_example =
    (failed_wrapper_locks PassKind.render (answers (some (JsError.thrown 4))) finished
      (JsError.thrown 4) (λ s. s) 0 (store false) refl refl refl refl refl (omega arith) refl refl
      refl).0

submit_accepted_example :
    (submit (2 ∷ 3 ∷ []) (store false)).world.calls ≡ Call.queue_submit (2 ∷ 3 ∷ []) ∷ []
submit_accepted_example = ap World.calls (
    submit_accepted (2 ∷ 3 ∷ []) (store false) ((omega arith, tt), (tt, tt))
      ((refl, refl), ((refl, refl), tt)))

submit_refused_example :
    (fault : ℕ × String) × ((submit (2 ∷ 2 ∷ []) (store false)).world
      ≡ generate_validation_error fault.0 fault.1 world)
submit_refused_example = submit_refused (2 ∷ 2 ∷ []) (store false) (λ good. good.0.0.0 refl)

submitted_once_example :
    let s₁ = submit_all ((2 ∷ []) ∷ (3 ∷ []) ∷ []) (store false) in
    (fault : ℕ × String) × ((submit (4 ∷ 2 ∷ []) s₁).world
      ≡ generate_validation_error fault.0 fault.1 s₁.world)
submitted_once_example =
    submitted_once (2 ∷ []) ((3 ∷ []) ∷ []) (4 ∷ 2 ∷ []) 2 (store false) refl refl
