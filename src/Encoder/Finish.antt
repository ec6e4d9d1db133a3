-- ===== src/Encoder/Finish.antt =====
-- core/src/lib.rs: what `finish` makes of an encoder.
use webgpu_native_js.Prelude.{
  ℕ, ◌≡◌, ◌≢◌, refl, sym, ap, subst, Bool, true, false, none, some, arith, if◌then◌else◌,
  Bool-cases, inl, inr, ◌||◌,
}
use webgpu_native_js.Result.{Result, ok, err, JsError}
use webgpu_native_js.World.{update_self, is_null}
use webgpu_native_js.Encoder.{
  PassKind, CommandEncoderState, CommandBufferState, Store, wrapped, finish_converted, is_some,
  BeginAnswers, FinishAnswers, begin_pass, open_pass, command_encoder_finish,
}

-- Whether `finish` makes an invalid command buffer
abbrev pub spoiled : CommandEncoderState → Bool
spoiled state = state.ended || state.locked || is_some state.pending_validation_error

is_null-false : (handle : ℕ) → handle ≢ 0 → is_null handle ≡ false
is_null-false handle real = ground arith

-- When the descriptor converts, the native command buffer is not null and its wrapper is made,
-- `finish` returns a new unconsumed command buffer. It is invalid, with the null handle, exactly
-- if the encoder was finished before, was locked by a pass, or has an error noted; else it holds
-- the native handle. The encoder is finished, unlocked and with no error noted afterwards.
pub finish_lem :
    (a : FinishAnswers) (e : ℕ) (s : Store)
    → a.descriptor ≡ none
    → a.command_buffer ≢ 0
    → wrapped a.registered a.created ≡ none
    → let state = s.encoders e in
      let r = command_encoder_finish a e s in
      (r.0 ≡ ok s.buffer_count)
      × (r.1.command_buffers s.buffer_count ≡ record {
        command_buffer = if spoiled state then 0 else a.command_buffer;
        consumed = false;
        invalid = spoiled state;
        error_sink = state.error_sink;
      })
      × (r.1.encoders e
          ≡ record state { ended = true; locked = false; pending_validation_error = none })
unfolding command_encoder_finish finish_converted
finish_lem a e s converts real made = elim (Bool-cases (spoiled (s.encoders e))) [
  | inl bad ↦
      rw (converts, made, bad) (refl, update_self s.command_buffers _ _, update_self s.encoders _ _)
  | inr good ↦
      rw (converts, made, good, is_null-false a.command_buffer real)
        (refl, update_self s.command_buffers _ _, update_self s.encoders _ _)
]

-- On an open and unlocked encoder `begin…Pass` runs the script and then takes the lock.
pub begin_pass-open_pass :
    (kind : PassKind) (a : BeginAnswers) (script : Store → Store) (depth_error : Bool) (e : ℕ)
    (s : Store)
    → (s.encoders e).ended ≡ false
    → (s.encoders e).locked ≡ false
    → a.descriptor ≡ ok depth_error
    → begin_pass kind a script e s ≡ open_pass kind a depth_error e (script s)
unfolding begin_pass
begin_pass-open_pass kind a script depth_error e s alive free converts =
    rw (alive, free, converts) refl

-- What a `begin…Pass` and the `finish` that follows answer
abbrev Locks : JsError → FinishAnswers → ℕ → Store → Result ℕ × Store → Type 0
Locks error f e s r =
    let done = command_encoder_finish f e r.1 in
    (r.0 ≡ err error)
    × (r.1.pass_count ≡ s.pass_count)
    × ((r.1.encoders e).locked ≡ true)
    × (done.0 ≡ ok s.buffer_count)
    × ((done.1.command_buffers s.buffer_count).invalid ≡ true)

open_pass-Locks :
    (kind : PassKind) (a : BeginAnswers) (f : FinishAnswers) (error : JsError) (e : ℕ) (s : Store)
    → (s.encoders e).ended ≡ false
    → (s.encoders e).pending_validation_error ≡ none
    → a.pass ≢ 0
    → wrapped a.registered a.created ≡ some error
    → f.descriptor ≡ none
    → wrapped f.registered f.created ≡ none
    → Locks error f e s (open_pass kind a false e s)
unfolding open_pass command_encoder_finish finish_converted
open_pass-Locks kind a f error e s alive clean real fails converts made =
    rw (alive, clean, is_null-false a.pass real, fails, converts, made, update_self s.encoders e)
      (refl, refl, refl, refl, ap CommandBufferState.invalid (update_self s.command_buffers _ _))

-- If the engine cannot make the wrapper of a pass whose native pass was opened, `begin…Pass`
-- returns its error and no pass, and leaves the encoder locked: a `finish` that follows returns
-- an invalid command buffer. The encoder was open and unlocked, and after the script that ran while
-- the descriptor was converted it was open, with no error noted.
pub failed_wrapper_locks :
    (kind : PassKind) (a : BeginAnswers) (f : FinishAnswers) (error : JsError)
    (script : Store → Store) (e : ℕ) (s : Store)
    → (s.encoders e).ended ≡ false
    → (s.encoders e).locked ≡ false
    → ((script s).encoders e).ended ≡ false
    → ((script s).encoders e).pending_validation_error ≡ none
    → a.descriptor ≡ ok false
    → a.pass ≢ 0
    → wrapped a.registered a.created ≡ some error
    → f.descriptor ≡ none
    → wrapped f.registered f.created ≡ none
    → let r = begin_pass kind a script e s in
      let done = command_encoder_finish f e r.1 in
      (r.0 ≡ err error)
      × (r.1.pass_count ≡ (script s).pass_count)
      × ((r.1.encoders e).locked ≡ true)
      × (done.0 ≡ ok (script s).buffer_count)
      × ((done.1.command_buffers (script s).buffer_count).invalid ≡ true)
failed_wrapper_locks kind a f error script e s alive free alive' clean converts real fails converts'
      made =
    subst (Locks error f e (script s))
      (sym (begin_pass-open_pass kind a script false e s alive free converts))
      (open_pass-Locks kind a f error e (script s) alive' clean real fails converts' made)
