-- ===== src/Encoder/Misuse.antt =====
-- core/src/lib.rs: an error that is noted on an encoder stays until `finish`, which reports it.
use webgpu_native_js.Prelude.{
  ℕ, ◌≡◌, ◌≢◌, refl, ap, String, Bool, true, false, Option, none, some, List, [], ◌∷◌, arith,
  if◌then◌else◌, ◌==◌, Bool-cases, if_keeps, inl, inr, not, All,
}
use webgpu_native_js.Result.{Result, ok, err, JsError}
use webgpu_native_js.World.{update_self, is_null}
use webgpu_native_js.ErrorScopes.{generate_validation_error}
use webgpu_native_js.Encoder.{
  PassKind, CommandEncoderState, CommandBufferState, Store, wrapped, either_way, described,
  finish_errors, noted_error, finish_converted, unless, get_or_insert, depth_slice_message,
  locked_message, set_encoder, BeginAnswers, FinishAnswers, begin_pass, open_pass,
  live_command_encoder, live_pass, pass_end, command_encoder_finish, Op, idle, also, begin, command,
  record_in, finish, close, step, run,
}
use webgpu_native_js.Encoder.Finish.{spoiled}

-- `op` does not finish encoder `e`.
abbrev pub Spares : ℕ → Op → Type 0
Spares e (finish a e') = e' ≢ e
Spares e idle = Unit
Spares e (also first second) = Spares e first × Spares e second
Spares e (begin kind a script e') = Spares e script
Spares e (command e') = Unit
Spares e (record_in p) = Unit
Spares e (close p) = Unit

-- An open encoder with the error `m` noted
abbrev pub Noted : ℕ → String → Store → Type 0
Noted e m s = ((s.encoders e).ended ≡ false) × ((s.encoders e).pending_validation_error ≡ some m)

-- The error that was noted first stays until `finish`.
set_encoder-Noted :
    (e e' : ℕ) (m : String) (s : Store) (state : CommandEncoderState)
    → Noted e m s
    → ((s.encoders e').ended ≡ false → state.ended ≡ false)
    → ((s.encoders e').pending_validation_error ≡ some m → state.pending_validation_error ≡ some m)
    → Noted e m (set_encoder e' state s)
set_encoder-Noted e e' m s state h alive kept = (ground (arith, h.0), ground (arith, h.1))

get_or_insert-some :
    (o : Option String) (m message : String) → o ≡ some m → get_or_insert o message ≡ some m
get_or_insert-some o m message h = rw h

misuse-Noted :
    (e e' : ℕ) (m message : String) (locked : Bool) (s : Store)
    → Noted e m s
    → let state = s.encoders e' in
      Noted e m (
        set_encoder e'
          (record state {
            pending_validation_error = get_or_insert state.pending_validation_error message;
            locked = locked;
          })
          s)
misuse-Noted e e' m message locked s h =
    set_encoder-Noted e e' m s _ h (λ alive. alive) (get_or_insert-some _ m message)

module _ (e : ℕ) (m : String) where
  abbrev Kept : {A : Type 0} → A × Store → Type 0
  Kept r = Noted e m r.1

  either_way-Noted :
      (o : Option JsError) (failed : Store) (made : ℕ × Store)
      → Noted e m failed
      → Noted e m made.1
      → Kept (either_way o failed made)
  either_way-Noted (some error) failed made hf hm = hf
  either_way-Noted none failed made hf hm = hm

  depth-Noted :
      (depth_error : Bool) (o : Option String) (message : String)
      → o ≡ some m
      → (if depth_error then get_or_insert o message else o) ≡ some m
  depth-Noted true o message h = get_or_insert-some o m message h
  depth-Noted false o message h = h

  open_pass-Noted :
      (kind : PassKind) (a : BeginAnswers) (depth_error : Bool) (e' : ℕ) (s : Store)
      → Noted e m s
      → Kept (open_pass kind a depth_error e' s)
  unfolding open_pass
  open_pass-Noted kind a depth_error e' s h =
      let opened = λ (locked : Bool).
        set_encoder-Noted e e' m s
          (record (s.encoders e') {
            pending_validation_error =
                if depth_error
                then get_or_insert (s.encoders e').pending_validation_error depth_slice_message
                else (s.encoders e').pending_validation_error;
            locked = locked;
          })
          h (λ alive. alive) (depth-Noted depth_error _ depth_slice_message) in
      if_keeps (Kept {A = Result ℕ}) (is_null a.pass) _ _ (opened false)
        (either_way-Noted (wrapped a.registered a.created) _ _ (opened true) (opened true))

  described-Noted :
      (d : Result Bool) (s : Store) (next : Bool → Store → Result ℕ × Store)
      → Noted e m s
      → ((depth_error : Bool) → Kept (next depth_error s))
      → Kept (described d s next)
  described-Noted (err error) s next h hn = h
  described-Noted (ok depth_error) s next h hn = hn depth_error

  begin_pass-Noted :
      (kind : PassKind) (a : BeginAnswers) (script : Store → Store) (e' : ℕ) (s : Store)
      → Noted e m (script s)
      → Noted e m s
      → Kept (begin_pass kind a script e' s)
  unfolding begin_pass
  begin_pass-Noted kind a script e' s after h =
      let w = wrapped a.registered a.created in
      if_keeps (Kept {A = Result ℕ}) (s.encoders e').ended _ _ (either_way-Noted w _ _ h h) (
        if_keeps (Kept {A = Result ℕ}) (s.encoders e').locked _ _
          (either_way-Noted w _ _ (misuse-Noted e e' m locked_message _ s h)
            (misuse-Noted e e' m locked_message _ s h))
          (described-Noted a.descriptor (script s) _ after
            (λ depth_error. open_pass-Noted kind a depth_error e' (script s) after)))

  live_command_encoder-Noted : (e' : ℕ) (s : Store) → Noted e m s → Kept (live_command_encoder e' s)
  unfolding live_command_encoder
  live_command_encoder-Noted e' s h = if_keeps (Kept {A = Option ℕ}) (s.encoders e').ended _ _ h (
      if_keeps (Kept {A = Option ℕ}) (s.encoders e').locked _ _
        (misuse-Noted e e' m locked_message _ s h) h)

  live_pass-Noted : (p : ℕ) (s : Store) → Noted e m s → Kept (live_pass p s)
  unfolding live_pass
  live_pass-Noted p s h =
      let state = s.passes p in
      let parent = s.encoders state.parent in
      if_keeps (Kept {A = Option ℕ}) state.ended _ _ h (
        if_keeps (Kept {A = Option ℕ}) parent.ended _ _ h (
          if_keeps (Kept {A = Option ℕ}) (is_null state.pass) _ _ h
            (if_keeps (Kept {A = Option ℕ}) (not parent.locked) _ _ h h)))

  pass_end-Noted : (p : ℕ) (s : Store) → Noted e m s → Noted e m (pass_end p s)
  unfolding pass_end
  pass_end-Noted p s h =
      let state = s.passes p in
      let parent = s.encoders state.parent in
      if_keeps (Noted e m) state.ended _ _ h (
        if_keeps (Noted e m) parent.ended _ _ h (
          if_keeps (Noted e m) (is_null state.pass) _ _ h (
            if_keeps (Noted e m) (not parent.locked) _ _ h
              (set_encoder-Noted e state.parent m s _ h (λ alive. alive) (λ same. same)))))

  unless-Noted :
      (o : Option JsError) (s : Store) (next : Result ℕ × Store)
      → Noted e m s
      → Kept next
      → Kept (unless o s next)
  unless-Noted (some error) s next h hn = h
  unless-Noted none s next h hn = hn

  finish-Noted :
      (a : FinishAnswers) (e' : ℕ) (s : Store)
      → e' ≢ e
      → Noted e m s
      → Kept (command_encoder_finish a e' s)
  unfolding command_encoder_finish finish_converted
  finish-Noted a e' s other h =
      let done : Noted e m (
          set_encoder e'
            (record (s.encoders e') {
              ended = true;
              locked = false;
              pending_validation_error = none;
            })
            s) =
        (ground (arith, h.0), ground (arith, h.1)) in
      let w = wrapped a.registered a.created in
      unless-Noted a.descriptor s _ h (
        if_keeps (Kept {A = Result ℕ}) (spoiled (s.encoders e')) _ _
          (either_way-Noted w _ _ done done)
          (if_keeps (Kept {A = Result ℕ}) (is_null a.command_buffer) _ _ done
            (either_way-Noted w _ _ done done)))

  step-Noted : (op : Op) (s : Store) → Spares e op → Noted e m s → Noted e m (step op s)
  unfolding step
  step-Noted idle s spared h = h
  step-Noted (also first second) s spared h =
      step-Noted second (step first s) spared.1 (step-Noted first s spared.0 h)
  step-Noted (begin kind a script e') s spared h =
      begin_pass-Noted kind a (step script) e' s (step-Noted script s spared h) h
  step-Noted (command e') s spared h = live_command_encoder-Noted e' s h
  step-Noted (record_in p) s spared h = live_pass-Noted p s h
  step-Noted (finish a e') s spared h = finish-Noted a e' s spared h
  step-Noted (close p) s spared h = pass_end-Noted p s h

  run-Noted : (ops : List Op) (s : Store) → All (Spares e) ops → Noted e m s → Noted e m (run ops s)
  unfolding run
  run-Noted [] s spared h = h
  run-Noted (op ∷ ops) s spared h = run-Noted ops (step op s) spared.1 (step-Noted op s spared.0 h)

==_self : (n : ℕ) → (n == n) ≡ true
==_self n = ground arith

command-Noted :
    (e : ℕ) (s : Store)
    → (s.encoders e).ended ≡ false
    → (s.encoders e).locked ≡ true
    → (s.encoders e).pending_validation_error ≡ none
    → Noted e locked_message (step (command e) s)
unfolding step live_command_encoder
command-Noted e s alive locked clean =
    rw (step, live_command_encoder, alive, locked, clean, ==_self e) (refl, refl)

finish-reports :
    (e : ℕ) (m : String) (a : FinishAnswers) (s : Store)
    → Noted e m s
    → a.descriptor ≡ none
    → wrapped a.registered a.created ≡ none
    → let r = command_encoder_finish a e s in
      (r.0 ≡ ok s.buffer_count)
      × ((r.1.command_buffers s.buffer_count).invalid ≡ true)
      × (r.1.world ≡ generate_validation_error (s.encoders e).error_sink m s.world)
unfolding command_encoder_finish finish_converted finish_errors noted_error
finish-reports e m a s h converts made = elim (Bool-cases (s.encoders e).locked) [
  | inl locked ↦
      rw (converts, made, h.0, h.1, locked)
        (refl, ap CommandBufferState.invalid (update_self s.command_buffers _ _), refl)
  | inr free ↦
      rw (converts, made, h.0, h.1, free)
        (refl, ap CommandBufferState.invalid (update_self s.command_buffers _ _), refl)
]

-- A command on an open encoder that a pass locks, with no error noted before, spoils the encoder
-- for good: after any further operations that do not finish it, those of script that runs inside
-- them included, `finish` (its descriptor
-- converting and its wrapper made) returns an invalid command buffer and reports the misuse to the
-- device of the encoder.
pub misuse_is_fatal :
    (e : ℕ) (ops : List Op) (a : FinishAnswers) (s : Store)
    → (s.encoders e).ended ≡ false
    → (s.encoders e).locked ≡ true
    → (s.encoders e).pending_validation_error ≡ none
    → All (Spares e) ops
    → a.descriptor ≡ none
    → wrapped a.registered a.created ≡ none
    → let s₁ = run (command e ∷ ops) s in
      let r = command_encoder_finish a e s₁ in
      (r.0 ≡ ok s₁.buffer_count)
      × ((r.1.command_buffers s₁.buffer_count).invalid ≡ true)
      × (r.1.world ≡ generate_validation_error (s₁.encoders e).error_sink locked_message s₁.world)
unfolding run
misuse_is_fatal e ops a s alive locked clean spared converts made =
    finish-reports e locked_message a _
      (run-Noted e locked_message ops (step (command e) s) spared
        (command-Noted e s alive locked clean))
      converts made
