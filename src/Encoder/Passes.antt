-- ===== src/Encoder/Passes.antt =====
-- core/src/lib.rs: an encoder has at most one live pass, unless script interferes.
use webgpu_native_js.Prelude.{
  ℕ, suc, ◌<◌, ◌≡◌, refl, sym, ◌∙◌, Bool, true, false, Option, none, some, arith, if_cases,
  if_keeps, not, ◌&&◌, ◌||◌,
}
use webgpu_native_js.Result.{Result, ok, err, JsError}
use mathlib.Core.Bool.{false≢true, true≢false}
use webgpu_native_js.World.{update, is_null}
use webgpu_native_js.Encoder.{
  PassKind, PassState, CommandEncoderState, Store, wrapped, either_way, described, finished_message,
  finish_converted, unless, is_some, invalid_pass, raise, BeginAnswers, FinishAnswers, begin_pass,
  open_pass, live_command_encoder, live_pass, pass_end, command_encoder_finish, Op, idle, also,
  begin, command, record_in, finish, close, step,
}

-- A pass that was opened and neither ended nor cut off by `finish`.
abbrev pub is_live : (ℕ → CommandEncoderState) → (ℕ → PassState) → ℕ → Bool
is_live E P p = not (P p).ended && not (is_null (P p).pass) && not (E (P p).parent).ended

-- A live pass keeps its encoder locked, and no other live pass has the same encoder.
pub record Inv (E : ℕ → CommandEncoderState) (P : ℕ → PassState) (n : ℕ) : Type 0 where
  pub locks : (p : ℕ) → p < n → is_live E P p ≡ true → (E (P p).parent).locked ≡ true
  pub unique :
      (p q : ℕ)
      → p < n
      → q < n
      → is_live E P p ≡ true
      → is_live E P q ≡ true
      → (P p).parent ≡ (P q).parent
      → p ≡ q

abbrev pub StoreInv : Store → Type 0
StoreInv s = Inv s.encoders s.passes s.pass_count

module _ {E : ℕ → CommandEncoderState} {P : ℕ → PassState} {n : ℕ} (v : Inv E P n) where
  -- An encoder changes and does not lose its lock while it stays open.
  mark-Inv :
      (e : ℕ) (state : CommandEncoderState)
      → ((E e).ended ≡ true → state.ended ≡ true)
      → (state.ended ≡ false → (E e).locked ≡ true → state.locked ≡ true)
      → Inv (update E e state) P n
  mark-Inv e state over kept = record {
    locks = λ p lt live. ground (arith, v.locks p);
    unique = λ p q hp hq lp lq same. ground (arith, v.unique p q);
  }

  -- A pass with no native handle is never live.
  null-Inv : (state : PassState) → state.pass ≡ 0 → Inv E (update P n state) (suc n)
  null-Inv state h = record {
    locks = λ p lt live. ground (arith, v.locks p);
    unique = λ p q hp hq lp lq same. ground (arith, v.unique p q);
  }

  -- A pass is opened on an encoder that is not locked.
  open-Inv :
      (e : ℕ) (state : CommandEncoderState) (pass : PassState)
      → state.ended ≡ (E e).ended
      → (E e).locked ≡ false
      → state.locked ≡ true
      → pass.parent ≡ e
      → Inv (update E e state) (update P n pass) (suc n)
  open-Inv e state pass same_end free taken here = record {
    locks = λ p lt live. ground (arith, v.locks p);
    unique = λ p q hp hq lp lq same. ground (arith, v.unique p q, v.locks p, v.locks q);
  }

  -- A pass ends, and its encoder stays as it is.
  retire-Inv : (p : ℕ) → Inv E (update P p (record (P p) { ended = true })) n
  retire-Inv p' = record {
    locks = λ p lt live. ground (arith, v.locks p);
    unique = λ p q hp hq lp lq same. ground (arith, v.unique p q);
  }

  -- A live pass ends and gives its lock back.
  close-Inv :
      (p : ℕ) (state : CommandEncoderState)
      → p < n
      → is_live E P p ≡ true
      → state.ended ≡ (E (P p).parent).ended
      → Inv (update E (P p).parent state) (update P p (record (P p) { ended = true })) n
  close-Inv p' state inside alive same = record {
    locks = λ p lt live. ground (arith, v.locks p, v.unique p p');
    unique = λ p q hp hq lp lq same. ground (arith, v.unique p q);
  }

-- What both ways out keep.
either_way_keeps :
    (o : Option JsError) (failed : Store) (made : ℕ × Store)
    → StoreInv failed
    → StoreInv made.1
    → StoreInv (either_way o failed made).1
either_way_keeps (some error) failed made hf hm = hf
either_way_keeps none failed made hf hm = hm

abbrev Keeps : Result ℕ × Store → Type 0
Keeps r = StoreInv r.1

invalid-Inv :
    (kind : PassKind) (a : BeginAnswers) (e : ℕ) (s : Store)
    → StoreInv s
    → StoreInv (invalid_pass kind a e s).1
invalid-Inv kind a e s v =
    either_way_keeps (wrapped a.registered a.created) s _ v (null-Inv v _ refl)

open_pass-Inv :
    (kind : PassKind) (a : BeginAnswers) (depth_error : Bool) (e : ℕ) (s : Store)
    → (s.encoders e).locked ≡ false
    → StoreInv s
    → StoreInv (open_pass kind a depth_error e s).1
unfolding open_pass
open_pass-Inv kind a depth_error e s free v =
    if_keeps Keeps (is_null a.pass) _ _
      (mark-Inv v e _ (λ over. over) (λ _ locked. absurd (false≢true (sym free ∙ locked))))
      (either_way_keeps (wrapped a.registered a.created) _ _
        (mark-Inv v e _ (λ over. over) (λ _ _. refl)) (open-Inv v e _ _ refl free refl refl))

described_keeps :
    (d : Result Bool) (s : Store) (next : Bool → Store → Result ℕ × Store)
    → StoreInv s
    → ((depth_error : Bool) → StoreInv (next depth_error s).1)
    → StoreInv (described d s next).1
described_keeps (err error) s next v h = v
described_keeps (ok depth_error) s next v h = h depth_error

begin_pass-Inv :
    (kind : PassKind) (a : BeginAnswers) (script : Store → Store) (e : ℕ) (s : Store)
    → StoreInv s
    → ((s.encoders e).ended ≡ false
        → (s.encoders e).locked ≡ false
        → StoreInv (script s) × (((script s).encoders e).locked ≡ false))
    → StoreInv (begin_pass kind a script e s).1
unfolding begin_pass
begin_pass-Inv kind a script e s v after =
    if_cases Keeps (s.encoders e).ended _ _
      (λ _. invalid-Inv kind a e (raise (s.encoders e).error_sink finished_message s) v)
      (λ alive.
        if_cases Keeps (s.encoders e).locked _ _
          (λ _. invalid-Inv kind a e _ (mark-Inv v e _ (λ over. over) (λ _ locked. locked)))
          (λ free.
            let (kept, unlocked) = after alive free in
            described_keeps a.descriptor (script s) _ kept
              (λ depth_error. open_pass-Inv kind a depth_error e (script s) unlocked kept)))

pass_end-Inv : (p : ℕ) (s : Store) → p < s.pass_count → StoreInv s → StoreInv (pass_end p s)
unfolding pass_end
pass_end-Inv p s inside v =
    let state = s.passes p in
    let parent = s.encoders state.parent in
    if_cases StoreInv state.ended _ _ (λ _. v)
      (λ going.
        if_cases StoreInv parent.ended _ _ (λ _. v)
          (λ alive.
            if_cases StoreInv (is_null state.pass) _ _ (λ _. retire-Inv v p)
              (λ real.
                if_cases StoreInv (not parent.locked) _ _ (λ _. v)
                  (λ _. close-Inv v p _ inside (ground arith) refl))))

finish_converted-Inv :
    (a : FinishAnswers) (e : ℕ) (s : Store) → StoreInv s → StoreInv (finish_converted a e s).1
unfolding finish_converted
finish_converted-Inv a e s v =
    let state = s.encoders e in
    let done =
      mark-Inv v e (record state { ended = true; locked = false; pending_validation_error = none })
        (λ _. refl) (λ open_. absurd (true≢false open_)) in
    if_keeps Keeps (state.ended || state.locked || is_some state.pending_validation_error) _ _
      (either_way_keeps (wrapped a.registered a.created) _ _ done done)
      (if_keeps Keeps (is_null a.command_buffer) _ _ done
        (either_way_keeps (wrapped a.registered a.created) _ _ done done))

unless_keeps :
    (o : Option JsError) (s : Store) (next : Result ℕ × Store)
    → StoreInv s
    → StoreInv next.1
    → StoreInv (unless o s next).1
unless_keeps (some error) s next hs hn = hs
unless_keeps none s next hs hn = hn

finish-Inv :
    (a : FinishAnswers) (e : ℕ) (s : Store) → StoreInv s → StoreInv (command_encoder_finish a e s).1
unfolding command_encoder_finish
finish-Inv a e s v = unless_keeps a.descriptor s _ v (finish_converted-Inv a e s v)

live_command_encoder-Inv : (e : ℕ) (s : Store) → StoreInv s → StoreInv (live_command_encoder e s).1
unfolding live_command_encoder
live_command_encoder-Inv e s v =
    let state = s.encoders e in
    let Same = λ (r : Option ℕ × Store). StoreInv r.1 in
    if_keeps Same state.ended _ _ v
      (if_keeps Same state.locked _ _ (mark-Inv v e _ (λ over. over) (λ _ locked. locked)) v)

live_pass-Inv : (p : ℕ) (s : Store) → StoreInv s → StoreInv (live_pass p s).1
unfolding live_pass
live_pass-Inv p s v =
    let state = s.passes p in
    let parent = s.encoders state.parent in
    let Same = λ (r : Option ℕ × Store). StoreInv r.1 in
    if_keeps Same state.ended _ _ v (
      if_keeps Same parent.ended _ _ v
        (if_keeps Same (is_null state.pass) _ _ v (if_keeps Same (not parent.locked) _ _ v v)))

-- An operation names a pass that exists, and the script that runs inside a `begin…Pass` (it runs
-- if the encoder is open and unlocked) does not leave that encoder locked.
abbrev pub Sound : Op → Store → Type 0
Sound idle s = Unit
Sound (also first second) s = Sound first s × Sound second (step first s)
Sound (begin kind a script e) s =
    (s.encoders e).ended ≡ false
    → (s.encoders e).locked ≡ false
    → Sound script s × (((step script s).encoders e).locked ≡ false)
Sound (command e) s = Unit
Sound (record_in p) s = Unit
Sound (finish a e) s = Unit
Sound (close p) s = p < s.pass_count

pub step-Inv : (op : Op) (s : Store) → Sound op s → StoreInv s → StoreInv (step op s)
unfolding step
step-Inv idle s there v = v
step-Inv (also first second) s there v =
    step-Inv second (step first s) there.1 (step-Inv first s there.0 v)
step-Inv (begin kind a script e) s there v =
    begin_pass-Inv kind a (step script) e s v (λ alive free.
      let (sound, unlocked) = there alive free in (step-Inv script s sound v, unlocked))
step-Inv (command e) s there v = live_command_encoder-Inv e s v
step-Inv (record_in p) s there v = live_pass-Inv p s v
step-Inv (finish a e) s there v = finish-Inv a e s v
step-Inv (close p) s there v = pass_end-Inv p s there v

-- The stores that such operations reach from one where no pass was opened yet.
pub data Reach : Store → Type 1 where
  start : (s : Store) → s.pass_count ≡ 0 → Reach s
  next : (op : Op) (s : Store) → Sound op s → Reach s → Reach (step op s)

Reach-Inv : (s : Store) → Reach s → StoreInv s
Reach-Inv _ (start s none_open) = record {
  locks = λ p lt live. absurd (omega (arith, lt, none_open));
  unique = λ p q lt _ _ _ _. absurd (omega (arith, lt, none_open));
}
Reach-Inv _ (next op s there before) = step-Inv op s there (Reach-Inv s before)

-- Where no script that runs inside a `begin…Pass` leaves the encoder of that pass locked: in every
-- reachable store two live passes (opened with a native handle, not ended, their encoder
-- not finished) of one encoder are the same pass, and it keeps the encoder locked.
pub one_live_pass :
    (s : Store) (p q : ℕ)
    → Reach s
    → p < s.pass_count
    → q < s.pass_count
    → is_live s.encoders s.passes p ≡ true
    → is_live s.encoders s.passes q ≡ true
    → (s.passes p).parent ≡ (s.passes q).parent
    → (p ≡ q) × ((s.encoders (s.passes p).parent).locked ≡ true)
one_live_pass s p q reached hp hq lp lq same =
    let v = Reach-Inv s reached in (v.unique p q hp hq lp lq same, v.locks p hp lp)
