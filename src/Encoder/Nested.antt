-- ===== src/Encoder/Nested.antt =====
-- core/src/lib.rs: script that begins a pass while the descriptor of another one is converted.
use webgpu_native_js.Prelude.{
  ℕ, suc, ◌<◌, ◌≡◌, refl, sym, ap, subst, ◌∙◌, Bool, true, false, none, arith,
}
use webgpu_native_js.Result.{Result, ok}
use webgpu_native_js.World.{is_null}
use webgpu_native_js.Encoder.Finish.{begin_pass-open_pass}
use webgpu_native_js.Encoder.Passes.{is_live}
use webgpu_native_js.Encoder.{
  PassKind, PassState, Store, wrapped, BeginAnswers, open_pass, idle, begin, step,
}

-- Opening a pass on an open encoder, with a native handle and a wrapper
opened_at :
    (kind : PassKind) (a : BeginAnswers) (depth_error : Bool) (e : ℕ) (s : Store)
    → (s.encoders e).ended ≡ false
    → is_null a.pass ≡ false
    → wrapped a.registered a.created ≡ none
    → let s' = (open_pass kind a depth_error e s).1 in
      (((s'.encoders e).ended) ≡ false)
      × (s'.pass_count ≡ suc s.pass_count)
      × ((s'.passes s.pass_count).ended ≡ false)
      × (is_null (s'.passes s.pass_count).pass ≡ false)
      × ((s'.passes s.pass_count).parent ≡ e)
      × ((p : ℕ) → p < s.pass_count → s'.passes p ≡ s.passes p)
unfolding open_pass
opened_at kind a depth_error e s alive real made =
    rw (real, made)
      (
        ground (arith, alive),
        refl,
        ground arith,
        ground (arith, real),
        ground arith,
        λ p lt. ground (arith, lt),
      )

is_live-true :
    (s : Store) (p e : ℕ)
    → (s.passes p).ended ≡ false
    → is_null (s.passes p).pass ≡ false
    → (s.passes p).parent ≡ e
    → (s.encoders e).ended ≡ false
    → is_live s.encoders s.passes p ≡ true
is_live-true s p e going real parent alive =
    let open_ : (s.encoders (s.passes p).parent).ended ≡ false =
      ap (λ e. (s.encoders e).ended) parent ∙ alive in
    ground (arith, going, real, open_)

-- If the script that runs
-- while the descriptor of a pass is converted begins a pass on the same encoder, which is open and
-- unlocked, and both get a native handle and a wrapper, both passes are live.
pub nested_begin_opens_two :
    (kind inner : PassKind) (a b : BeginAnswers) (depth depth' : Bool) (e : ℕ) (s : Store)
    → (s.encoders e).ended ≡ false
    → (s.encoders e).locked ≡ false
    → a.descriptor ≡ ok depth
    → b.descriptor ≡ ok depth'
    → is_null a.pass ≡ false
    → is_null b.pass ≡ false
    → wrapped a.registered a.created ≡ none
    → wrapped b.registered b.created ≡ none
    → let s' = step (begin kind a (begin inner b idle e) e) s in
      (is_live s'.encoders s'.passes s.pass_count ≡ true)
      × (is_live s'.encoders s'.passes (suc s.pass_count) ≡ true)
unfolding step
nested_begin_opens_two kind inner a b depth depth' e s alive free da db ra rb wa wb =
    let first = (open_pass inner b depth' e s).1 in
    let (alive₁, count, going, real, parent, _) = opened_at inner b depth' e s alive rb wb in
    let (alive₂, _, going₂, real₂, parent₂, old) = opened_at kind a depth e first alive₁ ra wa in
    let same = old s.pass_count (omega (arith, count)) in
    let first' = (open_pass kind a depth e first).1 in
    let inside = begin_pass-open_pass inner b (step idle) depth' e s alive free db in
    let outside =
      begin_pass-open_pass kind a (step (begin inner b idle e)) depth e s alive free da in
    let P = λ (s' : Store).
      (is_live s'.encoders s'.passes s.pass_count ≡ true)
      × (is_live s'.encoders s'.passes (suc s.pass_count) ≡ true) in
    subst P
      (sym (
        ap (λ (r : Result ℕ × Store). r.1) outside
        ∙ ap (λ (r : Result ℕ × Store). (open_pass kind a depth e r.1).1) inside))
      (
        is_live-true first' s.pass_count e (ap PassState.ended same ∙ going)
            (ap (λ p. is_null (PassState.pass p)) same ∙ real) (ap PassState.parent same ∙ parent)
            alive₂,
        subst (λ p. is_live first'.encoders first'.passes p ≡ true) count
            (is_live-true first' first.pass_count e going₂ real₂ parent₂ alive₂),
      )
