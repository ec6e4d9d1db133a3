-- ===== src/Submit/Once.antt =====
-- core/src/lib.rs: which lists of command buffers reach the native queue.
use webgpu_native_js.Prelude.{
  ℕ, String, ◌≡◌, refl, sym, ap, ◌∙◌, subst, ◌≢◌, ◌↔◌, inl, inr, Bool, true, false, none, some,
  List, [], ◌∷◌, map, arith, ◌==◌, Bool-cases, Option-cases, ==_iff, All,
}
use mathlib.Core.Bool.{true≢false, false≢true}
use webgpu_native_js.World.{Call, emit}
use webgpu_native_js.ErrorScopes.{generate_validation_error}
use webgpu_native_js.Encoder.{CommandBufferState, Store}
use webgpu_native_js.Submit.{
  has, Fault, note_state, inspect, consume_all, conclude, submit, submit_all,
}

-- A buffer that may be submitted
abbrev pub Fit : CommandBufferState → Type 0
Fit state = (state.consumed ≡ false) × (state.invalid ≡ false)

-- No two elements are the same.
abbrev pub Distinct : List ℕ → Type 0
Distinct [] = Unit
Distinct (b ∷ bs) = All (λ c. c ≢ b) bs × Distinct bs

-- What `inspect` finds to be wrong with the rest of a list
abbrev Sound : (ℕ → CommandBufferState) → List ℕ → List ℕ → Type 0
Sound B seen [] = Unit
Sound B seen (b ∷ bs) = (has b seen ≡ false) × Fit (B b) × Sound B (b ∷ seen) bs

note_state-some :
    (duplicate : Bool) (state : CommandBufferState) (fault : ℕ × String)
    → note_state duplicate state (some fault) ≡ some fault
note_state-some duplicate state fault = grind arith

inspect-some :
    (B : ℕ → CommandBufferState) (seen ids : List ℕ) (fault : ℕ × String)
    → (inspect B seen (some fault) ids).0 ≡ some fault
unfolding inspect
inspect-some B seen [] fault = refl
inspect-some B seen (b ∷ bs) fault =
    subst (λ f. (inspect B (b ∷ seen) f bs).0 ≡ some fault)
      (sym (note_state-some (has b seen) (B b) fault)) (inspect-some B (b ∷ seen) bs fault)

inspect_handles :
    (B : ℕ → CommandBufferState) (seen ids : List ℕ) (fault : Fault)
    → (inspect B seen fault ids).1 ≡ map (λ b. (B b).command_buffer) ids
unfolding inspect
inspect_handles B seen [] fault = refl
inspect_handles B seen (b ∷ bs) fault =
    ap (λ rest. (B b).command_buffer ∷ rest) (inspect_handles B (b ∷ seen) bs _)

note_state-none :
    (duplicate : Bool) (state : CommandBufferState)
    → (note_state duplicate state none ≡ none) ↔ ((duplicate ≡ false) × Fit state)
note_state-none duplicate state = grind arith

none≢some {ℓ} : {A : Type ℓ} (a : A) → none ≢ some a
none≢some a = ground arith

-- The loop finds nothing exactly if the rest of the list is sound.
inspect-none :
    (B : ℕ → CommandBufferState) (seen ids : List ℕ)
    → ((inspect B seen none ids).0 ≡ none) ↔ Sound B seen ids
unfolding inspect
inspect-none B seen [] = ((λ _. tt), (λ _. refl))
inspect-none B seen (b ∷ bs) =
    let duplicate = has b seen in
    elim (Option-cases (note_state duplicate (B b) none)) [
      | inl fine ↦
          let sound = (note_state-none duplicate (B b)).0 fine in
          let ih = inspect-none B (b ∷ seen) bs in
          rw fine ((λ h. (sound.0, sound.1, ih.0 h)), (λ h. ih.1 h.2))
      | inr found ↦ rw found.1 (
        (λ h. absurd (none≢some found.0 (sym h ∙ inspect-some B (b ∷ seen) bs found.0))),
        (λ h.
            absurd
              (none≢some found.0 (sym ((note_state-none duplicate (B b)).1 (h.0, h.1)) ∙ found.1))),
      )
    ]

fresh_iff :
    (b : ℕ) (seen ids : List ℕ)
    → All (λ c. has c (b ∷ seen) ≡ false) ids
      ↔ (All (λ c. c ≢ b) ids × All (λ c. has c seen ≡ false) ids)
fresh_iff b seen [] = ((λ _. (tt, tt)), (λ _. tt))
fresh_iff b seen (c ∷ cs) = let ih = fresh_iff b seen cs in ground (arith, ih)

Sound-iff :
    (B : ℕ → CommandBufferState) (seen ids : List ℕ)
    → Sound B seen ids
      ↔ (All (λ c. has c seen ≡ false) ids × Distinct ids × All (λ b. Fit (B b)) ids)
Sound-iff B seen [] = ((λ _. (tt, tt, tt)), (λ _. tt))
Sound-iff B seen (b ∷ bs) =
    let ih = Sound-iff B (b ∷ seen) bs in
    let fresh = fresh_iff b seen bs in
    (
      (λ h. let r = ih.0 h.2 in let f = fresh.0 r.0 in ((h.0, f.1), (f.0, r.1), (h.1, r.2))),
      (λ h. (h.0.0, h.2.0, ih.1 (fresh.1 (h.1.0, h.0.1), h.1.1, h.2.1))),
    )

All-fresh : (ids : List ℕ) → All (λ c. has c [] ≡ false) ids
All-fresh [] = tt
All-fresh (c ∷ cs) = (refl, All-fresh cs)

consume_all-keeps :
    (ids : List ℕ) (B : ℕ → CommandBufferState) (b : ℕ)
    → (B b).consumed ≡ true
    → (consume_all ids B b).consumed ≡ true
unfolding consume_all
consume_all-keeps [] B b h = h
consume_all-keeps (c ∷ cs) B b h = consume_all-keeps cs _ b (ground (arith, h))

-- Every buffer of the list is consumed.
consume_all_lem :
    (ids : List ℕ) (B : ℕ → CommandBufferState) (b : ℕ)
    → has b ids ≡ true
    → (consume_all ids B b).consumed ≡ true
unfolding consume_all
consume_all_lem [] B b h = absurd (false≢true h)
consume_all_lem (c ∷ cs) B b h = elim (Bool-cases (c == b)) [
  | inl same ↦ consume_all-keeps cs _ b (ground (arith, same))
  | inr other ↦ consume_all_lem cs _ b (ground (arith, h, other))
]

conclude-command_buffers :
    (fault : Fault) (handles : List ℕ) (s : Store)
    → (conclude fault handles s).command_buffers ≡ s.command_buffers
conclude-command_buffers none handles s = refl
conclude-command_buffers (some fault) handles s = refl

-- A list in which no buffer occurs twice and each is neither consumed nor invalid is submitted
-- natively, with exactly its handles in order, and the world changes by nothing else.
pub submit_accepted :
    (ids : List ℕ) (s : Store)
    → Distinct ids
    → All (λ b. Fit (s.command_buffers b)) ids
    → (submit ids s).world
      ≡ emit (Call.queue_submit (map (λ b. (s.command_buffers b).command_buffer) ids)) s.world
unfolding submit
submit_accepted ids s distinct fit =
    let B = s.command_buffers in
    rw
      (
        (inspect-none B [] ids).1 ((Sound-iff B [] ids).1 (All-fresh ids, distinct, fit)),
        inspect_handles B [] ids none,
      )
      refl

-- A list in which a buffer occurs twice or is consumed or invalid is not submitted natively: the
-- world changes by one validation error alone.
pub submit_refused :
    (ids : List ℕ) (s : Store)
    → ¬ (Distinct ids × All (λ b. Fit (s.command_buffers b)) ids)
    → (fault : ℕ × String) × ((submit ids s).world
        ≡ generate_validation_error fault.0 fault.1 s.world)
unfolding submit
submit_refused ids s bad =
    let B = s.command_buffers in
    let r = inspect B [] none ids in
    elim (Option-cases r.0) [
      | inl fine ↦
          let g = (Sound-iff B [] ids).0 ((inspect-none B [] ids).0 fine) in absurd (bad (g.1, g.2))
      | inr found ↦ (found.0, rw found.1 refl)
    ]

-- Whether it was submitted or refused, every buffer of the list is consumed afterwards.
pub submit_consumes :
    (ids : List ℕ) (s : Store) (b : ℕ)
    → has b ids ≡ true
    → ((submit ids s).command_buffers b).consumed ≡ true
unfolding submit
submit_consumes ids s b h =
    let r = inspect s.command_buffers [] none ids in
    let s' = record s { command_buffers = consume_all ids s.command_buffers } in
    subst (λ C. (C b).consumed ≡ true) (sym (conclude-command_buffers r.0 r.1 s'))
      (consume_all_lem ids s.command_buffers b h)

submit-consumed :
    (ids : List ℕ) (b : ℕ) (s : Store)
    → (s.command_buffers b).consumed ≡ true
    → ((submit ids s).command_buffers b).consumed ≡ true
unfolding submit
submit-consumed ids b s h =
    let r = inspect s.command_buffers [] none ids in
    subst (λ C. (C b).consumed ≡ true)
      (sym (
        conclude-command_buffers r.0 r.1
          (record s { command_buffers = consume_all ids s.command_buffers })))
      (consume_all-keeps ids s.command_buffers b h)

submit_all-consumed :
    (more : List (List ℕ)) (b : ℕ) (s : Store)
    → (s.command_buffers b).consumed ≡ true
    → ((submit_all more s).command_buffers b).consumed ≡ true
unfolding submit_all
submit_all-consumed [] b s h = h
submit_all-consumed (ids ∷ more) b s h =
    submit_all-consumed more b (submit ids s) (submit-consumed ids b s h)

All-Fit :
    (B : ℕ → CommandBufferState) (b : ℕ) (ids : List ℕ)
    → has b ids ≡ true
    → All (λ c. Fit (B c)) ids
    → Fit (B b)
All-Fit B b [] h fit = absurd (false≢true h)
All-Fit B b (c ∷ cs) h fit = elim (Bool-cases (c == b)) [
  | inl same ↦ subst (λ n. Fit (B n)) ((==_iff c b).0 same) fit.0
  | inr other ↦ All-Fit B b cs (ground (arith, h, other)) fit.1
]

-- After a list with buffer `b` was submitted, and any further lists, a list that has `b` again
-- does not reach the native queue: the world changes by one validation error alone.
pub submitted_once :
    (ids : List ℕ) (more : List (List ℕ)) (again : List ℕ) (b : ℕ) (s : Store)
    → has b ids ≡ true
    → has b again ≡ true
    → let s₁ = submit_all (ids ∷ more) s in
      (fault : ℕ × String) × ((submit again s₁).world
        ≡ generate_validation_error fault.0 fault.1 s₁.world)
unfolding submit_all
submitted_once ids more again b s h h' =
    let s₁ = submit_all (ids ∷ more) s in
    let used = submit_all-consumed more b (submit ids s) (submit_consumes ids s b h) in
    submit_refused again s₁
      (λ good. absurd (true≢false (sym used ∙ (All-Fit s₁.command_buffers b again h' good.1).0)))
