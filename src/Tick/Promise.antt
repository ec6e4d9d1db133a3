-- ===== src/Tick/Promise.antt =====
-- core/src/lib.rs: what `promise_operation` does with its deferred.
use webgpu_native_js.Prelude.{ℕ, ◌+◌, ◌≡◌, refl, ap, ◌∙◌, Option, none, some, List, [], ◌∷◌, arith}
use webgpu_native_js.Result.{Result, ok, err}
use webgpu_native_js.World.{World, Outcome, Call, emit}
use webgpu_native_js.Settlement.Owed.{is_it, is_it?, settled_in}
use webgpu_native_js.Tick.{
  PromiseHost, promise_operation, run_operation, after_operation, settled_with,
}

-- How often the engine was told to settle or to release `v`
abbrev pub disposed : ℕ → List Call → ℕ
disposed v [] = 0
disposed v (c ∷ cs) =
    (elim c [
      | Call.release_deferred d ↦ is_it v d
      | Call.settle_deferreds batch ↦ settled_in v batch
      | _ ↦ 0
    ])
    + disposed v cs

-- Settling a batch settles and releases no other deferred: script runs with the microtasks only.
abbrev pub SettlesOnly : ℕ → PromiseHost → Type 0
SettlesOnly v host =
    (batch : List (ℕ × Outcome)) (w : World)
    → disposed v (host.settle_deferreds batch w).1.calls ≡ disposed v w.calls

settled_with-world :
    (promise : ℕ) (r : Result (Unit {0}) × World) → (settled_with promise r).1 ≡ r.1
settled_with-world promise (err e, w) = refl
settled_with-world promise (ok done, w) = refl

after_operation-disposed :
    (v : ℕ) (host : PromiseHost) (promise : ℕ) (r : Result (Unit {0})) (left : Option ℕ) (w : World)
    → SettlesOnly v host
    → disposed v (after_operation host promise r left w).1.calls
      ≡ is_it? v left + disposed v w.calls
after_operation-disposed v host promise (ok done) none w h = omega arith
after_operation-disposed v host promise (ok done) (some d) w h = refl
after_operation-disposed v host promise (err e) none w h = omega arith
after_operation-disposed v host promise (err e) (some d) w h =
    let batch : List (ℕ × Outcome) = (d, Outcome.engine_error e) ∷ [] in
    let told = emit (Call.settle_deferreds batch) w in
    ap (λ (x : World). disposed v x.calls)
      (settled_with-world promise (host.settle_deferreds batch told))
    ∙ h batch told
    ∙ omega arith

-- However an operation ends, the deferred that it leaves is settled or released exactly once after
-- it, and one that it took is left alone.
pub disposed_once :
    (v : ℕ) (host : PromiseHost) (w created : World) (p : ℕ × ℕ)
    → host.new_promise w ≡ (ok p, created)
    → SettlesOnly v host
    → let r = host.operation (some p.1) created in
      disposed v (promise_operation host w).1.calls ≡ is_it? v r.1 + disposed v r.2.calls
unfolding promise_operation
disposed_once v host w created p made h =
    let r = host.operation (some p.1) created in
    ap (λ n. disposed v (run_operation host n).1.calls) made
    ∙ after_operation-disposed v host p.0 r.0 r.1 r.2 h
