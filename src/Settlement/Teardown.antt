-- ===== src/Settlement/Teardown.antt =====
-- core/src/lib.rs: what the teardown of the settlement queue releases.
use webgpu_native_js.Prelude.{ℕ, ◌+◌, ◌≡◌, refl, ◌∙◌, Option, none, some, List, [], ◌∷◌, arith}
use webgpu_native_js.World.{World, Settlement, Call, emit}
use webgpu_native_js.Settlement.{
  release_deferred, enqueue_compute_pipeline_release, enqueue_render_pipeline_release,
}
use webgpu_native_js.Settlement.Queue.{release_request, release_requests, release_pending}
use webgpu_native_js.Settlement.Owed.{is_it, is_it?, owed, owed_all}

-- How often `v` was released
abbrev pub given_up : ℕ → List Call → ℕ
given_up v [] = 0
given_up v (c ∷ cs) = (elim c [ Call.release_deferred d ↦ is_it v d | _ ↦ 0 ]) + given_up v cs

-- A request gives `v` up as often as it owes it, and leaves the queue alone.
abbrev GivesUp : ℕ → ℕ → World → World → Type 0
GivesUp v n w w' = (given_up v w'.calls ≡ n + given_up v w.calls) × (w'.settlements ≡ w.settlements)

module _ (v : ℕ) where
  compute-GivesUp :
      (p m l d : ℕ) (w : World)
      → GivesUp v
          (is_it v d)
          w
          (enqueue_compute_pipeline_release p m l (emit (Call.release_deferred d) w))
  unfolding enqueue_compute_pipeline_release
  compute-GivesUp p m l d w = ground arith

  render-GivesUp :
      (p m f l d : ℕ) (w : World)
      → GivesUp v
          (is_it v d)
          w
          (enqueue_render_pipeline_release p m f l (emit (Call.release_deferred d) w))
  unfolding enqueue_render_pipeline_release
  render-GivesUp p m f l d w = ground arith

  deferred-GivesUp : (o : Option ℕ) (w : World) → GivesUp v (is_it? v o) w (release_deferred o w)
  deferred-GivesUp none w = (omega arith, refl)
  deferred-GivesUp (some d) w = (refl, refl)

  release_request-GivesUp :
      (s : Settlement) (w : World) → GivesUp v (owed v s) w (release_request s w)
  unfolding release_request
  release_request-GivesUp (Settlement.adapter d n) w = (refl, refl)
  release_request-GivesUp (Settlement.adapter_unavailable d) w = (refl, refl)
  release_request-GivesUp (Settlement.device d n st la) w = (refl, refl)
  release_request-GivesUp (Settlement.compute_pipeline d p s m st l mo la label) w =
      compute-GivesUp p mo la d w
  release_request-GivesUp (Settlement.render_pipeline d p s m st l ve fr la label) w =
      render-GivesUp p ve fr la d w
  release_request-GivesUp (Settlement.compilation_info d m) w = (refl, refl)
  release_request-GivesUp (Settlement.success d) w = (refl, refl)
  release_request-GivesUp (Settlement.error d n m) w = (refl, refl)
  release_request-GivesUp (Settlement.start_map b m o s r) w = deferred-GivesUp r.deferred w
  release_request-GivesUp (Settlement.pop_error_scope d s t m e st) w = (refl, refl)
  release_request-GivesUp (Settlement.uncaptured_error st t m) w = (omega arith, refl)
  release_request-GivesUp (Settlement.device_lost st r m) w = (omega arith, refl)

  release_requests-GivesUp :
      (q : List Settlement) (w : World) → GivesUp v (owed_all v q) w (release_requests q w)
  unfolding release_requests
  release_requests-GivesUp [] w = (omega arith, refl)
  release_requests-GivesUp (s ∷ q) w =
      let one = release_request-GivesUp s w in
      let more = release_requests-GivesUp q (release_request s w) in
      (omega (arith, one.0, more.0), more.1 ∙ one.1)

-- At teardown the queue is emptied, and each promise is released exactly as often as the queue
-- owed it.
pub release_pending_lem :
    (v : ℕ) (w : World)
    → (given_up v (release_pending w).calls ≡ owed_all v w.settlements + given_up v w.calls)
      × ((release_pending w).settlements ≡ [])
unfolding release_pending
release_pending_lem v w = release_requests-GivesUp v w.settlements (record w { settlements = [] })
