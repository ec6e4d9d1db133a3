-- ===== src/Tick/Releases.antt =====
-- core/src/lib.rs: the drain of the release queue ends, and empties the queue.
use webgpu_native_js.Prelude.{
  ℕ, zero, suc, ◌+◌, ◌<◌, ◌≡◌, sym, ap, ◌∙◌, some, List, [], ◌∷◌, arith, length,
}
use webgpu_native_js.World.{World, ReleaseRequest, Call, emit}
use webgpu_native_js.Tick.{release_loop, drain_releases}

-- The requests are run, oldest first, onto the calls.
abbrev pub run_all : List ReleaseRequest → List Call → List Call
run_all [] calls = calls
run_all (request ∷ rest) calls = run_all rest (Call.run_release request ∷ calls)

release_loop-run_all :
    (fuel n : ℕ) (q : List ReleaseRequest) (w : World)
    → length q < fuel
    → release_loop fuel n (record w { releases = q })
      ≡ (some (n + length q), record w { releases = []; calls = run_all q w.calls })
unfolding release_loop
release_loop-run_all zero n q w h = absurd (omega (arith, h))
release_loop-run_all (suc fuel) n [] w h =
    ap (λ k. (some k, record w { releases = [] })) (omega arith)
release_loop-run_all (suc fuel) n (r ∷ q) w h =
    release_loop-run_all fuel (n + 1) q (emit (Call.run_release r) w) (omega (arith, h))
    ∙ ap (λ k. (some k, record w { releases = []; calls = run_all (r ∷ q) w.calls })) (omega arith)

-- With enough fuel
enough :
    (fuel : ℕ) (w : World)
    → length w.releases < fuel
    → release_loop fuel 0 w
      ≡ (some (length w.releases), record w { releases = []; calls = run_all w.releases w.calls })
enough fuel w h =
    release_loop-run_all fuel 0 w.releases w h
    ∙ ap (λ k. (some k, record w { releases = []; calls = run_all w.releases w.calls }))
        (omega arith)

-- The drain of the release queue ends: it runs each request once, oldest first, counts them, and
-- leaves the queue empty and the rest of the world as it was.
pub drain_releases_lem :
    (w : World)
    → drain_releases w
      ≡ (some (length w.releases), record w { releases = []; calls = run_all w.releases w.calls })
unfolding drain_releases
drain_releases_lem w = enough (suc (length w.releases)) w (omega arith)

-- More fuel changes nothing.
release_loop_enough :
    (fuel : ℕ) (w : World) → length w.releases < fuel → release_loop fuel 0 w ≡ drain_releases w
release_loop_enough fuel w h = enough fuel w h ∙ sym (drain_releases_lem w)
