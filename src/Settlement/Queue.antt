-- ===== src/Settlement/Queue.antt =====
-- core/src/lib.rs: the drain of the settlement queue, and its release at teardown.
use webgpu_native_js.Prelude.{ℕ, String, Option, none, some, List, [], ◌∷◌, ◌++◌, length}
use webgpu_native_js.Result.{Result, ok, err, JsError}
use webgpu_native_js.World.{
  World, ErrorType, ReleaseRequest, enqueue_release, Settlement, Outcome, Call, emit,
}
use webgpu_native_js.Settlement.{
  Engine, Prepared, deferred, retry, uncaptured, nothing, prepare, release_deferred,
  enqueue_compute_pipeline_release, enqueue_render_pipeline_release,
}

-- The three vectors of the loop
pub record Collected : Type 0 where
  pub requests : List (ℕ × Outcome)
  pub retries : List Settlement
  pub uncaptured_errors : List (ℕ × ErrorType × String)

abbrev pub add : Prepared → Collected → Collected
add (deferred d outcome) c = record c { requests = (d, outcome) ∷ c.requests }
add (retry request) c = record c { retries = request ∷ c.retries }
add (uncaptured state type_ message) c = record c {
  uncaptured_errors = (state, type_, message) ∷ c.uncaptured_errors;
}
add nothing c = c

-- The loop over the requests
unfoldable pub collect : Engine → List Settlement → World → Collected × World
unfolding prepare
collect engine [] w = (record { requests = []; retries = []; uncaptured_errors = [] }, w)
collect engine (request ∷ rest) w =
    let p = prepare engine request w in let c = collect engine rest p.1 in (add p.0 c.0, c.1)

-- The queue is popped, and what has to be tried again is put back.
unfoldable pub drain_queue : Engine → World → Collected × World
unfolding collect
drain_queue engine w =
    let c = collect engine w.settlements (record w { settlements = [] }) in
    (c.0, record c.1 { settlements = c.1.settlements ++ c.0.retries })

-- TickError::Engine is the only error of a drain.
abbrev pub first_error : Option JsError → Result (Unit {0}) → Option JsError
first_error (some error) result = some error
first_error none (err error) = some error
first_error none (ok done) = none

-- What the engine does, script included, is an argument: it settles a batch of promises, and
-- dispatches an uncaptured error of a device.
pub record Reactions : Type 0 where
  pub settle : List (ℕ × Outcome) → World → Result (Unit {0}) × World
  pub dispatch : ℕ × ErrorType × String → World → Result (Unit {0}) × World

abbrev pub dispatch_all :
    Reactions → List (ℕ × ErrorType × String) → Option JsError → World → Option JsError × World
dispatch_all reactions [] first w = (first, w)
dispatch_all reactions (e ∷ es) first w =
    let r = reactions.dispatch e w in dispatch_all reactions es (first_error first r.0) r.1

abbrev pub settle_batch : Reactions → List (ℕ × Outcome) → World → Result (Unit {0}) × World
settle_batch reactions [] w = (ok tt, w)
settle_batch reactions (r ∷ rs) w =
    reactions.settle (r ∷ rs) (emit (Call.settle_deferreds (r ∷ rs)) w)

abbrev pub counted : ℕ → Option JsError → Result ℕ
counted n none = ok n
counted n (some error) = err error

-- `?` after the batch, and the dispatch of the uncaptured errors
abbrev pub after_batch : Reactions → Collected → Result (Unit {0}) → World → Result ℕ × World
after_batch reactions c (err error) w = (err error, w)
after_batch reactions c (ok done) w =
    let r = dispatch_all reactions c.uncaptured_errors none w in
    (counted (length c.requests) r.0, r.1)

-- SettlementQueue::drain
unfoldable pub drain : Engine → Reactions → World → Result ℕ × World
unfolding drain_queue
drain engine reactions w =
    let c = drain_queue engine w in
    let b = settle_batch reactions c.0.requests c.1 in after_batch reactions c.0 b.0 b.1

-- One request of `release_pending`; an adapter or a device that nobody took is released when its
-- `PendingNative` is dropped
unfoldable pub release_request : Settlement → World → World
unfolding enqueue_compute_pipeline_release enqueue_render_pipeline_release
release_request (Settlement.adapter d native) w =
    enqueue_release (ReleaseRequest.adapter native) (emit (Call.release_deferred d) w)
release_request (Settlement.adapter_unavailable d) w = emit (Call.release_deferred d) w
release_request (Settlement.device d native state label) w =
    enqueue_release (ReleaseRequest.device native) (emit (Call.release_deferred d) w)
release_request (Settlement.compilation_info d messages) w = emit (Call.release_deferred d) w
release_request (Settlement.success d) w = emit (Call.release_deferred d) w
release_request (Settlement.error d name message) w = emit (Call.release_deferred d) w
release_request (Settlement.pop_error_scope d status type_ message synthetic state) w =
    emit (Call.release_deferred d) w
release_request (Settlement.start_map buffer mode offset size request) w =
    release_deferred request.deferred w
release_request
      (Settlement.compute_pipeline d pipeline status message state lost_at_start module_ layout
        label)
      w =
    enqueue_compute_pipeline_release pipeline module_ layout (emit (Call.release_deferred d) w)
release_request
      (Settlement.render_pipeline d pipeline status message state lost_at_start vertex fragment
        layout label)
      w =
    enqueue_render_pipeline_release pipeline vertex fragment layout
      (emit (Call.release_deferred d) w)
release_request (Settlement.uncaptured_error state type_ message) w = w
release_request (Settlement.device_lost state reason message) w = w

unfoldable pub release_requests : List Settlement → World → World
unfolding release_request
release_requests [] w = w
release_requests (request ∷ rest) w = release_requests rest (release_request request w)

-- SettlementQueue::release_pending
unfoldable pub release_pending : World → World
unfolding release_requests
release_pending w = release_requests w.settlements (record w { settlements = [] })
