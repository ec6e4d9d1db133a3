-- ===== src/Tests/Ticking.antt =====
-- Ticks, frames and promise operations at concrete hosts.
use webgpu_native_js.Prelude.{◌+◌, ◌≡◌, refl, true, none, some, [], ◌∷◌}
use webgpu_native_js.Result.{ok, err, JsError}
use webgpu_native_js.World.{
  World, ReleaseRequest, Settlement, Call, enqueue_settlement, enqueue_release,
}
use webgpu_native_js.ErrorScopes.{new}
use webgpu_native_js.Tick.{Host, PromiseHost, drain_releases, frame, promise_operation}
use webgpu_native_js.Tick.Releases.{drain_releases_lem}
use webgpu_native_js.Tick.Order.{
  answer, run_phases, pumping, start, rest_of_frame, frame-run_phases,
}
use webgpu_native_js.Tick.Promise.{disposed, disposed_once}

abbrev pending : World
pending = record {
  events = λ d. new;
  registered = [];
  settlements = [];
  releases = ReleaseRequest.adapter 1 ∷ ReleaseRequest.queue 2 ∷ [];
  calls = [];
}

drain_releases_lem_example : drain_releases pending ≡ (
  some 2,
  record pending {
    releases = [];
    calls =
        Call.run_release (ReleaseRequest.queue 2)
        ∷ Call.run_release (ReleaseRequest.adapter 1)
        ∷ [];
  },
)
drain_releases_lem_example = drain_releases_lem pending

-- A host whose events queue an answer, whose microtasks release a queue, and whose callback throws
abbrev host : Host
host = record {
  process_events = enqueue_settlement (Settlement.success 3);
  values = record { fails = λ d. none; promise = λ d. ok (100, 200) };
  reactions = record { settle = λ batch w. (ok tt, w); dispatch = λ e w. (ok tt, w) };
  drain_microtasks = λ w. (ok tt, enqueue_release (ReleaseRequest.queue 4) w);
  global = 1;
  get_property = λ object key w. (ok 2, w);
  call = λ callback receiver args w. (err (JsError.thrown 9), w);
  is_callable = λ v. true;
  is_object = λ v. true;
}

frame-run_phases_example :
    frame host "frame" [] pending
    ≡ answer (
        run_phases host "frame" []
          (rest_of_frame (run_phases host "frame" [] pumping (start pending)).error)
          (run_phases host "frame" [] pumping (start pending)))
frame-run_phases_example = frame-run_phases host "frame" [] pending

-- An operation that fails before it takes its deferred
abbrev failing : PromiseHost
failing = record {
  new_promise = λ w. (ok (1, 2), w);
  settle_deferreds = λ batch w. (ok tt, w);
  operation = λ deferred w. (err (JsError.type_error "no"), deferred, w);
}

disposed_once_example : disposed 2 (promise_operation failing pending).1.calls ≡ 1 + 0
disposed_once_example = disposed_once 2 failing pending pending (1, 2) refl (λ batch w. refl)
