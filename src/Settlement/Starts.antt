-- ===== src/Settlement/Starts.antt =====
-- core/src/lib.rs: a map that waits in the settlement queue is started by the drain, also when
-- `unmap` cancelled it in the meantime.
use webgpu_native_js.Prelude.{
  ℕ, ◌+◌, ◌^◌, ◌%◌, ◌≡◌, refl, ap, ◌∙◌, String, false, none, some, List, [], ◌∷◌, ◌++◌, arith,
}
use webgpu_native_js.World.{World, MapRequest, Settlement, Call}
use webgpu_native_js.Buffer.{
  BufferState, Detached, MapStatus, buffer_map_callback, start_buffer_map,
}
use webgpu_native_js.Buffer.Invariant.{Inv}
use webgpu_native_js.Buffer.Mapping.{map_async, unmap, step, run}
use webgpu_native_js.Settlement.{Engine, prepare}
use webgpu_native_js.Settlement.Queue.{collect, drain_queue}

-- The last request of a queue, a start, is asked of webgpu.h after all others were prepared.
collect-start_map :
    (js : Engine) (buffer mode offset size : ℕ) (request : MapRequest) (q : List Settlement)
    (w : World)
    → (collect js (q ++ (Settlement.start_map buffer mode offset size request ∷ [])) w).1
      ≡ start_buffer_map buffer mode offset size request (collect js q w).1
unfolding collect prepare
collect-start_map js buffer mode offset size request [] w = refl
collect-start_map js buffer mode offset size request (s ∷ q) w =
    collect-start_map js buffer mode offset size request q (prepare js s w).1

drain_queue-start_map :
    (js : Engine) (buffer mode offset size : ℕ) (request : MapRequest) (q : List Settlement)
    (w : World)
    → w.settlements ≡ q ++ (Settlement.start_map buffer mode offset size request ∷ [])
    → (drain_queue js w).1.calls
      ≡ Call.buffer_map_async buffer mode offset size request
        ∷ (collect js q (record w { settlements = [] })).1.calls
unfolding drain_queue
drain_queue-start_map js buffer mode offset size request q w queued =
    ap (λ l. (collect js l (record w { settlements = [] })).1.calls) queued
    ∙ ap World.calls
        (collect-start_map js buffer mode offset size request q (record w { settlements = [] }))

cut_off :
    (mode offset size deferred canceled : ℕ) (engine : ℕ → Detached) (message : String → String)
    (b : BufferState) (w later : World)
    → Inv b
    → b.destroyed ≡ false
    → b.mapped ≡ false
    → b.pending_map ≡ none
    → b.canceling_map ≡ some canceled
    → let request : MapRequest = record {
      deferred = some deferred;
      mode = mode;
      map_id = (b.next_map_id + 1) % 2 ^ 64;
      state = b.state;
    } in
      let s = run (map_async mode offset size deferred ∷ unmap engine ∷ []) (b, w) in
      let r = buffer_map_callback MapStatus.success message request s.0 later in
      (s.1.settlements
        ≡ w.settlements ++ (Settlement.start_map b.buffer mode offset size request ∷ []))
      × (s.1.calls ≡ Call.buffer_unmap b.buffer ∷ w.calls)
      × (r.0.mapped ≡ false)
      × (r.0.pending_map ≡ none)
      × (r.1.settlements
          ≡ later.settlements
            ++ (Settlement.error deferred "AbortError" "mapAsync was canceled" ∷ []))
unfolding run step buffer_map_callback
cut_off mode offset size deferred canceled engine message b w later v alive m p c =
    (ground arith, ground arith, ground arith, ground arith, ground arith)

-- A map that waits for the callback of a cancelled one, and is cancelled by `unmap` itself, is
-- started by the next drain all the same: after all requests that were queued before it, and after
-- the last unmap, the drain asks webgpu.h for the map. When webgpu.h reports success, the promise is
-- rejected and the buffer counts as unmapped, with no map pending, so that nothing unmaps it.
pub deferred_start_survives_unmap :
    (mode offset size deferred canceled : ℕ) (js : Engine) (engine : ℕ → Detached)
    (message : String → String) (b : BufferState) (w : World)
    → Inv b
    → b.destroyed ≡ false
    → b.mapped ≡ false
    → b.pending_map ≡ none
    → b.canceling_map ≡ some canceled
    → let request : MapRequest = record {
      deferred = some deferred;
      mode = mode;
      map_id = (b.next_map_id + 1) % 2 ^ 64;
      state = b.state;
    } in
      let s = run (map_async mode offset size deferred ∷ unmap engine ∷ []) (b, w) in
      let drained = (drain_queue js s.1).1 in
      let r = buffer_map_callback MapStatus.success message request s.0 drained in
      (s.1.calls ≡ Call.buffer_unmap b.buffer ∷ w.calls)
      × (drained.calls
          ≡ Call.buffer_map_async b.buffer mode offset size request
            ∷ (collect js w.settlements (record s.1 { settlements = [] })).1.calls)
      × (r.0.mapped ≡ false)
      × (r.0.pending_map ≡ none)
      × (r.1.settlements
          ≡ drained.settlements
            ++ (Settlement.error deferred "AbortError" "mapAsync was canceled" ∷ []))
deferred_start_survives_unmap mode offset size deferred canceled js engine message b w v alive m p
      c =
    let s = run (map_async mode offset size deferred ∷ unmap engine ∷ []) (b, w) in
    let (queued, unmapped, idle, free, rejected) =
      cut_off mode offset size deferred canceled engine message b w (drain_queue js s.1).1 v alive m
        p c in
    (
      unmapped,
      drain_queue-start_map js b.buffer mode offset size _ w.settlements s.1 queued,
      idle,
      free,
      rejected,
    )
