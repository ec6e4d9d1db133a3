-- ===== src/Buffer/Mapping.antt =====
-- The mapping state machine over any history of calls and callbacks.
use webgpu_native_js.Prelude.{
  ℕ, ◌≡◌, ◌↔◌, ◌≢◌, ◌⊎◌, inl, inr, String, true, false, Option, none, some, List, [], ◌∷◌, ◌++◌,
  arith, if◌then◌else◌, Bool-cases,
}
use webgpu_native_js.Result.{Result, ok}
use webgpu_native_js.World.{World, MapRequest, Settlement}
use webgpu_native_js.Buffer.{
  BufferState, Detached, MapStatus, buffer_unmap, buffer_destroy, buffer_map_async_inner,
  buffer_map_callback, buffer_get_mapped_range, is_success, is_id, map_failure, any_overlap,
}
use webgpu_native_js.Buffer.Invariant.{
  Inv, unmap-Inv, destroy-Inv, map_async-Inv, callback-Inv, get_mapped_range-Inv,
}

-- What can happen to a buffer, with what the engine and webgpu.h answer.
pub data Op : Type 0 where
  -- mode, offset, size, promise
  map_async : ℕ → ℕ → ℕ → ℕ → Op
  callback : MapStatus → (String → String) → MapRequest → Op
  get_mapped_range : ℕ → Option ℕ → (ℕ → ℕ → ℕ) → Result ℕ → Op
  unmap destroy : (ℕ → Detached) → Op

unfoldable pub step : Op → BufferState × World → BufferState × World
unfolding buffer_map_async_inner buffer_map_callback buffer_get_mapped_range buffer_unmap
    buffer_destroy
step (map_async mode offset size deferred) (b, w) =
    let r = buffer_map_async_inner mode offset size deferred b w in (r.1, r.2)
step (callback status message request) (b, w) = buffer_map_callback status message request b w
step (get_mapped_range offset size native_range created) (b, w) =
    let r = buffer_get_mapped_range offset size native_range created b w in (r.1, r.2)
step (unmap engine) (b, w) = let r = buffer_unmap engine b w in (r.1, r.2)
step (destroy engine) (b, w) = let r = buffer_destroy engine b w in (r.1, r.2)

unfoldable pub run : List Op → BufferState × World → BufferState × World
run [] s = s
run (op ∷ ops) s = run ops (step op s)

pub step-Inv : (op : Op) (s : BufferState × World) → Inv s.0 → Inv (step op s).0
unfolding step
step-Inv (map_async mode offset size deferred) (b, w) v =
    map_async-Inv mode offset size deferred b w v
step-Inv (callback status message request) (b, w) v = callback-Inv status message request b w v
step-Inv (get_mapped_range offset size native_range created) (b, w) v =
    get_mapped_range-Inv offset size native_range created b w v
step-Inv (unmap engine) (b, w) v = unmap-Inv engine b w v
step-Inv (destroy engine) (b, w) v = destroy-Inv engine b w v

-- After any history a buffer that began well-formed is well-formed: it is never mapped and pending
-- at once, a destroyed one is neither, an unmapped one has no range and no map mode, a pending map
-- is the newest, no two ranges overlap, and all have the map mode of the buffer.
pub run-Inv : (ops : List Op) (s : BufferState × World) → Inv s.0 → Inv (run ops s).0
unfolding run
run-Inv [] s v = v
run-Inv (op ∷ ops) s v = run-Inv ops (step op s) (step-Inv op s v)

-- `getMappedRange` with a given size returns a value exactly when the buffer is mapped and not
-- destroyed, the range overlaps none of those handed out, webgpu.h does not return null for it,
-- and the engine makes that value of it.
pub get_mapped_range_ok :
    (offset : ℕ) (size : ℕ) (native_range : ℕ → ℕ → ℕ) (created : Result ℕ) (value : ℕ)
    (b : BufferState) (w : World)
    → ((buffer_get_mapped_range offset (some size) native_range created b w).0 ≡ ok value) ↔ (
        (b.destroyed ≡ false)
        × (b.mapped ≡ true)
        × (any_overlap offset size b.ranges ≡ false)
        × (native_range offset size ≢ 0)
        × (created ≡ ok value))
unfolding buffer_get_mapped_range
get_mapped_range_ok offset size native_range created value b w =
    (λ h. ground arith, λ h. ground arith)

-- A callback settles its promise, once. If the pending map is the one that it answers and webgpu.h
-- reports success, the promise succeeds and the buffer is mapped under the requested mode. If it is
-- the pending one and webgpu.h reports a failure, the promise fails and the buffer is left unmapped
-- and idle. If another map or none is pending, the promise is aborted, and the buffer is left as it
-- was, except that it forgets that this map was being cancelled.
pub map_callback_lem :
    (status : MapStatus) (message : String → String) (request : MapRequest) (deferred : ℕ)
    (b : BufferState) (w : World)
    → request.deferred ≡ some deferred
    → let r = buffer_map_callback status message request b w in
      ((b.pending_map ≡ some request.map_id)
        × (status ≡ MapStatus.success)
        × (r.1.settlements ≡ w.settlements ++ (Settlement.success deferred ∷ []))
        × (r.0 ≡ record b { mapped = true; map_mode = request.mode; pending_map = none }))
      ⊎ ((b.pending_map ≡ some request.map_id)
          × (status ≢ MapStatus.success)
          × (r.1.settlements
              ≡ w.settlements
                ++ (Settlement.error deferred
                      (map_failure status).0
                      (message (map_failure status).1)
                    ∷ []))
          × (r.0 ≡ record b { pending_map = none }))
      ⊎ ((b.pending_map ≢ some request.map_id)
          × (r.1.settlements
              ≡ w.settlements
                ++ (Settlement.error deferred "AbortError" "mapAsync was canceled" ∷ []))
          × (r.0 ≡ record b {
            canceling_map = if is_id b.canceling_map request.map_id then none else b.canceling_map;
          }))
unfolding buffer_map_callback
map_callback_lem status message request deferred b w h =
    elim (Bool-cases (is_id b.pending_map request.map_id)) [
      | inl mine ↦ elim (Bool-cases (is_success status)) [
        | inl yes_ ↦ inl (ground arith, ground arith, ground arith, ground arith)
        | inr no_ ↦ inr (inl (ground arith, ground arith, ground arith, ground arith))
      ]
      | inr other ↦ inr (inr (ground arith, ground arith, ground arith))
    ]
