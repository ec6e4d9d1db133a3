-- ===== src/Tests/Mapping.antt =====
-- Mapped buffers at concrete states.
use webgpu_native_js.Prelude.{
  ℕ, ◌+◌, ◌^◌, ◌≤◌, ◌<◌, String, ◌≡◌, refl, ◌↔◌, ◌⊎◌, inl, inr, Bool, true, false, Option, none,
  some, List, [], ◌∷◌, arith, if◌then◌else◌,
}
use webgpu_native_js.Result.{Result, ok}
use webgpu_native_js.World.{World, MapRequest, Call}
use webgpu_native_js.ErrorScopes.{new}
use webgpu_native_js.Buffer.{
  BufferState, MappedRange, Detached, MapStatus, mapped_ranges_overlap, detach_all_ranges,
  buffer_map_callback,
}
use webgpu_native_js.Buffer.Ranges.{mapped_ranges_overlap_iff}
use webgpu_native_js.Buffer.Detach.{detach_all_ranges_lem, copied}
use webgpu_native_js.Buffer.Invariant.{Inv}
use webgpu_native_js.Buffer.Mapping.{
  Op, map_async, callback, get_mapped_range, unmap, step, run, run-Inv,
}
use webgpu_native_js.Buffer.Cancel.{cancel_by, canceled_map_aborts}
use webgpu_native_js.Settlement.{Engine}
use webgpu_native_js.Settlement.Queue.{collect, drain_queue}
use webgpu_native_js.Settlement.Starts.{deferred_start_survives_unmap}

abbrev world : World
world = record { events = λ d. new; registered = []; settlements = []; releases = []; calls = [] }

-- A buffer that is mapped for writing, pending, or neither
abbrev buffer : Bool → Option ℕ → Option ℕ → List MappedRange → BufferState
buffer mapped pending canceling ranges = record {
  state = 1;
  buffer = 11;
  parent_device = 12;
  registry_id = 0;
  size = 64;
  usage = 2;
  label = "staging";
  destroyed = false;
  mapped = mapped;
  pending_map = pending;
  canceling_map = canceling;
  next_map_id = 3;
  map_mode = if mapped then 2 else 0;
  error_sink = 0;
  ranges = ranges;
}

abbrev range : MappedRange
range = record { value = 21; offset = 8; size = 4; native_ptr = 100; map_mode = 2 }

-- An engine that detaches every ArrayBuffer
abbrev engine : ℕ → Detached
engine value = record { error = none; len = some 0; bytes = 1 ∷ 2 ∷ 3 ∷ 4 ∷ [] }

abbrev request : MapRequest
request = record { deferred = some 31; mode = 2; map_id = 3; state = 1 }

abbrev same : String → String
same message = message

idle-Inv :
    (pending : Option ℕ) (canceling : Option ℕ)
    → (pending ≡ none) ⊎ (pending ≡ some 3)
    → Inv (buffer false pending canceling [])
idle-Inv pending canceling current = record {
  exclusive = λ h. ground (arith, h);
  destroyed_idle = λ h. ground (arith, h);
  unmapped_empty = λ h. (refl, refl);
  current = current;
  disjoint = tt;
  modes = tt;
}

mapped_ranges_overlap_iff_example :
    (mapped_ranges_overlap 0 4 8 4 ≡ false)
    ↔ ((0 + 4 < 2 ^ 64) × (8 + 4 < 2 ^ 64) × ((8 + 4 ≤ 0) ⊎ (0 + 4 ≤ 8)))
mapped_ranges_overlap_iff_example = mapped_ranges_overlap_iff 0 4 8 4

detach_all_ranges_lem_example :
    copied (detach_all_ranges engine true (buffer true none none (range ∷ [])) world).2.calls
    ≡ (100, 1 ∷ 2 ∷ 3 ∷ 4 ∷ []) ∷ []
detach_all_ranges_lem_example =
    (detach_all_ranges_lem engine true (buffer true none none (range ∷ [])) world).3

abbrev native_range : ℕ → ℕ → ℕ
native_range offset size = 100 + offset

abbrev created : Result ℕ
created = ok 22

abbrev history : List Op
history =
    map_async 2 0 64 31
    ∷ callback MapStatus.success same (record request { map_id = 4 })
    ∷ get_mapped_range 8 (some 4) native_range (ok 21)
    ∷ unmap engine
    ∷ []

run-Inv_example : Inv (run history (buffer false none none [], world)).0
run-Inv_example = run-Inv history (buffer false none none [], world) (idle-Inv none none (inl refl))

-- Cancelled by `destroy`, and asked for another map
abbrev canceled : BufferState × World
canceled =
    run (map_async 2 0 64 32 ∷ [])
      (step (cancel_by false engine) (buffer false (some 3) none [], world))

canceled_map_aborts_example :
    (buffer_map_callback MapStatus.success same request canceled.0 canceled.1).0.mapped
    ≡ canceled.0.mapped
canceled_map_aborts_example =
    (canceled_map_aborts false engine (map_async 2 0 64 32 ∷ []) MapStatus.success same request 31
      (buffer false (some 3) none []) world (idle-Inv (some 3) none (inr refl)) refl refl
      (omega arith)).1

-- Asked for a map and unmapped, while the callback of a cancelled map is outstanding
abbrev cut_off : BufferState × World
cut_off = run (map_async 2 0 64 31 ∷ unmap engine ∷ []) (buffer false none (some 2) [], world)

abbrev late_request : MapRequest
late_request = record request { map_id = 4 }

-- An engine that builds every value
abbrev calm : Engine
calm = record { fails = λ d. none; promise = λ d. ok (100 + d, 200 + d) }

deferred_start_survives_unmap_example :
    (drain_queue calm cut_off.1).1.calls
    ≡ Call.buffer_map_async 11 2 0 64 late_request
      ∷ (collect calm [] (record cut_off.1 { settlements = [] })).1.calls
deferred_start_survives_unmap_example =
    (deferred_start_survives_unmap 2 0 64 31 2 calm engine same (buffer false none (some 2) [])
      world (idle-Inv none (some 2) (inl refl)) refl refl refl refl).1
