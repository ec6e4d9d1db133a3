-- ===== src/Buffer/Invariant.antt =====
-- What holds of a buffer between two calls, and that every operation keeps it.
use webgpu_native_js.Prelude.{
  ℕ, ◌≡◌, refl, ◌∙◌, String, true, false, Option, none, some, List, [], ◌∷◌, ◌++◌, arith, ◌⊎◌,
}
use webgpu_native_js.Result.{Result}
use webgpu_native_js.World.{World, MapRequest}
use webgpu_native_js.Buffer.{
  MappedRange, BufferState, mapped_ranges_overlap, any_overlap, Detached, buffer_unmap,
  buffer_destroy, buffer_map_async_inner, MapStatus, buffer_map_callback, buffer_get_mapped_range,
}
use webgpu_native_js.Buffer.Ranges.{mapped_ranges_overlap_comm}

-- No two mapped ranges overlap.
abbrev pub Disjoint : List MappedRange → Type 0
Disjoint [] = Unit
Disjoint (r ∷ rest) = (any_overlap r.offset r.size rest ≡ false) × Disjoint rest

-- Every range was made under this map mode.
abbrev pub Modes : ℕ → List MappedRange → Type 0
Modes mode [] = Unit
Modes mode (r ∷ rest) = (r.map_mode ≡ mode) × Modes mode rest

pub record Inv (b : BufferState) : Type 0 where
  pub exclusive : b.mapped ≡ true → b.pending_map ≡ none
  pub destroyed_idle : b.destroyed ≡ true → (b.mapped ≡ false) × (b.pending_map ≡ none)
  pub unmapped_empty : b.mapped ≡ false → (b.ranges ≡ []) × (b.map_mode ≡ 0)
  pub current : (b.pending_map ≡ none) ⊎ (b.pending_map ≡ some b.next_map_id)
  pub disjoint : Disjoint b.ranges
  pub modes : Modes b.map_mode b.ranges

any_overlap-append :
    (o s : ℕ) (rs : List MappedRange) (r : MappedRange)
    → any_overlap o s rs ≡ false
    → mapped_ranges_overlap o s r.offset r.size ≡ false
    → any_overlap o s (rs ++ (r ∷ [])) ≡ false
any_overlap-append o s [] r h k = ground arith
any_overlap-append o s (x ∷ rs) r h k = ground (arith, any_overlap-append o s rs r)

Disjoint-append :
    (rs : List MappedRange) (r : MappedRange)
    → Disjoint rs
    → any_overlap r.offset r.size rs ≡ false
    → Disjoint (rs ++ (r ∷ []))
Disjoint-append [] r d h = (refl, tt)
Disjoint-append (x ∷ rs) r d h = (
  any_overlap-append x.offset x.size rs r d.0
      (mapped_ranges_overlap_comm x.offset x.size r.offset r.size ∙ ground arith),
  Disjoint-append rs r d.1 (ground arith),
)

Modes-append :
    (mode : ℕ) (rs : List MappedRange) (r : MappedRange)
    → Modes mode rs
    → r.map_mode ≡ mode
    → Modes mode (rs ++ (r ∷ []))
Modes-append mode [] r m h = (h, tt)
Modes-append mode (x ∷ rs) r m h = (m.0, Modes-append mode rs r m.1 h)

pub unmap-Inv :
    (engine : ℕ → Detached) (b : BufferState) (w : World) → Inv b → Inv (buffer_unmap engine b w).1
unfolding buffer_unmap
unmap-Inv engine b w v = ground arith

pub destroy-Inv :
    (engine : ℕ → Detached) (b : BufferState) (w : World)
    → Inv b
    → Inv (buffer_destroy engine b w).1
unfolding buffer_destroy
destroy-Inv engine b w v = ground arith

pub map_async-Inv :
    (mode offset size deferred : ℕ) (b : BufferState) (w : World)
    → Inv b
    → Inv (buffer_map_async_inner mode offset size deferred b w).1
unfolding buffer_map_async_inner
map_async-Inv mode offset size deferred b w v = ground arith

pub callback-Inv :
    (status : MapStatus) (message : String → String) (request : MapRequest) (b : BufferState)
    (w : World)
    → Inv b
    → Inv (buffer_map_callback status message request b w).0
unfolding buffer_map_callback
callback-Inv status message request b w v = ground arith

pub get_mapped_range-Inv :
    (offset : ℕ) (size : Option ℕ) (native_range : ℕ → ℕ → ℕ) (created : Result ℕ) (b : BufferState)
    (w : World)
    → Inv b
    → Inv (buffer_get_mapped_range offset size native_range created b w).1
unfolding buffer_get_mapped_range
get_mapped_range-Inv offset size native_range created b w v =
    grind (arith, Disjoint-append, Modes-append)
