-- ===== src/Device/Buffers.antt =====
-- core/src/lib.rs: the buffers of a device's registry, by their identifiers.
use webgpu_native_js.Prelude.{
  ℕ, ◌+◌, ◌≤◌, ◌≡◌, refl, inl, List, [], ◌∷◌, arith, ltb, ◌==◌, if_keeps, if_cases,
}
use webgpu_native_js.World.{World}
use webgpu_native_js.Buffer.{
  BufferState, buffer_map_async_inner, buffer_map_callback, buffer_get_mapped_range, buffer_unmap,
  buffer_destroy,
}
use webgpu_native_js.Buffer.Invariant.{Inv}
use webgpu_native_js.Buffer.Mapping.{Op, step, step-Inv}
use webgpu_native_js.Device.{insert, remove, let_go, let_go_each}
use webgpu_native_js.Device.Destroy.{without_ranges}

-- A buffer of the device `device` under the identifier `id`
pub record BelongsTo (device id : ℕ) (b : BufferState) : Type 0 where
  pub inv : Inv b
  pub registry_id : b.registry_id ≡ id
  pub parent_device : b.parent_device ≡ device

-- Identifiers ascend from `low` and stay below `next`, and each buffer belongs to the device.
abbrev pub Registered : ℕ → ℕ → ℕ → List (ℕ × BufferState) → Type 0
Registered device next low [] = low ≤ next
Registered device next low (p ∷ rest) =
    (low ≤ p.0) × BelongsTo device p.0 p.1 × Registered device next (p.0 + 1) rest

module _ (device next : ℕ) where
  Registered-below :
      (low : ℕ) (l : List (ℕ × BufferState)) → Registered device next low l → low ≤ next
  Registered-below low [] h = h
  Registered-below low (p ∷ l) h = omega (arith, h.0, Registered-below (p.0 + 1) l h.2)

  Registered-weaken :
      (low low' : ℕ) (l : List (ℕ × BufferState))
      → low' ≤ low
      → Registered device next low l
      → Registered device next low' l
  Registered-weaken low low' [] le h = omega (arith, le, h)
  Registered-weaken low low' (p ∷ l) le h = (omega (arith, le, h.0), h.1, h.2)

  -- The next identifier goes to the end.
  pub insert-Registered :
      (b : BufferState) (low : ℕ) (l : List (ℕ × BufferState))
      → BelongsTo device next b
      → Registered device next low l
      → Registered device (next + 1) low (insert next b l)
  insert-Registered b low [] new h = (h, new, omega arith)
  insert-Registered b low (p ∷ l) new h =
      let P = Registered device (next + 1) low in
      let below = Registered-below (p.0 + 1) l h.2 in
      if_cases P (ltb next p.0) _ _ (λ less. absurd (ground (arith, less, below)))
        (λ _.
          if_cases P (next == p.0) _ _ (λ same. absurd (ground (arith, same, below)))
            (λ _. (h.0, h.1, insert-Registered b (p.0 + 1) l new h.2)))

  pub remove-Registered :
      (id low : ℕ) (l : List (ℕ × BufferState))
      → Registered device next low l
      → Registered device next low (remove id l)
  remove-Registered id low [] h = h
  remove-Registered id low (p ∷ l) h =
      if_keeps (Registered device next low) (id == p.0) _ _
        (Registered-weaken (p.0 + 1) low l (omega (arith, h.0)) h.2)
        (h.0, h.1, remove-Registered id (p.0 + 1) l h.2)

  emptied-BelongsTo :
      (id : ℕ) (b : BufferState)
      → BelongsTo device id b
      → BelongsTo device id (record b { ranges = [] })
  emptied-BelongsTo id b h = record {
    inv = record {
      exclusive = h.inv.exclusive;
      destroyed_idle = h.inv.destroyed_idle;
      unmapped_empty = λ e. (refl, (h.inv.unmapped_empty e).1);
      current = h.inv.current;
      disjoint = tt;
      modes = tt;
    };
    registry_id = h.registry_id;
    parent_device = h.parent_device;
  }

  let_go-BelongsTo :
      (id : ℕ) (b : BufferState)
      → BelongsTo device id b
      → BelongsTo device id (let_go (record b { ranges = [] }))
  let_go-BelongsTo id b h = record {
    inv = record {
      exclusive = λ e. refl;
      destroyed_idle = λ e. (refl, refl);
      unmapped_empty = λ e. (refl, refl);
      current = inl refl;
      disjoint = tt;
      modes = tt;
    };
    registry_id = h.registry_id;
    parent_device = h.parent_device;
  }

  pub without_ranges-Registered :
      (low : ℕ) (l : List (ℕ × BufferState))
      → Registered device next low l
      → Registered device next low (without_ranges l)
  without_ranges-Registered low [] h = h
  without_ranges-Registered low (p ∷ l) h =
      (h.0, emptied-BelongsTo p.0 p.1 h.1, without_ranges-Registered (p.0 + 1) l h.2)

  pub let_go_each-Registered :
      (low : ℕ) (l : List (ℕ × BufferState))
      → Registered device next low l
      → Registered device next low (let_go_each (without_ranges l))
  let_go_each-Registered low [] h = h
  let_go_each-Registered low (p ∷ l) h =
      (h.0, let_go-BelongsTo p.0 p.1 h.1, let_go_each-Registered (p.0 + 1) l h.2)

-- An operation of a buffer keeps its identity.
pub step-BelongsTo :
    (op : Op) (device id : ℕ) (b : BufferState) (w : World)
    → BelongsTo device id b
    → BelongsTo device id (step op (b, w)).0
unfolding step buffer_map_async_inner buffer_map_callback buffer_get_mapped_range buffer_unmap
    buffer_destroy
step-BelongsTo op device id b w h = record {
  inv = step-Inv op (b, w) h.inv;
  registry_id = elim op [
    | Op.map_async m o s d ↦ ground (arith, h.registry_id)
    | Op.callback s m r ↦ ground (arith, h.registry_id)
    | Op.get_mapped_range o s n c ↦ ground (arith, h.registry_id)
    | Op.unmap engine ↦ ground (arith, h.registry_id)
    | Op.destroy engine ↦ ground (arith, h.registry_id)
  ];
  parent_device = elim op [
    | Op.map_async m o s d ↦ ground (arith, h.parent_device)
    | Op.callback s m r ↦ ground (arith, h.parent_device)
    | Op.get_mapped_range o s n c ↦ ground (arith, h.parent_device)
    | Op.unmap engine ↦ ground (arith, h.parent_device)
    | Op.destroy engine ↦ ground (arith, h.parent_device)
  ];
}
