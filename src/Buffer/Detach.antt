-- ===== src/Buffer/Detach.antt =====
-- How the mapped ranges are detached: what leaves the binding, and which error is reported.
use webgpu_native_js.Prelude.{
  ℕ, ◌≡◌, refl, sym, ap, ◌∙◌, Bool, true, false, ◌&&◌, Option, none, some, List, [], ◌∷◌, ◌++◌,
  arith, inl, inr, ◌⊎◌, ◌==◌, if◌then◌else◌, Option-cases,
}
use webgpu_native_js.Result.{ok, err, JsError}
use webgpu_native_js.World.{World, Call}
use webgpu_native_js.Buffer.{
  MappedRange, BufferState, Detached, map_mode_write, is_detached, detach_range, detach_ranges,
  detach_all_ranges, buffer_unmap, first_error,
}

-- The values that were given back to the engine, newest first.
abbrev pub released : List Call → List ℕ
released [] = []
released (Call.release_value v ∷ cs) = v ∷ released cs
released (_ ∷ cs) = released cs

-- The copies into native memory, newest first.
abbrev pub copied : List Call → List (ℕ × List ℕ)
copied [] = []
copied (Call.copy_back ptr bytes ∷ cs) = (ptr, bytes) ∷ copied cs
copied (_ ∷ cs) = copied cs

-- The engine detached this range.
abbrev pub detaches : (ℕ → Detached) → MappedRange → Bool
detaches engine r = elim (engine r.value).error [
  | some e ↦ false
  | none ↦ is_detached (engine r.value).len
]

-- The error that one range adds.
abbrev pub detach_error : (ℕ → Detached) → MappedRange → Option JsError
detach_error engine r = elim (engine r.value).error [
  | some e ↦ some e
  | none ↦
      if is_detached (engine r.value).len
      then none
      else some (JsError.operation_error "mapped range detach failed")
]

-- The first error of the ranges, in their order.
abbrev pub first_detach_error : (ℕ → Detached) → List MappedRange → Option JsError
first_detach_error engine [] = none
first_detach_error engine (r ∷ rest) = elim (detach_error engine r) [
  | some e ↦ some e
  | none ↦ first_detach_error engine rest
]

-- What must be copied back: the ranges made for writing that were detached, if the caller asks.
abbrev pub copies : (ℕ → Detached) → Bool → List MappedRange → List (ℕ × List ℕ)
copies engine flush [] = []
copies engine flush (r ∷ rest) =
    if flush && r.map_mode == map_mode_write && detaches engine r
    then (r.native_ptr, (engine r.value).bytes) ∷ copies engine flush rest
    else copies engine flush rest

abbrev pub values : List MappedRange → List ℕ
values [] = []
values (r ∷ rest) = r.value ∷ values rest

-- The reverse of the first list, before the second.
abbrev pub onto {ℓ} : {A : Type ℓ} → List A → List A → List A
onto [] ys = ys
onto (x ∷ xs) ys = onto xs (x ∷ ys)

abbrev pub or_else : Option JsError → Option JsError → Option JsError
or_else none e = e
or_else (some first) e = some first

range_error :
    (engine : ℕ → Detached) (flush : Bool) (r : MappedRange) (e : Option JsError) (w : World)
    → (detach_range engine flush r (e, w)).0 ≡ or_else e (detach_error engine r)
unfolding detach_range
range_error engine flush r e w = ground arith

range_released :
    (engine : ℕ → Detached) (flush : Bool) (r : MappedRange) (e : Option JsError) (w : World)
    → released (detach_range engine flush r (e, w)).1.calls ≡ r.value ∷ released w.calls
unfolding detach_range
range_released engine flush r e w = ground arith

range_copied :
    (engine : ℕ → Detached) (flush : Bool) (r : MappedRange) (e : Option JsError) (w : World)
    → copied (detach_range engine flush r (e, w)).1.calls
      ≡ onto (copies engine flush (r ∷ [])) (copied w.calls)
unfolding detach_range
range_copied engine flush r e w = ground arith

range_queues :
    (engine : ℕ → Detached) (flush : Bool) (r : MappedRange) (e : Option JsError) (w : World)
    → ((detach_range engine flush r (e, w)).1.settlements ≡ w.settlements)
      × ((detach_range engine flush r (e, w)).1.releases ≡ w.releases)
      × ((detach_range engine flush r (e, w)).1.events ≡ w.events)
unfolding detach_range
range_queues engine flush r e w = ground arith

ranges_error :
    (engine : ℕ → Detached) (flush : Bool) (rs : List MappedRange) (e : Option JsError) (w : World)
    → (detach_ranges engine flush rs (e, w)).0 ≡ or_else e (first_detach_error engine rs)
unfolding detach_ranges
ranges_error engine flush [] none w = refl
ranges_error engine flush [] (some x) w = refl
ranges_error engine flush (r ∷ rs) e w =
    let (e', w') = detach_range engine flush r (e, w) in
    ground (arith, ranges_error engine flush rs e' w', range_error engine flush r e w)

ranges_released :
    (engine : ℕ → Detached) (flush : Bool) (rs : List MappedRange) (e : Option JsError) (w : World)
    → released (detach_ranges engine flush rs (e, w)).1.calls ≡ onto (values rs) (released w.calls)
unfolding detach_ranges
ranges_released engine flush [] e w = refl
ranges_released engine flush (r ∷ rs) e w =
    let (e', w') = detach_range engine flush r (e, w) in
    ranges_released engine flush rs e' w'
    ∙ ap (onto (values rs)) (range_released engine flush r e w)

pub onto-append {ℓ} : {A : Type ℓ} (xs ys zs : List A) → onto (xs ++ ys) zs ≡ onto ys (onto xs zs)
onto-append [] ys zs = refl
onto-append (x ∷ xs) ys zs = onto-append xs ys (x ∷ zs)

copies-cons :
    (engine : ℕ → Detached) (flush : Bool) (r : MappedRange) (rs : List MappedRange)
    → copies engine flush (r ∷ rs) ≡ copies engine flush (r ∷ []) ++ copies engine flush rs
copies-cons engine flush r rs = ground arith

ranges_copied :
    (engine : ℕ → Detached) (flush : Bool) (rs : List MappedRange) (e : Option JsError) (w : World)
    → copied (detach_ranges engine flush rs (e, w)).1.calls
      ≡ onto (copies engine flush rs) (copied w.calls)
unfolding detach_ranges
ranges_copied engine flush [] e w = refl
ranges_copied engine flush (r ∷ rs) e w =
    let (e', w') = detach_range engine flush r (e, w) in
    ranges_copied engine flush rs e' w'
    ∙ ap (onto (copies engine flush rs)) (range_copied engine flush r e w)
    ∙ sym (onto-append (copies engine flush (r ∷ [])) (copies engine flush rs) (copied w.calls))
    ∙ ap (λ l. onto l (copied w.calls)) (sym (copies-cons engine flush r rs))

-- `detach_all_ranges` empties the ranges whatever the engine answers. Each range's value goes back
-- to the engine exactly once, in order; exactly the detached ranges that were mapped for writing are
-- copied back, and only when asked for; and the error is the first one.
pub detach_all_ranges_lem :
    (engine : ℕ → Detached) (flush : Bool) (b : BufferState) (w : World)
    → let r = detach_all_ranges engine flush b w in
      (r.0 ≡ first_error (first_detach_error engine b.ranges))
      × (r.1 ≡ record b { ranges = [] })
      × (released r.2.calls ≡ onto (values b.ranges) (released w.calls))
      × (copied r.2.calls ≡ onto (copies engine flush b.ranges) (copied w.calls))
unfolding detach_all_ranges
detach_all_ranges_lem engine flush b w = (
  ap first_error (ranges_error engine flush b.ranges none w),
  refl,
  ranges_released engine flush b.ranges none w,
  ranges_copied engine flush b.ranges none w,
)

-- `unmap` of a mapped buffer that is not destroyed. If every range detaches, the written ranges are
-- in native memory before webgpu.h unmaps the buffer, and the buffer is unmapped with no range left.
-- If one does not, the call fails with the first error, webgpu.h is not asked to unmap, and the
-- buffer stays mapped, without its ranges.
pub buffer_unmap_lem :
    (engine : ℕ → Detached) (b : BufferState) (w : World)
    → b.destroyed ≡ false
    → b.mapped ≡ true
    → let d = detach_all_ranges engine true b w in
      let r = buffer_unmap engine b w in
      (copied d.2.calls ≡ onto (copies engine true b.ranges) (copied w.calls))
      × (r.1.ranges ≡ [])
      × (((first_detach_error engine b.ranges ≡ none)
            × (r.0 ≡ ok tt)
            × (r.1.mapped ≡ false)
            × (r.1.pending_map ≡ none)
            × (r.2.calls ≡ Call.buffer_unmap b.buffer ∷ d.2.calls))
          ⊎ ((e : JsError) × (first_detach_error engine b.ranges ≡ some e)
              × (r.0 ≡ err e)
              × (r.1.mapped ≡ true)
              × (r.2.calls ≡ d.2.calls)))
unfolding buffer_unmap
buffer_unmap_lem engine b w alive mapped =
    let (e, state, _, copies_back) = detach_all_ranges_lem engine true b w in
    (
      copies_back,
      ground arith,
      elim (Option-cases (first_detach_error engine b.ranges)) [
        | inl fine ↦
            inl (fine, ground (arith, e), ground (arith, e), ground (arith, e), ground (arith, e))
        | inr (x, failed) ↦ inr (x, failed, ground (arith, e), ground (arith, e), ground (arith, e))
      ],
    )
