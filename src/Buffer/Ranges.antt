-- ===== src/Buffer/Ranges.antt =====
-- When two mapped ranges overlap.
use webgpu_native_js.Prelude.{ℕ, ◌+◌, ◌^◌, ◌≤◌, ◌<◌, ◌≡◌, ◌↔◌, ◌⊎◌, false, arith}
use webgpu_native_js.Buffer.{mapped_ranges_overlap}

-- Two ranges are taken for disjoint exactly when neither end leaves the range of `usize` and one of
-- them starts at or after the end of the other.
pub mapped_ranges_overlap_iff :
    (o s o' s' : ℕ)
    → (mapped_ranges_overlap o s o' s' ≡ false)
      ↔ ((o + s < 2 ^ 64) × (o' + s' < 2 ^ 64) × ((o' + s' ≤ o) ⊎ (o + s ≤ o')))
unfolding mapped_ranges_overlap
mapped_ranges_overlap_iff o s o' s' = (λ h. ground arith, λ h. ground arith)

pub mapped_ranges_overlap_comm :
    (o s o' s' : ℕ) → mapped_ranges_overlap o s o' s' ≡ mapped_ranges_overlap o' s' o s
unfolding mapped_ranges_overlap
mapped_ranges_overlap_comm o s o' s' = ground arith

-- Ranges that are not empty and that are taken for disjoint share no byte.
pub no_shared_byte :
    (o s o' s' x : ℕ)
    → mapped_ranges_overlap o s o' s' ≡ false
    → o ≤ x
    → x < o + s
    → o' ≤ x
    → x < o' + s'
    → ⊥
unfolding mapped_ranges_overlap
no_shared_byte o s o' s' x h a b c d = ground arith
