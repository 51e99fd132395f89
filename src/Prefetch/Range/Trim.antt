-- ===== src/Prefetch/Range/Trim.antt =====
-- Trimming cuts a range in two.
use mountpoint_s.Prelude.{
  ℕ, ◌+◌, ◌-◌, ◌≤◌, ◌<◌, ◌^◌, ◌≡◌, refl, ◌⊎◌, inl, inr, some, arith, Bool-cases, ltb, ltb→lt,
}
use mountpoint_s.Prefetch.Range.{RequestRange, end_offset, clamp, trim_start, trim_end}

-- The range lies within the object, and the object within the offsets.
pub record IsValid (r : RequestRange) : Type 0 where
  pub within : r.offset + r.size ≤ r.object_size
  pub small : r.object_size < 2 ^ 62

clamp_lem :
    (x lo hi : ℕ)
    → lo ≤ hi
    → (y : ℕ) × (clamp x lo hi ≡ some y)
      × (lo ≤ y)
      × (y ≤ hi)
      × ((x ≡ y) ⊎ ((x < lo) × (y ≡ lo)) ⊎ ((hi < x) × (y ≡ hi)))
unfolding clamp
clamp_lem x lo hi h = elim (Bool-cases (ltb x lo)) [
  | inl low ↦ (lo, ground arith, omega arith, omega arith, inr (inl (ltb→lt _ _ low, refl)))
  | inr not_low ↦ elim (Bool-cases (ltb hi x)) [
    | inl high ↦ (hi, ground arith, omega arith, omega arith, inr (inr (ltb→lt _ _ high, refl)))
    | inr not_high ↦ (x, ground arith, ground arith, ground arith, inl refl)
  ]
]

pub trim_meets :
    (r : RequestRange) (at : ℕ)
    → IsValid r
    → (a b : RequestRange) × (trim_end r at ≡ some a)
      × (trim_start r at ≡ some b)
      × (a.offset ≡ r.offset)
      × (end_offset a ≡ b.offset)
      × (end_offset b ≡ end_offset r)
      × (a.size + b.size ≡ r.size)
      × ((at < r.offset) ⊎ (r.offset + r.size < at) ⊎ (b.offset ≡ at))
      × IsValid a
      × IsValid b
unfolding trim_start trim_end
trim_meets r at v =
    let (y, e, lo, hi, w) = clamp_lem at r.offset (end_offset r) (omega (arith, v)) in
    (
      record r { size = y - r.offset },
      record r { offset = y; size = end_offset r - y },
      rw (e, trim_end),
      rw (e, trim_start),
      refl,
      omega (arith, v),
      omega (arith, v),
      omega (arith, v),
      meets y w,
      omega (arith, v),
      omega (arith, v),
    )
  where
    meets :
        (y : ℕ)
        → (at ≡ y) ⊎ ((at < r.offset) × (y ≡ r.offset)) ⊎ ((end_offset r < at) × (y ≡ end_offset r))
        → (at < r.offset) ⊎ (r.offset + r.size < at) ⊎ (y ≡ at)
    meets y (inl e) = inr (inr (omega arith))
    meets y (inr (inl p)) = inl p.0
    meets y (inr (inr p)) = inr (inl (omega (arith, v)))
