-- ===== src/Prefetch/Range/Align.antt =====
-- Aligning moves the end of a range to a part boundary.
use native.Mathlib.Nat.{div-add-mod, mod-lt, mul-mod_right, add-mod_right}
use mountpoint_s.Prelude.{
  ◌/◌, ap, ◌∙◌, ◌-w◌, ◌+w◌, ℕ, ◌+◌, ◌-◌, ◌%◌, ◌≤◌, ◌<◌, ◌^◌, min, max, ◌≡◌, refl, ◌⊎◌, inl, inr,
  Bool, true, false, some, arith, Bool-cases, ltb, ◌==◌, ltb→lt, ltb→le, eqb→eq,
}
use mountpoint_s.Prefetch.Range.{RequestRange, align, aligned_size}
use mountpoint_s.Prefetch.Range.Trim.{IsValid}

-- From an offset up to the next boundary, and from an end back or on to one.
mod_up : (a part : ℕ) → 0 < part → (a + (part - a % part)) % part ≡ 0
mod_up a part pos =
    ap (λ t. t % part) (omega (arith, div-add-mod a part, mod-lt a pos))
    ∙ mul-mod_right part (a / part + 1)

mod_down : (a part : ℕ) → 0 < part → (a - a % part) % part ≡ 0
mod_down a part pos =
    ap (λ t. t % part) (omega (arith, div-add-mod a part)) ∙ mul-mod_right part (a / part)

-- The end of a range that goes on to a boundary: that after the start, or, from a start at a boundary, the
-- first one that is not before the old end.
abbrev IsExtended : RequestRange → ℕ → ℕ → Type 0
IsExtended r part size =
    ((r.offset + size) % part ≡ 0)
    × (((r.offset % part ≡ 0) × (max r.size 1 ≤ size) × (size < max r.size 1 + part))
        ⊎ ((0 < r.offset % part) × (0 < size) × (size ≤ part - r.offset % part)))

-- The end of a range that is trimmed: the old end, if there is no boundary after the start up to it; else the
-- boundary after the start, or, from a start at a boundary, the last one that is not after the old end.
abbrev IsTrimmed : RequestRange → ℕ → ℕ → Type 0
IsTrimmed r part size =
    ((r.offset % part + r.size < part) × (size ≡ r.size))
    ⊎ ((part ≤ r.offset % part + r.size)
        × ((r.offset + size) % part ≡ 0)
        × (size ≤ r.size)
        × (((r.offset % part ≡ 0) × (r.size < size + part))
            ⊎ ((0 < r.offset % part) × (0 < size) × (size ≤ part - r.offset % part))))

abbrev pub IsAligned : RequestRange → ℕ → Bool → ℕ → Type 0
IsAligned r part false size = IsExtended r part size
IsAligned r part true size = IsTrimmed r part size

trimmed_lem :
    (r : RequestRange) (part : ℕ)
    → IsValid r
    → 0 < part
    → part < 2 ^ 62
    → (r.offset + aligned_size r part true < 2 ^ 64) × IsTrimmed r part (aligned_size r part true)
unfolding aligned_size
trimmed_lem r part v pos small = elim (Bool-cases (r.offset % part == 0)) [
  | inr inside ↦
      let m : r.offset % part < part = mod-lt r.offset pos in
      let e : part -w r.offset % part ≡ part - r.offset % part = omega arith in
      let within : 0 < r.offset % part = ground (arith, inside) in
      rw (inside, e)
        (
          omega (arith, v),
          elim (Bool-cases (ltb r.size (part - r.offset % part))) [
            | inl short ↦ inl (omega (arith, ltb→lt _ _ short), omega (arith, ltb→lt _ _ short))
            | inr long ↦
                let far : part - r.offset % part ≤ r.size = ltb→le _ _ long in
                inr (
                  omega arith,
                  ap (λ t. t % part) (omega arith) ∙ mod_up r.offset part pos,
                  omega arith,
                  inr (within, omega arith, omega arith),
                )
          ],
        )
  | inl start ↦
      let at_start : r.offset % part ≡ 0 = eqb→eq _ _ start in
      elim (Bool-cases (ltb r.size part)) [
        | inl small_size ↦
            rw (start, small_size)
              (omega (arith, v), inl (omega (arith, ltb→lt _ _ small_size), refl))
        | inr whole ↦
            let long : part ≤ r.size = ltb→le _ _ whole in
            let e : r.offset +w r.size ≡ r.offset + r.size = omega (arith, v) in
            let m : (r.offset + r.size) % part < part = mod-lt (r.offset + r.size) pos in
            let size : r.size -w (r.offset + r.size) % part ≡ r.size - (r.offset + r.size) % part =
              omega (arith, v, long) in
            rw (start, whole, e, size)
              (
                omega (arith, v),
                inr (
                  omega arith,
                  ap (λ t. t % part) (omega arith) ∙ mod_down (r.offset + r.size) part pos,
                  omega arith,
                  inl (at_start, omega arith),
                ),
              )
      ]
]

extended_lem :
    (r : RequestRange) (part : ℕ)
    → IsValid r
    → 0 < part
    → part < 2 ^ 62
    → (r.offset + aligned_size r part false < 2 ^ 64)
      × IsExtended r part (aligned_size r part false)
unfolding aligned_size
extended_lem r part v pos small = elim (Bool-cases (r.offset % part == 0)) [
  | inr inside ↦
      let m : r.offset % part < part = mod-lt r.offset pos in
      let e : part -w r.offset % part ≡ part - r.offset % part = omega arith in
      let within : 0 < r.offset % part = ground (arith, inside) in
      rw (inside, e)
        (omega (arith, v), (mod_up r.offset part pos, inr (within, omega arith, omega arith)))
  | inl start ↦
      let at_start : r.offset % part ≡ 0 = eqb→eq _ _ start in
      elim (Bool-cases (ltb r.size part)) [
        | inl small_size ↦
            let short : r.size < part = ltb→lt _ _ small_size in
            rw (start, small_size)
              (
                omega (arith, v),
                (add-mod_right r.offset part ∙ at_start, inl (at_start, omega arith, omega arith)),
              )
        | inr whole ↦
            let long : part ≤ r.size = ltb→le _ _ whole in
            let e : r.offset +w r.size ≡ r.offset + r.size = omega (arith, v) in
            let m : (r.offset + r.size) % part < part = mod-lt (r.offset + r.size) pos in
            elim (Bool-cases ((r.offset + r.size) % part == 0)) [
              | inl none_left ↦
                  let size : r.size -w (r.offset + r.size) % part ≡ r.size =
                    omega (arith, v, eqb→eq _ _ none_left) in
                  rw (start, whole, e, none_left, size)
                    (
                      omega (arith, v),
                      (eqb→eq _ _ none_left, inl (at_start, omega arith, omega arith)),
                    )
              | inr some_left ↦
                  let left : 0 < (r.offset + r.size) % part = ground (arith, some_left) in
                  let size : r.size +w (part -w (r.offset + r.size) % part)
                      ≡ r.size + (part - (r.offset + r.size) % part) =
                    omega (arith, v) in
                  rw (start, whole, e, some_left, size)
                    (
                      omega (arith, v),
                      (
                        ap (λ t. t % part) (omega arith) ∙ mod_up (r.offset + r.size) part pos,
                        inl (at_start, omega arith, omega arith),
                      ),
                    )
            ]
      ]
]

aligned_size_lem :
    (r : RequestRange) (part : ℕ) (trim_only : Bool)
    → IsValid r
    → 0 < part
    → part < 2 ^ 62
    → (r.offset + aligned_size r part trim_only < 2 ^ 64)
      × IsAligned r part trim_only (aligned_size r part trim_only)
aligned_size_lem r part true v pos small = trimmed_lem r part v pos small
aligned_size_lem r part false v pos small = extended_lem r part v pos small

-- Aligning a valid range, for parts of at least a byte and less than 2^62 bytes: the start and the object
-- stay, and the range is cut at the end of the object if it goes beyond. Before that it ends, if it may be
-- made longer, at the first boundary after its start, or, from a start at a boundary, at the first boundary
-- after the start and not before the old end. If it may only be trimmed, it stays as it is where it has no
-- boundary after its start; else it ends at the first one after its start, or, from a start at a
-- boundary, at the last one not after the old end.
pub align_boundary :
    (r : RequestRange) (part : ℕ) (trim_only : Bool)
    → IsValid r
    → 0 < part
    → part < 2 ^ 62
    → (a : RequestRange) × (align r part trim_only ≡ some a)
      × (a.offset ≡ r.offset)
      × (a.object_size ≡ r.object_size)
      × IsValid a
      × (size : ℕ) × (a.size ≡ min size (r.object_size - r.offset))
      × IsAligned r part trim_only size
unfolding align
align_boundary r part trim_only v pos small =
    let size : ℕ = aligned_size r part trim_only in
    let (bound, aligned) = aligned_size_lem r part trim_only v pos small in
    (
      record r { size = min size (r.object_size - r.offset) },
      ground arith,
      refl,
      refl,
      omega (arith, v),
      size,
      refl,
      aligned,
    )
