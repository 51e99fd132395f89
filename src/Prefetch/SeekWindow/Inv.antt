-- ===== src/Prefetch/SeekWindow/Inv.antt =====
-- The window holds the bytes of the object that come right before an offset, and no more than
-- `max_size` of them.
use mathlib.Core.Path.{subst}
use mountpoint_s.Prelude.{
  ℕ, ◌+◌, ◌-◌, ◌≤◌, ◌<◌, ◌^◌, ◌≡◌, refl, ap, ◌∙◌, List, [], ◌∷◌, ◌++◌, ◌⊎◌, inl, inr, some, arith,
  Bool-cases, ltb, ltb→le, ltb→lt, ◌-w◌, ◌+w◌,
}
use mountpoint_s.Checksums.{Crc}
use mountpoint_s.Prefetch.Part.{ObjectId, Part, len}
use mountpoint_s.Prefetch.Stream.{Holds, Run, Run-le, Run-append}
use mountpoint_s.Prefetch.SeekWindow.{SeekWindow, clear, evict, push}

abbrev lens : List Part → ℕ
lens [] = 0
lens (p ∷ parts) = len p + lens parts

-- Each of the parts that are dropped, the oldest first, had to go: with it and the parts after it, those that
-- stay (`size` bytes) and `needed` more bytes are over the maximum.
abbrev Dropped : ℕ → ℕ → ℕ → List Part → Type 0
Dropped max_size size needed [] = Unit
Dropped max_size size needed (p ∷ parts) =
    (max_size < lens (p ∷ parts) + size + needed) × Dropped max_size size needed parts

-- What a push leaves: the newest parts that fit with the new one, or nothing if that is too large alone.
abbrev pub Kept : SeekWindow → Part → SeekWindow → Type 0
Kept w part w' =
    ((w.max_size < len part) × (w'.parts ≡ []) × (w'.current_size ≡ 0))
    ⊎ ((dropped : List Part) × (rest : List Part) × (w.parts ≡ dropped ++ rest)
        × (w'.parts ≡ rest ++ (part ∷ []))
        × Dropped w.max_size (lens rest) (len part) dropped)

module _ (crc : Crc) (id : ObjectId) (object : List ℕ) where
  -- The window ends at `to`.
  pub record EndsAt (w : SeekWindow) (to : ℕ) : Type 0 where
    pub run : Run crc id object w.parts (to - w.current_size) to
    pub size_le : w.current_size ≤ to
    pub size_max : w.current_size ≤ w.max_size
    pub max_small : w.max_size < 2 ^ 63
    pub to_small : to < 2 ^ 63

  Run-lens :
      (parts : List Part) (from to : ℕ) → Run crc id object parts from to → lens parts ≡ to - from
  Run-lens [] from to r = omega arith
  Run-lens (x ∷ parts) from to r = omega (
    arith,
    Run-lens parts (from + len x) to r.3,
    Run-le crc id object parts (from + len x) to r.3,
  )

  evict_lem :
      (parts : List Part) (max_size size needed to : ℕ)
      → Run crc id object parts (to - size) to
      → size ≤ to
      → size ≤ max_size
      → max_size < 2 ^ 63
      → needed ≤ max_size
      → (rest : List Part) × (size' : ℕ) × (evict parts max_size size needed ≡ some (rest, size'))
        × Run crc id object rest (to - size') to
        × (size' ≤ size)
        × (size' + needed ≤ max_size)
        × (dropped : List Part) × (parts ≡ dropped ++ rest)
        × (size ≡ lens dropped + size')
        × Dropped max_size size' needed dropped
  unfolding evict
  evict_lem [] max_size size needed to r p q s n =
      ([], size, ground arith, r, omega arith, omega arith, [], refl, omega arith, tt)
  evict_lem (x ∷ parts) max_size size needed to r p q s n =
      elim (Bool-cases (ltb (max_size -w size) needed)) [
        | inl tight ↦
            let less : size -w len x ≡ size - len x =
              omega (arith, Run-le crc id object parts _ to r.3) in
            let r' : Run crc id object parts (to - (size -w len x)) to =
              subst (λ k. Run crc id object parts k to)
                (omega (arith, Run-le crc id object parts _ to r.3)) r.3 in
            let step : evict (x ∷ parts) max_size size needed
                ≡ evict parts max_size (size -w len x) needed =
              ground arith in
            let (rest, size', e, run, le, fits, dropped, parted, sum, had_to) =
              evict_lem parts max_size (size -w len x) needed to r' (omega arith) (omega arith) s
                n in
            (
              rest,
              size',
              step ∙ e,
              run,
              omega arith,
              fits,
              x ∷ dropped,
              ap (λ k. x ∷ k) parted,
              omega (arith, sum, Run-le crc id object parts _ to r.3),
              (omega (arith, ltb→lt _ _ tight, sum, Run-le crc id object parts _ to r.3), had_to),
            )
        | inr room ↦ (
          x ∷ parts,
          size,
          ground arith,
          r,
          omega arith,
          omega (arith, ltb→le _ _ room),
          [],
          refl,
          omega arith,
          tt,
        )
      ]

  -- Pushing the part that comes next, not empty and ending before 2^63, moves the end of the
  -- window past it: what the window has are the bytes right before its end, in order, and no more
  -- than its maximal size. If the part alone is larger than that, the window is empty; if not, it has
  -- the newest of its parts and then the new one, and dropped older parts only while they, what
  -- stays and the new part were over the maximal size together. There is no panic.
  pub push_lem :
      (w : SeekWindow) (part : Part) (to : ℕ)
      → EndsAt w to
      → Holds crc id object part
      → part.offset ≡ to
      → 0 < len part
      → to + len part < 2 ^ 63
      → (w' : SeekWindow) × (push w part ≡ some w')
        × EndsAt w' (to + len part)
        × (w'.max_size ≡ w.max_size)
        × Kept w part w'
  unfolding push
  push_lem w part to v h at pos small = elim (Bool-cases (ltb w.max_size (len part))) [
    | inl big ↦ (
      clear w,
      ground arith,
      record {
        run = omega arith;
        size_le = omega arith;
        size_max = omega arith;
        max_small = v.max_small;
        to_small = small;
      },
      refl,
      inl (ltb→lt _ _ big, refl, refl),
    )
    | inr fits ↦
        let (rest, size, e, run, le, room, dropped, parted, sum, had_to) =
          evict_lem w.parts w.max_size w.current_size (len part) to v.run v.size_le v.size_max
            v.max_small (omega (arith, ltb→le _ _ fits)) in
        (
          record w { parts = rest ++ (part ∷ []); current_size = size +w len part },
          ground (arith, e),
          record {
            run =
                subst (λ k. Run crc id object (rest ++ (part ∷ [])) k (to + len part))
                  (omega (arith, v))
                  (Run-append crc id object rest (part ∷ []) (to - size) to (to + len part) run
                    (h, at, pos, refl));
            size_le = omega (arith, v);
            size_max = omega (arith, v);
            max_small = v.max_small;
            to_small = small;
          },
          refl,
          inr (
            dropped,
            rest,
            parted,
            refl,
            subst (λ k. Dropped w.max_size k (len part) dropped)
                (omega (arith, v, le, Run-lens rest (to - size) to run)) had_to,
          ),
        )
  ]
