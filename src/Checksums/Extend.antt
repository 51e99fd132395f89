-- ===== src/Checksums/Extend.antt =====
-- `shrink_to_fit`, `extend` and `into_inner`: the checksum follows the bytes.
use mountpoint_s.Prelude.{
  ℕ, ◌+◌, ◌<◌, ◌^◌, ◌≡◌, ◌≢◌, refl, sym, ap, ◌∙◌, inl, inr, List, [], ◌++◌, false, ok, err, arith,
  length, length-append, slice_all, slice_empty, Bool-cases, ◌==◌, eqb→eq, ap₂, ltb, ltb→le,
}
use mathlib.Core.List.{append-nil}
use mountpoint_s.Checksums.{
  Crc, ChecksummedBytes, checksum_mismatch, len, shrink_to_fit, combine_checksums, join,
  extend_both, assert_fits, extend, into_inner,
}
use mountpoint_s.Checksums.Content.{IsValid, content, length-content, IsIntact}

module _ (crc : Crc) where
  -- The value that `shrink_to_fit` gives for an intact one.
  shrunk : ChecksummedBytes → ChecksummedBytes
  shrunk c = record {
    buffer = content c;
    start = 0;
    end = len c;
    checksum = crc.checksum (content c);
  }

  -- A value whose buffer is its content.
  pub record IsExact (c : ChecksummedBytes) (bytes : List ℕ) : Type 0 where
    pub buffer : c.buffer ≡ bytes
    pub start : c.start ≡ 0
    pub end : c.end ≡ length bytes

  -- `shrink_to_fit` of an intact value leaves an intact value with the content for its buffer.
  pub shrink_to_fit-content :
      {c : ChecksummedBytes}
      → IsValid c
      → IsIntact crc c
      → (r : ChecksummedBytes) × (shrink_to_fit crc c ≡ ok r)
        × IsExact r (content c)
        × IsIntact crc r
  unfolding shrink_to_fit shrunk
  shrink_to_fit-content {c} v h = elim (Bool-cases (len c == length c.buffer)) [
    | inl whole ↦
        let full : (c.start ≡ 0) × (length c.buffer ≡ c.end) = omega (arith, v, eqb→eq _ _ whole) in
        (
          c,
          ground arith,
          record {
            buffer = sym (slice_all c.buffer c.start c.end full.0 (omega arith));
            start = full.0;
            end = omega (arith, length-content v);
          },
          h,
        )
    | inr part ↦ (
      shrunk c,
      ground arith,
      record { buffer = refl; start = refl; end = sym (length-content v) },
      inr refl,
    )
  ]

  -- What `join` makes of two exact, intact values.
  join-content :
      (a b : ChecksummedBytes) (xs ys : List ℕ)
      → IsExact a xs
      → IsExact b ys
      → IsIntact crc a
      → IsIntact crc b
      → length xs + length ys < 2 ^ 63
      → (content (join crc a b) ≡ xs ++ ys) × IsValid (join crc a b) × IsIntact crc (join crc a b)
  unfolding join combine_checksums
  join-content a b xs ys ea eb ia ib h = (
    slice_all (a.buffer ++ b.buffer) 0 _ refl (omega arith) ∙ ap₂ ◌++◌ ea.buffer eb.buffer,
    omega (arith, length-append a.buffer b.buffer, ap length ea.buffer, ap length eb.buffer),
    elim (Bool-cases crc.disabled) [
      | inl off ↦ inl off
      | inr on ↦ inr (ground (arith, on, combined))
    ],
  )
    where
      b_len : len b ≡ length b.buffer
      b_len = omega (arith, ap length eb.buffer)

      combined :
          crc.crc32c_combine (crc.checksum a.buffer) (crc.checksum b.buffer) (len b)
          ≡ crc.checksum (a.buffer ++ b.buffer)
      combined = rw b_len (crc.combine_law a.buffer b.buffer)

  assert_fits_exact :
      (c : ChecksummedBytes) (xs : List ℕ) → IsExact c xs → assert_fits crc c ≡ ok tt
  unfolding assert_fits
  assert_fits_exact c xs x = ground (arith, ap length x.buffer, x.start, x.end)

  extend_both-content :
      (c other : ChecksummedBytes)
      → IsValid c
      → IsValid other
      → IsIntact crc c
      → IsIntact crc other
      → len c + len other < 2 ^ 63
      → (r : ChecksummedBytes) × (extend_both crc c other ≡ ok r)
        × (content r ≡ content c ++ content other)
        × IsValid r
        × IsIntact crc r
  unfolding extend_both
  extend_both-content c other vc vo ic io h =
      let (a, ea, xa, ia) = shrink_to_fit-content vc ic in
      let (b, eb, xb, ib) = shrink_to_fit-content vo io in
      let small : length (content c) + length (content other) < 2 ^ 63 =
        omega (arith, length-content vc, length-content vo) in
      let (same, valid, intact) = join-content a b (content c) (content other) xa xb ia ib small in
      (
        join crc a b,
        rw (ea, assert_fits_exact a (content c) xa, eb, assert_fits_exact b (content other) xb),
        same,
        valid,
        intact,
      )

  -- `extend` of two valid, intact values, short enough to be joined, gives a valid, intact value that
  -- holds the bytes of the first and then those of the second.
  pub extend-content :
      (c other : ChecksummedBytes)
      → IsValid c
      → IsValid other
      → IsIntact crc c
      → IsIntact crc other
      → len c + len other < 2 ^ 63
      → (r : ChecksummedBytes) × (extend crc c other ≡ ok r)
        × (content r ≡ content c ++ content other)
        × IsValid r
        × IsIntact crc r
  unfolding extend
  extend-content c other vc vo ic io h = elim (Bool-cases (ltb other.start other.end)) [
    | inr none_other ↦
        let empty : content other ≡ [] =
          slice_empty other.buffer _ _ (omega (arith, ltb→le _ _ none_other)) in
        (c, ground arith, rw (empty, append-nil) refl, vc, ic)
    | inl some_other ↦ elim (Bool-cases (ltb c.start c.end)) [
      | inr none_c ↦
          let empty : content c ≡ [] =
            slice_empty c.buffer _ _ (omega (arith, ltb→le _ _ none_c)) in
          (other, ground arith, rw empty refl, vo, io)
      | inl some_c ↦
          let (r, e, same, valid, intact) = extend_both-content c other vc vo ic io h in
          (r, ground (arith, e), same, valid, intact)
    ]
  ]

  -- Corruption is found: if validation is on, a valid value that covers part of its buffer only, and
  -- whose checksum does not fit, is refused by `shrink_to_fit`, by `extend` on the left of a value
  -- that is not empty, and by `into_inner`, each with both checksums.
  pub corrupt_refused :
      (c other : ChecksummedBytes)
      → IsValid c
      → 0 < len c
      → len c < length c.buffer
      → 0 < len other
      → crc.disabled ≡ false
      → crc.checksum c.buffer ≢ c.checksum
      → let e = checksum_mismatch c.checksum (crc.checksum c.buffer) in
        (shrink_to_fit crc c ≡ err e) × (extend crc c other ≡ err e) × (into_inner crc c ≡ err e)
  unfolding extend extend_both into_inner shrink_to_fit
  corrupt_refused c other v some_c part some_other on bad =
      (ground arith, ground arith, ground arith)
