-- ===== src/Checksums/Content.antt =====
-- The bytes that a `ChecksummedBytes` stands for, and how `split_off`, `slice` and `into_bytes` act
-- on them.
use mountpoint_s.Prelude.{
  ℕ, ◌+◌, ◌≤◌, ◌<◌, ◌^◌, ◌≡◌, refl, sym, ap₂, ◌∙◌, ◌⊎◌, List, true, some, ok, err, arith, length,
  slice, slice-slice, slice_all, length-slice, Bool-cases, ◌+w◌, ◌==◌, inl, inr,
}
use mountpoint_s.Checksums.{
  Crc, ChecksummedBytes, checksum_mismatch, Bound, len, split_off, slice_range, start_offset,
  end_offset, into_bytes, new,
}

-- The range lies within the buffer, and the buffer within the address space.
pub record IsValid (c : ChecksummedBytes) : Type 0 where
  pub ordered : c.start ≤ c.end
  pub within : c.end ≤ length c.buffer
  pub fits : length c.buffer < 2 ^ 63

-- The bytes of the range.
abbrev pub content : ChecksummedBytes → List ℕ
content c = slice c.buffer c.start c.end

pub length-content : {c : ChecksummedBytes} → IsValid c → length (content c) ≡ len c
length-content {c} v = length-slice c.buffer c.start c.end v.within

module _ (crc : Crc) where
  -- The checksum is that of the whole buffer, or validation is switched off.
  abbrev pub IsIntact : ChecksummedBytes → Type 0
  IsIntact c = (crc.disabled ≡ true) ⊎ (crc.checksum c.buffer ≡ c.checksum)

-- The two parts of a split.
abbrev pub kept : ChecksummedBytes → ℕ → ChecksummedBytes
kept c at = record c { end = c.start +w at }

abbrev pub rest : ChecksummedBytes → ℕ → ChecksummedBytes
rest c at = record c { start = c.start +w at }

-- Below the length, `split_off` keeps the bytes before `at` and hands over those from `at` on; both
-- values are valid, and keep the buffer and its checksum.
pub split_off-content :
    {c : ChecksummedBytes} (at : ℕ)
    → IsValid c
    → at < len c
    → (split_off c at ≡ some (kept c at, rest c at))
      × (content (kept c at) ≡ slice (content c) 0 at)
      × (content (rest c at) ≡ slice (content c) at (len c))
      × IsValid (kept c at)
      × IsValid (rest c at)
unfolding split_off
split_off-content {c} at v h = (
  ground arith,
  ap₂ (slice c.buffer) (omega arith) (omega arith)
      ∙ sym (slice-slice c.buffer c.start c.end 0 at (omega arith) (omega arith)),
  ap₂ (slice c.buffer) (omega arith) (omega arith)
      ∙ sym (slice-slice c.buffer c.start c.end at (len c) (omega arith) (omega arith)),
  omega arith,
  omega arith,
)

-- `slice` with bounds that stand for `s` and `e`, in order and within the length, gives the bytes
-- from `s` to `e` of the content; nothing else is read.
pub slice_range-content :
    {c : ChecksummedBytes} (from to : Bound) (s e : ℕ)
    → IsValid c
    → start_offset from ≡ ok s
    → end_offset c to ≡ ok e
    → s ≤ e
    → e ≤ len c
    → (r : ChecksummedBytes) × (slice_range c from to ≡ ok r)
      × (content r ≡ slice (content c) s e)
      × IsValid r
unfolding slice_range
slice_range-content {c} from to s e v hs he p q = (
  record c { start = c.start + s; end = c.start + e },
  ground arith,
  sym (slice-slice c.buffer c.start c.end s e p (omega arith)),
  omega arith,
)

module _ (crc : Crc) where
  -- A fresh value is intact, valid, and holds the bytes that it was made from.
  pub new-content :
      (bytes : List ℕ)
      → length bytes < 2 ^ 63
      → (content (new crc bytes) ≡ bytes) × IsValid (new crc bytes) × IsIntact crc (new crc bytes)
  unfolding new
  new-content bytes h =
      (slice_all bytes 0 (length bytes) refl (omega arith), omega arith, ground arith)

  -- `into_bytes` of a valid value hands out its content if the value is intact, and fails with both
  -- checksums if it is not.
  pub into_bytes-content :
      {c : ChecksummedBytes}
      → IsValid c
      → (IsIntact crc c × (into_bytes crc c ≡ ok (content c)))
        ⊎ (¬ IsIntact crc c
            × (into_bytes crc c ≡ err (checksum_mismatch c.checksum (crc.checksum c.buffer))))
  unfolding into_bytes
  into_bytes-content {c} v = elim (Bool-cases crc.disabled) [
    | inl off ↦ inl (inl off, ground arith)
    | inr on ↦ elim (Bool-cases (c.checksum == crc.checksum c.buffer)) [
      | inl same ↦ inl (inr (ground arith), ground arith)
      | inr differ ↦ inr (ground arith, ground arith)
    ]
  ]
