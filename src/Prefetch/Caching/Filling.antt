-- ===== src/Prefetch/Caching/Filling.antt =====
-- The buffer of the composer: the bytes of the current block that have come so far.
use mountpoint_s.Prelude.{
  ℕ, ◌+◌, ◌*◌, ◌≤◌, ◌<◌, ◌^◌, ◌≡◌, refl, sym, ap, ap₂, ◌∙◌, List, [], ◌∷◌, ◌++◌, ok, inr, arith,
  length, slice, slice_empty, slice-append, length-slice,
}
use mountpoint_s.Checksums
use mountpoint_s.Checksums.{Crc, ChecksummedBytes}
use mountpoint_s.Checksums.Content
use mountpoint_s.Checksums.Content.{IsIntact, content, length-content, new-content}
use mountpoint_s.Checksums.Extend.{extend-content}
use mountpoint_s.Prefetch.Part.{ObjectId}
use mountpoint_s.Prefetch.Range.{RequestRange}
use mountpoint_s.Prefetch.Caching.{Composer, update}
use mountpoint_s.Prefetch.Caching.Blocks.{AllBlocks}

module _ (crc : Crc) (id : ObjectId) (block_size : ℕ) (object : List ℕ) (range : RequestRange) where
  -- The buffer holds the bytes of the current block up to `pos`.
  pub record Filling (c : Composer) (pos : ℕ) : Type 0 where
    pub valid : Content.IsValid c.buffer
    pub intact : IsIntact crc c.buffer
    pub bytes : content c.buffer ≡ slice object c.block_offset pos
    pub start : c.block_offset ≡ c.block_index * block_size
    pub index_small : c.block_index ≤ c.block_offset
    pub filled : c.block_offset + Checksums.len c.buffer ≡ pos
    pub room : Checksums.len c.buffer < block_size

  pub record Setting : Type 0 where
    pub block_pos : 0 < block_size
    pub block_small : block_size < 2 ^ 61
    pub range_le : range.offset + range.size ≤ length object
    pub size_is : range.object_size ≡ length object
    pub object_small : length object < 2 ^ 61

  -- A buffer with the bytes of a chunk added.
  pub record Extended (c : Composer) (pos n : ℕ) (chunk : ChecksummedBytes) : Type 0 where
    pub buffer : ChecksummedBytes
    pub step : Checksums.extend crc c.buffer chunk ≡ ok buffer
    pub valid : Content.IsValid buffer
    pub intact : IsIntact crc buffer
    pub bytes : content buffer ≡ slice object c.block_offset (pos + n)
    pub size : Checksums.len buffer ≡ Checksums.len c.buffer + n

  pub extended :
      (c : Composer) (pos n : ℕ) (chunk : List ℕ)
      → Setting
      → Filling c pos
      → chunk ≡ slice object pos (pos + n)
      → length chunk ≡ n
      → pos + n ≤ length object
      → Extended c pos n (Checksums.new crc chunk)
  unfolding Checksums.new
  extended c pos n chunk s f e l le =
      let (same, valid, intact) = new-content crc chunk (omega (arith, s)) in
      let (buffer, step, joined, valid', intact') =
        extend-content crc c.buffer (Checksums.new crc chunk) f.valid valid f.intact intact
          (omega (arith, s, f)) in
      record {
        buffer = buffer;
        step = step;
        valid = valid';
        intact = intact';
        bytes =
            joined
            ∙ ap₂ ◌++◌ f.bytes (same ∙ e)
            ∙ slice-append object c.block_offset pos (pos + n) (omega (arith, f)) (omega arith);
        size =
            let joined_length = length-content valid' in
            omega (
              arith,
              joined_length,
              ap length (
                  joined
                  ∙ ap₂ ◌++◌ f.bytes (same ∙ e)
                  ∙ slice-append object c.block_offset pos (pos + n) (omega (arith, f))
                      (omega arith)),
              length-slice object c.block_offset (pos + n) le,
              f,
            );
      }

  -- An empty buffer at a block boundary.
  pub default-Filling :
      (index offset : ℕ)
      → Setting
      → offset ≡ index * block_size
      → index ≤ offset
      → Filling
          (record { block_index = index; block_offset = offset; buffer = Checksums.default })
          offset
  unfolding Checksums.default slice
  default-Filling index offset s e le = record {
    valid = omega arith;
    intact = inr crc.checksum_empty;
    bytes = sym (slice_empty object offset offset (omega arith));
    start = e;
    index_small = le;
    filled = omega arith;
    room = s.block_pos;
  }

  -- The block that is spawned when the buffer is full.
  pub full_block :
      (c : Composer) (pos n : ℕ) (chunk : ChecksummedBytes) (x : Extended c pos n chunk)
      → Setting
      → Filling c pos
      → pos + n ≤ length object
      → 0 < n
      → Checksums.len c.buffer + n ≡ block_size
      → AllBlocks crc id block_size object (update crc id block_size range c x.buffer ∷ [])
  full_block c pos n chunk x s f le some_n full = (
    (
      refl,
      f.start,
      s.size_is,
      record {
        valid = x.valid;
        intact = x.intact;
        inside = omega (arith, f);
        bytes = x.bytes ∙ ap₂ (slice object) f.start (omega (arith, f));
      },
    ),
    tt,
  )

  pub chunk_lem :
      (xs : List ℕ) (pos : ℕ)
      → xs ≡ slice object pos (pos + length xs)
      → length xs < 2 ^ 63
      → (Checksums.len (Checksums.new crc xs) ≡ length xs)
        × Content.IsValid (Checksums.new crc xs)
        × IsIntact crc (Checksums.new crc xs)
        × (content (Checksums.new crc xs)
            ≡ slice object pos (pos + Checksums.len (Checksums.new crc xs)))
  unfolding Checksums.new
  chunk_lem xs pos e small =
      let (same, valid, intact) = new-content crc xs small in
      (omega arith, valid, intact, same ∙ e ∙ ap (slice object pos) (omega arith))
