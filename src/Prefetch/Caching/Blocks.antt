-- ===== src/Prefetch/Caching/Blocks.antt =====
-- Blocks of an object: what the caching stream puts into the cache, and what it takes out of it.
use mountpoint_s.Prelude.{ℕ, ◌+◌, ◌*◌, ◌<◌, min, ◌≡◌, List, [], ◌∷◌, ◌++◌, length, slice}
use mountpoint_s.Checksums.{Crc, ChecksummedBytes}
use mountpoint_s.Checksums.Content
use mountpoint_s.Checksums.Content.{IsIntact, content}
use mountpoint_s.DataCache.Multilevel.{Update}
use mountpoint_s.Prefetch.Part.{ObjectId}

-- The bytes are those of the block `index` of the object, up to its end, and their checksum fits.
pub record IsBlock (crc : Crc) (block_size : ℕ) (object : List ℕ) (index : ℕ) (b : ChecksummedBytes)
    : Type 0 where
  pub valid : Content.IsValid b
  pub intact : IsIntact crc b
  pub inside : index * block_size < length object
  pub bytes :
      content b
      ≡ slice object (index * block_size) (min (index * block_size + block_size) (length object))

module _ (crc : Crc) (id : ObjectId) (block_size : ℕ) (object : List ℕ) where
  -- Every update stores a block of the object, at its place, under its key.
  abbrev pub AllBlocks : List Update → Type 0
  AllBlocks [] = Unit
  AllBlocks (u ∷ us) =
      ((u.key ≡ id)
        × (u.offset ≡ u.index * block_size)
        × (u.size ≡ length object)
        × IsBlock crc block_size object u.index u.bytes)
      × AllBlocks us

  pub AllBlocks-append : (us vs : List Update) → AllBlocks us → AllBlocks vs → AllBlocks (us ++ vs)
  AllBlocks-append [] vs a b = b
  AllBlocks-append (u ∷ us) vs a b = (a.0, AllBlocks-append us vs a.1 b)
