-- ===== src/DataCache/Tests.antt =====
-- The data caches at concrete inputs.
use mountpoint_s.Prelude.{ℕ, ◌≡◌, ◌*w◌, [], ◌∷◌, ok, some, ◌==◌, ◌&&◌, if◌then◌else◌}
use mountpoint_s.Checksums.{ChecksummedBytes}
use mountpoint_s.Prefetch.Part.{ObjectId, id_eq}
use mountpoint_s.DataCache.{IsFaithful}
use mountpoint_s.DataCache.InMemory.{
  InMemoryDataCache, in_memory, AllGood, get_block, put_block, get_block-put_block,
  in_memory-IsFaithful,
}
use mountpoint_s.DataCache.Multilevel.{multilevel, Keeps, multilevel-IsFaithful}

abbrev id : ObjectId
id = record { key = "key"; etag = "etag" }

abbrev other : ObjectId
other = record { key = "key"; etag = "new" }

abbrev bytes : ℕ → ChecksummedBytes
bytes b = record { buffer = b ∷ []; start = 0; end = 1; checksum = b }

abbrev held : InMemoryDataCache
held = record { entries = record { key = id; index = 1; bytes = bytes 4 } ∷ []; block_size = 8 }

get_block-put_block_example :
    let put = put_block held other 1 (1 *w held.block_size) (bytes 7) 9 in
    (put.0 ≡ ok tt)
    × ((get_block put.1 id 1 (1 *w held.block_size) 9).0 ≡ (
        if id_eq other id && 1 == 1
        then ok (some (bytes 7))
        else (get_block held id 1 (1 *w held.block_size) 9).0))
get_block-put_block_example = get_block-put_block held other id 1 1 (bytes 7) 9 9

-- Blocks that start at the start of their buffer.
abbrev Good : ObjectId → ℕ → ChecksummedBytes → Type 0
Good key index b = b.start ≡ 0

in_memory-IsFaithful_example : IsFaithful (in_memory 8) Good (λ c. AllGood Good c.entries)
in_memory-IsFaithful_example = in_memory-IsFaithful Good 8

multilevel-IsFaithful_example : IsFaithful (multilevel (in_memory 8) (in_memory 8)) Good (
    Keeps
      (in_memory 8)
      (in_memory 8)
      Good
      (λ c. AllGood Good c.entries)
      (λ c. AllGood Good c.entries))
multilevel-IsFaithful_example =
    multilevel-IsFaithful (in_memory 8) (in_memory 8) Good (λ c. AllGood Good c.entries)
      (λ c. AllGood Good c.entries) (in_memory-IsFaithful Good 8) (in_memory-IsFaithful Good 8)
