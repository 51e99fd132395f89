-- ===== src/Prefetch/Caching/Requests.antt =====
-- A request over a cache of blocks: cached blocks first, and the client from the first miss on.
use mathlib.Core.Path.{subst}
use mountpoint_s.Prelude.{
  ℕ, suc, ◌+◌, ◌-◌, ◌*◌, ◌≤◌, ◌<◌, ◌^◌, min, ◌≡◌, ◌⊎◌, refl, List, false, Option, none, some,
  Outcome, ok, err, panic, inl, inr, arith, length, lt→ltb, ◌+w◌, ◌-w◌, ◌*w◌,
}
use mountpoint_s.Checksums
use mountpoint_s.Checksums.{Crc, ChecksummedBytes}
use mountpoint_s.DataCache
use mountpoint_s.DataCache.{DataCache, DataCacheError, IsFaithful}
use mountpoint_s.Prefetch.Part.{ObjectId}
use mountpoint_s.Prefetch.PartQueue.Honest.{Delivers}
use mountpoint_s.Prefetch.Backpressure.Producer.{Producer}
use mountpoint_s.Prefetch.Range
use mountpoint_s.Prefetch.Range.{RequestRange, end_offset, trim_start}
use mountpoint_s.Prefetch.Range.Cut.{mark, trim_start_lem}
use mountpoint_s.Prefetch.Compose.{Item, Waits, read_from_client_stream}
use mountpoint_s.Prefetch.Compose.Honest.{KeepsTo, read_from_client_stream-Bodies}
use mountpoint_s.Prefetch.Caching.{Sent, sent_nothing, get_from_client}
use mountpoint_s.Prefetch.Caching.Blocks.{IsBlock}
use mountpoint_s.Prefetch.Caching.Composed.{Streams, compose_parts_lem}
use mountpoint_s.Prefetch.Caching.Filling.{Setting, default-Filling}

module _ (crc : Crc) (id : ObjectId) (block_size : ℕ) (object : List ℕ) where
  get_from_client_lem :
      (client : RequestRange → List Item) (p : Producer) (waits : Waits) (initial_end : ℕ)
      (range : RequestRange) (start end : ℕ)
      → Setting crc id block_size object range
      → KeepsTo crc id object client
      → start * block_size ≤ range.offset
      → range.offset ≤ length object
      → start ≤ start * block_size
      → start * block_size ≤ end * block_size
      → end * block_size < 2 ^ 63
      → Streams crc id block_size object range
          (start * block_size)
          (get_from_client crc id block_size client p waits initial_end range start end)
  unfolding get_from_client Range.new
  get_from_client_lem client p waits initial_end range start end s keeps before le index order
        small =
      let a : ℕ = start * block_size in
      let e : start *w block_size ≡ a = omega (arith, s) in
      let f : end *w block_size ≡ end * block_size = omega arith in
      let aligned : RequestRange =
        Range.new range.object_size a (min (end * block_size) range.object_size -w a) in
      let inside : a + aligned.size ≤ length object = omega (arith, s) in
      let fill = default-Filling crc id block_size object range start a s refl index in
      rw (lt→ltb _ _ s.block_pos, get_from_client, e, f)
        (compose_parts_lem crc id block_size object range
          (read_from_client_stream client p waits initial_end aligned)
          (record { block_index = start; block_offset = a; buffer = Checksums.default }) a
          (a + aligned.size) s fill inside (omega arith)
          (read_from_client_stream-Bodies crc id object client p waits initial_end aligned keeps
            (record { within = omega (arith, s); small = omega (arith, s) }) inside s.object_small))

-- What a lookup that did not panic gave: a block, or a miss.
pub Answers-cases :
    (Good : ObjectId → ℕ → ChecksummedBytes → Type 0) (id : ObjectId) (index : ℕ)
    (x : Outcome DataCacheError (Option ChecksummedBytes))
    → DataCache.Answers Good id index x
    → ((b : ChecksummedBytes) × (x ≡ ok (some b)) × Good id index b)
      ⊎ ((x ≡ ok none) ⊎ ((e : DataCacheError) × (x ≡ err e)))
Answers-cases Good id index (ok (some b)) g = inl (b, refl, g)
Answers-cases Good id index (ok none) g = inr (inl refl)
Answers-cases Good id index (err e) g = inr (inr (e, refl))
Answers-cases Good id index panic g = absurd g

pub index_le : (index k : ℕ) → 0 < k → index ≤ index * k
index_le index k h = grind arith

pub end_split : (index n k : ℕ) → (index + suc n) * k ≡ index * k + k + n * k
end_split index n k = grind arith

-- The blocks of all objects.
module _ {S : Type 0} (data_cache : DataCache S) (crc : Crc) (objects : ObjectId → List ℕ) where
  abbrev pub GoodBlock : ObjectId → ℕ → ChecksummedBytes → Type 0
  GoodBlock key index b = IsBlock crc data_cache.block_size (objects key) index b

module _ {S : Type 0} (data_cache : DataCache S) (crc : Crc) (id : ObjectId)
    (objects : ObjectId → List ℕ) where
  -- Where the loop is: at the start of a block that has bytes of the range.
  pub record At (range : RequestRange) (n index block_offset : ℕ) : Type 0 where
    pub start : block_offset ≡ index * data_cache.block_size
    pub later : range.offset < block_offset + data_cache.block_size
    pub ends :
        (index + n) * data_cache.block_size < range.offset + range.size + data_cache.block_size
    pub some_bytes : 0 < range.size

  pub fall_back_lem :
      (client : RequestRange → List Item) (initial_end : ℕ) (range : RequestRange)
      (n index block_offset : ℕ) (p : Producer) (waits : Waits)
      → Setting crc id data_cache.block_size (objects id) range
      → KeepsTo crc id (objects id) client
      → At range (suc n) index block_offset
      → Streams crc id data_cache.block_size
          (objects id)
          range
          block_offset
          (elim (trim_start range block_offset) as (λ x. Sent) [
            | none ↦ sent_nothing false
            | some rest ↦
                get_from_client crc id data_cache.block_size client p waits initial_end rest index
                  (index +w suc n)
          ])
  fall_back_lem client initial_end range n index block_offset p waits s keeps a =
      let k : ℕ = data_cache.block_size in
      let at : ℕ = mark range block_offset in
      let rest : RequestRange = record range {
        offset = at;
        size = range.offset + range.size - at;
      } in
      let split : (index + suc n) * k ≡ index * k + k + n * k = end_split index n k in
      let small : index ≤ index * k = index_le index k s.block_pos in
      let before : block_offset < range.offset + range.size = omega (arith, split, a) in
      let ts = trim_start_lem range block_offset (omega (arith, s)) in
      let last : index +w suc n ≡ index + suc n =
        omega (arith, index_le (index + suc n) k s.block_pos, a, s) in
      let rest_s : Setting crc id k (objects id) rest = record {
        block_pos = s.block_pos;
        block_small = s.block_small;
        range_le = omega (arith, before, s);
        size_is = s.size_is;
        object_small = s.object_small;
      } in
      let done : Streams crc id k (objects id) rest (index * k)
          (get_from_client crc id k client p waits initial_end rest index (index + suc n)) =
        get_from_client_lem crc id k (objects id) client p waits initial_end rest index
          (index + suc n) rest_s keeps (omega (arith, a, before)) (omega (arith, before, s)) small
          (omega (arith, split)) (omega (arith, a, s)) in
      rw (ts, last)
        (record {
          delivers =
              subst
                (λ j.
                  Delivers crc id (objects id) false
                    (get_from_client crc id k client p waits initial_end rest index
                      (index + suc n)).messages
                    j)
                (omega (arith, before, a.start)) done.delivers;
          blocks = done.blocks;
        })
