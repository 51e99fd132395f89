-- ===== src/Prefetch/Caching.antt =====
-- mountpoint-s3-fs/src/prefetch/caching_stream.rs: the stream that looks into a data cache first.
--
-- What a request does is `Sent`: the messages that it pushes, the cache updates that it spawns, in order,
-- and whether it came to its end (a panic ends the future, and with it the channel). `client` and
-- `waits` are as in `Compose`. Traces and metrics are left out.
pub mod Parts
pub mod Blocks
pub mod Filling
pub mod Composed
pub mod Requests
pub mod Lookups
pub mod Shared
mod Tests
use mountpoint_s.Prelude.{
  ℕ, zero, suc, ◌+◌, ◌-◌, ◌*◌, ◌/◌, ◌%◌, min, List, [], ◌∷◌, ◌++◌, Bool, true, false, ◌&&◌, not,
  Option, none, some, Outcome, ok, err, panic, length, take, drop, ltb, ◌==◌, if◌then◌else◌, ◌+w◌,
  ◌-w◌, ◌*w◌,
}
use mountpoint_s.Checksums
use mountpoint_s.Checksums.{Crc, ChecksummedBytes, included, excluded}
use mountpoint_s.DataCache.{DataCache, DataCacheError}
use mountpoint_s.DataCache.Multilevel.{Update}
use mountpoint_s.Prefetch.Errors.{
  ReadError, get_request_returned_wrong_offset, integrity, read_window_increment,
}
use mountpoint_s.Prefetch.Part.{ObjectId, Part, PartSource, cache, s3}
use mountpoint_s.Prefetch.PartQueue.{Message, part, failure}
use mountpoint_s.Prefetch.Backpressure.Producer.{
  Producer, WaitError, wait_for_read_window_increment,
}
use mountpoint_s.Prefetch.Range
use mountpoint_s.Prefetch.Range.{RequestRange, end_offset, trim_start, trim_end}
use mountpoint_s.Prefetch.Compose.{Item, body, broken, Waits, next_wait, read_from_client_stream}

pub record Sent : Type 0 where
  pub messages : List Message
  pub updates : List Update
  pub finished : Bool

abbrev pub sent_nothing : Bool → Sent
sent_nothing finished = record { messages = []; updates = []; finished = finished }

-- What comes before the rest of a run.
abbrev pub and_then : List Message → List Update → Sent → Sent
and_then messages updates rest = record {
  messages = messages ++ rest.messages;
  updates = updates ++ rest.updates;
  finished = rest.finished;
}

abbrev pub send : Message → Sent → Sent
send message rest = and_then (message ∷ []) [] rest

-- The part of `bytes` for a range that is cut out of them. `none` is a panic.
unfoldable pub cut_part :
    ChecksummedBytes → ℕ → ObjectId → RequestRange → PartSource → Option (Option Part)
cut_part bytes offset id part_range source =
    if part_range.size == 0
    then some none
    else elim (Checksums.slice_range bytes (included (part_range.offset - offset))
        (excluded (end_offset part_range - offset))) [
          | ok cut ↦ some (
              some (record {
                id = id;
                offset = part_range.offset;
                checksummed_bytes = cut;
                source = source;
              }))
          | err e ↦ none
          | panic ↦ none
        ]

unfoldable pub try_make_part :
    ChecksummedBytes → ℕ → ObjectId → RequestRange → PartSource → Option (Option Part)
try_make_part bytes offset id range source = elim (trim_start range offset) [
  | none ↦ none
  | some from ↦ elim (trim_end from (offset +w Checksums.len bytes)) [
    | none ↦ none
    | some part_range ↦ cut_part bytes offset id part_range source
  ]
]

abbrev pub messages_of : Option Part → List Message
messages_of none = []
messages_of (some p) = part p ∷ []

-- The fields of `CachingPartComposer` that change, and the buffer of `compose_parts`.
pub record Composer : Type 0 where
  pub block_index : ℕ
  pub block_offset : ℕ
  pub buffer : ChecksummedBytes

-- How the composer comes out of a body or of the stream.
abbrev pub Composed : Type 0
Composed = Outcome ReadError Composer

module _ (crc : Crc) (id : ObjectId) (block_size : ℕ) (range : RequestRange) where
  -- `update_cache` with what is in the buffer.
  abbrev pub update : Composer → ChecksummedBytes → Update
  update c block = record {
    key = id;
    index = c.block_index;
    offset = c.block_offset;
    bytes = block;
    size = range.object_size;
  }

  -- The loop over one body, on fuel; each round takes a byte at least.
  unfoldable pub split_blocks : ℕ → Composer → ℕ → List ℕ → List Message × List Update × Composed
  split_blocks fuel c offset [] = ([], [], ok c)
  split_blocks zero c offset (b ∷ bs) = ([], [], panic)
  split_blocks (suc fuel) c offset (b ∷ bs) =
      let remaining = min (block_size - Checksums.len c.buffer) (length (b ∷ bs)) in
      let chunk = Checksums.new crc (take remaining (b ∷ bs)) in
      elim (try_make_part chunk offset id range s3) [
        | none ↦ ([], [], panic)
        | some made ↦ elim (Checksums.extend crc c.buffer chunk) [
          | err e ↦ (messages_of made, [], err (integrity e))
          | panic ↦ (messages_of made, [], panic)
          | ok buffer ↦ elim (ltb (Checksums.len buffer) block_size) [
            | true ↦ (messages_of made, [], ok (record c { buffer = buffer }))
            | false ↦
                let (messages, updates, result) =
                  split_blocks fuel
                    (record {
                      block_index = c.block_index +w 1;
                      block_offset = c.block_offset +w block_size;
                      buffer = Checksums.default;
                    })
                    (offset +w Checksums.len chunk) (drop remaining (b ∷ bs)) in
                (messages_of made ++ messages, update c buffer ∷ updates, result)
          ]
        ]
      ]

  -- The end of the stream: the last block may be smaller, at the end of the object only.
  unfoldable pub last_block : Composer → Sent
  last_block c =
      if Checksums.is_empty c.buffer
      then sent_nothing true
      else if c.block_offset +w Checksums.len c.buffer == range.object_size
      then record { messages = []; updates = update c c.buffer ∷ []; finished = true }
      else sent_nothing false

  -- `try_compose_parts`: the loop over the stream, and the error that ends it.
  unfoldable pub compose_parts : Composer → List Item → Sent
  compose_parts c [] = last_block c
  compose_parts c (broken e ∷ items) = send (failure e) (sent_nothing true)
  compose_parts c (body offset bytes ∷ items) =
      let expected_offset = c.block_offset +w Checksums.len c.buffer in
      elim (ltb (Checksums.len c.buffer) block_size) [
        | false ↦ sent_nothing false
        | true ↦ elim (offset == expected_offset) [
          | false ↦
              send (failure (get_request_returned_wrong_offset offset expected_offset))
                (sent_nothing true)
          | true ↦
              let (messages, updates, result) = split_blocks (length bytes) c offset bytes in
              elim result [
                | ok c' ↦ and_then messages updates (compose_parts c' items)
                | err e ↦ and_then messages updates (send (failure e) (sent_nothing true))
                | panic ↦ and_then messages updates (sent_nothing false)
              ]
        ]
      ]

-- `get_from_client`, for the blocks from `start` up to `end`; `range` is what is left of the request.
unfoldable pub get_from_client :
    Crc
    → ObjectId
    → ℕ
    → (RequestRange → List Item)
    → Producer
    → Waits
    → ℕ
    → RequestRange
    → ℕ
    → ℕ
    → Sent
get_from_client crc id block_size client p waits initial_request_end_offset range start end =
    let start_offset = start *w block_size in
    let end_at = min (end *w block_size) range.object_size in
    let block_aligned_byte_range =
      Range.new range.object_size start_offset (end_at -w start_offset) in
    if ltb 0 block_size
    then compose_parts crc id block_size range
        (record { block_index = start; block_offset = start_offset; buffer = Checksums.default })
        (read_from_client_stream client p waits initial_request_end_offset block_aligned_byte_range)
    else sent_nothing false

-- `block_indices_for_byte_range`; a division by 0 panics before it is used.
unfoldable pub end_block : ℕ → RequestRange → ℕ
end_block block_size range =
    if not (range.size == 0) && not (end_offset range % block_size == 0)
    then end_offset range / block_size +w 1
    else end_offset range / block_size

module _ {S : Type 0} (data_cache : DataCache S) (crc : Crc) (id : ObjectId) where
  -- The loop of `get_from_cache`, over the `n` blocks from `index` on. It gives the cache as it is after
  -- the lookups; the updates have not run.
  unfoldable pub get_blocks :
      (RequestRange → List Item) → ℕ → RequestRange → ℕ → ℕ → ℕ → Producer → Waits → S → Sent × S
  get_blocks client initial_end range zero index block_offset p waits s = (sent_nothing true, s)
  get_blocks client initial_end range (suc n) index block_offset p waits s =
      let (answer, s') = data_cache.get_block s id index block_offset range.object_size in
      let fall_back = elim (trim_start range block_offset) as (λ x. Sent) [
        | none ↦ sent_nothing false
        | some rest ↦
            get_from_client crc id data_cache.block_size client p waits initial_end rest index
              (index +w suc n)
      ] in
      elim answer [
        | panic ↦ (sent_nothing false, s')
        | err e ↦ (fall_back, s')
        | ok none ↦ (fall_back, s')
        | ok (some block) ↦ elim (try_make_part block block_offset id range cache) [
          | none ↦ (sent_nothing false, s')
          | some none ↦ (sent_nothing false, s')
          | some (some made) ↦
              let next = block_offset +w data_cache.block_size in
              let (queued, later, waits') = next_wait waits in
              elim (wait_for_read_window_increment p next queued later) [
                | err e ↦ (
                  send (part made) (send (failure read_window_increment) (sent_nothing true)),
                  s',
                )
                | panic ↦ (send (part made) (sent_nothing false), s')
                | ok (_, p', _) ↦
                    let (rest, s'') =
                      get_blocks client initial_end range n (index +w 1) next p' waits' s' in
                    (send (part made) rest, s'')
              ]
        ]
      ]

  unfoldable pub get_from_cache :
      (RequestRange → List Item) → ℕ → RequestRange → Producer → Waits → S → Sent × S
  unfolding end_block
  get_from_cache client initial_end range p waits s =
      let start_block = range.offset / data_cache.block_size in
      if data_cache.block_size == 0
      then (sent_nothing false, s)
      else get_blocks client initial_end range (end_block data_cache.block_size range - start_block)
          start_block (start_block *w data_cache.block_size) p waits s
