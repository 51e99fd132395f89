-- ===== src/Prefetch/Compose.antt =====
-- mountpoint-s3-fs/src/prefetch/part_stream.rs: `ClientPartComposer` and the streams that it composes.
--
-- What the client sends for a range is a parameter: a list of items, which a failed `get_object` ends at
-- once. `waits` is what each call of `wait_for_read_window_increment` meets, as in
-- `Backpressure.Producer`; after the last of them the channel is closed. What the client is told
-- of the read window, the log and the metrics are left out.
pub mod Splits
pub mod Honest
mod Tests
use mountpoint_s.Prelude.{
  ℕ, zero, suc, ◌+◌, ◌-◌, ◌%◌, min, List, [], ◌∷◌, ◌++◌, Bool, true, false, Option, none, some,
  Outcome, ok, err, panic, length, take, drop, ltb, ◌==◌, if◌then◌else◌, ◌+w◌, ◌-w◌,
}
use mountpoint_s.Checksums
use mountpoint_s.Checksums.{Crc}
use mountpoint_s.Prefetch.Errors.{
  ReadError, get_request_terminated_unexpectedly, read_window_increment,
}
use mountpoint_s.Prefetch.Part.{ObjectId, Part, s3}
use mountpoint_s.Prefetch.PartQueue.{Message, part, failure}
use mountpoint_s.Prefetch.Backpressure.Producer
use mountpoint_s.Prefetch.Backpressure.Producer.{Producer, wait_for_read_window_increment}
use mountpoint_s.Prefetch.Range
use mountpoint_s.Prefetch.Range.{RequestRange, end_offset}

-- `RequestReaderOutput`
pub data Item : Type 0 where
  body : ℕ → List ℕ → Item
  broken : ReadError → Item

module _ (crc : Crc) (id : ObjectId) where
  -- The part made of a chunk.
  abbrev pub chunk_part : ℕ → List ℕ → Part
  chunk_part offset chunk = record {
    id = id;
    offset = offset;
    checksummed_bytes = Checksums.new crc chunk;
    source = s3;
  }

  -- The loop over one body, on fuel: each round takes a byte at least.
  unfoldable pub split_body : ℕ → ℕ → ℕ → List ℕ → List Message
  split_body fuel alignment offset [] = []
  split_body zero alignment offset (b ∷ bs) = []
  split_body (suc fuel) alignment offset (b ∷ bs) =
      let chunk_size = min (alignment -w offset % alignment) (length (b ∷ bs)) in
      part (chunk_part offset (take chunk_size (b ∷ bs)))
      ∷ split_body fuel alignment (offset +w chunk_size) (drop chunk_size (b ∷ bs))

  -- `try_compose_parts`: the messages that it pushes.
  unfoldable pub compose_parts : ℕ → List Item → List Message
  compose_parts alignment [] = []
  compose_parts alignment (broken e ∷ items) = failure e ∷ []
  compose_parts alignment (body offset bytes ∷ items) =
      split_body (length bytes) alignment offset bytes ++ compose_parts alignment items

-- What the waits of a stream meet.
abbrev pub Waits : Type 0
Waits = List (List ℕ × List (List ℕ))

abbrev pub next_wait : Waits → List ℕ × List (List ℕ) × Waits
next_wait [] = ([], [], [])
next_wait ((queued, later) ∷ waits) = (queued, later, waits)

-- `read_from_request`, for what the client sends: the items, and the limiter and the waits after them.
unfoldable pub read_from_request : Producer → Waits → ℕ → List Item → List Item × Producer × Waits
read_from_request p waits end [] = ([], p, waits)
read_from_request p waits end (broken e ∷ items) = (broken e ∷ [], p, waits)
read_from_request p waits end (body offset bytes ∷ items) =
    let next_offset = offset +w length bytes in
    let (queued, later, waits') = next_wait waits in
    if next_offset == end
    then (body offset bytes ∷ [], p, waits)
    else elim (wait_for_read_window_increment p next_offset queued later) [
      | err e ↦ (body offset bytes ∷ broken read_window_increment ∷ [], p, waits')
      | panic ↦ (body offset bytes ∷ [], p, waits')
      | ok (_, p', _) ↦
          let rest = read_from_request p' waits' end items in
          (body offset bytes ∷ rest.0, rest.1, rest.2)
    ]

-- The offset after the last body.
abbrev pub last_end : ℕ → List Item → ℕ
last_end current [] = current
last_end current (broken e ∷ items) = last_end current items
last_end current (body offset bytes ∷ items) = last_end (offset +w length bytes) items

abbrev pub has_failed : List Item → Bool
has_failed [] = false
has_failed (broken e ∷ items) = true
has_failed (body offset bytes ∷ items) = has_failed items

-- The stream after the first request; `p` and `waits` are as that has left them.
unfoldable pub second_request :
    (RequestRange → List Item) → Producer → Waits → ℕ → RequestRange → List Item
second_request client p waits current_offset range =
    let (queued, later, waits') = next_wait waits in
    if range.size == 0
    then []
    else if ltb current_offset range.offset
    then broken get_request_terminated_unexpectedly ∷ []
    else elim (wait_for_read_window_increment p range.offset queued later) [
      | err e ↦ broken read_window_increment ∷ []
      | panic ↦ []
      | ok (_, p', _) ↦ (read_from_request p' waits' (end_offset range) (client range)).0
    ]

unfoldable pub first_request :
    (RequestRange → List Item) → Producer → Waits → RequestRange → List Item × Producer × Waits
first_request client p waits range =
    if range.size == 0
    then ([], p, waits)
    else read_from_request p waits (end_offset range) (client range)

-- `read_from_client_stream`; a panic sends nothing.
unfoldable pub read_from_client_stream :
    (RequestRange → List Item) → Producer → Waits → ℕ → RequestRange → List Item
read_from_client_stream client p waits initial_request_end_offset range =
    elim (Range.trim_end range initial_request_end_offset) [
      | none ↦ []
      | some first ↦
          let (items, p', waits') = first_request client p waits first in
          if has_failed items
          then items
          else elim (Range.trim_start range initial_request_end_offset) [
            | none ↦ items
            | some second ↦
                items ++ second_request client p' waits' (last_end first.offset items) second
          ]
    ]
