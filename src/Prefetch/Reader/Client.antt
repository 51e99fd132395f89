-- ===== src/Prefetch/Reader/Client.antt =====
-- The reader over the client: mountpoint-s3-fs/src/prefetch/part_stream.rs, the future that
-- `ClientPartStream::spawn_get_object_request` spawns.
use mountpoint_s.Prelude.{ℕ, ◌+◌, ◌≤◌, ◌<◌, ◌^◌, refl, List, true, false, some, arith, ◌+w◌}
use mountpoint_s.Checksums.{Crc}
use mountpoint_s.Prefetch.Part.{ObjectId}
use mountpoint_s.Prefetch.Backpressure.{align_to_part_size}
use mountpoint_s.Prefetch.Range.{RequestRange, end_offset, initial_read_window_size}
use mountpoint_s.Prefetch.Compose.{Item, Waits, compose_parts, read_from_client_stream}
use mountpoint_s.Prefetch.Compose.Honest.{
  KeepsTo, compose_parts-Delivers, read_from_client_stream-Bodies,
}
use mountpoint_s.Prefetch.Reader.{PrefetcherConfig, Source, Reader}
use mountpoint_s.Prefetch.Reader.Calls.{read}
use mountpoint_s.Prefetch.Reader.Invariant.{IsReady}
use mountpoint_s.Prefetch.Reader.Correct.{Answers, read_correct}

module _ (crc : Crc) (id : ObjectId) where
  -- `client` gives what the client sends for a range, `waits` what the waits of the request meet.
  abbrev pub client_source : PrefetcherConfig → ℕ → ℕ → (RequestRange → List Item) → Waits → Source
  client_source config read_part_size initial client waits = record {
    read_part_size = read_part_size;
    initial_read_window = some initial;
    alignment = λ initial_end. align_to_part_size initial_end read_part_size;
    checks_part_size = true;
    messages = λ range initial_end part_size. compose_parts crc id part_size (
        read_from_client_stream client
          (record {
            read_window_end_offset =
                range.offset +w initial_read_window_size config.initial_request_size read_part_size;
            request_end_offset = end_offset range;
          })
          waits initial_end range);
  }

  -- With a part size from 2 to 2^61 - 1, an initial window of a byte at least, and a client that
  -- sends bytes of the object for each range, but may stop early or fail, whatever the waits of
  -- the requests meet: a read of a ready reader gives exactly the bytes of the object from the
  -- offset on, up to the length or to the end of the object, or it fails, and leaves the reader
  -- ready either way. It never panics, and never gives other bytes or fewer.
  pub client_read_correct :
      (object : List ℕ) (config : PrefetcherConfig) (read_part_size initial : ℕ)
      (client : RequestRange → List Item) (waits : Waits) (r : Reader) (offset n : ℕ)
      → 2 ≤ read_part_size
      → read_part_size < 2 ^ 61
      → 0 < initial
      → KeepsTo crc id object client
      → IsReady crc id object false r
      → let source = client_source config read_part_size initial client waits in
        Answers crc source id object false offset n (read crc source r offset n)
  client_read_correct object config read_part_size initial client waits r offset n two small pos
        keeps v =
      read_correct crc (client_source config read_part_size initial client waits) id object false r
        offset n
        (record {
          part_two = two;
          part_small = small;
          initial = initial;
          initial_pos = pos;
          initial_set = refl;
          aligned = λ initial_end fits. omega arith;
          delivers = λ range initial_end part_size size all some_part part_le.
              compose_parts-Delivers crc id object _ part_size range.offset
                (range.offset + range.size) some_part (omega arith) (omega arith)
                v.sound.object_small
                (read_from_client_stream-Bodies crc id object client _ waits initial_end range keeps
                  (record { within = omega arith; small = omega (arith, v.sound) }) (omega arith)
                  v.sound.object_small);
        })
        v
