-- ===== src/Prefetch/Reader/Cached.antt =====
-- The reader over a data cache: mountpoint-s3-fs/src/prefetch/caching_stream.rs,
-- `CachingPartStream::spawn_get_object_request` and the future that it spawns.
use mountpoint_s.Prelude.{ℕ, ◌≤◌, ◌<◌, ◌^◌, refl, List, false, some, arith, ◌+w◌}
use mountpoint_s.Checksums.{Crc}
use mountpoint_s.DataCache.{DataCache, IsFaithful}
use mountpoint_s.Prefetch.Part.{ObjectId}
use mountpoint_s.Prefetch.Backpressure.{disable}
use mountpoint_s.Prefetch.Range.{RequestRange, end_offset, initial_read_window_size}
use mountpoint_s.Prefetch.Compose.{Item, Waits}
use mountpoint_s.Prefetch.Compose.Honest.{KeepsTo}
use mountpoint_s.Prefetch.Caching.{get_from_cache}
use mountpoint_s.Prefetch.Caching.Requests.{GoodBlock}
use mountpoint_s.Prefetch.Caching.Lookups.{get_from_cache_lem}
use mountpoint_s.Prefetch.Caching.Shared.{
  SharedCache, Event, run, AllHonest, IsCoherent, run-IsCoherent,
}
use mountpoint_s.Prefetch.Reader.{PrefetcherConfig, Source, Reader}
use mountpoint_s.Prefetch.Reader.Calls.{read}
use mountpoint_s.Prefetch.Reader.Invariant.{IsReady}
use mountpoint_s.Prefetch.Reader.Correct.{Answers, read_correct}

module _ {S : Type 0} (data_cache : DataCache S) (crc : Crc) (id : ObjectId) where
  -- `s` is the cache when the request looks into it.
  abbrev pub cached_source :
      PrefetcherConfig → ℕ → ℕ → (RequestRange → List Item) → Waits → S → Source
  cached_source config read_part_size initial client waits s = record {
    read_part_size = read_part_size;
    initial_read_window = some initial;
    alignment = λ initial_end. disable;
    checks_part_size = false;
    messages = λ range initial_end part_size.
        (get_from_cache data_cache crc id client initial_end range
          (record {
            read_window_end_offset =
                range.offset +w initial_read_window_size config.initial_request_size read_part_size;
            request_end_offset = end_offset range;
          })
          waits s).0.messages;
  }

  -- With a part size from 2 to 2^61 - 1, an initial window of a byte at least, a faithful cache of
  -- blocks of 1 to 2^61 - 1 bytes that is coherent at first, and clients that send bytes of the objects,
  -- but may stop early or fail: whatever requests and updates of the cache have run before in any order,
  -- a read of a ready reader over the cache gives exactly the bytes of the object from the offset on, up to
  -- the length or to its end, with a checksum that fits them, or it fails; it leaves the reader ready
  -- and never panics.
  pub cached_read_correct :
      (objects : ObjectId → List ℕ) (Keeps : S → Type 0) (config : PrefetcherConfig)
      (read_part_size initial : ℕ) (client : RequestRange → List Item) (waits : Waits)
      (events : List Event) (c : SharedCache S) (r : Reader) (offset n : ℕ)
      → 2 ≤ read_part_size
      → read_part_size < 2 ^ 61
      → 0 < initial
      → 0 < data_cache.block_size
      → data_cache.block_size < 2 ^ 61
      → IsFaithful data_cache (GoodBlock data_cache crc objects) Keeps
      → KeepsTo crc id (objects id) client
      → AllHonest data_cache crc objects Keeps events
      → IsCoherent data_cache crc objects Keeps c
      → IsReady crc id (objects id) false r
      → let s = (run data_cache crc events c).state in
        let source = cached_source config read_part_size initial client waits s in
        Answers crc source id (objects id) false offset n (read crc source r offset n)
  cached_read_correct objects Keeps config read_part_size initial client waits events c r offset n
        two small pos block_pos block_small f keeps honest i v =
      let s : S = (run data_cache crc events c).state in
      let now = run-IsCoherent data_cache crc objects Keeps events c f honest i in
      read_correct crc (cached_source config read_part_size initial client waits s) id (objects id)
        false r offset n
        (record {
          part_two = two;
          part_small = small;
          initial = initial;
          initial_pos = pos;
          initial_set = refl;
          aligned = λ initial_end fits. tt;
          delivers = λ range initial_end part_size size all some_part part_le.
              (get_from_cache_lem data_cache crc id objects Keeps client initial_end range _ waits s
                f keeps
                (record {
                  block_pos = block_pos;
                  block_small = block_small;
                  range_le = omega arith;
                  size_is = size;
                  object_small = v.sound.object_small;
                })
                now.keeps).0;
        })
        v
