-- ===== src/Prefetch/Caching/Tests.antt =====
-- A shared cache at concrete inputs: a request of the whole sample object, and then its first update.
use mountpoint_s.Prelude.{ℕ, refl, arith, List, [], ◌∷◌}
use mountpoint_s.Checksums.Sample.{sum_crc}
use mountpoint_s.DataCache.{DataCache}
use mountpoint_s.DataCache.InMemory.{InMemoryDataCache, in_memory, AllGood, in_memory-IsFaithful}
use mountpoint_s.Prefetch.Part.{ObjectId}
use mountpoint_s.Prefetch.Sample.{object, id, client, client-KeepsTo}
use mountpoint_s.Prefetch.Caching.Requests.{GoodBlock}
use mountpoint_s.Prefetch.Caching.Shared.{
  SharedCache, Event, request, run_update, run, IsCoherent, run-IsCoherent,
}

abbrev cache : DataCache InMemoryDataCache
cache = in_memory 2

abbrev empty : SharedCache InMemoryDataCache
empty = record { state = record { entries = []; block_size = 2 }; spawned = [] }

abbrev objects : ObjectId → List ℕ
objects k = object

abbrev events : List Event
events =
    request (record {
      id = id;
      client = client;
      initial_end = 0;
      range = record { object_size = 5; offset = 0; size = 5 };
      producer = record { read_window_end_offset = 64; request_end_offset = 5 };
      waits = [];
    })
    ∷ run_update 0
    ∷ []

abbrev Keeps : InMemoryDataCache → Type 0
Keeps c = AllGood (GoodBlock cache sum_crc objects) c.entries

run-IsCoherent_example : IsCoherent cache sum_crc objects Keeps (run cache sum_crc events empty)
run-IsCoherent_example =
    run-IsCoherent cache sum_crc objects Keeps events empty
      (in_memory-IsFaithful (GoodBlock cache sum_crc objects) 2)
      (
        client-KeepsTo,
        record {
          block_pos = omega arith;
          block_small = omega arith;
          range_le = omega arith;
          size_is = refl;
          object_small = omega arith;
        },
        tt,
      )
      (record { keeps = tt; good = tt })
