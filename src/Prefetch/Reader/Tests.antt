-- ===== src/Prefetch/Reader/Tests.antt =====
-- The reader at concrete inputs: a source that sends the rest of the sample object as one part.
use mountpoint_s.Prelude.{
  ℕ, ◌-◌, ◌*◌, ◌≤◌, ◌<◌, ◌≡◌, refl, ◌∙◌, ap, inl, inr, List, [], ◌∷◌, map, true, false, some, none,
  arith, length, slice, false, length-slice, ltb, ltb→lt, ltb→le, Bool-cases, if◌then◌else◌,
}
use mountpoint_s.Checksums.Sample.{sum_crc}
use mountpoint_s.Checksums
use mountpoint_s.Checksums.Content.{new-content}
use mountpoint_s.DataCache.{DataCache}
use mountpoint_s.DataCache.InMemory.{InMemoryDataCache, in_memory, AllGood, in_memory-IsFaithful}
use mountpoint_s.Prefetch.Caching.Requests.{GoodBlock}
use mountpoint_s.Prefetch.Caching.Shared.{SharedCache, Event, request, run_update, run}
use mountpoint_s.Prefetch.Reader.Cached.{cached_source, cached_read_correct}
use mountpoint_s.Prefetch.Part.{ObjectId, Part, s3}
use mountpoint_s.Prefetch.Backpressure.{align_to_part_size}
use mountpoint_s.Prefetch.Stream.{Holds}
use mountpoint_s.Prefetch.PartQueue.{Message, part}
use mountpoint_s.Prefetch.PartQueue.Honest.{Delivers}
use mountpoint_s.Prefetch.Sample.{object, id, shared, client, client-KeepsTo}
use mountpoint_s.Prefetch.Reader
use mountpoint_s.Prefetch.Reader.{PrefetcherConfig, Source, Reader}
use mountpoint_s.Prefetch.Reader.Calls.{read}
use mountpoint_s.Prefetch.Reader.Invariant.{IsHonest, IsReady, IsSensible}
use mountpoint_s.Prefetch.Reader.Correct.{Answers, read_correct}
use mountpoint_s.Prefetch.Reader.Client.{client_source, client_read_correct}
use mountpoint_s.Prefetch.Reader.Session.{contents, expected, session_correct}

abbrev config : PrefetcherConfig
config = record {
  max_read_window_size = 256;
  sequential_prefetch_multiplier = 8;
  max_forward_seek_wait_distance = 16;
  max_backward_seek_distance = 4;
  initial_request_size = 64;
}

abbrev rest_part : ℕ → Part
rest_part offset = record {
  id = id;
  offset = offset;
  checksummed_bytes = Checksums.new sum_crc (slice object offset 5);
  source = s3;
}

abbrev rest_messages : ℕ → List Message
rest_messages offset = if ltb offset 5 then part (rest_part offset) ∷ [] else []

abbrev source : Source
source = record {
  read_part_size = 8;
  initial_read_window = some 64;
  alignment = λ initial_end. align_to_part_size initial_end 8;
  checks_part_size = true;
  messages = λ range initial_end part_size. rest_messages range.offset;
}

rest_part-Holds : (offset : ℕ) → offset < 5 → Holds sum_crc id object (rest_part offset)
unfolding Checksums.new
rest_part-Holds offset lt =
    let size : length (slice object offset 5) ≡ 5 - offset =
      length-slice object offset 5 (omega arith) in
    let (same, valid, intact) = new-content sum_crc (slice object offset 5) (omega arith) in
    record {
      id_same = refl;
      valid = valid;
      intact = intact;
      within = omega arith;
      bytes = same ∙ ap (slice object offset) (omega arith);
    }

rest_messages-Delivers :
    (offset : ℕ) → offset ≤ 5 → Delivers sum_crc id object true (rest_messages offset) offset
unfolding Checksums.new
rest_messages-Delivers offset le = elim (Bool-cases (ltb offset 5)) [
  | inl before ↦
      let lt : offset < 5 = ltb→lt _ _ before in
      let size : length (slice object offset 5) ≡ 5 - offset =
        length-slice object offset 5 (omega arith) in
      rw before (rest_part-Holds offset lt, refl, omega arith, inr (omega arith))
  | inr at_end ↦ rw at_end (inr (omega (arith, ltb→le _ _ at_end)))
]

source-IsHonest : IsHonest sum_crc id object true source
source-IsHonest = record {
  part_two = omega arith;
  part_small = omega arith;
  initial = 64;
  initial_pos = omega arith;
  initial_set = refl;
  aligned = λ initial_end fits. omega arith;
  delivers = λ range initial_end part_size size all pos small.
      rest_messages-Delivers range.offset (omega arith);
}

config-IsSensible : IsSensible config
config-IsSensible = omega arith

abbrev reader : Reader
reader = record {
  config = config;
  task = none;
  window = record { parts = []; max_size = 4; current_size = 0 };
  object_id = id;
  preferred_part_size = 128 * 1024;
  sequential_read_start_offset = 0;
  next_sequential_read_offset = 0;
  next_request_offset = 0;
  size = 5;
  shared = shared;
  arrivals = 1 ∷ [];
}

reader-IsReady : IsReady sum_crc id object true reader
reader-IsReady = record {
  sound = record {
    size_is = refl;
    object_small = omega arith;
    id_is = refl;
    sensible = config-IsSensible;
    part_pos = omega arith;
    part_small = omega arith;
    window_small = omega arith;
    limit = omega arith;
  };
  within = omega arith;
  window = record {
    run = refl;
    size_le = omega arith;
    size_max = omega arith;
    max_small = omega arith;
    to_small = omega arith;
  };
  task = tt;
}

read_correct_example : Answers sum_crc source id object true 1 3 (read sum_crc source reader 1 3)
read_correct_example =
    read_correct sum_crc source id object true reader 1 3 source-IsHonest reader-IsReady

session_correct_example :
    (r : Reader) × (Reader.new source config id 5 shared.mem_limiter (1 ∷ []) ≡ some r)
    × (contents sum_crc source ((0, 3) ∷ (1, 9) ∷ []) r
        ≡ some (map (expected object) ((0, 3) ∷ (1, 9) ∷ [])))
session_correct_example =
    session_correct sum_crc source id object config shared.mem_limiter (1 ∷ [])
      ((0, 3) ∷ (1, 9) ∷ []) source-IsHonest config-IsSensible (omega arith) (omega arith)
      (omega arith) (omega arith)

fallible-IsReady : IsReady sum_crc id object false reader
fallible-IsReady = record {
  sound = record {
    size_is = refl;
    object_small = omega arith;
    id_is = refl;
    sensible = config-IsSensible;
    part_pos = omega arith;
    part_small = omega arith;
    window_small = omega arith;
    limit = omega arith;
  };
  within = omega arith;
  window = reader-IsReady.window;
  task = tt;
}

client_read_correct_example :
    Answers sum_crc
      (client_source sum_crc id config 8 64 client [])
      id
      object
      false
      1
      3
      (read sum_crc (client_source sum_crc id config 8 64 client []) reader 1 3)
client_read_correct_example =
    client_read_correct sum_crc id object config 8 64 client [] reader 1 3 (omega arith)
      (omega arith) (omega arith) client-KeepsTo fallible-IsReady

abbrev cache : DataCache InMemoryDataCache
cache = in_memory 2

-- The cache is empty at first; a request fills it, and its first update runs.
abbrev empty : SharedCache InMemoryDataCache
empty = record { state = record { entries = []; block_size = 2 }; spawned = [] }

abbrev objects : ObjectId → List ℕ
objects k = object

abbrev events : List Event
events =
    request (record {
      id = id;
      client = client;
      initial_end = 0;
      range = record { object_size = 5; offset = 0; size = 5 };
      producer = record { read_window_end_offset = 64; request_end_offset = 5 };
      waits = [];
    })
    ∷ run_update 0
    ∷ []

abbrev Keeps : InMemoryDataCache → Type 0
Keeps c = AllGood (GoodBlock cache sum_crc objects) c.entries

cached_read_correct_example :
    let s = (run cache sum_crc events empty).state in
    let over = cached_source cache sum_crc id config 8 64 client [] s in
    Answers sum_crc over id object false 1 3 (read sum_crc over reader 1 3)
cached_read_correct_example =
    cached_read_correct cache sum_crc id objects Keeps config 8 64 client [] events empty reader 1 3
      (omega arith) (omega arith) (omega arith) (omega arith) (omega arith)
      (in_memory-IsFaithful (GoodBlock cache sum_crc objects) 2) client-KeepsTo
      (
        client-KeepsTo,
        record {
          block_pos = omega arith;
          block_small = omega arith;
          range_le = omega arith;
          size_is = refl;
          object_small = omega arith;
        },
        tt,
      )
      (record { keeps = tt; good = tt }) fallible-IsReady
