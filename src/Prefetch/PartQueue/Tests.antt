-- ===== src/Prefetch/PartQueue/Tests.antt =====
-- The queue at concrete inputs: the first part has been put back, the second is on its way.
use mountpoint_s.Prelude.{◌≡◌, refl, inr, [], ◌∷◌, true, some, false, arith}
use mountpoint_s.Checksums.Sample.{sum_crc}
use mountpoint_s.Prefetch.Sample.{object, id, first, second, shared, first-Holds, second-Holds}
use mountpoint_s.Memory.Limiter
use mountpoint_s.Prefetch.PartQueue.{PartQueue, part, read, push_front}
use mountpoint_s.Prefetch.PartQueue.Honest.{Feeds, ReadsOn, read_lem, push_front-Feeds}

abbrev tail : PartQueue
tail = record {
  front_queue = [];
  received = part second ∷ [];
  pending = [];
  failed = false;
  bytes_received = 5;
}

abbrev queue : PartQueue
queue = record tail { front_queue = first ∷ [] }

tail-Feeds : Feeds sum_crc id object true tail 2
tail-Feeds = record {
  usable = refl;
  mid = 2;
  front = refl;
  rest = (second-Holds, refl, omega arith, inr refl);
}

queue-Feeds : Feeds sum_crc id object true queue 0
queue-Feeds = record {
  usable = refl;
  mid = 2;
  front = (first-Holds, refl, omega arith, refl);
  rest = (second-Holds, refl, omega arith, inr refl);
}

read_lem_example : ReadsOn sum_crc id object true 0 1 (read queue 1)
read_lem_example =
    read_lem sum_crc id object true queue 0 1 (omega arith) (omega arith) (omega arith) queue-Feeds

push_front-Feeds_example :
    (q' : PartQueue) × (push_front tail shared.mem_limiter first
      ≡ some (q', Limiter.reserve shared.mem_limiter 2))
    × Feeds sum_crc id object true q' 0
push_front-Feeds_example =
    push_front-Feeds sum_crc id object true tail shared.mem_limiter first 2 tail-Feeds first-Holds
      refl (omega arith)
