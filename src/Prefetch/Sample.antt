-- ===== src/Prefetch/Sample.antt =====
-- A small object, and parts of it, for examples.
use mountpoint_s.Prelude.{
  ℕ, ◌+◌, ◌≡◌, refl, sym, ap, inr, List, [], ◌∷◌, true, arith, length, slice, length-slice,
}
use mountpoint_s.Checksums.Sample.{sum_crc}
use mountpoint_s.Prefetch.Part.{ObjectId, Part, s3}
use mountpoint_s.Prefetch.Stream.{Holds}
use mountpoint_s.Prefetch.Range.{RequestRange}
use mountpoint_s.Prefetch.Compose.{Item, body}
use mountpoint_s.Prefetch.Compose.Honest.{KeepsTo}
use mountpoint_s.Prefetch.Backpressure.{Controller, Shared, align_to_part_size}

abbrev pub object : List ℕ
object = 5 ∷ 6 ∷ 7 ∷ 8 ∷ 9 ∷ []

abbrev pub id : ObjectId
id = record { key = "key"; etag = "etag" }

abbrev pub first : Part
first = record {
  id = id;
  offset = 0;
  checksummed_bytes = record { buffer = 5 ∷ 6 ∷ []; start = 0; end = 2; checksum = 11 };
  source = s3;
}

abbrev pub second : Part
second = record {
  id = id;
  offset = 2;
  checksummed_bytes = record { buffer = 7 ∷ 8 ∷ 9 ∷ []; start = 0; end = 3; checksum = 24 };
  source = s3;
}

pub first-Holds : Holds sum_crc id object first
unfolding slice
first-Holds = record {
  id_same = refl;
  valid = omega arith;
  intact = inr refl;
  within = omega arith;
  bytes = refl;
}

pub second-Holds : Holds sum_crc id object second
unfolding slice
second-Holds = record {
  id_same = refl;
  valid = omega arith;
  intact = inr refl;
  within = omega arith;
  bytes = refl;
}

abbrev pub controller : Controller
controller = record {
  preferred_read_window_size = 64;
  min_read_window_size = 16;
  max_read_window_size = 256;
  read_window_size_multiplier = 2;
  read_window_end_offset = 5;
  next_read_offset = 0;
  request_end_offset = 5;
  read_window_alignment_config = align_to_part_size 72 16;
}

abbrev pub shared : Shared
shared = record {
  mem_limiter = record {
    mem_limit = 1000;
    mem_reserved = 100;
    additional_mem_reserved = 70;
    pool = record { get_object = 5; put_object = 40; disk_cache = 3; append = 2; other = 10 };
  };
  increments = [];
  receiver_alive = true;
}

-- A client that sends what it is asked for in one body.
abbrev pub client : RequestRange → List Item
client range = body range.offset (slice object range.offset (range.offset + range.size)) ∷ []

pub client-KeepsTo : KeepsTo sum_crc id object client
client-KeepsTo range le =
    let size : length (slice object range.offset (range.offset + range.size)) ≡ range.size =
      omega (arith, length-slice object range.offset (range.offset + range.size) le) in
    (refl, omega arith, ap (λ k. slice object range.offset (range.offset + k)) (sym size), tt)
