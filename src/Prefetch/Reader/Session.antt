-- ===== src/Prefetch/Reader/Session.antt =====
-- A whole life of a reader: it is made, and then asked for any ranges one after another.
use mountpoint_s.Prelude.{
  ℕ, ◌+◌, ◌-◌, ◌*◌, ◌/◌, ◌%◌, ◌<◌, ◌^◌, min, ◌≡◌, refl, List, [], ◌∷◌, map, Bool, true, false,
  Option, none, some, Outcome, ok, err, panic, arith, length, slice, ◌==◌, if◌then◌else◌, ◌*w◌,
}
use mountpoint_s.Checksums.{Crc, ChecksummedBytes}
use mountpoint_s.Checksums.Content.{content}
use mountpoint_s.Memory.Limiter
use mountpoint_s.Memory.Limiter.{MemoryLimiter}
use mountpoint_s.Prefetch.Errors.{ReadError}
use mountpoint_s.Prefetch.Part.{ObjectId}
use mountpoint_s.Prefetch.SeekWindow
use mountpoint_s.Prefetch.Reader
use mountpoint_s.Prefetch.Reader.{PrefetcherConfig, Source, Reader, seek_window_reservation}
use mountpoint_s.Prefetch.Reader.Calls.{read}
use mountpoint_s.Prefetch.Reader.Invariant.{IsHonest, IsReady, IsSensible}
use mountpoint_s.Prefetch.Reader.Correct.{Answers, read_correct}

module _ (crc : Crc) (source : Source) where
  -- The bytes that a reader gives for a list of offsets and lengths; `none` if a read fails.
  abbrev keep :
      Outcome ReadError ChecksummedBytes × Reader
      → (Reader → Option (List (List ℕ)))
      → Option (List (List ℕ))
  keep (ok bytes, r) rest = elim (rest r) [ none ↦ none | some all ↦ some (content bytes ∷ all) ]
  keep (err e, r) rest = none
  keep (panic, r) rest = none

  abbrev pub contents : List (ℕ × ℕ) → Reader → Option (List (List ℕ))
  contents [] r = some []
  contents ((offset, n) ∷ requests) r = keep (read crc source r offset n) (contents requests)

-- What a file with these bytes holds there.
abbrev pub expected : List ℕ → ℕ × ℕ → List ℕ
expected object (offset, n) = slice object offset (min (offset + n) (length object))

module _ (crc : Crc) (source : Source) (id : ObjectId) (object : List ℕ) where
  keep_lem :
      (offset n : ℕ) (all : List (List ℕ)) (x : Outcome ReadError ChecksummedBytes × Reader)
      (rest : Reader → Option (List (List ℕ)))
      → Answers crc source id object true offset n x
      → ((r : Reader) → IsReady crc id object true r → rest r ≡ some all)
      → keep crc source x rest ≡ some (expected object (offset, n) ∷ all)
  keep_lem offset n all (ok bytes, r) rest (valid, intact, e, ready) next =
      rw (next r ready, keep, e) refl
  keep_lem offset n all (err e, r) rest (w, ready) next = ground arith
  keep_lem offset n all (panic, r) rest x next = absurd x

  contents_lem :
      (requests : List (ℕ × ℕ)) (r : Reader)
      → IsHonest crc id object true source
      → IsReady crc id object true r
      → contents crc source requests r ≡ some (map (expected object) requests)
  contents_lem [] r h v = refl
  contents_lem ((offset, n) ∷ requests) r h v =
      keep_lem offset n (map (expected object) requests) (read crc source r offset n)
        (contents crc source requests) (read_correct crc source id object true r offset n h v)
        (λ r' v'. contents_lem requests r' h v')

  -- A reader can be made for a sensible configuration, and is ready.
  new-IsReady :
      (config : PrefetcherConfig) (limiter : MemoryLimiter) (arrivals : List ℕ) (whole : Bool)
      → IsSensible config
      → 0 < config.max_backward_seek_distance
      → config.max_backward_seek_distance < 2 ^ 63
      → 0 < source.read_part_size
      → limiter.mem_limit < 2 ^ 64 - 1
      → length object < 2 ^ 61
      → (r : Reader) × (Reader.new source config id (length object) limiter arrivals ≡ some r)
        × IsReady crc id object whole r
  unfolding Reader.new seek_window_reservation SeekWindow.new Limiter.reserve
  new-IsReady config limiter arrivals whole sensible pos small part limit fits =
      let reservation : ℕ =
        (if config.max_backward_seek_distance % source.read_part_size == 0
          then config.max_backward_seek_distance / source.read_part_size
          else config.max_backward_seek_distance / source.read_part_size + 1)
        *w source.read_part_size in
      let r : Reader = record {
        config = config;
        task = none;
        window = record {
          parts = [];
          max_size = config.max_backward_seek_distance;
          current_size = 0;
        };
        object_id = id;
        preferred_part_size = 128 * 1024;
        sequential_read_start_offset = 0;
        next_sequential_read_offset = 0;
        next_request_offset = 0;
        size = length object;
        shared = record {
          mem_limiter = Limiter.reserve limiter reservation;
          increments = [];
          receiver_alive = false;
        };
        arrivals = arrivals;
      } in
      (
        r,
        ground arith,
        record {
          sound = record {
            size_is = refl;
            object_small = fits;
            id_is = refl;
            sensible = sensible;
            part_pos = omega arith;
            part_small = omega arith;
            window_small = small;
            limit = limit;
          };
          within = omega arith;
          window = record {
            run = refl;
            size_le = omega arith;
            size_max = omega arith;
            max_small = small;
            to_small = omega arith;
          };
          task = tt;
        },
      )

  -- For a sensible configuration, a backward seek distance from 1 to 2^63 - 1, a memory limit
  -- below the largest `u64`, an object of less than 2^61 bytes, and an honest source that gives
  -- all of it, whatever arrives when: a reader can be made, and asked for any ranges of the object
  -- one after another, forwards or backwards, it gives for each of them exactly the bytes that the
  -- object has there.
  pub session_correct :
      (config : PrefetcherConfig) (limiter : MemoryLimiter) (arrivals : List ℕ)
      (requests : List (ℕ × ℕ))
      → IsHonest crc id object true source
      → IsSensible config
      → 0 < config.max_backward_seek_distance
      → config.max_backward_seek_distance < 2 ^ 63
      → limiter.mem_limit < 2 ^ 64 - 1
      → length object < 2 ^ 61
      → (r : Reader) × (Reader.new source config id (length object) limiter arrivals ≡ some r)
        × (contents crc source requests r ≡ some (map (expected object) requests))
  session_correct config limiter arrivals requests h sensible pos small limit fits =
      let (r, e, v) =
        new-IsReady config limiter arrivals true sensible pos small (omega (arith, h.part_two))
          limit fits in
      (r, e, contents_lem requests r h v)
