-- ===== src/Prefetch/Reader.antt =====
-- mountpoint-s3-fs/src/prefetch.rs: `PrefetchGetObject`, the reader of one file handle.
--
-- Its state is `Reader`; an operation gives its result beside the state that it leaves. What the reader
-- shares with others is `shared`: the memory limiter, and the channel of the current task. `arrivals` is
-- the schedule of the producer: how many messages it sends before each read of the task, none when the
-- list is at its end. A failed read of a task leaves its controller alone, and the caller drops the task,
-- so the task is left as it was. Metrics and traces are left out.
pub mod Seek
pub mod Calls
pub mod Invariant
pub mod Loop
pub mod Skips
pub mod Spawns
pub mod Correct
pub mod Session
pub mod Client
pub mod Cached
mod Tests
use mountpoint_s.Prelude.{
  ℕ, zero, suc, ◌+◌, ◌-◌, ◌*◌, ◌/◌, ◌%◌, min, max, List, [], ◌∷◌, Bool, true, false, ◌&&◌, ◌||◌,
  not, Option, none, some, Outcome, ok, err, panic, ltb, leb, ◌==◌, if◌then◌else◌, ◌+w◌, ◌-w◌, ◌*w◌,
  saturating_add,
}
use mountpoint_s.Checksums
use mountpoint_s.Checksums.{Crc, ChecksummedBytes}
use mountpoint_s.Memory.Limiter
use mountpoint_s.Memory.Limiter.{MemoryLimiter}
use mountpoint_s.Prefetch.Errors.{
  ReadError, integrity, part_read_failed, backpressure_precondition_failed,
}
use mountpoint_s.Prefetch.Part
use mountpoint_s.Prefetch.Part.{ObjectId, Part, is_from_cache}
use mountpoint_s.Prefetch.SeekWindow
use mountpoint_s.Prefetch.SeekWindow.{SeekWindow}
use mountpoint_s.Prefetch.PartQueue.{Message, unbounded_part_queue}
use mountpoint_s.Prefetch.Backpressure
use mountpoint_s.Prefetch.Backpressure.{Controller, Shared, Alignment}
use mountpoint_s.Prefetch.Range
use mountpoint_s.Prefetch.Range.{RequestRange, end_offset, initial_read_window_size}
use mountpoint_s.Prefetch.Task
use mountpoint_s.Prefetch.Task.{RequestTask, available_offset, from_handle}

pub record PrefetcherConfig : Type 0 where
  pub max_read_window_size : ℕ
  pub sequential_prefetch_multiplier : ℕ
  pub max_forward_seek_wait_distance : ℕ
  pub max_backward_seek_distance : ℕ
  pub initial_request_size : ℕ

-- What the reader uses of the part stream and its client: the part size and the initial window that are
-- configured, the alignment of the windows, given the end of the initial request, whether it asserts
-- that there is a preferred part size, and the messages that the producer of a request sends, given the range, the end of the
-- initial request and the preferred part size.
pub record Source : Type 0 where
  pub read_part_size : ℕ
  pub initial_read_window : Option ℕ
  pub alignment : ℕ → Alignment
  pub checks_part_size : Bool
  pub messages : RequestRange → ℕ → ℕ → List Message

pub record Reader : Type 0 where
  pub config : PrefetcherConfig
  pub task : Option RequestTask
  pub window : SeekWindow
  pub object_id : ObjectId
  pub preferred_part_size : ℕ
  pub sequential_read_start_offset : ℕ
  pub next_sequential_read_offset : ℕ
  pub next_request_offset : ℕ
  pub size : ℕ
  pub shared : Shared
  pub arrivals : List ℕ

-- `none` is the panic of a division by 0.
unfoldable pub seek_window_reservation : ℕ → ℕ → Option ℕ
seek_window_reservation part_size seek_window_size =
    if part_size == 0
    then none
    else some (
        (if seek_window_size % part_size == 0
          then seek_window_size / part_size
          else seek_window_size / part_size + 1)
        *w part_size)

unfoldable pub new :
    Source → PrefetcherConfig → ObjectId → ℕ → MemoryLimiter → List ℕ → Option Reader
new source config object_id size mem_limiter arrivals =
    elim (seek_window_reservation source.read_part_size config.max_backward_seek_distance) [
      | none ↦ none
      | some reservation ↦ elim (SeekWindow.new config.max_backward_seek_distance) [
        | none ↦ none
        | some window ↦ some (record {
          config = config;
          task = none;
          window = window;
          object_id = object_id;
          preferred_part_size = 128 * 1024;
          sequential_read_start_offset = 0;
          next_sequential_read_offset = 0;
          next_request_offset = 0;
          size = size;
          shared = record {
            mem_limiter = Limiter.reserve mem_limiter reservation;
            increments = [];
            receiver_alive = false;
          };
          arrivals = arrivals;
        })
      ]
    ]

-- The `Drop` of the task, if there is one: that of its controller; its channel is closed.
unfoldable pub drop_task : Option RequestTask → Shared → Shared
drop_task none s = s
drop_task (some t) s = record (Backpressure.drop t.controller s) { receiver_alive = false }

unfoldable pub reset_prefetch_to_offset : Reader → ℕ → Reader
reset_prefetch_to_offset r offset = record r {
  task = none;
  shared = drop_task r.task r.shared;
  window = SeekWindow.clear r.window;
  sequential_read_start_offset = offset;
  next_sequential_read_offset = offset;
  next_request_offset = offset;
}

-- `Drop` of the reader: the reservation for the seek window is released, and the task is dropped.
unfoldable pub drop : Source → Reader → Option Shared
drop source r = elim (seek_window_reservation source.read_part_size r.window.max_size) [
  | none ↦ none
  | some reservation ↦ some (
      drop_task r.task
        (record r.shared { mem_limiter = Limiter.release r.shared.mem_limiter reservation }))
]

abbrev pub next_arrivals : List ℕ → ℕ × List ℕ
next_arrivals [] = (0, [])
next_arrivals (n ∷ ns) = (n, ns)

-- `RequestTask::read` on the reader's task.
unfoldable pub read_task : Reader → RequestTask → ℕ → Outcome ReadError Part × Reader
read_task r t length =
    let (n, arrivals) = next_arrivals r.arrivals in
    elim (Task.read t r.shared n length) [
      | ok (p, t', s) ↦ (ok p, record r { task = some t'; shared = s; arrivals = arrivals })
      | err e ↦ (err e, r)
      | panic ↦ (panic, r)
    ]

module _ (crc : Crc) (source : Source) where
  -- `spawn_get_object_request` of the part streams: the assertion, the task and what it shares.
  unfoldable pub spawn_get_object_request : Reader → RequestRange → Outcome ReadError Reader
  spawn_get_object_request r range =
      let initial_end = range.offset +w r.config.initial_request_size in
      let (controller, shared) =
        Backpressure.new
          (record {
            initial_read_window_size =
                initial_read_window_size r.config.initial_request_size source.read_part_size;
            min_read_window_size = source.read_part_size;
            max_read_window_size = r.config.max_read_window_size;
            read_window_size_multiplier = r.config.sequential_prefetch_multiplier;
            request_start = range.offset;
            request_end = end_offset range;
            read_window_alignment_config = source.alignment initial_end;
          })
          r.shared.mem_limiter in
      if not source.checks_part_size || ltb 0 r.preferred_part_size
      then ok (record r {
        task = some (
            from_handle range
              (unbounded_part_queue (source.messages range initial_end r.preferred_part_size))
              controller);
        shared = shared;
      })
      else panic

  unfoldable pub spawn_read_backpressure_request : Reader → Outcome ReadError Reader
  spawn_read_backpressure_request r = elim source.initial_read_window [
    | none ↦ err backpressure_precondition_failed
    | some value ↦
        if value == 0
        then err backpressure_precondition_failed
        else spawn_get_object_request r (Range.new r.size r.next_sequential_read_offset r.size)
  ]

  -- A round of the loop of `try_read` ends the call, or goes on with the bytes left to read, the response
  -- so far and whether all parts came from a cache.
  pub data ReadRound : Type 0 where
    done : Outcome ReadError (ChecksummedBytes × Bool) → Reader → ReadRound
    more : Reader → ℕ → ChecksummedBytes → Bool → ReadRound

  -- The round after its part is validated.
  unfoldable pub append : Reader → ℕ → ChecksummedBytes → Bool → ChecksummedBytes → ReadRound
  append r to_read response from_cache bytes =
      if Checksums.is_empty response && (Checksums.len bytes == to_read)
      then done (ok (bytes, from_cache)) r
      else elim (Checksums.extend crc response bytes) [
        | ok response' ↦ more r (to_read -w Checksums.len bytes) response' from_cache
        | err e ↦ done (err (integrity e)) r
        | panic ↦ done panic r
      ]

  -- The round after `current_task.read`.
  unfoldable pub absorb : Reader → ℕ → ChecksummedBytes → Bool → Outcome ReadError Part → ReadRound
  absorb r to_read response from_cache (err e) = done (err e) r
  absorb r to_read response from_cache panic = done panic r
  absorb r to_read response from_cache (ok p) = elim (SeekWindow.push r.window p) [
    | none ↦ done panic r
    | some window ↦ elim (Part.into_bytes p r.object_id r.next_sequential_read_offset) [
      | err e ↦ done (err (part_read_failed e)) (record r { window = window })
      | panic ↦ done panic r
      | ok bytes ↦
          append
            (record r {
              window = window;
              next_sequential_read_offset = r.next_sequential_read_offset +w Checksums.len bytes;
            })
            to_read response (from_cache && is_from_cache p) bytes
    ]
  ]

  unfoldable pub read_round : Reader → Option RequestTask → ℕ → ChecksummedBytes → Bool → ReadRound
  read_round r none to_read response from_cache = done (ok (response, from_cache)) r
  read_round r (some t) to_read response from_cache =
      let (part, r') = read_task r t to_read in absorb r' to_read response from_cache part

  -- The loop, on fuel; each round reads a byte at least.
  unfoldable pub read_loop :
      ℕ
      → Reader
      → ℕ
      → ChecksummedBytes
      → Bool
      → Outcome ReadError (ChecksummedBytes × Bool) × Reader
  read_loop fuel r zero response from_cache = (ok (response, from_cache), r)
  read_loop zero r (suc n) response from_cache = (panic, r)
  read_loop (suc fuel) r (suc n) response from_cache =
      elim (read_round r r.task (suc n) response from_cache) [
        | done result r' ↦ (result, r')
        | more r' to_read response' from_cache' ↦ read_loop fuel r' to_read response' from_cache'
      ]
