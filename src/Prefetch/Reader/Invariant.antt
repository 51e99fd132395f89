-- ===== src/Prefetch/Reader/Invariant.antt =====
-- What holds of a reader between its calls, and how one read of its task keeps it.
use mathlib.Core.Path.{subst}
use mountpoint_s.Prelude.{
  ℕ, ◌+◌, ◌-◌, ◌*◌, ◌≤◌, ◌<◌, ◌^◌, ◌≡◌, ◌≢◌, refl, List, Bool, false, Option, none, some, Outcome,
  ok, err, panic, arith, length,
}
use mountpoint_s.Checksums.{Crc}
use mountpoint_s.Memory.Limiter
use mountpoint_s.Prefetch.Errors.{ReadError}
use mountpoint_s.Prefetch.Part.{ObjectId, Part, len, into_bytes}
use mountpoint_s.Prefetch.Stream.{Holds, check_self}
use mountpoint_s.Prefetch.SeekWindow.{SeekWindow}
use mountpoint_s.Prefetch.SeekWindow.Inv.{EndsAt}
use mountpoint_s.Prefetch.PartQueue.Honest.{Delivers}
use mountpoint_s.Prefetch.Backpressure
use mountpoint_s.Prefetch.Backpressure.{Shared}
use mountpoint_s.Prefetch.Backpressure.Window.{IsAligned}
use mountpoint_s.Prefetch.Range.{RequestRange}
use mountpoint_s.Prefetch.Task
use mountpoint_s.Prefetch.Task.{RequestTask}
use mountpoint_s.Prefetch.Task.Reads.{Gives, TaskReads, task_read_lem}
use mountpoint_s.Prefetch.Reader.{
  PrefetcherConfig, Source, Reader, drop_task, reset_prefetch_to_offset, next_arrivals, read_task,
}

-- Sizes that make sense.
pub record IsSensible (c : PrefetcherConfig) : Type 0 where
  pub max_two : 2 ≤ c.max_read_window_size
  pub max_small : c.max_read_window_size < 2 ^ 62
  pub initial_not_one : c.initial_request_size ≢ 1
  pub initial_small : c.initial_request_size < 2 ^ 61

pub into_bytes_self :
    (p : Part) (id : ObjectId) (offset : ℕ)
    → p.id ≡ id
    → p.offset ≡ offset
    → into_bytes p id offset ≡ ok p.checksummed_bytes
unfolding into_bytes
into_bytes_self p id offset e at =
    subst (λ k. into_bytes p k offset ≡ ok p.checksummed_bytes) e
      (rw (check_self p offset at, into_bytes))

-- The reader after the part at `next` has gone to the seek window.
abbrev pub moved : Reader → SeekWindow → ℕ → RequestTask → Shared → List ℕ → Reader
moved r w next t s arrivals = record r {
  window = w;
  next_sequential_read_offset = next;
  task = some t;
  shared = s;
  arrivals = arrivals;
}

module _ (crc : Crc) (id : ObjectId) (object : List ℕ) (whole : Bool) where
  -- What the reader relies on of its source. For a range of the object up to its end, the messages give
  -- the object's bytes from the start of the range; if `whole`, all of them.
  pub record IsHonest (source : Source) : Type 0 where
    pub part_two : 2 ≤ source.read_part_size
    pub part_small : source.read_part_size < 2 ^ 61
    pub initial : ℕ
    pub initial_pos : 0 < initial
    pub initial_set : source.initial_read_window ≡ some initial
    pub aligned :
        (initial_end : ℕ) → initial_end < 2 ^ 62 → IsAligned (source.alignment initial_end)
    pub delivers :
        (range : RequestRange) (initial_end part_size : ℕ)
        → range.object_size ≡ length object
        → range.offset + range.size ≡ length object
        → 0 < part_size
        → part_size ≤ 1024 * 1024
        → Delivers crc id object whole (source.messages range initial_end part_size) range.offset

  -- The part of the invariant that no failed call breaks.
  pub record IsSound (r : Reader) : Type 0 where
    pub size_is : r.size ≡ length object
    pub object_small : length object < 2 ^ 61
    pub id_is : r.object_id ≡ id
    pub sensible : IsSensible r.config
    pub part_pos : 0 < r.preferred_part_size
    pub part_small : r.preferred_part_size ≤ 1024 * 1024
    pub window_small : r.window.max_size < 2 ^ 63
    pub limit : r.shared.mem_limiter.mem_limit < 2 ^ 64 - 1

  abbrev pub TaskGives : Option RequestTask → Shared → ℕ → Type 0
  TaskGives none s from = Unit
  TaskGives (some t) s from = Gives crc id object whole t s from

  -- The seek window ends at the next offset, and the task, if there is one, gives the bytes from there.
  pub record IsReady (r : Reader) : Type 0 where
    pub sound : IsSound r
    pub within : r.next_sequential_read_offset ≤ length object
    pub window : EndsAt crc id object r.window r.next_sequential_read_offset
    pub task : TaskGives r.task r.shared r.next_sequential_read_offset

  limit-drop_task :
      (t : Option RequestTask) (s : Shared)
      → (drop_task t s).mem_limiter.mem_limit ≡ s.mem_limiter.mem_limit
  unfolding drop_task Backpressure.drop Limiter.release
  limit-drop_task none s = refl
  limit-drop_task (some t) s = refl

  -- A reset makes any sound reader ready.
  pub reset-IsReady :
      (r : Reader) (offset : ℕ)
      → IsSound r
      → offset ≤ length object
      → IsReady (reset_prefetch_to_offset r offset)
  unfolding reset_prefetch_to_offset
  reset-IsReady r offset v h = record {
    sound = record {
      size_is = v.size_is;
      object_small = v.object_small;
      id_is = v.id_is;
      sensible = v.sensible;
      part_pos = v.part_pos;
      part_small = v.part_small;
      window_small = v.window_small;
      limit = omega (arith, v, limit-drop_task r.task r.shared);
    };
    within = h;
    window = record {
      run = omega arith;
      size_le = omega arith;
      size_max = omega arith;
      max_small = v.window_small;
      to_small = omega (arith, v);
    };
    task = tt;
  }

  pub moved-IsReady :
      (r : Reader) (w : SeekWindow) (next : ℕ) (t : RequestTask) (s : Shared) (arrivals : List ℕ)
      → IsSound r
      → next ≤ length object
      → EndsAt crc id object w next
      → Gives crc id object whole t s next
      → IsReady (moved r w next t s arrivals)
  moved-IsReady r w next t s arrivals v h ends g = record {
    sound = record {
      size_is = v.size_is;
      object_small = v.object_small;
      id_is = v.id_is;
      sensible = v.sensible;
      part_pos = v.part_pos;
      part_small = v.part_small;
      window_small = ends.max_small;
      limit = g.limit;
    };
    within = h;
    window = ends;
    task = g;
  }

  -- How a read of the task ends.
  pub data Took (r : Reader) (n : ℕ) (result : Outcome ReadError Part × Reader) : Type 0 where
    took :
        (p : Part) (t : RequestTask) (s : Shared) (arrivals : List ℕ)
        → Holds crc id object p
        → p.offset ≡ r.next_sequential_read_offset
        → 0 < len p
        → len p ≤ n
        → Gives crc id object whole t s (r.next_sequential_read_offset + len p)
        → result ≡ (ok p, record r { task = some t; shared = s; arrivals = arrivals })
        → Took r n result
    failed : (e : ReadError) → whole ≡ false → result ≡ (err e, r) → Took r n result

  outcome_lem :
      (r : Reader) (t : RequestTask) (n arrived : ℕ) (arrivals : List ℕ)
      (result : Outcome ReadError (Part × RequestTask × Shared))
      → TaskReads crc id object whole r.next_sequential_read_offset n result
      → Took r n (elim result [
        | ok (p, t', s) ↦ (ok p, record r { task = some t'; shared = s; arrivals = arrivals })
        | err e ↦ (err e, r)
        | panic ↦ (panic, r)
      ])
  outcome_lem r t n arrived arrivals (ok (p, t', s)) (h, at, some_len, le, g) =
      took p t' s arrivals h at some_len le g refl
  outcome_lem r t n arrived arrivals (err e) w = failed e w refl
  outcome_lem r t n arrived arrivals panic w = absurd w

  pub read_task_lem :
      (r : Reader) (t : RequestTask) (n : ℕ)
      → IsSound r
      → Gives crc id object whole t r.shared r.next_sequential_read_offset
      → r.next_sequential_read_offset < length object
      → 0 < n
      → Took r n (read_task r t n)
  unfolding read_task
  read_task_lem r t n v g more pos =
      let (arrived, arrivals) = next_arrivals r.arrivals in
      outcome_lem r t n arrived arrivals (Task.read t r.shared arrived n) (
        task_read_lem crc id object whole t r.shared arrived r.next_sequential_read_offset n
          (omega (arith, v)) more pos g)
