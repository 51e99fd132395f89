-- ===== src/Prefetch/Reader/Seek.antt =====
-- mountpoint-s3-fs/src/prefetch.rs: `try_seek` and the two directions.
use mountpoint_s.Prelude.{
  ℕ, zero, suc, Bool, true, false, Option, none, some, Outcome, ok, err, panic, ltb, leb,
  if◌then◌else◌, ◌+w◌, ◌-w◌, saturating_add, ◌==◌,
}
use mountpoint_s.Prefetch.Errors.{ReadError}
use mountpoint_s.Prefetch.Part.{Part, len}
use mountpoint_s.Prefetch.SeekWindow
use mountpoint_s.Prefetch.Task
use mountpoint_s.Prefetch.Task.{RequestTask, available_offset}
use mountpoint_s.Prefetch.Reader.{Reader, read_task}

-- A round of the loop of `try_seek_forward`: it skips what it reads.
pub data SkipRound : Type 0 where
  done : Outcome ReadError Bool → Reader → SkipRound
  more : Reader → ℕ → SkipRound

unfoldable pub skip : Reader → ℕ → Outcome ReadError Part → SkipRound
skip r distance (err e) = done (err e) r
skip r distance panic = done panic r
skip r distance (ok p) = elim (SeekWindow.push r.window p) [
  | none ↦ done panic r
  | some window ↦
      more
        (record r {
          window = window;
          next_sequential_read_offset = r.next_sequential_read_offset +w len p;
        })
        (distance -w len p)
]

unfoldable pub skip_round : Reader → Option RequestTask → ℕ → SkipRound
skip_round r none distance = done (ok false) r
skip_round r (some t) distance = let (part, r') = read_task r t distance in skip r' distance part

-- The loop, on fuel; each round skips a byte at least.
unfoldable pub skip_loop : ℕ → Reader → ℕ → Outcome ReadError Bool × Reader
skip_loop fuel r zero = (ok true, r)
skip_loop zero r (suc n) = (panic, r)
skip_loop (suc fuel) r (suc n) = elim (skip_round r r.task (suc n)) [
  | done result r' ↦ (result, r')
  | more r' distance ↦ skip_loop fuel r' distance
]

unfoldable pub try_seek_forward : Reader → Option RequestTask → ℕ → Outcome ReadError Bool × Reader
try_seek_forward r none offset = (ok false, r)
try_seek_forward r (some t) offset =
    let available_soon_offset =
      saturating_add (available_offset t) r.config.max_forward_seek_wait_distance in
    let distance = offset -w r.next_sequential_read_offset in
    if leb t.controller.read_window_end_offset offset
    then (ok false, r)
    else if leb available_soon_offset offset
    then (ok false, r)
    else skip_loop distance r distance

unfoldable pub try_seek_backward : Reader → Option RequestTask → ℕ → Outcome ReadError Bool × Reader
try_seek_backward r none offset = (ok false, r)
try_seek_backward r (some t) offset =
    elim (SeekWindow.read_back r.window (r.next_sequential_read_offset -w offset)) [
      | none ↦ (panic, r)
      | some (none, window) ↦ (ok false, record r { window = window })
      | some (some parts, window) ↦ elim (Task.push_front t r.shared parts) [
        | none ↦ (panic, r)
        | some (t', shared) ↦ (
          ok true,
          record r {
            window = window;
            task = some t';
            shared = shared;
            next_sequential_read_offset = offset;
          },
        )
      ]
    ]

-- The assertion of `try_seek` is the first test.
unfoldable pub try_seek : Reader → ℕ → Outcome ReadError Bool × Reader
try_seek r offset =
    if offset == r.next_sequential_read_offset
    then (panic, r)
    else if ltb r.next_sequential_read_offset offset
    then try_seek_forward r r.task offset
    else try_seek_backward r r.task offset
