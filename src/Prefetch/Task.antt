-- ===== src/Prefetch/Task.antt =====
-- mountpoint-s3-fs/src/prefetch/task.rs: `RequestTask`, the reader's end of one request.
--
-- The memory limiter and the channel of read window increments are `Shared`, which an operation takes and
-- gives back. `arrivals` is the number of messages that the producer sends before the read. After an error
-- the task is not used again, so the state is given back only with a result.
pub mod Reads
mod Tests
use mountpoint_s.Prelude.{
  ℕ, ◌-◌, List, [], ◌∷◌, reverse, Option, none, some, Outcome, ok, err, panic, ◌==◌, if◌then◌else◌,
  ◌+w◌, ◌-w◌,
}
use mountpoint_s.Prefetch.Errors.{ReadError}
use mountpoint_s.Prefetch.Part.{Part, len}
use mountpoint_s.Prefetch.PartQueue
use mountpoint_s.Prefetch.PartQueue.{PartQueue}
use mountpoint_s.Prefetch.Backpressure
use mountpoint_s.Prefetch.Backpressure.{Controller, Shared, data_read, part_queue_stall}
use mountpoint_s.Prefetch.Range.{RequestRange, end_offset}

pub record RequestTask : Type 0 where
  pub remaining : ℕ
  pub range : RequestRange
  pub part_queue : PartQueue
  pub controller : Controller

abbrev pub from_handle : RequestRange → PartQueue → Controller → RequestTask
from_handle range part_queue controller = record {
  remaining = range.size;
  range = range;
  part_queue = part_queue;
  controller = controller;
}

unfoldable pub available_offset : RequestTask → ℕ
available_offset t = t.range.offset +w t.part_queue.bytes_received

unfoldable pub push_one : RequestTask → Shared → Part → Option (RequestTask × Shared)
push_one t s p = elim (PartQueue.push_front t.part_queue s.mem_limiter p) [
  | none ↦ none
  | some (q, m) ↦
      some (
        record t { remaining = t.remaining +w len p; part_queue = q },
        record s { mem_limiter = m },
      )
]

-- The loop of `push_front`, over the parts from the last to the first.
unfoldable pub push_each : RequestTask → Shared → List Part → Option (RequestTask × Shared)
push_each t s [] = some (t, s)
push_each t s (p ∷ parts) = elim (push_one t s p) [
  | none ↦ none
  | some (t', s') ↦ push_each t' s' parts
]

unfoldable pub push_front : RequestTask → Shared → List Part → Option (RequestTask × Shared)
push_front t s parts = push_each t s (reverse parts)

-- The end of `read`: a larger window, if the reader has caught up with the producer.
unfoldable pub stall : RequestTask → Shared → Part → Outcome ReadError (Part × RequestTask × Shared)
unfolding available_offset
stall t s p =
    if available_offset t - (p.offset +w len p) == 0
    then elim (Backpressure.send_feedback t.controller s part_queue_stall) [
      | none ↦ panic
      | some (c, s') ↦ ok (p, record t { controller = c }, s')
    ]
    else ok (p, t, s)

-- `read` after the part has come out of the queue.
unfoldable pub feed_back :
    RequestTask → Shared → Part → Outcome ReadError (Part × RequestTask × Shared)
feed_back t s p = elim (Backpressure.send_feedback t.controller s (data_read p.offset (len p))) [
  | none ↦ panic
  | some (c, s') ↦ stall (record t { controller = c }) s' p
]

unfoldable pub take_part :
    RequestTask
    → Shared
    → Outcome ReadError Part × PartQueue
    → Outcome ReadError (Part × RequestTask × Shared)
take_part t s (err e, q) = err e
take_part t s (panic, q) = panic
take_part t s (ok p, q) =
    feed_back (record t { part_queue = q; remaining = t.remaining -w len p }) s p

unfoldable pub read : RequestTask → Shared → ℕ → ℕ → Outcome ReadError (Part × RequestTask × Shared)
read t s arrivals length =
    take_part t s (PartQueue.read (PartQueue.arrive arrivals t.part_queue) length)
