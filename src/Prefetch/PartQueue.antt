-- ===== src/Prefetch/PartQueue.antt =====
-- mountpoint-s3-fs/src/prefetch/part_queue.rs: the parts between the producer and the reader.
--
-- `front_queue` has the element that `Vec::pop` takes at its head. The channel is split in two:
-- `received` is in it, and `pending` is what the producer will still send before it ends and closes the
-- channel. `arrive` is the producer's `push`; a read that finds the channel empty waits for one. The
-- debug assertions and the metrics are left out.
pub mod Honest
mod Tests
use mountpoint_s.Prelude.{
  ℕ, zero, suc, ◌+◌, List, [], ◌∷◌, ◌++◌, Bool, true, false, Option, none, some, Outcome, ok, err,
  panic, ltb, if◌then◌else◌, ◌+w◌,
}
use mountpoint_s.Memory.Limiter
use mountpoint_s.Memory.Limiter.{MemoryLimiter}
use mountpoint_s.Prefetch.Errors.{ReadError, get_request_terminated_unexpectedly}
use mountpoint_s.Prefetch.Part.{Part, len, split_off}

-- `Result<Part, PrefetchReadError>`
pub data Message : Type 0 where
  part : Part → Message
  failure : ReadError → Message

pub record PartQueue : Type 0 where
  pub front_queue : List Part
  pub received : List Message
  pub pending : List Message
  pub failed : Bool
  pub bytes_received : ℕ

-- `unbounded_part_queue`, for a producer that will send `pending`.
abbrev pub unbounded_part_queue : List Message → PartQueue
unbounded_part_queue pending = record {
  front_queue = [];
  received = [];
  pending = pending;
  failed = false;
  bytes_received = 0;
}

abbrev pub message_len : Message → ℕ
message_len (part p) = len p
message_len (failure e) = 0

-- `PartQueueProducer::push` of the first of the messages `pending`; the channel is open as long as there
-- is a queue.
unfoldable pub push : List Message → PartQueue → PartQueue
push [] q = q
push (m ∷ pending) q = record q {
  received = q.received ++ (m ∷ []);
  pending = pending;
  bytes_received = q.bytes_received +w message_len m;
}

-- The producer sends its next `n` messages.
unfoldable pub arrive : ℕ → PartQueue → PartQueue
unfolding push
arrive zero q = q
arrive (suc n) q = arrive n (push q.pending q)

-- The message that a read gets: from the front queue, from the channel, or by waiting for the producer.
unfoldable pub next_message :
    List Part → List Message → List Message → PartQueue → Message × PartQueue
next_message (p ∷ front) received pending q = (part p, record q { front_queue = front })
next_message [] (m ∷ received) pending q = (m, record q { received = received })
next_message [] [] (m ∷ pending) q =
    (m, record q { pending = pending; bytes_received = q.bytes_received +w message_len m })
next_message [] [] [] q = (failure get_request_terminated_unexpectedly, q)

-- What `read` does with the message.
unfoldable pub read_message : ℕ → Message → PartQueue → Outcome ReadError Part × PartQueue
read_message length (failure e) q = (err e, record q { failed = true })
read_message length (part p) q =
    if ltb length (len p)
    then elim (split_off p length) [
      | none ↦ (panic, q)
      | some (head, tail) ↦ (ok head, record q { front_queue = tail ∷ q.front_queue })
    ]
    else (ok p, q)

unfoldable pub read : PartQueue → ℕ → Outcome ReadError Part × PartQueue
read q length =
    let (m, q') = next_message q.front_queue q.received q.pending q in
    if q.failed then (panic, q) else read_message length m q'

-- Parts of a backward seek are not known to the backpressure controller, so their memory is reserved here.
unfoldable pub push_front : PartQueue → MemoryLimiter → Part → Option (PartQueue × MemoryLimiter)
push_front q mem_limiter p =
    if q.failed
    then none
    else some (record q { front_queue = p ∷ q.front_queue }, Limiter.reserve mem_limiter (len p))
