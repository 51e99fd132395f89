-- ===== src/Prefetch/Task/Reads.antt =====
-- A task whose queue feeds the bytes of the object gives them out in order, whatever arrives when.
use mathlib.Core.Path.{subst}
use mountpoint_s.Prelude.{
  ℕ, ◌+◌, ◌-◌, ◌≤◌, ◌<◌, ◌^◌, ◌≡◌, refl, sym, inl, inr, List, [], ◌∷◌, reverse, Bool, false, some,
  Outcome, ok, err, panic, arith, length, ◌==◌, ◌+w◌, ◌-w◌, Bool-cases,
}
use mountpoint_s.Checksums.{Crc}
use mountpoint_s.Memory.Limiter
use mountpoint_s.Prefetch.Errors.{ReadError}
use mountpoint_s.Prefetch.Part.{ObjectId, Part, len}
use mountpoint_s.Prefetch.Stream.{Holds, Run}
use mountpoint_s.Prefetch.SeekWindow.Back.{RunBack, RunBack-reverse}
use mountpoint_s.Prefetch.PartQueue
use mountpoint_s.Prefetch.PartQueue.{PartQueue}
use mountpoint_s.Prefetch.PartQueue.Honest.{
  Feeds, ReadsOn, arrive-Feeds, read_lem, push_front-Feeds,
}
use mountpoint_s.Prefetch.Backpressure
use mountpoint_s.Prefetch.Backpressure.{Controller, Shared, data_read, scale_up}
use mountpoint_s.Prefetch.Backpressure.Window
use mountpoint_s.Prefetch.Backpressure.Feedback.{
  send_feedback-Fed, Fed-IsValid, Fed-reserved, read_up_to-IsValid, scale_up-IsValid,
}
use mountpoint_s.Prefetch.Task.{
  RequestTask, available_offset, push_one, push_each, push_front, stall, feed_back, take_part, read,
}

module _ (crc : Crc) (id : ObjectId) (object : List ℕ) (whole : Bool) where
  -- The task will give the bytes of the object from `from` on.
  pub record Gives (t : RequestTask) (s : Shared) (from : ℕ) : Type 0 where
    pub feeds : Feeds crc id object whole t.part_queue from
    pub remaining : t.remaining + from ≡ length object
    pub controller : Window.IsValid t.controller
    pub limit : s.mem_limiter.mem_limit < 2 ^ 64 - 1

  -- What a read leads to.
  abbrev pub TaskReads : ℕ → ℕ → Outcome ReadError (Part × RequestTask × Shared) → Type 0
  TaskReads from n (ok (p, t, s)) =
      Holds crc id object p
      × (p.offset ≡ from)
      × (0 < len p)
      × (len p ≤ n)
      × Gives t s (from + len p)
  TaskReads from n (err e) = whole ≡ false
  TaskReads from n panic = ⊥

  stall_lem :
      (t : RequestTask) (s : Shared) (p : Part) (from n : ℕ)
      → Holds crc id object p
      → p.offset ≡ from
      → 0 < len p
      → len p ≤ n
      → Gives t s (from + len p)
      → TaskReads from n (stall t s p)
  unfolding stall Backpressure.send_feedback
  stall_lem t s p from n h at some_len le g =
      elim (Bool-cases (available_offset t - (p.offset +w len p) == 0)) [
        | inr ahead ↦ rw ahead (h, at, some_len, le, g)
        | inl behind ↦ rw behind (
          h,
          at,
          some_len,
          le,
          record {
            feeds = g.feeds;
            remaining = g.remaining;
            controller = (scale_up-IsValid t.controller s.mem_limiter g.controller).0;
            limit = g.limit;
          },
        )
      ]

  feed_back_lem :
      (t : RequestTask) (s : Shared) (p : Part) (from n : ℕ)
      → length object < 2 ^ 62
      → Holds crc id object p
      → p.offset ≡ from
      → 0 < len p
      → len p ≤ n
      → Gives t s (from + len p)
      → TaskReads from n (feed_back t s p)
  unfolding feed_back Limiter.release
  feed_back_lem t s p from n small h at some_len le g =
      let (c, s', e, f) =
        send_feedback-Fed t.controller s p.offset (len p) g.controller g.limit (omega (arith, h)) in
      let (r, l, _, _) = Fed-reserved _ _ c s' f (omega arith) in
      rw (e, feed_back)
        (stall_lem (record t { controller = c }) s' p from n h at some_len le
          (record {
            feeds = g.feeds;
            remaining = g.remaining;
            controller =
                Fed-IsValid _ _ c s'
                  (read_up_to-IsValid t.controller (p.offset + len p) g.controller) f;
            limit = omega arith;
          }))

  take_part_lem :
      (t : RequestTask) (s : Shared) (from n : ℕ) (r : Outcome ReadError Part × PartQueue)
      → length object < 2 ^ 62
      → Gives t s from
      → ReadsOn crc id object whole from n r
      → TaskReads from n (take_part t s r)
  unfolding take_part
  take_part_lem t s from n (err e, q) small g r = r
  take_part_lem t s from n (panic, q) small g r = r
  take_part_lem t s from n (ok p, q) small g (h, at, some_len, le, f) =
      feed_back_lem (record t { part_queue = q; remaining = t.remaining -w len p }) s p from n small
        h at some_len le
        (record {
          feeds = f;
          remaining = omega (arith, g, h);
          controller = g.controller;
          limit = g.limit;
        })

  -- For an object of less than 2^62 bytes: from a task that gives the bytes of the object from
  -- `from` on, before its end, a read of `n` bytes, if `n` is not 0, gives the next bytes, at
  -- least one and at most `n`, and the task then gives those after them, however many messages
  -- arrive first; it fails only if the producer may stop early or send an error; it never panics.
  pub task_read_lem :
      (t : RequestTask) (s : Shared) (arrivals from n : ℕ)
      → length object < 2 ^ 62
      → from < length object
      → 0 < n
      → Gives t s from
      → TaskReads from n (read t s arrivals n)
  unfolding read
  task_read_lem t s arrivals from n small more pos g =
      take_part_lem t s from n (PartQueue.read (PartQueue.arrive arrivals t.part_queue) n) small g (
        read_lem crc id object whole (PartQueue.arrive arrivals t.part_queue) from n small more pos
          (arrive-Feeds crc id object whole arrivals t.part_queue from g.feeds))

  push_each_lem :
      (ps : List Part) (t : RequestTask) (s : Shared) (from to : ℕ)
      → length object < 2 ^ 62
      → RunBack crc id object ps from to
      → Gives t s to
      → (t' : RequestTask) × (s' : Shared) × (push_each t s ps ≡ some (t', s')) × Gives t' s' from
  unfolding push_each push_one Limiter.reserve
  push_each_lem [] t s from to small r g = (t, s, refl, subst (λ k. Gives t s k) (sym r) g)
  push_each_lem (p ∷ ps) t s from to small r g =
      let (q, e, f) =
        push_front-Feeds crc id object whole t.part_queue s.mem_limiter p to g.feeds r.0 r.1 r.2 in
      let (t', s', e', g') =
        push_each_lem ps (record t { remaining = t.remaining +w len p; part_queue = q })
          (record s { mem_limiter = Limiter.reserve s.mem_limiter (len p) }) from p.offset small r.3
          (record {
            feeds = f;
            remaining = omega (arith, g, r);
            controller = g.controller;
            limit = g.limit;
          }) in
      (t', s', rw (e, push_each, push_one) e', g')

  -- For an object of less than 2^62 bytes: pushing a run of parts that ends where a task's bytes
  -- begin succeeds, and the task then gives the bytes from the start of the run on.
  pub task_push_front_lem :
      (ps : List Part) (t : RequestTask) (s : Shared) (from to : ℕ)
      → length object < 2 ^ 62
      → Run crc id object ps from to
      → Gives t s to
      → (t' : RequestTask) × (s' : Shared) × (push_front t s ps ≡ some (t', s')) × Gives t' s' from
  unfolding push_front
  task_push_front_lem ps t s from to small r g =
      push_each_lem (reverse ps) t s from to small (RunBack-reverse crc id object ps from to r) g
