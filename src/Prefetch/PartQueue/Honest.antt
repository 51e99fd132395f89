-- ===== src/Prefetch/PartQueue/Honest.antt =====
-- A queue that will give the bytes of the object in order.
use mathlib.Core.Path.{subst}
use mathlib.Core.List.{append_assoc}
use mountpoint_s.Prelude.{
  ℕ, zero, suc, ◌+◌, ◌≤◌, ◌<◌, ◌^◌, ◌≡◌, refl, sym, ◌∙◌, ap, ◌⊎◌, inl, inr, List, [], ◌∷◌, ◌++◌,
  Bool, false, some, Outcome, ok, err, panic, arith, length, ◌+w◌, ltb, ltb→lt, ltb→le, Bool-cases,
}
use mountpoint_s.Checksums.{Crc}
use mountpoint_s.Memory.Limiter
use mountpoint_s.Memory.Limiter.{MemoryLimiter}
use mountpoint_s.Prefetch.Errors.{ReadError}
use mountpoint_s.Prefetch.Part.{ObjectId, Part, len}
use mountpoint_s.Prefetch.Stream.{Holds, Run, split_off-Holds}
use mountpoint_s.Prefetch.PartQueue.{
  Message, part, failure, PartQueue, push, arrive, next_message, read_message, read, push_front,
}

abbrev queue_of : List Part → List Message → List Message → ℕ → PartQueue
queue_of fs rs ps bytes = record {
  front_queue = fs;
  received = rs;
  pending = ps;
  failed = false;
  bytes_received = bytes;
}

module _ (crc : Crc) (id : ObjectId) (object : List ℕ) (whole : Bool) where
  -- The messages give the bytes of the object in order, from `from` on. If `whole`, they go on to its
  -- end and none of them is an error; if not, they may stop early or at an error.
  abbrev pub Delivers : List Message → ℕ → Type 0
  Delivers [] from = (whole ≡ false) ⊎ (from ≡ length object)
  Delivers (failure e ∷ ms) from = whole ≡ false
  Delivers (part p ∷ ms) from =
      Holds crc id object p × (p.offset ≡ from) × (0 < len p) × Delivers ms (from + len p)

  -- The queue will give the bytes from `from` on.
  pub record Feeds (q : PartQueue) (from : ℕ) : Type 0 where
    pub usable : q.failed ≡ false
    pub mid : ℕ
    pub front : Run crc id object q.front_queue from mid
    pub rest : Delivers (q.received ++ q.pending) mid

  -- Messages that arrive do not change what the queue will give.
  push-Feeds :
      (ms : List Message) (q : PartQueue) (from : ℕ)
      → q.pending ≡ ms
      → Feeds q from
      → Feeds (push ms q) from
  unfolding push
  push-Feeds [] q from e f = f
  push-Feeds (m ∷ ms) q from e f = record {
    usable = f.usable;
    mid = f.mid;
    front = f.front;
    rest =
        subst (λ l. Delivers l f.mid)
          (ap (λ l. q.received ++ l) e ∙ sym (append_assoc q.received (m ∷ []) ms)) f.rest;
  }

  pub arrive-Feeds : (n : ℕ) (q : PartQueue) (from : ℕ) → Feeds q from → Feeds (arrive n q) from
  unfolding arrive
  arrive-Feeds zero q from f = f
  arrive-Feeds (suc n) q from f =
      arrive-Feeds n (push q.pending q) from (push-Feeds q.pending q from refl f)

  -- A read gives the next bytes, at least one and at most as many as it asks for, or it fails; it can
  -- fail only if the messages may, and then the queue is not used again.
  abbrev pub ReadsOn : ℕ → ℕ → Outcome ReadError Part × PartQueue → Type 0
  ReadsOn from n (ok p, q) =
      Holds crc id object p × (p.offset ≡ from) × (0 < len p) × (len p ≤ n) × Feeds q (from + len p)
  ReadsOn from n (err e, q) = whole ≡ false
  ReadsOn from n (panic, q) = ⊥

  read_message_lem :
      (p : Part) (q : PartQueue) (from n : ℕ)
      → length object < 2 ^ 62
      → 0 < n
      → Holds crc id object p
      → p.offset ≡ from
      → 0 < len p
      → Feeds q (from + len p)
      → ReadsOn from n (read_message n (part p) q)
  unfolding read_message
  read_message_lem p q from n small pos h at some_len f = elim (Bool-cases (ltb n (len p))) [
    | inr all ↦ rw all (h, at, some_len, ltb→le _ _ all, f)
    | inl less ↦
        let (e, ha, hb, la, ob, lb) =
          split_off-Holds crc id object p n (omega arith) h (ltb→lt _ _ less) in
        rw (less, e)
          (
            ha,
            at,
            omega arith,
            omega arith,
            record {
              usable = f.usable;
              mid = f.mid;
              front = (
                hb,
                omega arith,
                omega (arith, ltb→lt _ _ less),
                subst (λ k. Run crc id object q.front_queue k f.mid) (omega arith) f.front,
              );
              rest = f.rest;
            },
          )
  ]

  -- `next_message` and `read_message`, by the places that the next message can come from.
  read_fields :
      (fs : List Part) (rs ps : List Message) (bytes from n : ℕ)
      → length object < 2 ^ 62
      → from < length object
      → 0 < n
      → Feeds (queue_of fs rs ps bytes) from
      → ReadsOn from n (read (queue_of fs rs ps bytes) n)
  unfolding read next_message
  read_fields (p ∷ fs) rs ps bytes from n small more pos f =
      read_message_lem p (queue_of fs rs ps bytes) from n small pos f.front.0 f.front.1 f.front.2
        (record { usable = refl; mid = f.mid; front = f.front.3; rest = f.rest })
  read_fields [] (part p ∷ rs) ps bytes from n small more pos f =
      read_message_lem p (queue_of [] rs ps bytes) from n small pos f.rest.0
        (f.rest.1 ∙ sym f.front) f.rest.2
        (record { usable = refl; mid = from + len p; front = refl; rest = rw f.front f.rest.3 })
  read_fields [] (failure e ∷ rs) ps bytes from n small more pos f = unfold read_message in f.rest
  read_fields [] [] (part p ∷ ps) bytes from n small more pos f =
      read_message_lem p (queue_of [] [] ps (bytes +w len p)) from n small pos f.rest.0
        (f.rest.1 ∙ sym f.front) f.rest.2
        (record { usable = refl; mid = from + len p; front = refl; rest = rw f.front f.rest.3 })
  read_fields [] [] (failure e ∷ ps) bytes from n small more pos f = unfold read_message in f.rest
  read_fields [] [] [] bytes from n small more pos f = unfold read_message in ended f.rest
    where
      ended : (whole ≡ false) ⊎ (f.mid ≡ length object) → whole ≡ false
      ended (inl t) = t
      ended (inr e) = absurd (omega (arith, f.front))

  -- For an object of less than 2^62 bytes: from a queue that feeds the bytes of the object from
  -- `from` on, before its end, a read of `n` bytes, if `n` is not 0, gives the next bytes, at
  -- least one and at most `n`, and the queue then feeds those after them; it fails only if the
  -- producer may stop early or send an error; it never panics.
  pub read_lem :
      (q : PartQueue) (from n : ℕ)
      → length object < 2 ^ 62
      → from < length object
      → 0 < n
      → Feeds q from
      → ReadsOn from n (read q n)
  read_lem q from n small more pos f =
      subst (λ (k : PartQueue). ReadsOn from n (read k n))
        (λ i. record q { failed = sym f.usable i })
        (read_fields q.front_queue q.received q.pending q.bytes_received from n small more pos
          (record { usable = refl; mid = f.mid; front = f.front; rest = f.rest }))

  -- A part that is not empty, holds bytes of the object, and ends where a queue begins can be put
  -- in front of it: the queue then feeds the bytes from the part's offset on, and the part's
  -- length is reserved in the memory limiter.
  pub push_front-Feeds :
      (q : PartQueue) (m : MemoryLimiter) (p : Part) (from : ℕ)
      → Feeds q from
      → Holds crc id object p
      → p.offset + len p ≡ from
      → 0 < len p
      → (q' : PartQueue) × (push_front q m p ≡ some (q', Limiter.reserve m (len p)))
        × Feeds q' p.offset
  unfolding push_front
  push_front-Feeds q m p from f h at some_len = (
    record q { front_queue = p ∷ q.front_queue },
    rw f.usable,
    record {
      usable = f.usable;
      mid = f.mid;
      front = (
        h,
        refl,
        some_len,
        subst (λ k. Run crc id object q.front_queue k f.mid) (sym at) f.front,
      );
      rest = f.rest;
    },
  )
