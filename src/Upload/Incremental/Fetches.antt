-- ===== src/Upload/Incremental/Fetches.antt =====
-- `get_buffer`: it gives an empty buffer, or an error, and does not wait for ever.
use mathlib.Core.Option.{none-ne-some}
use mountpoint_s.Prelude.{
  ℕ, zero, suc, List, [], ◌∷◌, Bool, true, false, Option, none, some, ◌⊎◌, inl, inr, arith, ◌≡◌,
  refl, sym,
}
use mountpoint_s.Memory.Limiter
use mountpoint_s.Memory.Limiter.{MemoryLimiter}
use mountpoint_s.Upload.Hasher
use mountpoint_s.Upload.Hasher.{ChecksumAlgorithm, ChecksumHasherError, ChecksumHasher, Digests}
use mountpoint_s.Upload.Buffer
use mountpoint_s.Upload.Buffer.{UploadBuffer, made}
use mountpoint_s.Upload.Incremental.{
  Client, AppendUploadQueueParams, AppendUploadEvent, checksum_algorithm, put_response, error, Task,
  starting, looping, finished, Upload, task_step,
}
use mountpoint_s.Upload.Incremental.Queue.{
  Received, event, closed, never, take_event, recv_from, recv, consume, consume_next_response,
}
use mountpoint_s.Upload.Incremental.Quiet.{Quiet, Quiet-refl, Quiet-trans, task_step-Quiet}

module _ {St : Type 0} (digests : Digests St) where
  abbrev pub Made : ℕ → (ChecksumHasherError ⊎ UploadBuffer St) × MemoryLimiter → Type 0
  Made capacity (inl e, l) = Unit
  Made capacity (inr b, l) = (b.bytes ≡ []) × (b.capacity ≡ capacity)

  abbrev pub Tried : ℕ → (ChecksumHasherError ⊎ Option (UploadBuffer St)) × MemoryLimiter → Type 0
  Tried capacity (inl e, l) = Unit
  Tried capacity (inr none, l) = Unit
  Tried capacity (inr (some b), l) = (b.bytes ≡ []) × (b.capacity ≡ capacity)

  pub new_lem :
      (capacity : ℕ) (a : Option ChecksumAlgorithm) (l : MemoryLimiter)
      → Made capacity (Buffer.new digests capacity a l)
  unfolding Buffer.new
  new_lem capacity a l = hashed (Hasher.new digests a)
    where
      hashed :
          (x : ChecksumHasherError ⊎ ChecksumHasher St)
          → Made capacity
              (elim x as (λ y. (ChecksumHasherError ⊎ UploadBuffer St) × MemoryLimiter) [
                | inr h ↦ (
                  inr (record { bytes = []; capacity = capacity; hasher = h }),
                  Limiter.reserve l capacity,
                )
                | inl e ↦ (inl e, l)
              ])
      hashed (inl e) = tt
      hashed (inr h) = (refl, refl)

  pub try_new_lem :
      (capacity : ℕ) (a : Option ChecksumAlgorithm) (l : MemoryLimiter)
      → Tried capacity (Buffer.try_new digests capacity a l)
  unfolding Buffer.try_new
  try_new_lem capacity a l = reserved (Limiter.try_reserve l capacity [])
    where
      reserved : (x : MemoryLimiter × Bool) → Tried capacity (made digests capacity a x)
      reserved (m, false) = tt
      reserved (m, true) = hashed (Hasher.new digests a)
        where
          hashed :
              (x : ChecksumHasherError ⊎ ChecksumHasher St)
              → Tried capacity
                  (elim x
                    as (λ y. (ChecksumHasherError ⊎ Option (UploadBuffer St)) × MemoryLimiter) [
                      | inr h ↦
                          (inr (some (record { bytes = []; capacity = capacity; hasher = h })), m)
                      | inl e ↦ (inl e, m)
                    ])
          hashed (inl e) = tt
          hashed (inr h) = (refl, refl)

module _ {St : Type 0} (digests : Digests St) (client : Client)
    (params : AppendUploadQueueParams) where
  take_event-Quiet :
      (u : Upload St) (events : List AppendUploadEvent)
      → Quiet u (take_event digests client params u events).1
  take_event-Quiet u (e ∷ events) = record {
    buffer = refl;
    offset = refl;
    known = λ k. k;
    fewer = omega arith;
  }
  take_event-Quiet u [] = same u.task
    where
      same :
          (t : Task)
          → Quiet u
              (elim t as (λ x. Received × Upload St) [
                | starting ↦ (never, u)
                | looping etag offset ↦ (never, u)
                | finished ↦ (closed, u)
              ]).1
      same starting = Quiet-refl u
      same (looping etag offset) = Quiet-refl u
      same finished = Quiet-refl u

  recv_from-Quiet :
      (u : Upload St) (events : List AppendUploadEvent)
      → Quiet u (recv_from digests client params u events).1
  recv_from-Quiet u (e ∷ events) = record {
    buffer = refl;
    offset = refl;
    known = λ k. k;
    fewer = omega arith;
  }
  recv_from-Quiet u [] =
      let v : Upload St = task_step digests client params u.task u in
      Quiet-trans (task_step-Quiet digests client params u u.task) (take_event-Quiet v v.events)

  pub recv-Quiet : (u : Upload St) → Quiet u (recv digests client params u).1
  unfolding recv
  recv-Quiet u = recv_from-Quiet u u.events

  consume-Quiet :
      (fuel : ℕ) (u : Upload St) (x : Received × Upload St)
      → Quiet u x.1
      → Quiet u (consume digests client params fuel x).1
  unfolding consume
  consume-Quiet fuel u (never, v) q = q
  consume-Quiet fuel u (closed, v) q = q
  consume-Quiet fuel u (event (error e), v) q = q
  consume-Quiet fuel u (event (put_response r), v) q = record {
    buffer = q.buffer;
    offset = q.offset;
    known = q.known;
    fewer = q.fewer;
  }
  consume-Quiet zero u (event (checksum_algorithm a), v) q = q
  consume-Quiet (suc fuel) u (event (checksum_algorithm a), v) q =
      let w : Upload St = record v { algorithm = some a } in
      consume-Quiet fuel u (recv digests client params w) (
        Quiet-trans
          (record {
            buffer = q.buffer;
            offset = q.offset;
            known = λ k e. none-ne-some _ (sym e);
            fewer = q.fewer;
          })
          (recv-Quiet w))

  pub consume_next_response-Quiet :
      (u : Upload St) → Quiet u (consume_next_response digests client params u).1
  unfolding consume_next_response
  consume_next_response-Quiet u = consume-Quiet 2 u (recv digests client params u) (recv-Quiet u)
