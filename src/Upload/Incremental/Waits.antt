-- ===== src/Upload/Incremental/Waits.antt =====
-- The invariant is kept by a wait.
use mathlib.Core.Path.{subst}
use mountpoint_s.Prelude.{
  ℕ, ◌<◌, ◌^◌, List, [], ◌∷◌, ◌++◌, Bool, false, Option, inl, inr, arith, length, ◌≡◌, refl, sym,
  ap, ◌∙◌,
}
use mathlib.Core.List.{append_assoc}
use mountpoint_s.Memory.Limiter.{MemoryLimiter}
use mountpoint_s.Upload.Hasher.{Digests}
use mountpoint_s.Upload.Buffer.{UploadBuffer}
use mountpoint_s.Upload.Incremental.{
  Client, AppendUploadQueueParams, Task, starting, looping, finished, Upload, task_step, steps,
  wait,
}
use mountpoint_s.Upload.Incremental.Object.{Object}
use mountpoint_s.Upload.Incremental.Invariant.{joined, Written, Written-extend, Goes, Runs, After}
use mountpoint_s.Upload.Incremental.Steps.{steps-finished, steps-After}
use mountpoint_s.Upload.Incremental.Quiet.{loop_step-fewer}

module _ {St : Type 0} (digests : Digests St) (client : Client) (params : AppendUploadQueueParams)
    (initial : Object) where
  Goes-aside :
      (u : Upload St) (o : Object) (t : Task) (buffer : Option (UploadBuffer St)) (offset : ℕ)
      (limiter : MemoryLimiter) (schedule : List ℕ)
      → Goes digests client params initial o u t
      → Goes digests client params initial o
          (record u {
            buffer = buffer;
            offset = offset;
            mem_limiter = limiter;
            schedule = schedule;
          })
          t
  Goes-aside u o starting buffer offset limiter schedule g = g
  Goes-aside u o (looping etag at) buffer offset limiter schedule g = g
  Goes-aside u o finished buffer offset limiter schedule g = g

  -- The invariant does not look at the request, the limiter and the schedule.
  pub After-aside :
      (closed : Bool) (u : Upload St) (tail all : List ℕ) (buffer : Option (UploadBuffer St))
      (offset : ℕ) (limiter : MemoryLimiter) (schedule : List ℕ)
      → After digests client params initial closed u tail all
      → After digests client params initial closed
          (record u {
            buffer = buffer;
            offset = offset;
            mem_limiter = limiter;
            schedule = schedule;
          })
          tail
          all
  After-aside closed u tail all buffer offset limiter schedule (inl r) = inl (record {
    written = r.written;
    is_closed = r.is_closed;
    goes = Goes-aside u r.written.object u.task buffer offset limiter schedule r.goes;
  })
  After-aside closed u tail all buffer offset limiter schedule (inr (inl (c, i))) = inr (
      inl (
        c,
        record {
          written = i.written;
          is_closed = i.is_closed;
          task = i.task;
          buffers = i.buffers;
          pending = i.pending;
        },
      ))
  After-aside closed u tail all buffer offset limiter schedule (inr (inr i)) = inr (
      inr (record {
        rest = i.rest;
        written = i.written;
        is_closed = i.is_closed;
        task = i.task;
        buffers = i.buffers;
        failing = i.failing;
      }))

  After-steps :
      (n : ℕ) (closed : Bool) (u : Upload St) (tail all : List ℕ)
      → After digests client params initial closed u tail all
      → length all < 2 ^ 63
      → After digests client params initial closed (steps digests client params n u) tail all
  After-steps n closed u tail all (inl r) small =
      steps-After digests client params initial n closed u tail all r small
  After-steps n closed u tail all (inr (inl (c, i))) small =
      subst (λ v. After digests client params initial closed v tail all)
        (sym (steps-finished digests client params initial n u i.task)) (inr (inl (c, i)))
  After-steps n closed u tail all (inr (inr i)) small =
      subst (λ v. After digests client params initial closed v tail all)
        (sym (steps-finished digests client params initial n u i.task)) (inr (inr i))

  wait_each :
      (closed : Bool) (u : Upload St) (schedule : List ℕ) (tail all : List ℕ)
      → After digests client params initial closed u tail all
      → length all < 2 ^ 63
      → After digests client params initial closed (wait digests client params schedule u) tail all
  unfolding wait
  wait_each closed u [] tail all a small = a
  wait_each closed u (n ∷ schedule) tail all a small =
      After-steps n closed (record u { schedule = schedule }) tail all
        (After-aside closed u tail all u.buffer u.offset u.mem_limiter schedule a) small

  pub wait_lem :
      (u : Upload St) (tail all : List ℕ)
      → After digests client params initial false u tail all
      → length all < 2 ^ 63
      → After digests client params initial false (wait digests client params u.schedule u) tail all
  wait_lem u tail all a small = wait_each false u u.schedule tail all a small

  -- A step of a task that runs with buffers in its channel takes one of them out.
  pub step-fewer :
      (u : Upload St) (t : Task) (tail all : List ℕ)
      → u.task ≡ t
      → Runs digests client params initial false u tail all
      → 0 < length u.buffers
      → length (task_step digests client params t u).buffers < length u.buffers
  unfolding task_step
  step-fewer u starting tail all e r pos = absurd (
      omega (
        arith,
        pos,
        ap length (subst (Goes digests client params initial r.written.object u) e r.goes).2,
      ))
  step-fewer u (looping etag offset) tail all e r pos =
      loop_step-fewer digests client params u etag offset u.buffers refl pos
  step-fewer u finished tail all e r pos =
      absurd (subst (Goes digests client params initial r.written.object u) e r.goes)

  -- More bytes after those that are not in the channel.
  pub After-extend :
      (closed : Bool) (u : Upload St) (tail all more : List ℕ)
      → After digests client params initial closed u tail all
      → After digests client params initial closed u (tail ++ more) (all ++ more)
  After-extend closed u tail all more (inl r) = inl (record {
    written = record {
      object = r.written.object;
      applied = r.written.applied;
      bytes =
          ap (λ k. r.written.object.content ++ k) (sym (append_assoc (joined u.buffers) tail more))
          ∙ sym (append_assoc r.written.object.content (joined u.buffers ++ tail) more)
          ∙ ap (λ k. k ++ more) r.written.bytes;
    };
    is_closed = r.is_closed;
    goes = r.goes;
  })
  After-extend closed u tail all more (inr (inl (c, i))) = inr (
      inl (
        c,
        record {
          written = Written-extend initial more i.written;
          is_closed = i.is_closed;
          task = i.task;
          buffers = i.buffers;
          pending = i.pending;
        },
      ))
  After-extend closed u tail all more (inr (inr i)) = inr (
      inr (record {
        rest = i.rest ++ more;
        written = Written-extend initial more i.written;
        is_closed = i.is_closed;
        task = i.task;
        buffers = i.buffers;
        failing = i.failing;
      }))

  -- Whatever it stands, the object is a start of all.
  abbrev pub Begun : Upload St → List ℕ → Type 0
  Begun u all = (rest : List ℕ) × Written initial u.puts rest all

  pub After-Begun :
      (closed : Bool) (u : Upload St) (tail all : List ℕ)
      → After digests client params initial closed u tail all
      → Begun u all
  After-Begun closed u tail all (inl r) = (joined u.buffers ++ tail, r.written)
  After-Begun closed u tail all (inr (inl (c, i))) = (tail, i.written)
  After-Begun closed u tail all (inr (inr i)) = (i.rest, i.written)

  pub Begun-extend : (u : Upload St) (all more : List ℕ) → Begun u all → Begun u (all ++ more)
  Begun-extend u all more (rest, w) = (rest ++ more, Written-extend initial more w)
