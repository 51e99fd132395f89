-- ===== src/Upload/Incremental/Steps.antt =====
-- A step of the task keeps the invariant of the upload.
use mathlib.Core.Path.{subst}
use mathlib.Core.List.{append_assoc}
use mountpoint_s.Prelude.{
  ℕ, zero, suc, ◌+◌, ◌<◌, ◌^◌, List, [], ◌∷◌, ◌++◌, Bool, true, false, Option, none, some, ◌⊎◌, inl,
  inr, arith, length, length-append, ◌≡◌, refl, sym, ap, ◌∙◌, String,
}
use mountpoint_s.Upload.Hasher.{ChecksumAlgorithm, Digests}
use mountpoint_s.Upload.Buffer.{UploadBuffer}
use mountpoint_s.Upload.Incremental
use mountpoint_s.Upload.Incremental.{
  UploadError, Put, PutObjectResult, Client, AppendUploadQueueParams, AppendUploadEvent,
  checksum_algorithm, put_response, error, Task, starting, looping, finished, Upload, append, fail,
  answered, loop_step, task_step, put_answered, put_encrypted, put_frozen, steps, wait,
  get_checksum_algorithm, put_of,
}
use mountpoint_s.Upload.Incremental.Object.{Object, apply_all}
use mountpoint_s.Upload.Incremental.Events.{Pending, PendingFailing, Pending-append, Pending-fail}
use mountpoint_s.Upload.Incremental.Invariant.{joined, Goes, Runs, After}
use mountpoint_s.Upload.Incremental.Sent.{sent}

module _ {St : Type 0} (digests : Digests St) (client : Client) (params : AppendUploadQueueParams)
    (initial : Object) where
  -- `none` and `[]` are what the algorithm and the events are before the first step.
  started_lem :
      (closed : Bool) (u : Upload St) (tail all : List ℕ) (o : Object)
      (x : UploadError ⊎ Option ChecksumAlgorithm)
      → apply_all initial u.puts ≡ some o
      → o.content ++ (joined u.buffers ++ tail) ≡ all
      → u.closed ≡ closed
      → Goes digests client params initial o u starting
      → After digests client params initial closed
          (Incremental.started digests client params x u)
          tail
          all
  started_lem closed u tail all o (inr algorithm) applied bytes c
        (no_events, no_algorithm, no_buffers, none_queued, tag, at) =
      inl (record {
        written = record { object = o; applied = applied; bytes = bytes };
        is_closed = c;
        goes = (
          tag,
          at,
          0,
          omega (arith, none_queued, ap length no_buffers),
          subst (λ k. Pending k (u.events ++ (checksum_algorithm algorithm ∷ [])) 0)
              (sym no_algorithm)
              (subst (λ k. Pending none (k ++ (checksum_algorithm algorithm ∷ [])) 0)
                (sym no_events) refl),
        );
      })
  started_lem closed u tail all o (inl e) applied bytes c
        (no_events, no_algorithm, no_buffers, none_queued, tag, at) =
      inr (
        inr (record {
          rest = joined u.buffers ++ tail;
          written = record { object = o; applied = applied; bytes = bytes };
          is_closed = refl;
          task = refl;
          buffers = refl;
          failing =
              subst (λ k. PendingFailing true k (u.events ++ (error e ∷ [])) u.requests_in_queue)
                (sym no_algorithm)
                (subst (λ k. PendingFailing true none (k ++ (error e ∷ [])) u.requests_in_queue)
                  (sym no_events) tt);
        }))

  -- `u` has the buffers after the first, `b`.
  answered_lem :
      (closed : Bool) (u : Upload St) (tail all : List ℕ) (o : Object) (etag : Option String)
      (offset n : ℕ) (b : UploadBuffer St) (x : UploadError ⊎ (Put × PutObjectResult))
      → append digests client params u.puts b offset etag ≡ x
      → apply_all initial u.puts ≡ some o
      → o.content ++ ((b.bytes ++ joined u.buffers) ++ tail) ≡ all
      → u.closed ≡ closed
      → o ≡ record { content = o.content; etag = etag }
      → offset ≡ length o.content
      → u.requests_in_queue ≡ n + suc (length u.buffers)
      → Pending u.algorithm u.events n
      → length all < 2 ^ 63
      → After digests client params initial closed
          (answered digests client params offset b x u)
          tail
          all
  answered_lem closed u tail all o etag offset n b (inl e) made applied bytes c tag at queued
        pending small =
      inr (
        inr (record {
          rest = (b.bytes ++ joined u.buffers) ++ tail;
          written = record { object = o; applied = applied; bytes = bytes };
          is_closed = refl;
          task = refl;
          buffers = refl;
          failing =
              Pending-fail u.algorithm u.events n u.requests_in_queue e pending
                (omega (arith, queued));
        }))
  answered_lem closed u tail all o etag offset n b (inr (put, result)) made applied bytes c tag at
        queued pending small =
      let total : length all
          ≡ length o.content + (length b.bytes + length (joined u.buffers ++ tail)) =
        omega (
          arith,
          sym (ap length bytes),
          length-append o.content ((b.bytes ++ joined u.buffers) ++ tail),
          ap length (append_assoc b.bytes (joined u.buffers) tail),
          length-append b.bytes (joined u.buffers ++ tail),
        ) in
      inl (record {
        written = record {
          object = record { content = o.content ++ b.bytes; etag = some result.etag };
          applied =
              sent digests client params initial u o offset etag b (put, result) applied made tag
                at;
          bytes =
              append_assoc o.content b.bytes (joined u.buffers ++ tail)
              ∙ ap (λ k. o.content ++ k) (sym (append_assoc b.bytes (joined u.buffers) tail))
              ∙ bytes;
        };
        is_closed = c;
        goes = (
          refl,
          omega (arith, at, total, small, length-append o.content b.bytes),
          n + 1,
          omega (arith, queued),
          Pending-append u.algorithm u.events n result pending,
        );
      })

  loop_step_lem :
      (closed : Bool) (u : Upload St) (tail all : List ℕ) (o : Object) (etag : Option String)
      (offset : ℕ) (buffers : List (UploadBuffer St))
      → u.buffers ≡ buffers
      → u.task ≡ looping etag offset
      → apply_all initial u.puts ≡ some o
      → o.content ++ (joined buffers ++ tail) ≡ all
      → u.closed ≡ closed
      → Goes digests client params initial o u (looping etag offset)
      → length all < 2 ^ 63
      → After digests client params initial closed
          (loop_step digests client params etag offset buffers u)
          tail
          all
  loop_step_lem closed u tail all o etag offset (b ∷ bs) e t applied bytes c
        (tag, at, n, queued, pending) small =
      answered_lem closed (record u { buffers = bs }) tail all o etag offset n b
        (append digests client params u.puts b offset etag) refl applied bytes c tag at
        (omega (arith, queued, ap length e)) pending small
  loop_step_lem false u tail all o etag offset [] e t applied bytes c (tag, at, n, queued, pending)
        small =
      rw c (
        inl (record {
          written = record {
            object = o;
            applied = applied;
            bytes = ap (λ k. o.content ++ (joined k ++ tail)) e ∙ bytes;
          };
          is_closed = refl;
          goes =
              subst (Goes digests client params initial o (record u { closed = false })) (sym t)
                (tag, at, n, queued, pending);
        }))
  loop_step_lem true u tail all o etag offset [] e t applied bytes c (tag, at, n, queued, pending)
        small =
      rw c (
        inr (
          inl (
            refl,
            record {
              written = record { object = o; applied = applied; bytes = bytes };
              is_closed = refl;
              task = refl;
              buffers = e;
              pending =
                  subst (Pending u.algorithm u.events) (omega (arith, queued, ap length e)) pending;
            },
          )))

  pub task_step_lem :
      (closed : Bool) (u : Upload St) (tail all : List ℕ) (task : Task)
      → u.task ≡ task
      → Runs digests client params initial closed u tail all
      → length all < 2 ^ 63
      → After digests client params initial closed (task_step digests client params task u) tail all
  unfolding task_step
  task_step_lem closed u tail all starting e r small =
      started_lem closed u tail all r.written.object (get_checksum_algorithm client params)
        r.written.applied r.written.bytes r.is_closed
        (subst (Goes digests client params initial r.written.object u) e r.goes)
  task_step_lem closed u tail all (looping etag offset) e r small =
      loop_step_lem closed u tail all r.written.object etag offset u.buffers refl e
        r.written.applied r.written.bytes r.is_closed
        (subst (Goes digests client params initial r.written.object u) e r.goes) small
  task_step_lem closed u tail all finished e r small =
      absurd (subst (Goes digests client params initial r.written.object u) e r.goes)

  pub steps-finished :
      (n : ℕ) (u : Upload St) → u.task ≡ finished → steps digests client params n u ≡ u
  unfolding steps task_step
  steps-finished zero u e = refl
  steps-finished (suc n) u e =
      subst (λ t. steps digests client params n (task_step digests client params t u) ≡ u) (sym e)
        (steps-finished n u e)

  pub steps-After :
      (n : ℕ) (closed : Bool) (u : Upload St) (tail all : List ℕ)
      → Runs digests client params initial closed u tail all
      → length all < 2 ^ 63
      → After digests client params initial closed (steps digests client params n u) tail all
  unfolding steps
  steps-After zero closed u tail all r small = inl r
  steps-After (suc n) closed u tail all r small =
      after (task_step digests client params u.task u)
        (task_step_lem closed u tail all u.task refl r small)
        (λ u' r'. steps-After n closed u' tail all r' small)
    where
      after :
          (u' : Upload St)
          → After digests client params initial closed u' tail all
          → ((v : Upload St)
              → Runs digests client params initial closed v tail all
              → After digests client params initial closed
                  (steps digests client params n v)
                  tail
                  all)
          → After digests client params initial closed (steps digests client params n u') tail all
      after u' (inl r') go = go u' r'
      after u' (inr (inl (c, ended))) go =
          subst (λ v. After digests client params initial closed v tail all)
            (sym (steps-finished n u' ended.task)) (inr (inl (c, ended)))
      after u' (inr (inr failed)) go =
          subst (λ v. After digests client params initial closed v tail all)
            (sym (steps-finished n u' failed.task)) (inr (inr failed))
