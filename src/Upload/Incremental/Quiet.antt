-- ===== src/Upload/Incremental/Quiet.antt =====
-- What a step of the task and a wait leave alone.
use mathlib.Core.Path.{subst}
use mountpoint_s.Prelude.{
  ℕ, zero, suc, ◌≤◌, ◌<◌, List, [], ◌∷◌, Option, none, ◌⊎◌, inl, inr, arith, length, ◌≡◌, ◌≢◌, refl,
  sym, ap, ◌∙◌, String, Bool-cases, if◌then◌else◌,
}
use mountpoint_s.Upload.Hasher.{ChecksumAlgorithm, Digests}
use mountpoint_s.Upload.Buffer.{UploadBuffer}
use mountpoint_s.Upload.Incremental
use mountpoint_s.Upload.Incremental.{
  UploadError, Put, PutObjectResult, Client, AppendUploadQueueParams, Task, starting, looping,
  finished, Upload, append, answered, loop_step, task_step, steps, wait, get_checksum_algorithm,
}

module _ {St : Type 0} where
  -- The request is as it was, and no buffer came into the channel.
  pub record Quiet (u v : Upload St) : Type 0 where
    pub buffer : v.buffer ≡ u.buffer
    pub offset : v.offset ≡ u.offset
    pub known : u.algorithm ≢ none → v.algorithm ≢ none
    pub fewer : length v.buffers ≤ length u.buffers

  pub Quiet-refl : (u : Upload St) → Quiet u u
  Quiet-refl u = record { buffer = refl; offset = refl; known = λ k. k; fewer = omega arith }

  pub Quiet-trans : {u v w : Upload St} → Quiet u v → Quiet v w → Quiet u w
  Quiet-trans p q = record {
    buffer = q.buffer ∙ p.buffer;
    offset = q.offset ∙ p.offset;
    known = λ k. q.known (p.known k);
    fewer = omega (arith, p.fewer, q.fewer);
  }

module _ {St : Type 0} (digests : Digests St) (client : Client)
    (params : AppendUploadQueueParams) where
  started-Quiet :
      (u : Upload St) (x : UploadError ⊎ Option ChecksumAlgorithm)
      → Quiet u (Incremental.started digests client params x u)
  started-Quiet u (inl e) = record {
    buffer = refl;
    offset = refl;
    known = λ k. k;
    fewer = omega arith;
  }
  started-Quiet u (inr a) = record {
    buffer = refl;
    offset = refl;
    known = λ k. k;
    fewer = omega arith;
  }

  answered-Quiet :
      (u : Upload St) (offset : ℕ) (b : UploadBuffer St) (x : UploadError ⊎ (Put × PutObjectResult))
      → Quiet u (answered digests client params offset b x u)
  answered-Quiet u offset b (inl e) = record {
    buffer = refl;
    offset = refl;
    known = λ k. k;
    fewer = omega arith;
  }
  answered-Quiet u offset b (inr (put, result)) = record {
    buffer = refl;
    offset = refl;
    known = λ k. k;
    fewer = omega arith;
  }

  loop_step-Quiet :
      (u : Upload St) (etag : Option String) (offset : ℕ) (buffers : List (UploadBuffer St))
      → u.buffers ≡ buffers
      → Quiet u (loop_step digests client params etag offset buffers u)
  loop_step-Quiet u etag offset [] e = elim (Bool-cases u.closed) [
    | inl c ↦
        subst (λ k. Quiet u (if k then record u { task = finished } else u)) (sym c)
          (record { buffer = refl; offset = refl; known = λ k. k; fewer = omega arith })
    | inr c ↦
        subst (λ k. Quiet u (if k then record u { task = finished } else u)) (sym c) (Quiet-refl u)
  ]
  loop_step-Quiet u etag offset (b ∷ bs) e =
      let q =
        answered-Quiet (record u { buffers = bs }) offset b
          (append digests client params u.puts b offset etag) in
      record {
        buffer = q.buffer;
        offset = q.offset;
        known = q.known;
        fewer = omega (arith, q.fewer, ap length e);
      }

  pub task_step-Quiet : (u : Upload St) (t : Task) → Quiet u (task_step digests client params t u)
  unfolding task_step
  task_step-Quiet u starting = started-Quiet u (get_checksum_algorithm client params)
  task_step-Quiet u (looping etag offset) = loop_step-Quiet u etag offset u.buffers refl
  task_step-Quiet u finished = Quiet-refl u

  -- A step of a task in its loop takes a buffer out of the channel.
  pub loop_step-fewer :
      (u : Upload St) (etag : Option String) (offset : ℕ) (buffers : List (UploadBuffer St))
      → u.buffers ≡ buffers
      → 0 < length u.buffers
      → length (loop_step digests client params etag offset buffers u).buffers < length u.buffers
  loop_step-fewer u etag offset [] e pos = absurd (omega (arith, pos, ap length e))
  loop_step-fewer u etag offset (b ∷ bs) e pos =
      let q =
        answered-Quiet (record u { buffers = bs }) offset b
          (append digests client params u.puts b offset etag) in
      omega (arith, q.fewer, ap length e)

  pub steps-Quiet : (n : ℕ) (u : Upload St) → Quiet u (steps digests client params n u)
  unfolding steps
  steps-Quiet zero u = Quiet-refl u
  steps-Quiet (suc n) u =
      Quiet-trans (task_step-Quiet u u.task)
        (steps-Quiet n (task_step digests client params u.task u))

  pub wait-Quiet :
      (u : Upload St) (schedule : List ℕ) → Quiet u (wait digests client params schedule u)
  unfolding wait
  wait-Quiet u [] = Quiet-refl u
  wait-Quiet u (n ∷ schedule) =
      let q = steps-Quiet n (record u { schedule = schedule }) in
      record { buffer = q.buffer; offset = q.offset; known = q.known; fewer = q.fewer }
