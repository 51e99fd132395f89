-- ===== src/Upload/Incremental/Receives.antt =====
-- What a receive gives: it waits for ever only if the channel of buffers is open, nothing is in it, and all
-- responses have been read.
use mathlib.Core.Path.{subst}
use mountpoint_s.Prelude.{
  ℕ, ◌<◌, ◌^◌, List, [], ◌∷◌, ◌++◌, true, false, Option, none, some, ◌⊎◌, inl, inr, arith, length,
  String, ◌≡◌, ◌≢◌, refl, Bool, Bool-cases, sym, ap, ◌∙◌, if◌then◌else◌,
}
use mathlib.Core.Bool.{true≢false}
use mountpoint_s.Upload.Buffer.{UploadBuffer}
use mountpoint_s.Upload.Hasher.{ChecksumAlgorithm, Digests}
use mountpoint_s.Upload.Incremental
use mountpoint_s.Upload.Incremental.{
  UploadError, PutObjectResult, Client, AppendUploadQueueParams, AppendUploadEvent,
  checksum_algorithm, put_response, error, Put, append, answered, loop_step, get_checksum_algorithm,
  Task, starting, looping, finished, Upload, task_step, wait, steps,
}
use mountpoint_s.Upload.Incremental.Queue.{closed, never, take_event, recv_from}
use mountpoint_s.Upload.Incremental.Object.{Object}
use mountpoint_s.Upload.Incremental.Events.{Pending, PendingFailing}
use mountpoint_s.Upload.Incremental.Invariant.{Goes}
use mountpoint_s.Upload.Incremental.Steps.{task_step_lem}
use mountpoint_s.Upload.Incremental.Pops.{cons_not_nil, Stands, Gives, pop_lem, some_not_none}

module _ {St : Type 0} (digests : Digests St) (client : Client) (params : AppendUploadQueueParams)
    (initial : Object) (shut : Bool) (tail all : List ℕ) where
  not_empty : (xs : List AppendUploadEvent) (x : AppendUploadEvent) → xs ++ (x ∷ []) ≡ [] → ⊥
  not_empty [] x e = cons_not_nil e
  not_empty (y ∷ xs) x e = cons_not_nil e

  -- What a step does not change, and that without events it sends one or ends the task, unless it waits.
  record Stepped (u v : Upload St) : Type 0 where
    known : v.algorithm ≡ u.algorithm
    queued : v.requests_in_queue ≡ u.requests_in_queue
    moved :
        v.events ≡ []
        → (v.task ≡ finished)
          ⊎ ((v.closed ≡ false)
              × (v.buffers ≡ [])
              × (etag : Option String) × (offset : ℕ) × (v.task ≡ looping etag offset))

  started-Stepped :
      (u : Upload St) (x : UploadError ⊎ Option ChecksumAlgorithm)
      → Stepped u (Incremental.started digests client params x u)
  started-Stepped u (inl e) = record { known = refl; queued = refl; moved = λ h. inl refl }
  started-Stepped u (inr a) = record {
    known = refl;
    queued = refl;
    moved = λ h. absurd (not_empty u.events _ h);
  }

  answered-Stepped :
      (u : Upload St) (offset : ℕ) (b : UploadBuffer St) (x : UploadError ⊎ (Put × PutObjectResult))
      → Stepped u (answered digests client params offset b x u)
  answered-Stepped u offset b (inl e) = record {
    known = refl;
    queued = refl;
    moved = λ h. inl refl;
  }
  answered-Stepped u offset b (inr (put, result)) = record {
    known = refl;
    queued = refl;
    moved = λ h. absurd (not_empty u.events _ h);
  }

  loop_step-Stepped :
      (u : Upload St) (etag : Option String) (offset : ℕ) (buffers : List (UploadBuffer St))
      → u.buffers ≡ buffers
      → u.task ≡ looping etag offset
      → Stepped u (loop_step digests client params etag offset buffers u)
  loop_step-Stepped u etag offset [] e t = elim (Bool-cases u.closed) [
    | inl c ↦
        subst (λ k. Stepped u (if k then record u { task = finished } else u)) (sym c)
          (record { known = refl; queued = refl; moved = λ h. inl refl })
    | inr c ↦
        subst (λ k. Stepped u (if k then record u { task = finished } else u)) (sym c)
          (record { known = refl; queued = refl; moved = λ h. inr (c, e, etag, offset, t) })
  ]
  loop_step-Stepped u etag offset (b ∷ bs) e t =
      let s =
        answered-Stepped (record u { buffers = bs }) offset b
          (append digests client params u.puts b offset etag) in
      record { known = s.known; queued = s.queued; moved = s.moved }

  task_step-Stepped :
      (u : Upload St) (t : Task) → u.task ≡ t → Stepped u (task_step digests client params t u)
  unfolding task_step
  task_step-Stepped u starting e = started-Stepped u (get_checksum_algorithm client params)
  task_step-Stepped u (looping etag offset) e = loop_step-Stepped u etag offset u.buffers refl e
  task_step-Stepped u finished e = record { known = refl; queued = refl; moved = λ h. inl e }

  pub Stands-step :
      (u : Upload St)
      → Stands digests client params initial shut tail all u
      → length all < 2 ^ 63
      → Stands digests client params initial shut tail all
          (task_step digests client params u.task u)
  unfolding task_step
  Stands-step u (inl r) small =
      task_step_lem digests client params initial shut u tail all u.task refl r small
  Stands-step u (inr (inl (c, i))) small =
      subst
        (λ t.
          Stands digests client params initial shut tail all (task_step digests client params t u))
        (sym i.task) (inr (inl (c, i)))
  Stands-step u (inr (inr i)) small =
      subst
        (λ t.
          Stands digests client params initial shut tail all (task_step digests client params t u))
        (sym i.task) (inr (inr i))

  -- A task that has ended, and no events: all has been sent.
  at_end :
      (u : Upload St) (a : Option (Option ChecksumAlgorithm)) (n : ℕ)
      → u.events ≡ []
      → u.task ≡ finished
      → Stands digests client params initial shut tail all u
      → Gives digests client params initial shut tail all a n (closed, u)
  at_end u a n none_left done (inl r) =
      absurd (subst (Goes digests client params initial r.written.object u) done r.goes)
  at_end u a n none_left done (inr (inl (c, i))) = i
  at_end u a n none_left done (inr (inr i)) = absurd (
      unread u.algorithm
        (subst (λ k. PendingFailing true u.algorithm k u.requests_in_queue) none_left i.failing))
    where
      unread :
          (b : Option (Option ChecksumAlgorithm)) → PendingFailing true b [] u.requests_in_queue → ⊥
      unread none h = absurd (true≢false h)
      unread (some x) h = absurd (true≢false h)

  -- A task that waits, and no events: all responses have been read.
  idle :
      (u : Upload St) (etag : Option String) (offset : ℕ)
      → u.events ≡ []
      → u.closed ≡ false
      → u.buffers ≡ []
      → u.task ≡ looping etag offset
      → Stands digests client params initial shut tail all u
      → Gives digests client params initial shut tail all u.algorithm u.requests_in_queue (never, u)
  idle u etag offset none_left unclosed empty t (inl r) =
      let (_, _, n, queued, pending) =
        subst (Goes digests client params initial r.written.object u) t r.goes in
      let (known, read) =
        waits u.algorithm n (subst (λ k. Pending u.algorithm k n) none_left pending) in
      (sym r.is_closed ∙ unclosed, omega (arith, queued, read, ap length empty), known)
    where
      waits :
          (a : Option (Option ChecksumAlgorithm)) (n : ℕ) → Pending a [] n → (a ≢ none) × (n ≡ 0)
      waits none n h = absurd h
      waits (some x) n h = (some_not_none, h)
  idle u etag offset none_left unclosed empty t (inr (inl (c, i))) =
      absurd (true≢false (sym i.is_closed ∙ unclosed))
  idle u etag offset none_left unclosed empty t (inr (inr i)) =
      absurd (true≢false (sym i.is_closed ∙ unclosed))

  take_lem :
      (u : Upload St) (events : List AppendUploadEvent)
      → u.events ≡ events
      → (u.events ≡ []
          → (u.task ≡ finished)
            ⊎ ((u.closed ≡ false)
                × (u.buffers ≡ [])
                × (etag : Option String) × (offset : ℕ) × (u.task ≡ looping etag offset)))
      → Stands digests client params initial shut tail all u
      → Gives digests client params initial shut tail all u.algorithm u.requests_in_queue
          (take_event digests client params u events)
  take_lem u (e ∷ events) is moved s =
      pop_lem digests client params initial shut tail all u e events is s
  take_lem u [] is moved s = elim (moved is) [
    | inl done ↦ rw (done, take_event) (at_end u u.algorithm u.requests_in_queue is done s)
    | inr (unclosed, empty, etag, offset, t) ↦
        rw (t, take_event) (idle u etag offset is unclosed empty t s)
  ]

  pub recv_from_lem :
      (u : Upload St) (events : List AppendUploadEvent)
      → u.events ≡ events
      → Stands digests client params initial shut tail all u
      → length all < 2 ^ 63
      → Gives digests client params initial shut tail all u.algorithm u.requests_in_queue
          (recv_from digests client params u events)
  recv_from_lem u (e ∷ events) is s small =
      pop_lem digests client params initial shut tail all u e events is s
  recv_from_lem u [] is s small =
      let u' : Upload St = task_step digests client params u.task u in
      let same = task_step-Stepped u u.task refl in
      subst
        (λ k.
          Gives digests client params initial shut tail all k u.requests_in_queue
            (take_event digests client params u' u'.events))
        same.known
        (subst
          (λ k.
            Gives digests client params initial shut tail all u'.algorithm k
              (take_event digests client params u' u'.events))
          same.queued (take_lem u' u'.events refl same.moved (Stands-step u s small)))
