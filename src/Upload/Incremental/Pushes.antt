-- ===== src/Upload/Incremental/Pushes.antt =====
-- `verify` and `push`: a buffer that is pushed is in the channel, or an error is given.
use mathlib.Core.Path.{subst}
use mathlib.Core.List.{append_assoc}
use mathlib.Core.Bool.{true≢false}
use mountpoint_s.Prelude.{
  ℕ, suc, ◌+◌, ◌≤◌, ◌<◌, ◌^◌, List, [], ◌∷◌, ◌++◌, true, false, none, inl, inr, Outcome, ok, err,
  panic, arith, length, length-append, leb, ◌≡◌, ◌≢◌, refl, sym, ap, ◌∙◌, Bool-cases, if◌then◌else◌,
}
use mountpoint_s.Upload.Hasher.{Digests}
use mountpoint_s.Upload.Buffer.{UploadBuffer, release}
use mountpoint_s.Upload.Incremental.{
  UploadError, Client, AppendUploadQueueParams, Task, starting, looping, finished, Upload,
  task_step, wait,
}
use mountpoint_s.Upload.Incremental.Queue.{
  consume_all, terminated, drain_terminated, send, push, verify,
}
use mountpoint_s.Upload.Incremental.Object.{Object}
use mountpoint_s.Upload.Incremental.Invariant.{joined, Goes, Failed, After}
use mountpoint_s.Upload.Incremental.Receives.{Stands-step}
use mountpoint_s.Upload.Incremental.Joins.{Drained, consume_all_lem}
use mountpoint_s.Upload.Incremental.Quiet.{Quiet, Quiet-trans, task_step-Quiet, wait-Quiet}
use mountpoint_s.Upload.Incremental.Waits.{wait_lem, step-fewer, Begun}

module _ {St : Type 0} where
  joined-append :
      (bs : List (UploadBuffer St)) (b : UploadBuffer St) (tail : List ℕ)
      → joined (bs ++ (b ∷ [])) ++ tail ≡ joined bs ++ (b.bytes ++ tail)
  joined-append [] b tail = append_assoc b.bytes [] tail
  joined-append (c ∷ bs) b tail =
      append_assoc c.bytes (joined (bs ++ (b ∷ []))) tail
      ∙ ap (λ k. c.bytes ++ k) (joined-append bs b tail)
      ∙ sym (append_assoc c.bytes (joined bs) (b.bytes ++ tail))

module _ {St : Type 0} (digests : Digests St) (client : Client) (params : AppendUploadQueueParams)
    (initial : Object) where
  -- How a call ends: with what it promises, or with an error, and then the object is a start of `all`.
  abbrev pub Ends {ℓ} :
      {A : Type ℓ} → (A → Upload St → Type 0) → List ℕ → Outcome UploadError A × Upload St → Type 0
  Ends P all (ok a, u) = P a u
  Ends P all (err e, u) = Begun digests client params initial u all
  Ends P all (panic, u) = ⊥

  -- Between calls the channel is open, or the task has failed, and the channel is not over its capacity.
  pub record Ready (u : Upload St) (tail all : List ℕ) : Type 0 where
    pub after : After digests client params initial false u tail all
    pub room : length u.buffers ≤ params.capacity

  terminated_lem {ℓ} :
      {A : Type ℓ} (P : A → Upload St → Type 0) (tail all : List ℕ)
      (x : Outcome UploadError (Unit {0}) × Upload St)
      → Drained digests client params initial tail all x
      → Ends P all (terminated digests client params x)
  terminated_lem P tail all (ok v, u) d = (tail, d.written)
  terminated_lem P tail all (err e, u) d = (d.rest, d.written)
  terminated_lem P tail all (panic, u) d = d

  drain_terminated_lem {ℓ} :
      {A : Type ℓ} (P : A → Upload St → Type 0) (u : Upload St) (tail all : List ℕ)
      → Failed digests client params initial true u all
      → length all < 2 ^ 63
      → Ends P all (drain_terminated digests client params u)
  drain_terminated_lem P u tail all i small =
      terminated_lem P tail all (consume_all digests client params (suc u.requests_in_queue) u) (
        consume_all_lem digests client params initial tail all (suc u.requests_in_queue) u
          (inr (inr i)) (omega arith) small)

  -- What the calls promise that do not change the request.
  pub record Stays (u : Upload St) (tail all : List ℕ) (v : Upload St) : Type 0 where
    pub ready : Ready v tail all
    pub buffer : v.buffer ≡ u.buffer
    pub offset : v.offset ≡ u.offset
    pub known : u.algorithm ≢ none → v.algorithm ≢ none

  abbrev pub Kept :
      Upload St → List ℕ → List ℕ → Outcome UploadError (Unit {0}) × Upload St → Type 0
  Kept u tail all = Ends (λ _ v. Stays u tail all v) all

  verified :
      (u v : Upload St) (tail all : List ℕ)
      → After digests client params initial false v tail all
      → Quiet u v
      → length u.buffers ≤ params.capacity
      → length all < 2 ^ 63
      → Kept u tail all (if v.closed then drain_terminated digests client params v else (ok tt, v))
  verified u v tail all (inl r) q room small =
      subst
        (λ k. Kept u tail all (if k then drain_terminated digests client params v else (ok tt, v)))
        (sym r.is_closed)
        (record {
          ready = record { after = inl r; room = omega (arith, q.fewer, room) };
          buffer = q.buffer;
          offset = q.offset;
          known = q.known;
        })
  verified u v tail all (inr (inl (c, i))) q room small = absurd (true≢false (sym c))
  verified u v tail all (inr (inr i)) q room small =
      subst
        (λ k. Kept u tail all (if k then drain_terminated digests client params v else (ok tt, v)))
        (sym i.is_closed) (drain_terminated_lem (λ _ w. Stays u tail all w) v tail all i small)

  pub verify_lem :
      (u : Upload St) (tail all : List ℕ)
      → Ready u tail all
      → length all < 2 ^ 63
      → Kept u tail all (verify digests client params u)
  unfolding verify
  verify_lem u tail all r small =
      verified u (wait digests client params u.schedule u) tail all
        (wait_lem digests client params initial u tail all r.after small)
        (wait-Quiet digests client params u u.schedule) r.room small

  Goes-send :
      (u : Upload St) (o : Object) (t : Task) (b : UploadBuffer St)
      → u.algorithm ≢ none
      → Goes digests client params initial o u t
      → Goes digests client params initial o
          (record u {
            buffers = u.buffers ++ (b ∷ []);
            requests_in_queue = u.requests_in_queue + 1;
          })
          t
  Goes-send u o starting b known (_, unknown, _, _, _, _) = absurd (known unknown)
  Goes-send u o (looping etag offset) b known (tag, at, n, queued, pending) =
      (tag, at, n, omega (arith, queued, length-append u.buffers (b ∷ [])), pending)
  Goes-send u o finished b known g = g

  send_lem :
      (u v : Upload St) (b : UploadBuffer St) (tail all : List ℕ)
      → After digests client params initial false v (b.bytes ++ tail) all
      → Quiet u v
      → u.algorithm ≢ none
      → (v.closed ≡ false → length v.buffers < params.capacity)
      → length all < 2 ^ 63
      → Kept u tail all (send digests client params b v)
  send_lem u v b tail all (inl r) q known room small =
      let lt : length v.buffers < params.capacity = room r.is_closed in
      let space : leb params.capacity (length v.buffers) ≡ false = ground (arith, lt) in
      subst
        (λ k. Kept u tail all (
          if k
          then drain_terminated digests client params
              (record v { mem_limiter = release b v.mem_limiter })
          else if leb params.capacity (length v.buffers)
          then (panic, v)
          else (
            ok tt,
            record v {
              buffers = v.buffers ++ (b ∷ []);
              requests_in_queue = v.requests_in_queue + 1;
            },
          )))
        (sym r.is_closed)
        (rw space (record {
          ready = record {
            after = inl (record {
              written = record {
                object = r.written.object;
                applied = r.written.applied;
                bytes =
                    ap (λ k. r.written.object.content ++ k) (joined-append v.buffers b tail)
                    ∙ r.written.bytes;
              };
              is_closed = r.is_closed;
              goes = Goes-send v r.written.object v.task b (q.known known) r.goes;
            });
            room = omega (arith, lt, length-append v.buffers (b ∷ []));
          };
          buffer = q.buffer;
          offset = q.offset;
          known = q.known;
        }))
  send_lem u v b tail all (inr (inl (c, i))) q known room small = absurd (true≢false (sym c))
  send_lem u v b tail all (inr (inr i)) q known room small =
      subst
        (λ k. Kept u tail all (
          if k
          then drain_terminated digests client params
              (record v { mem_limiter = release b v.mem_limiter })
          else if leb params.capacity (length v.buffers)
          then (panic, v)
          else (
            ok tt,
            record v {
              buffers = v.buffers ++ (b ∷ []);
              requests_in_queue = v.requests_in_queue + 1;
            },
          )))
        (sym i.is_closed)
        (drain_terminated_lem (λ _ w. Stays u tail all w)
          (record v { mem_limiter = release b v.mem_limiter }) tail all
          (record {
            rest = i.rest;
            written = i.written;
            is_closed = i.is_closed;
            task = i.task;
            buffers = i.buffers;
            failing = i.failing;
          })
          small)

  -- After a step of the task there is room in a full channel, if it is still open.
  step_room :
      (v : Upload St) (tail all : List ℕ)
      → After digests client params initial false v tail all
      → 0 < length v.buffers
      → length (task_step digests client params v.task v).buffers < length v.buffers
  step_room v tail all (inl r) pos =
      step-fewer digests client params initial v v.task tail all refl r pos
  step_room v tail all (inr (inl (c, i))) pos = absurd (true≢false (sym c))
  step_room v tail all (inr (inr i)) pos = absurd (omega (arith, pos, ap length i.buffers))

  -- A buffer can be pushed when the algorithm is known.
  pub push_lem :
      (u : Upload St) (b : UploadBuffer St) (tail all : List ℕ)
      → Ready u (b.bytes ++ tail) all
      → u.algorithm ≢ none
      → 0 < params.capacity
      → length all < 2 ^ 63
      → Kept u tail all (push digests client params b u)
  unfolding push
  push_lem u b tail all r known pos small =
      let v : Upload St = wait digests client params u.schedule u in
      let a = wait_lem digests client params initial u (b.bytes ++ tail) all r.after small in
      let q = wait-Quiet digests client params u u.schedule in
      elim (Bool-cases (leb params.capacity (length v.buffers))) [
        | inl full ↦
            let le : params.capacity ≤ length v.buffers = ground (arith, full) in
            let fewer = step_room v (b.bytes ++ tail) all a (omega (arith, le, pos)) in
            subst
              (λ k. Kept u tail all (
                if k
                then send digests client params b (task_step digests client params v.task v)
                else send digests client params b v))
              (sym full)
              (send_lem u (task_step digests client params v.task v) b tail all
                (Stands-step digests client params initial false (b.bytes ++ tail) all v a small)
                (Quiet-trans q (task_step-Quiet digests client params v v.task)) known
                (λ c. omega (arith, fewer, q.fewer, r.room)) small)
        | inr space ↦
            subst
              (λ k. Kept u tail all (
                if k
                then send digests client params b (task_step digests client params v.task v)
                else send digests client params b v))
              (sym space) (send_lem u v b tail all a q known (λ c. ground (arith, space)) small)
      ]
