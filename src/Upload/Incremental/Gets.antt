-- ===== src/Upload/Incremental/Gets.antt =====
-- `get_buffer`: it gives an empty buffer, or an error, and does not wait for ever.
use mathlib.Core.Path.{subst}
use mountpoint_s.Prelude.{
  ℕ, zero, suc, ◌-◌, ◌≤◌, ◌<◌, ◌^◌, List, [], Bool, true, false, Option, none, some, ◌⊎◌, inl, inr,
  Outcome, ok, err, panic, arith, length, leb, ◌≡◌, ◌≢◌, refl, sym, ◌∙◌, Bool-cases, if◌then◌else◌,
}
use mountpoint_s.Memory.Limiter.{MemoryLimiter}
use mountpoint_s.Upload.Hasher.{ChecksumAlgorithm, ChecksumHasherError, Digests}
use mountpoint_s.Upload.Buffer
use mountpoint_s.Upload.Buffer.{UploadBuffer}
use mountpoint_s.Upload.Incremental.{
  UploadError, Client, AppendUploadQueueParams, checksum_algorithm, put_response, error, Upload,
  wait,
}
use mountpoint_s.Upload.Incremental.Queue.{
  Received, event, closed, never, recv, consume_next_response, algorithm_of, know_algorithm, given,
  round, get_buffer_loop, fetch, get_buffer,
}
use mountpoint_s.Upload.Incremental.Object.{Object}
use mountpoint_s.Upload.Incremental.Invariant.{After}
use mountpoint_s.Upload.Incremental.Pops.{Gives, some_not_none}
use mountpoint_s.Upload.Incremental.Receives.{recv_from_lem}
use mountpoint_s.Upload.Incremental.Consumes.{Consumed, consume_any}
use mountpoint_s.Upload.Incremental.Quiet.{Quiet, Quiet-refl, Quiet-trans, wait-Quiet}
use mountpoint_s.Upload.Incremental.Waits.{After-aside, wait_lem, After-Begun}
use mountpoint_s.Upload.Incremental.Pushes.{Ends}
use mountpoint_s.Upload.Incremental.Fetches.{
  Made, Tried, new_lem, try_new_lem, recv-Quiet, consume_next_response-Quiet,
}

module _ {St : Type 0} (digests : Digests St) (client : Client) (params : AppendUploadQueueParams)
    (initial : Object) (tail all : List ℕ) where
  -- A buffer that is given, where nothing else has changed.
  pub record Fetched (u : Upload St) (capacity : ℕ) (b : UploadBuffer St) (v : Upload St)
      : Type 0 where
    pub empty : b.bytes ≡ []
    pub size : b.capacity ≡ capacity
    pub after : After digests client params initial false v tail all
    pub quiet : Quiet u v
    pub known : v.algorithm ≢ none

  abbrev Fetch : Upload St → ℕ → Outcome UploadError (UploadBuffer St) × Upload St → Type 0
  Fetch u capacity = Ends digests client params initial (Fetched u capacity) all

  -- The algorithm that is known after `know_algorithm`.
  abbrev Known : Outcome UploadError (Option ChecksumAlgorithm) × Upload St → Type 0
  Known =
      Ends digests client params initial
        (λ a v. After digests client params initial false v tail all × (v.algorithm ≡ some a)) all

  algorithm_of_lem :
      (n : ℕ) (x : Received × Upload St)
      → Gives digests client params initial false tail all none n x
      → Known (algorithm_of digests client params x)
  algorithm_of_lem n (event (checksum_algorithm a), u) g = (g.2, refl)
  algorithm_of_lem n (event (put_response r), u) g = absurd (g.0 refl)
  algorithm_of_lem n (event (error e), u) g = (g.rest, g.written)
  algorithm_of_lem n (closed, u) g = (tail, g.written)
  algorithm_of_lem n (never, u) g = absurd (g.2 refl)

  algorithm_of-Quiet :
      (u : Upload St) (x : Received × Upload St)
      → Quiet u x.1
      → Quiet u (algorithm_of digests client params x).1
  algorithm_of-Quiet u (event (checksum_algorithm a), v) q = record {
    buffer = q.buffer;
    offset = q.offset;
    known = λ k. some_not_none;
    fewer = q.fewer;
  }
  algorithm_of-Quiet u (event (put_response r), v) q = q
  algorithm_of-Quiet u (event (error e), v) q = q
  algorithm_of-Quiet u (closed, v) q = q
  algorithm_of-Quiet u (never, v) q = q

  abbrev answer :
      Option (Option ChecksumAlgorithm)
      → Upload St
      → Outcome UploadError (Option ChecksumAlgorithm) × Upload St
  answer a u = elim a [
    | some x ↦ (ok x, u)
    | none ↦ algorithm_of digests client params (recv digests client params u)
  ]

  know_algorithm_lem :
      (u : Upload St)
      → After digests client params initial false u tail all
      → length all < 2 ^ 63
      → Known (know_algorithm digests client params u)
        × Quiet u (know_algorithm digests client params u).1
  unfolding know_algorithm recv
  know_algorithm_lem u i small = knowing u.algorithm refl
    where
      knowing :
          (a : Option (Option ChecksumAlgorithm))
          → u.algorithm ≡ a
          → Known (answer a u) × Quiet u (answer a u).1
      knowing (some a) e = ((i, e), Quiet-refl u)
      knowing none e = (
        algorithm_of_lem u.requests_in_queue (recv digests client params u) (
            subst
              (λ k.
                Gives digests client params initial false tail all k u.requests_in_queue
                  (recv digests client params u))
              e
              (recv_from_lem digests client params initial false tail all u u.events refl i small)),
        algorithm_of-Quiet u (recv digests client params u) (recv-Quiet digests client params u),
      )

  given_lem :
      (u v : Upload St) (capacity : ℕ) (x : (ChecksumHasherError ⊎ UploadBuffer St) × MemoryLimiter)
      → Made digests capacity x
      → After digests client params initial false v tail all
      → Quiet u v
      → v.algorithm ≢ none
      → Fetch u capacity (given digests client params x v)
  given_lem u v capacity (inl e, l) m i q known =
      After-Begun digests client params initial false (record v { mem_limiter = l }) tail all
        (After-aside digests client params initial false v tail all v.buffer v.offset l v.schedule
          i)
  given_lem u v capacity (inr b, l) m i q known = record {
    empty = m.0;
    size = m.1;
    after =
        After-aside digests client params initial false v tail all v.buffer v.offset l v.schedule i;
    quiet = record { buffer = q.buffer; offset = q.offset; known = q.known; fewer = q.fewer };
    known = known;
  }

  consume_next_response_lem :
      (u : Upload St)
      → After digests client params initial false u tail all
      → 0 < u.requests_in_queue
      → length all < 2 ^ 63
      → Consumed digests client params initial false tail all u.requests_in_queue
          (consume_next_response digests client params u)
  unfolding consume_next_response recv
  consume_next_response_lem u i pos small =
      consume_any digests client params initial false tail all u.requests_in_queue u.algorithm
        (recv digests client params u) (inr pos) small
        (recv_from_lem digests client params initial false tail all u u.events refl i small)

  round_lem :
      (u v : Upload St) (capacity : ℕ) (rest : Outcome UploadError (UploadBuffer St) × Upload St)
      (tried : (ChecksumHasherError ⊎ Option (UploadBuffer St)) × MemoryLimiter)
      (taken : Outcome UploadError Bool × Upload St)
      → Tried digests capacity tried
      → Consumed digests client params initial false tail all v.requests_in_queue taken
      → After digests client params initial false v tail all
      → Quiet u v
      → v.algorithm ≢ none
      → (After digests client params initial false taken.1 tail all
          → taken.1.requests_in_queue ≡ v.requests_in_queue - 1
          → Fetch u capacity rest)
      → Fetch u capacity (round digests client params rest tried taken v)
  round_lem u v capacity rest (inr (some b), l) taken m c i q known ih =
      given_lem u v capacity (inr b, l) m i q known
  round_lem u v capacity rest (inl e, l) taken m c i q known ih =
      given_lem u v capacity (inl e, l) m i q known
  round_lem u v capacity rest (inr none, l) (ok true, w) m (s, pos, fewer) i q known ih = ih s fewer
  round_lem u v capacity rest (inr none, l) (ok false, w) m c i q known ih = (tail, c.written)
  round_lem u v capacity rest (inr none, l) (err e, w) m c i q known ih = (c.rest, c.written)
  round_lem u v capacity rest (inr none, l) (panic, w) m c i q known ih = c

  get_buffer_loop_lem :
      (fuel capacity : ℕ) (a : Option ChecksumAlgorithm) (u v : Upload St)
      → v.requests_in_queue ≤ fuel
      → After digests client params initial false v tail all
      → Quiet u v
      → v.algorithm ≢ none
      → length all < 2 ^ 63
      → Fetch u capacity (get_buffer_loop digests client params fuel capacity a v)
  unfolding get_buffer_loop
  get_buffer_loop_lem zero capacity a u v enough i q known small =
      given_lem u v capacity (Buffer.new digests capacity a v.mem_limiter)
        (new_lem digests capacity a v.mem_limiter) i q known
  get_buffer_loop_lem (suc fuel) capacity a u v enough i q known small =
      let tried : (ChecksumHasherError ⊎ Option (UploadBuffer St)) × MemoryLimiter =
        Buffer.try_new digests capacity a v.mem_limiter in
      let w : Upload St = record v { mem_limiter = tried.1 } in
      let taken : Outcome UploadError Bool × Upload St =
        consume_next_response digests client params w in
      let rest : Outcome UploadError (UploadBuffer St) × Upload St =
        get_buffer_loop digests client params fuel capacity a taken.1 in
      let go : Bool → Outcome UploadError (UploadBuffer St) × Upload St = λ k.
        if k
        then given digests client params (Buffer.new digests capacity a v.mem_limiter) v
        else round digests client params rest tried taken v in
      elim (Bool-cases (leb v.requests_in_queue 0)) [
        | inl idle ↦
            subst (λ k. Fetch u capacity (go k)) (sym idle)
              (given_lem u v capacity (Buffer.new digests capacity a v.mem_limiter)
                (new_lem digests capacity a v.mem_limiter) i q known)
        | inr busy ↦
            let pos : 0 < v.requests_in_queue = ground (arith, busy) in
            let moved = consume_next_response-Quiet digests client params w in
            subst (λ k. Fetch u capacity (go k)) (sym busy)
              (round_lem u v capacity rest tried taken
                (try_new_lem digests capacity a v.mem_limiter)
                (consume_next_response_lem w
                  (After-aside digests client params initial false v tail all v.buffer v.offset
                    tried.1 v.schedule i)
                  pos small)
                i q known
                (λ s fewer.
                  get_buffer_loop_lem fuel capacity a u taken.1 (omega (arith, enough, fewer, pos))
                    s
                    (Quiet-trans q (record {
                      buffer = moved.buffer;
                      offset = moved.offset;
                      known = moved.known;
                      fewer = moved.fewer;
                    }))
                    (moved.known known) small))
      ]

  fetch_lem :
      (u : Upload St) (capacity : ℕ)
      (x : Outcome UploadError (Option ChecksumAlgorithm) × Upload St)
      → Known x
      → Quiet u x.1
      → length all < 2 ^ 63
      → Fetch u capacity (fetch digests client params capacity x)
  fetch_lem u capacity (ok a, v) (i, e) q small =
      get_buffer_loop_lem v.requests_in_queue capacity a u v (omega arith) i q
        (λ unknown. some_not_none (sym e ∙ unknown)) small
  fetch_lem u capacity (err e, v) k q small = k
  fetch_lem u capacity (panic, v) k q small = k

  -- A buffer is given, or an error.
  pub get_buffer_lem :
      (u : Upload St) (capacity : ℕ)
      → After digests client params initial false u tail all
      → length all < 2 ^ 63
      → Fetch u capacity (get_buffer digests client params capacity u)
  unfolding get_buffer
  get_buffer_lem u capacity i small =
      let v : Upload St = wait digests client params u.schedule u in
      let (k, q) =
        know_algorithm_lem v (wait_lem digests client params initial u tail all i small) small in
      fetch_lem u capacity (know_algorithm digests client params v) k
        (Quiet-trans (wait-Quiet digests client params u u.schedule) q) small
