-- ===== src/Upload/Incremental/Queue.antt =====
-- mountpoint-s3-fs/src/upload/incremental.rs: the operations of `AppendUploadQueue`, on the state `Upload`.
use mountpoint_s.Prelude.{
  ℕ, zero, suc, ◌+◌, ◌-◌, List, [], ◌∷◌, ◌++◌, Bool, true, false, Option, none, some, ◌⊎◌, inl, inr,
  Outcome, ok, err, panic, length, leb, ◌==◌, u64_max, if◌then◌else◌,
}
use mountpoint_s.Memory.Limiter.{MemoryLimiter}
use mountpoint_s.Upload.Hasher.{ChecksumAlgorithm, ChecksumHasherError, Digests}
use mountpoint_s.Upload.Buffer
use mountpoint_s.Upload.Buffer.{UploadBuffer, release}
use mountpoint_s.Upload.Incremental.{
  UploadError, upload_already_terminated, checksum_computation_failed, PutObjectResult, Client,
  AppendUploadQueueParams, AppendUploadEvent, checksum_algorithm, put_response, error, starting,
  looping, finished, Upload, task_step, wait,
}

-- What `recv` gives: an event, or that the channel is closed, or nothing can ever come.
pub data Received : Type 0 where
  event : AppendUploadEvent → Received
  closed : Received
  never : Received

-- `self.requests_in_queue -= 1` on a `usize`, which wraps at 0.
abbrev pub one_less : ℕ → ℕ
one_less n = if n == 0 then u64_max else n - 1

module _ {St : Type 0} (digests : Digests St) (client : Client)
    (params : AppendUploadQueueParams) where
  abbrev pub take_event : Upload St → List AppendUploadEvent → Received × Upload St
  take_event u (e ∷ events) = (event e, record u { events = events })
  take_event u [] = elim u.task [
    | starting ↦ (never, u)
    | looping etag offset ↦ (never, u)
    | finished ↦ (closed, u)
  ]

  abbrev pub recv_from : Upload St → List AppendUploadEvent → Received × Upload St
  recv_from u (e ∷ events) = (event e, record u { events = events })
  recv_from u [] = let u' = task_step digests client params u.task u in take_event u' u'.events

  unfoldable pub recv : Upload St → Received × Upload St
  recv u = recv_from u u.events

  -- On fuel; the loop of the code goes round twice at most.
  unfoldable pub consume : ℕ → Received × Upload St → Outcome UploadError Bool × Upload St
  consume fuel (never, u) = (panic, u)
  consume fuel (closed, u) = (ok false, u)
  consume fuel (event (error e), u) = (err e, u)
  consume fuel (event (put_response result), u) = (
    ok true,
    record u { requests_in_queue = one_less u.requests_in_queue; last_known_result = some result },
  )
  consume zero (event (checksum_algorithm a), u) = (panic, u)
  consume (suc fuel) (event (checksum_algorithm a), u) =
      consume fuel (recv (record u { algorithm = some a }))

  unfoldable pub consume_next_response : Upload St → Outcome UploadError Bool × Upload St
  consume_next_response u = consume 2 (recv u)

  -- `while self.consume_next_response().await? {}`, on fuel: each round takes a response.
  unfoldable pub consume_all : ℕ → Upload St → Outcome UploadError (Unit {0}) × Upload St
  consume_all zero u = (panic, u)
  consume_all (suc fuel) u =
      let (result, u') = consume_next_response u in
      let rest = consume_all fuel u' in
      elim result as (λ x. Outcome UploadError (Unit {0}) × Upload St) [
        | ok more ↦ if more then rest else (ok tt, u')
        | err e ↦ (err e, u')
        | panic ↦ (panic, u')
      ]

  -- What a call gives when the queue is closed: the error, if it has not been given, or that.
  abbrev pub terminated {ℓ} :
      {A : Type ℓ} → Outcome UploadError (Unit {0}) × Upload St → Outcome UploadError A × Upload St
  terminated (ok _, u) = (err upload_already_terminated, u)
  terminated (err e, u) = (err e, u)
  terminated (panic, u) = (panic, u)

  abbrev pub drain_terminated {ℓ} : {A : Type ℓ} → Upload St → Outcome UploadError A × Upload St
  drain_terminated u = terminated (consume_all (suc u.requests_in_queue) u)

  -- The send into the channel, which waits for room in it: the second step is the wait.
  abbrev pub send : UploadBuffer St → Upload St → Outcome UploadError (Unit {0}) × Upload St
  send b u =
      if u.closed
      then drain_terminated (record u { mem_limiter = release b u.mem_limiter })
      else if leb params.capacity (length u.buffers)
      then (panic, u)
      else (
        ok tt,
        record u { buffers = u.buffers ++ (b ∷ []); requests_in_queue = u.requests_in_queue + 1 },
      )

  unfoldable pub push : UploadBuffer St → Upload St → Outcome UploadError (Unit {0}) × Upload St
  push b u =
      let u' = wait digests client params u.schedule u in
      if leb params.capacity (length u'.buffers)
      then send b (task_step digests client params u'.task u')
      else send b u'

  unfoldable pub verify : Upload St → Outcome UploadError (Unit {0}) × Upload St
  verify u =
      let u' = wait digests client params u.schedule u in
      if u'.closed then drain_terminated u' else (ok tt, u')

  unfoldable pub join : Upload St → Outcome UploadError (Option PutObjectResult) × Upload St
  join u =
      let u' = wait digests client params u.schedule u in
      let (result, u'') = consume_all (suc u'.requests_in_queue) (record u' { closed = true }) in
      elim result [
        | err e ↦ (err e, u'')
        | panic ↦ (panic, u'')
        | ok _ ↦
            if u'.closed
            then (err upload_already_terminated, u'')
            else (ok u''.last_known_result, record u'' { last_known_result = none })
      ]

  -- The algorithm, which is the first event if it is not known.
  abbrev pub algorithm_of :
      Received × Upload St → Outcome UploadError (Option ChecksumAlgorithm) × Upload St
  algorithm_of (event (checksum_algorithm a), u) = (ok a, record u { algorithm = some a })
  algorithm_of (event (put_response r), u) = (panic, u)
  algorithm_of (event (error e), u) = (err e, u)
  algorithm_of (closed, u) = (err upload_already_terminated, u)
  algorithm_of (never, u) = (panic, u)

  unfoldable pub know_algorithm :
      Upload St → Outcome UploadError (Option ChecksumAlgorithm) × Upload St
  know_algorithm u = elim u.algorithm [ some a ↦ (ok a, u) | none ↦ algorithm_of (recv u) ]

  abbrev pub given :
      (ChecksumHasherError ⊎ UploadBuffer St) × MemoryLimiter
      → Upload St
      → Outcome UploadError (UploadBuffer St) × Upload St
  given (inr b, l) u = (ok b, record u { mem_limiter = l })
  given (inl e, l) u = (err (checksum_computation_failed e), record u { mem_limiter = l })

  -- A round of the loop of `get_buffer` in which responses are missing: `tried` is what `try_new` gives,
  -- `taken` what `consume_next_response` gives after it, and `rest` the rounds after this one.
  abbrev pub round :
      Outcome UploadError (UploadBuffer St) × Upload St
      → (ChecksumHasherError ⊎ Option (UploadBuffer St)) × MemoryLimiter
      → Outcome UploadError Bool × Upload St
      → Upload St
      → Outcome UploadError (UploadBuffer St) × Upload St
  round rest (inr (some b), l) taken u = (ok b, record u { mem_limiter = l })
  round rest (inl e, l) taken u =
      (err (checksum_computation_failed e), record u { mem_limiter = l })
  round rest (inr none, l) (ok true, u') u = rest
  round rest (inr none, l) (ok false, u') u = (err upload_already_terminated, u')
  round rest (inr none, l) (err e, u') u = (err e, u')
  round rest (inr none, l) (panic, u') u = (panic, u')

  -- The loop of `get_buffer`, on fuel: each round but the last takes a response.
  unfoldable pub get_buffer_loop :
      ℕ
      → ℕ
      → Option ChecksumAlgorithm
      → Upload St
      → Outcome UploadError (UploadBuffer St) × Upload St
  get_buffer_loop zero capacity a u = given (Buffer.new digests capacity a u.mem_limiter) u
  get_buffer_loop (suc fuel) capacity a u =
      let tried = Buffer.try_new digests capacity a u.mem_limiter in
      let taken = consume_next_response (record u { mem_limiter = tried.1 }) in
      let rest = get_buffer_loop fuel capacity a taken.1 in
      if leb u.requests_in_queue 0
      then given (Buffer.new digests capacity a u.mem_limiter) u
      else round rest tried taken u

  -- `get_buffer`, with the algorithm that `know_algorithm` gives.
  abbrev pub fetch :
      ℕ
      → Outcome UploadError (Option ChecksumAlgorithm) × Upload St
      → Outcome UploadError (UploadBuffer St) × Upload St
  fetch capacity (ok algorithm, u) = get_buffer_loop u.requests_in_queue capacity algorithm u
  fetch capacity (err e, u) = (err e, u)
  fetch capacity (panic, u) = (panic, u)

  unfoldable pub get_buffer : ℕ → Upload St → Outcome UploadError (UploadBuffer St) × Upload St
  get_buffer capacity u = fetch capacity (know_algorithm (wait digests client params u.schedule u))
