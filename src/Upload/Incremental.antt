-- ===== src/Upload/Incremental.antt =====
-- mountpoint-s3-fs/src/upload/incremental.rs: `AppendUploadRequest`, its `AppendUploadQueue` and the task that
-- sends the buffers to S3.
--
-- All of it is the state `Upload`: the request, the two channels, and the task, which has `puts`, the requests
-- that the client has answered. `schedule` says how many steps the task takes before each call that may
-- wait; where the caller has to wait, the task takes a step more. A wait for something that can never
-- come is a panic. The client, and what `ServerSideEncryption::into_inner` gives, are parameters.
-- Traces are left out.
pub mod Queue
pub mod Request
pub mod Object
pub mod Events
pub mod Invariant
pub mod Sent
pub mod Steps
pub mod Quiet
pub mod Waits
pub mod Pops
pub mod Receives
pub mod Consumes
pub mod Joins
pub mod Pushes
pub mod Fetches
pub mod Gets
pub mod Buffered
pub mod Rounds
pub mod Writes
pub mod Completes
pub mod Calls
pub mod Takes
pub mod Uploads
mod Tests
use mountpoint_s.Prelude.{
  ℕ, zero, suc, ◌+◌, ◌-◌, List, [], ◌∷◌, ◌++◌, Bool, true, false, ◌&&◌, not, Option, none, some,
  ◌⊎◌, inl, inr, length, leb, ltb, ◌==◌, if◌then◌else◌, ◌+w◌, ◌-w◌, String, str_eq,
}
use mountpoint_s.Memory.Limiter.{MemoryLimiter}
use mountpoint_s.Upload.Hasher.{ChecksumAlgorithm, ChecksumHasherError, Digests}
use mountpoint_s.Upload.Buffer
use mountpoint_s.Upload.Buffer.{UploadBuffer, release}

pub data UploadError : Type 0 where
  out_of_order_write : ℕ → ℕ → UploadError
  put_request_failed : UploadError
  upload_already_terminated : UploadError
  sse_corrupted_error : UploadError
  checksum_computation_failed : ChecksumHasherError → UploadError
  head_object_failed : UploadError
  object_too_big : ℕ → UploadError

-- `PutObjectSingleParams`: an append has its offset, and the ETag that the object must have.
pub record Put : Type 0 where
  pub write_offset : Option ℕ
  pub if_match : Option String
  pub checksum : Option (ChecksumAlgorithm × String)
  pub sse_type : Option String
  pub key_id : Option String
  pub bytes : List ℕ

pub record PutObjectResult : Type 0 where
  pub etag : String

pub record HeadObjectResult : Type 0 where
  pub etag : String
  pub algorithms : List ChecksumAlgorithm

-- The client for the object; its answer to a put may depend on those before.
pub record Client : Type 0 where
  pub head_object : UploadError ⊎ HeadObjectResult
  pub put_object_single : List (Put × PutObjectResult) → Put → UploadError ⊎ PutObjectResult

pub record AppendUploadQueueParams : Type 0 where
  pub initial_offset : ℕ
  pub initial_etag : Option String
  pub server_side_encryption : UploadError ⊎ (Option String × Option String)
  pub default_checksum_algorithm : Option ChecksumAlgorithm
  pub capacity : ℕ

pub data AppendUploadEvent : Type 0 where
  checksum_algorithm : Option ChecksumAlgorithm → AppendUploadEvent
  put_response : PutObjectResult → AppendUploadEvent
  error : UploadError → AppendUploadEvent

-- Where the task is: before its loop, in it, with the ETag and the offset, or at its end.
pub data Task : Type 0 where
  starting : Task
  looping : Option String → ℕ → Task
  finished : Task

pub record Upload (St : Type 0) : Type 0 where
  pub buffer : Option (UploadBuffer St)
  pub offset : ℕ
  pub buffers : List (UploadBuffer St)
  pub closed : Bool
  pub events : List AppendUploadEvent
  pub algorithm : Option (Option ChecksumAlgorithm)
  pub last_known_result : Option PutObjectResult
  pub requests_in_queue : ℕ
  pub task : Task
  pub puts : List (Put × PutObjectResult)
  pub mem_limiter : MemoryLimiter
  pub schedule : List ℕ

abbrev etag_is : Option String → String → Bool
etag_is none etag = false
etag_is (some expected) etag = str_eq etag expected

abbrev first_of : List ChecksumAlgorithm → Option ChecksumAlgorithm
first_of [] = none
first_of (a ∷ others) = some a

-- The buffers that are dropped release their memory.
abbrev release_all : {St : Type 0} → List (UploadBuffer St) → MemoryLimiter → MemoryLimiter
release_all [] limiter = limiter
release_all (b ∷ bs) limiter = release_all bs (release b limiter)

unfoldable pub get_checksum_algorithm :
    Client → AppendUploadQueueParams → UploadError ⊎ (Option ChecksumAlgorithm)
get_checksum_algorithm client params =
    if params.initial_offset == 0
    then inr params.default_checksum_algorithm
    else elim client.head_object [
      | inr head ↦
          if etag_is params.initial_etag head.etag
          then inr (first_of head.algorithms)
          else inl put_request_failed
      | inl e ↦ inl e
    ]

module _ {St : Type 0} (digests : Digests St) (client : Client)
    (params : AppendUploadQueueParams) where
  unfoldable pub new : MemoryLimiter → List ℕ → Option (Upload St)
  new mem_limiter schedule =
      if ltb 0 params.capacity
      then some (record {
        buffer = none;
        offset = params.initial_offset;
        buffers = [];
        closed = false;
        events = [];
        algorithm = none;
        last_known_result = none;
        requests_in_queue = 0;
        task = starting;
        puts = [];
        mem_limiter = mem_limiter;
        schedule = schedule;
      })
      else none

  -- The request for a buffer.
  abbrev pub put_of :
      ℕ
      → Option String
      → List ℕ
      → Option (ChecksumAlgorithm × String)
      → Option String × Option String
      → Put
  put_of offset etag bytes checksum (sse_type, key_id) = record {
    write_offset = if offset == 0 then none else some offset;
    if_match = if offset == 0 then none else etag;
    checksum = checksum;
    sse_type = sse_type;
    key_id = key_id;
    bytes = bytes;
  }

  abbrev pub put_answered :
      Put → UploadError ⊎ PutObjectResult → UploadError ⊎ (Put × PutObjectResult)
  put_answered put (inl e) = inl e
  put_answered put (inr result) = inr (put, result)

  abbrev pub put_encrypted :
      List (Put × PutObjectResult)
      → ℕ
      → Option String
      → List ℕ
      → Option (ChecksumAlgorithm × String)
      → UploadError ⊎ (Option String × Option String)
      → UploadError ⊎ (Put × PutObjectResult)
  put_encrypted puts offset etag bytes checksum (inl e) = inl e
  put_encrypted puts offset etag bytes checksum (inr sse) =
      let put = put_of offset etag bytes checksum sse in
      put_answered put (client.put_object_single puts put)

  abbrev pub put_frozen :
      List (Put × PutObjectResult)
      → ℕ
      → Option String
      → ChecksumHasherError ⊎ (List ℕ × Option (ChecksumAlgorithm × String))
      → UploadError ⊎ (Put × PutObjectResult)
  put_frozen puts offset etag (inl e) = inl (checksum_computation_failed e)
  put_frozen puts offset etag (inr (bytes, checksum)) =
      put_encrypted puts offset etag bytes checksum params.server_side_encryption

  -- The request that the client has answered, and its answer.
  unfoldable pub append :
      List (Put × PutObjectResult)
      → UploadBuffer St
      → ℕ
      → Option String
      → UploadError ⊎ (Put × PutObjectResult)
  append puts buffer offset etag = put_frozen puts offset etag (Buffer.freeze digests buffer)

  -- The task ends with an error: the channel of buffers is closed, and those in it are dropped.
  abbrev pub fail : UploadError → Upload St → Upload St
  fail e u = record u {
    buffers = [];
    closed = true;
    events = u.events ++ (error e ∷ []);
    task = finished;
    mem_limiter = release_all u.buffers u.mem_limiter;
  }

  abbrev pub started : UploadError ⊎ (Option ChecksumAlgorithm) → Upload St → Upload St
  started (inr algorithm) u = record u {
    events = u.events ++ (checksum_algorithm algorithm ∷ []);
    task = looping params.initial_etag params.initial_offset;
  }
  started (inl e) u = fail e u

  -- What the task does with the answer for the first buffer; the others are in `u`.
  abbrev pub answered :
      ℕ → UploadBuffer St → UploadError ⊎ (Put × PutObjectResult) → Upload St → Upload St
  answered offset b (inr (put, result)) u = record u {
    events = u.events ++ (put_response result ∷ []);
    task = looping (some result.etag) (offset +w Buffer.len b);
    puts = u.puts ++ ((put, result) ∷ []);
    mem_limiter = release b u.mem_limiter;
  }
  answered offset b (inl e) u = fail e (record u { mem_limiter = release b u.mem_limiter })

  abbrev pub loop_step : Option String → ℕ → List (UploadBuffer St) → Upload St → Upload St
  loop_step etag offset [] u = if u.closed then record u { task = finished } else u
  loop_step etag offset (b ∷ bs) u =
      answered offset b (append u.puts b offset etag) (record u { buffers = bs })

  -- A step of the task; there is none while it waits for a buffer.
  unfoldable pub task_step : Task → Upload St → Upload St
  task_step starting u = started (get_checksum_algorithm client params) u
  task_step (looping etag offset) u = loop_step etag offset u.buffers u
  task_step finished u = u

  unfoldable pub steps : ℕ → Upload St → Upload St
  steps zero u = u
  steps (suc n) u = steps n (task_step u.task u)

  -- The steps that are scheduled before a call that may wait.
  unfoldable pub wait : List ℕ → Upload St → Upload St
  wait [] u = u
  wait (n ∷ schedule) u = steps n (record u { schedule = schedule })
