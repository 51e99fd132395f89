-- ===== src/Upload/Incremental/Tests.antt =====
-- The incremental upload at concrete inputs.
use mountpoint_s.Prelude.{ok, ℕ, refl, arith, false, List, [], ◌∷◌, ◌≡◌, none, some, inl, inr}
use mountpoint_s.Prefetch.Sample.{shared}
use mountpoint_s.Upload.Hasher.{Digests, crc32c, hasher}
use mountpoint_s.Upload.Incremental.{
  Client, starting, looping, steps, AppendUploadQueueParams, Upload,
}
use mountpoint_s.Upload.Incremental.Queue.{join}
use mountpoint_s.Upload.Incremental.Joins.{Joined, join_lem}
use mountpoint_s.Upload.Incremental
use mountpoint_s.Upload.Incremental.Calls
use mountpoint_s.Upload.Incremental.Request
use mountpoint_s.Upload.Incremental.Queue
use mountpoint_s.Upload.Buffer
use mountpoint_s.Upload.Hasher
use mountpoint_s.Memory.Limiter
use mountpoint_s.Memory.Stats
use mountpoint_s.Upload.Incremental.Uploads.{Uploaded, upload_lem}
use mountpoint_s.Upload.Incremental.Object.{Object, apply_all}

-- A digest whose sum is always the same.
abbrev digests : Digests ℕ
digests = record { start = λ a. some 0; take_in = λ a n bytes. some n; finish = λ a n. some "sum" }

abbrev client : Client
client = record {
  head_object = inr (record { etag = "e"; algorithms = crc32c ∷ [] });
  put_object_single = λ puts put. inr (record { etag = "f" });
}

abbrev params : AppendUploadQueueParams
params = record {
  initial_offset = 2;
  initial_etag = some "e";
  server_side_encryption = inr (none, none);
  default_checksum_algorithm = none;
  capacity = 1;
}

-- An upload with two buffers in the channel.
abbrev upload : Upload ℕ
upload = record {
  buffer = none;
  offset = 7;
  buffers =
      record { bytes = 1 ∷ 2 ∷ 3 ∷ []; capacity = 3; hasher = hasher crc32c 3 }
      ∷ record { bytes = 4 ∷ 5 ∷ []; capacity = 3; hasher = hasher crc32c 2 }
      ∷ [];
  closed = false;
  events = [];
  algorithm = some (some crc32c);
  last_known_result = none;
  requests_in_queue = 2;
  task = looping (some "e") 2;
  puts = [];
  mem_limiter = shared.mem_limiter;
  schedule = [];
}

abbrev object : Object
object = record { content = 8 ∷ 9 ∷ []; etag = some "e" }

abbrev all : List ℕ
all = 8 ∷ 9 ∷ 1 ∷ 2 ∷ 3 ∷ 4 ∷ 5 ∷ 6 ∷ 7 ∷ []

join_lem_example :
    Joined digests client params object (6 ∷ 7 ∷ []) all (join digests client params upload)
unfolding apply_all
join_lem_example =
    join_lem digests client params object (6 ∷ 7 ∷ []) all upload
      (inl (record {
        written = record { object = object; applied = refl; bytes = refl };
        is_closed = refl;
        goes = (refl, refl, 0, refl, refl);
      }))
      (omega arith)

-- A new upload, whose task takes no step unless a call waits for it.
abbrev new_upload : Upload ℕ
new_upload = record {
  buffer = none;
  offset = 2;
  buffers = [];
  closed = false;
  events = [];
  algorithm = none;
  last_known_result = none;
  requests_in_queue = 0;
  task = starting;
  puts = [];
  mem_limiter = shared.mem_limiter;
  schedule = [];
}

abbrev writes : List (ℕ × List ℕ)
writes = (2, 1 ∷ 2 ∷ 3 ∷ 4 ∷ 5 ∷ 6 ∷ []) ∷ (8, 7 ∷ []) ∷ []

upload_lem_example :
    Uploaded digests client params object 3 writes
      (Calls.upload digests client params 3 writes new_upload)
unfolding Incremental.new
upload_lem_example =
    upload_lem digests client params object 3 writes new_upload shared.mem_limiter [] refl refl refl
      (omega arith) (omega arith)

upload_done :
    (Calls.upload digests client params 3 writes new_upload).0 ≡ ok (some (record { etag = "f" }))
unfolding Calls.upload Calls.write_each Request.write Request.write_loop Request.write_round
    Request.current_buffer Request.complete Request.flush Request.push_last Queue.verify
    Queue.get_buffer Queue.know_algorithm Queue.recv Queue.get_buffer_loop Queue.consume
    Queue.consume_all Queue.consume_next_response Queue.join Queue.push Incremental.wait
    Incremental.task_step Incremental.get_checksum_algorithm Incremental.steps Incremental.append
    Buffer.new Buffer.write Buffer.freeze Buffer.try_new Hasher.new Hasher.update Hasher.finalize
    Limiter.pool_mem_reserved Limiter.release Limiter.reserve Limiter.total_usage
    Limiter.try_reserve Stats.reserved_bytes
upload_done = refl
