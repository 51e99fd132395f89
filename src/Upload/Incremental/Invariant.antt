-- ===== src/Upload/Incremental/Invariant.antt =====
-- What holds of an upload between its calls.
use mathlib.Core.List.{append_assoc}
use mountpoint_s.Prelude.{
  ap, sym, ◌∙◌, ℕ, ◌+◌, List, [], ◌∷◌, ◌++◌, Bool, true, none, some, ◌⊎◌, length, ◌≡◌,
}
use mountpoint_s.Upload.Hasher.{Digests}
use mountpoint_s.Upload.Buffer.{UploadBuffer}
use mountpoint_s.Upload.Incremental.{
  Put, PutObjectResult, Client, AppendUploadQueueParams, Task, starting, looping, finished, Upload,
}
use mountpoint_s.Upload.Incremental.Object.{Object, apply_all}
use mountpoint_s.Upload.Incremental.Events.{Pending, PendingFailing}

module _ {St : Type 0} where
  -- The bytes in the channel.
  abbrev pub joined : List (UploadBuffer St) → List ℕ
  joined [] = []
  joined (b ∷ bs) = b.bytes ++ joined bs

module _ (initial : Object) where
  -- The object is as the requests have left it; `more` is what has not been sent of `all`.
  pub record Written (puts : List (Put × PutObjectResult)) (more all : List ℕ) : Type 0 where
    pub object : Object
    pub applied : apply_all initial puts ≡ some object
    pub bytes : object.content ++ more ≡ all

  pub Written-extend :
      {puts : List (Put × PutObjectResult)} {rest all : List ℕ} (more : List ℕ)
      → Written puts rest all
      → Written puts (rest ++ more) (all ++ more)
  Written-extend {puts} {rest} {all} more w = record {
    object = w.object;
    applied = w.applied;
    bytes = sym (append_assoc w.object.content rest more) ∙ ap (λ k. k ++ more) w.bytes;
  }

module _ {St : Type 0} (digests : Digests St) (client : Client) (params : AppendUploadQueueParams)
    (initial : Object) where
  -- The task goes on: in its loop it has the ETag and the end of the object.
  abbrev pub Goes : Object → Upload St → Task → Type 0
  Goes o u starting =
      (u.events ≡ [])
      × (u.algorithm ≡ none)
      × (u.buffers ≡ [])
      × (u.requests_in_queue ≡ 0)
      × (o ≡ record { content = o.content; etag = params.initial_etag })
      × (params.initial_offset ≡ length o.content)
  Goes o u (looping etag offset) =
      (o ≡ record { content = o.content; etag = etag })
      × (offset ≡ length o.content)
      × (n : ℕ) × (u.requests_in_queue ≡ n + length u.buffers)
      × Pending u.algorithm u.events n
  Goes o u finished = ⊥

  -- An upload with a task that runs; `tail` are the bytes that are not in the channel yet.
  pub record Runs (closed : Bool) (u : Upload St) (tail all : List ℕ) : Type 0 where
    pub written : Written initial u.puts (joined u.buffers ++ tail) all
    pub is_closed : u.closed ≡ closed
    pub goes : Goes written.object u u.task

  -- The task has ended since the channel was closed: all of it is in the object.
  pub record Ended (u : Upload St) (tail all : List ℕ) : Type 0 where
    pub written : Written initial u.puts tail all
    pub is_closed : u.closed ≡ true
    pub task : u.task ≡ finished
    pub buffers : u.buffers ≡ []
    pub pending : Pending u.algorithm u.events u.requests_in_queue

  pub record Failed (unread : Bool) (u : Upload St) (all : List ℕ) : Type 0 where
    pub rest : List ℕ
    pub written : Written initial u.puts rest all
    pub is_closed : u.closed ≡ true
    pub task : u.task ≡ finished
    pub buffers : u.buffers ≡ []
    pub failing : PendingFailing unread u.algorithm u.events u.requests_in_queue

  -- How an upload may stand after steps of the task: it runs, or it has ended after the channel was closed,
  -- or it has failed.
  abbrev pub After : Bool → Upload St → List ℕ → List ℕ → Type 0
  After closed u tail all =
      Runs closed u tail all ⊎ (((closed ≡ true) × Ended u tail all) ⊎ Failed true u all)
