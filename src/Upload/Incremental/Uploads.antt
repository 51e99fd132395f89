-- ===== src/Upload/Incremental/Uploads.antt =====
-- A whole upload: the writes, one after another, and `complete`.
use mathlib.Core.Path.{subst}
use mathlib.Core.List.{append-nil}
use mathlib.Core.Option.{some-injective, none-ne-some}
use mountpoint_s.Prelude.{
  ℕ, ◌+◌, ◌<◌, ◌^◌, List, [], ◌++◌, Bool, true, false, Option, none, some, inl, Outcome, ok, err,
  panic, arith, length, length-append, ltb, ◌≡◌, refl, sym, ap, ◌∙◌, if◌then◌else◌,
}
use mountpoint_s.Memory.Limiter.{MemoryLimiter}
use mountpoint_s.Upload.Hasher.{Digests}
use mountpoint_s.Upload.Incremental.{
  UploadError, PutObjectResult, Client, AppendUploadQueueParams, starting, Upload,
}
use mountpoint_s.Upload.Incremental
use mountpoint_s.Upload.Incremental.Request.{complete}
use mountpoint_s.Upload.Incremental.Object.{Object, apply_all}
use mountpoint_s.Upload.Incremental.Joins.{Joined}
use mountpoint_s.Upload.Incremental.Buffered.{Open}
use mountpoint_s.Upload.Incremental.Completes.{complete_lem}
use mountpoint_s.Upload.Incremental.Calls.{append_all, contents, write_each, completed, upload}
use mountpoint_s.Upload.Incremental.Takes.{Takes, write_each_lem}

module _ {St : Type 0} (digests : Digests St) (client : Client) (params : AppendUploadQueueParams)
    (initial : Object) (buffer_size : ℕ) where
  -- How an upload ends.
  abbrev pub Uploaded :
      List (ℕ × List ℕ) → Outcome UploadError (Option PutObjectResult) × Upload St → Type 0
  Uploaded ws (ok result, u) =
      (object : Object) × (apply_all initial u.puts ≡ some object)
      × (append_all initial.content ws ≡ some object.content)
  Uploaded ws (err e, u) =
      (object : Object) × (apply_all initial u.puts ≡ some object)
      × (rest : List ℕ) × (object.content ++ rest ≡ initial.content ++ contents ws)
  Uploaded ws (panic, u) = ⊥

  ended_lem :
      (ws : List (ℕ × List ℕ)) (x : Outcome UploadError (Option PutObjectResult) × Upload St)
      → append_all initial.content ws ≡ some (initial.content ++ contents ws)
      → Joined digests client params initial [] (initial.content ++ contents ws) x
      → Uploaded ws x
  ended_lem ws (ok result, u) file j =
      (j.object, j.applied, file ∙ ap (λ k. some k) (sym j.bytes ∙ append-nil j.object.content))
  ended_lem ws (err e, u) file (rest, w) = (w.object, w.applied, rest, w.bytes)
  ended_lem ws (panic, u) file j = j

  completed_lem :
      (ws : List (ℕ × List ℕ)) (x : Outcome UploadError (Unit {0}) × Upload St)
      → Takes digests client params initial buffer_size ws initial.content x
      → 0 < params.capacity
      → length (initial.content ++ contents ws) < 2 ^ 63
      → Uploaded ws (completed digests client params buffer_size x)
  completed_lem ws (ok _, u) t pos small =
      ended_lem ws (complete digests client params buffer_size u) t.file (
        complete_lem digests client params initial buffer_size u (initial.content ++ contents ws)
          t.now_open pos small)
  completed_lem ws (err e, u) (rest, w) pos small = (w.object, w.applied, rest, w.bytes)
  completed_lem ws (panic, u) t pos small = t

  record Fresh (u : Upload St) : Type 0 where
    room : 0 < params.capacity
    now_open : Open digests client params initial buffer_size u initial.content

  new_lem :
      (u : Upload St) (limiter : MemoryLimiter) (schedule : List ℕ)
      → params.initial_offset ≡ length initial.content
      → params.initial_etag ≡ initial.etag
      → Incremental.new digests client params limiter schedule ≡ some u
      → Fresh u
  unfolding Incremental.new apply_all
  new_lem u limiter schedule at tag is = made (ltb 0 params.capacity) refl is
    where
      fresh : Upload St
      fresh = record {
        buffer = none;
        offset = params.initial_offset;
        buffers = [];
        closed = false;
        events = [];
        algorithm = none;
        last_known_result = none;
        requests_in_queue = 0;
        task = starting;
        puts = [];
        mem_limiter = limiter;
        schedule = schedule;
      }

      made :
          (k : Bool)
          → ltb 0 params.capacity ≡ k
          → (if k then some fresh else none) ≡ some u
          → Fresh u
      made false e is = absurd (none-ne-some _ is)
      made true e is = subst Fresh (some-injective _ _ is) (record {
        room = ground (arith, e);
        now_open = record {
          ready = record {
            after = inl (record {
              written = record {
                object = initial;
                applied = refl;
                bytes = append-nil initial.content;
              };
              is_closed = refl;
              goes = (
                refl,
                refl,
                refl,
                refl,
                ap (λ k. record { content = initial.content; etag = k }) (sym tag),
                at,
              );
            });
            room = omega arith;
          };
          offset = at;
          fits = tt;
        };
      })

  -- A new upload (the channel has a capacity, the buffers have room for at least a byte, and the request knows
  -- the length and the ETag of the object), writes of less than 2^63 bytes with those in the object, one after
  -- another until one gives an error, and `complete`: whatever the client answers and whenever the task steps, the calls come to an end and there is no
  -- panic. If they all give a result, the writes are those of a file that is written at its end, and the
  -- object holds that file; if there is an error, the object is a start of its old content and all bytes of the
  -- writes.
  pub upload_lem :
      (ws : List (ℕ × List ℕ)) (u : Upload St) (limiter : MemoryLimiter) (schedule : List ℕ)
      → Incremental.new digests client params limiter schedule ≡ some u
      → params.initial_offset ≡ length initial.content
      → params.initial_etag ≡ initial.etag
      → 0 < buffer_size
      → length initial.content + length (contents ws) < 2 ^ 63
      → Uploaded ws (upload digests client params buffer_size ws u)
  unfolding upload
  upload_lem ws u limiter schedule is at tag size small =
      let fresh = new_lem u limiter schedule at tag is in
      completed_lem ws (write_each digests client params buffer_size ws u)
        (write_each_lem digests client params initial buffer_size ws initial.content u
          fresh.now_open fresh.room size small)
        fresh.room (omega (arith, length-append initial.content (contents ws), small))
