-- ===== src/Upload/Incremental/Request.antt =====
-- mountpoint-s3-fs/src/upload/incremental.rs: the operations of `AppendUploadRequest`.
use mountpoint_s.Prelude.{
  ℕ, zero, suc, ◌-◌, List, [], ◌∷◌, not, Option, none, some, ◌⊎◌, inl, inr, Outcome, ok, err, panic,
  length, ◌==◌, if◌then◌else◌, ◌+w◌, ◌-w◌,
}
use mountpoint_s.Upload.Hasher.{ChecksumHasherError, Digests}
use mountpoint_s.Upload.Buffer
use mountpoint_s.Upload.Buffer.{UploadBuffer}
use mountpoint_s.Upload.Incremental.{
  UploadError, out_of_order_write, checksum_computation_failed, PutObjectResult, Client,
  AppendUploadQueueParams, Upload,
}
use mountpoint_s.Upload.Incremental.Queue.{push, verify, join, get_buffer}

module _ {St : Type 0} (digests : Digests St) (client : Client) (params : AppendUploadQueueParams)
    (buffer_size : ℕ) where
  -- The buffer to write to.
  unfoldable pub current_buffer :
      Option (UploadBuffer St) → Upload St → Outcome UploadError (UploadBuffer St) × Upload St
  current_buffer (some b) u = (ok b, u)
  current_buffer none u = get_buffer digests client params buffer_size u

  -- The round after the buffer has taken a part of the slice; `rest` is the slice that is left.
  unfoldable pub flush : UploadBuffer St → Upload St → Outcome UploadError (Unit {0}) × Upload St
  flush b u =
      if Buffer.is_full b
      then push digests client params b (record u { buffer = none })
      else (ok tt, record u { buffer = some b })

  abbrev pub flushed :
      List ℕ → Outcome UploadError (Unit {0}) × Upload St → Outcome UploadError (List ℕ) × Upload St
  flushed rest (ok _, u) = (ok rest, u)
  flushed rest (err e, u) = (err e, u)
  flushed rest (panic, u) = (panic, u)

  -- The round, with what `Buffer.write` gives for the slice and the buffer `b`.
  abbrev pub stored :
      List ℕ
      → UploadBuffer St
      → ChecksumHasherError ⊎ (UploadBuffer St × List ℕ)
      → Upload St
      → Outcome UploadError (List ℕ) × Upload St
  stored slice b (inl e) u =
      (err (checksum_computation_failed e), record u { buffer = some (Buffer.appended b slice) })
  stored slice b (inr (b', rest)) u =
      flushed rest (flush b' (record u { offset = u.offset +w (length slice - length rest) }))

  -- A round of the loop of `write`: the rest of the slice, if there is no error.
  unfoldable pub write_round :
      List ℕ
      → Outcome UploadError (UploadBuffer St) × Upload St
      → Outcome UploadError (List ℕ) × Upload St
  write_round slice (err e, u) = (err e, u)
  write_round slice (panic, u) = (panic, u)
  write_round slice (ok b, u) = stored slice b (Buffer.write digests b slice) u

  -- The loop, on fuel: each round takes a byte at least.
  unfoldable pub write_loop : ℕ → List ℕ → Upload St → Outcome UploadError (Unit {0}) × Upload St
  write_loop fuel [] u = (ok tt, u)
  write_loop zero (b ∷ bs) u = (panic, u)
  write_loop (suc fuel) (b ∷ bs) u =
      let (result, u') = write_round (b ∷ bs) (current_buffer u.buffer u) in
      elim result as (λ x. Outcome UploadError (Unit {0}) × Upload St) [
        | ok rest ↦ write_loop fuel rest u'
        | err e ↦ (err e, u')
        | panic ↦ (panic, u')
      ]

  -- The number of bytes that `write` gives.
  abbrev pub counted :
      ℕ → Outcome UploadError (Unit {0}) × Upload St → Outcome UploadError ℕ × Upload St
  counted offset (ok _, u) = (ok (u.offset -w offset), u)
  counted offset (err e, u) = (err e, u)
  counted offset (panic, u) = (panic, u)

  -- `write`, after the call of `verify`.
  abbrev pub write_verified :
      ℕ → List ℕ → Outcome UploadError (Unit {0}) × Upload St → Outcome UploadError ℕ × Upload St
  write_verified offset bytes (err e, u) = (err e, u)
  write_verified offset bytes (panic, u) = (panic, u)
  write_verified offset bytes (ok _, u) =
      if not (offset == u.offset)
      then (err (out_of_order_write offset u.offset), u)
      else counted offset (write_loop (length bytes) bytes u)

  unfoldable pub write : ℕ → List ℕ → Upload St → Outcome UploadError ℕ × Upload St
  write offset bytes u = write_verified offset bytes (verify digests client params u)

  -- The push of the empty buffer.
  abbrev pub push_empty :
      Outcome UploadError (UploadBuffer St) × Upload St → Outcome UploadError (Unit {0}) × Upload St
  push_empty (ok b, u) = push digests client params b u
  push_empty (err e, u) = (err e, u)
  push_empty (panic, u) = (panic, u)

  -- What is pushed before the end: the rest, or an empty buffer for an empty object.
  unfoldable pub push_last :
      Option (UploadBuffer St) → Upload St → Outcome UploadError (Unit {0}) × Upload St
  push_last (some b) u = push digests client params b (record u { buffer = none })
  push_last none u =
      if u.offset == 0 then push_empty (get_buffer digests client params 0 u) else (ok tt, u)

  abbrev pub complete_pushed :
      Outcome UploadError (Unit {0}) × Upload St
      → Outcome UploadError (Option PutObjectResult) × Upload St
  complete_pushed (ok _, u) = join digests client params u
  complete_pushed (err e, u) = (err e, u)
  complete_pushed (panic, u) = (panic, u)

  unfoldable pub complete : Upload St → Outcome UploadError (Option PutObjectResult) × Upload St
  complete u = complete_pushed (push_last u.buffer u)
