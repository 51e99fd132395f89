-- ===== src/Upload/Incremental/Calls.antt =====
-- The calls of a whole upload, and the file they write.
use mountpoint_s.Prelude.{
  ℕ, ◌==◌, List, [], ◌∷◌, ◌++◌, Option, none, some, Outcome, ok, err, panic, length, if◌then◌else◌,
}
use mountpoint_s.Upload.Hasher.{Digests}
use mountpoint_s.Upload.Incremental.{
  UploadError, PutObjectResult, Client, AppendUploadQueueParams, Upload,
}
use mountpoint_s.Upload.Incremental.Request.{write, complete}

-- A file that is written at its end only: what it holds after the writes.
abbrev pub append_all : List ℕ → List (ℕ × List ℕ) → Option (List ℕ)
append_all file [] = some file
append_all file ((offset, bytes) ∷ ws) =
    let rest = append_all (file ++ bytes) ws in if offset == length file then rest else none

abbrev pub contents : List (ℕ × List ℕ) → List ℕ
contents [] = []
contents ((offset, bytes) ∷ ws) = bytes ++ contents ws

module _ {St : Type 0} (digests : Digests St) (client : Client) (params : AppendUploadQueueParams)
    (buffer_size : ℕ) where
  -- The writes, until one gives an error.
  unfoldable pub write_each :
      List (ℕ × List ℕ) → Upload St → Outcome UploadError (Unit {0}) × Upload St
  write_each [] u = (ok tt, u)
  write_each ((offset, bytes) ∷ ws) u =
      let x = write digests client params buffer_size offset bytes u in
      elim x.0 as (λ y. Outcome UploadError (Unit {0}) × Upload St) [
        | ok n ↦ write_each ws x.1
        | err e ↦ (err e, x.1)
        | panic ↦ (panic, x.1)
      ]

  abbrev pub completed :
      Outcome UploadError (Unit {0}) × Upload St
      → Outcome UploadError (Option PutObjectResult) × Upload St
  completed (ok _, u) = complete digests client params buffer_size u
  completed (err e, u) = (err e, u)
  completed (panic, u) = (panic, u)

  unfoldable pub upload :
      List (ℕ × List ℕ) → Upload St → Outcome UploadError (Option PutObjectResult) × Upload St
  upload writes u = completed (write_each writes u)
