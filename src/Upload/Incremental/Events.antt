-- ===== src/Upload/Incremental/Events.antt =====
-- The events that the task has sent, and that are not read: what they may be.
use mathlib.Core.Path.{subst}
use mountpoint_s.Prelude.{
  ℕ, ◌+◌, ◌-◌, ◌≤◌, ◌<◌, List, [], ◌∷◌, ◌++◌, Bool, true, false, Option, none, some, arith, ◌≡◌,
}
use mountpoint_s.Upload.Hasher.{ChecksumAlgorithm}
use mountpoint_s.Upload.Incremental.{
  UploadError, PutObjectResult, AppendUploadEvent, checksum_algorithm, put_response, error,
}

-- The events are the responses of `n` requests.
abbrev pub Responses : List AppendUploadEvent → ℕ → Type 0
Responses [] n = n ≡ 0
Responses (put_response r ∷ events) n = (0 < n) × Responses events (n - 1)
Responses (checksum_algorithm a ∷ events) n = ⊥
Responses (error e ∷ events) n = ⊥

-- Before them there may be the algorithm, if it is not known.
abbrev pub Pending : Option (Option ChecksumAlgorithm) → List AppendUploadEvent → ℕ → Type 0
Pending (some a) events n = Responses events n
Pending none [] n = ⊥
Pending none (checksum_algorithm a ∷ events) n = Responses events n
Pending none (put_response r ∷ events) n = ⊥
Pending none (error e ∷ events) n = ⊥

-- The events of a task that has failed: at most `n` responses, and then the error, which is still there
-- if `unread`.
abbrev pub Failing : Bool → List AppendUploadEvent → ℕ → Type 0
Failing unread [] n = unread ≡ false
Failing unread (put_response r ∷ events) n = (0 < n) × Failing unread events (n - 1)
Failing unread (checksum_algorithm a ∷ events) n = ⊥
Failing unread (error e ∷ []) n = Unit
Failing unread (error e ∷ (f ∷ events)) n = ⊥

abbrev pub PendingFailing :
    Bool → Option (Option ChecksumAlgorithm) → List AppendUploadEvent → ℕ → Type 0
PendingFailing unread (some a) events n = Failing unread events n
PendingFailing unread none [] n = Failing unread [] n
PendingFailing unread none (checksum_algorithm a ∷ events) n = Failing unread events n
PendingFailing unread none (put_response r ∷ events) n = ⊥
PendingFailing unread none (error e ∷ events) n = Failing unread (error e ∷ events) n

-- The events with one more response.
pub Responses-append :
    (events : List AppendUploadEvent) (n : ℕ) (r : PutObjectResult)
    → Responses events n
    → Responses (events ++ (put_response r ∷ [])) (n + 1)
Responses-append [] n r h = (omega (arith, h), omega (arith, h))
Responses-append (put_response q ∷ events) n r (pos, h) = (
  omega arith,
  subst (Responses (events ++ (put_response r ∷ []))) (omega arith)
      (Responses-append events (n - 1) r h),
)
Responses-append (checksum_algorithm a ∷ events) n r h = absurd h
Responses-append (error e ∷ events) n r h = absurd h

pub Pending-append :
    (a : Option (Option ChecksumAlgorithm)) (events : List AppendUploadEvent) (n : ℕ)
    (r : PutObjectResult)
    → Pending a events n
    → Pending a (events ++ (put_response r ∷ [])) (n + 1)
Pending-append (some a) events n r h = Responses-append events n r h
Pending-append none [] n r h = absurd h
Pending-append none (checksum_algorithm a ∷ events) n r h = Responses-append events n r h
Pending-append none (put_response q ∷ events) n r h = absurd h
Pending-append none (error e ∷ events) n r h = absurd h

-- The events of a task that runs, with the error that ends it.
pub Responses-fail :
    (events : List AppendUploadEvent) (n m : ℕ) (e : UploadError)
    → Responses events n
    → n ≤ m
    → Failing true (events ++ (error e ∷ [])) m
Responses-fail [] n m e h le = tt
Responses-fail (put_response q ∷ events) n m e (pos, h) le =
    (omega arith, Responses-fail events (n - 1) (m - 1) e h (omega arith))
Responses-fail (checksum_algorithm a ∷ events) n m e h le = absurd h
Responses-fail (error f ∷ events) n m e h le = absurd h

pub Pending-fail :
    (a : Option (Option ChecksumAlgorithm)) (events : List AppendUploadEvent) (n m : ℕ)
    (e : UploadError)
    → Pending a events n
    → n ≤ m
    → PendingFailing true a (events ++ (error e ∷ [])) m
Pending-fail (some a) events n m e h le = Responses-fail events n m e h le
Pending-fail none [] n m e h le = absurd h
Pending-fail none (checksum_algorithm a ∷ events) n m e h le = Responses-fail events n m e h le
Pending-fail none (put_response q ∷ events) n m e h le = absurd h
Pending-fail none (error f ∷ events) n m e h le = absurd h
