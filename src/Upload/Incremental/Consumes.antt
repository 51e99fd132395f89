-- ===== src/Upload/Incremental/Consumes.antt =====
-- `consume_next_response`, which takes the response of one request.
use mathlib.Core.Path.{subst}
use mountpoint_s.Prelude.{
  ℕ, ◌-◌, ◌<◌, ◌^◌, List, Bool, true, false, Option, some, ◌⊎◌, inl, inr, ◌∙◌, Outcome, ok, err,
  panic, arith, length, ◌≡◌, refl, sym,
}
use mathlib.Core.Option.{none-ne-some}
use mathlib.Core.Bool.{true≢false}
use mountpoint_s.Upload.Hasher.{ChecksumAlgorithm, Digests}
use mountpoint_s.Upload.Incremental.{
  UploadError, Client, AppendUploadQueueParams, checksum_algorithm, put_response, error, Upload,
}
use mountpoint_s.Upload.Incremental.Queue.{Received, event, closed, never, recv_from, recv, consume}
use mountpoint_s.Upload.Incremental.Pops.{one_less-pos, Stands, Gives}
use mountpoint_s.Upload.Incremental.Receives.{recv_from_lem}
use mountpoint_s.Upload.Incremental.Object.{Object}
use mountpoint_s.Upload.Incremental.Invariant.{Ended, Failed}

module _ {St : Type 0} (digests : Digests St) (client : Client) (params : AppendUploadQueueParams)
    (initial : Object) (shut : Bool) (tail all : List ℕ) where
  -- What a call of `consume_next_response` gives, with `n` requests that have no response yet.
  abbrev pub Consumed : ℕ → Outcome UploadError Bool × Upload St → Type 0
  Consumed n (ok true, u) =
      Stands digests client params initial shut tail all u × (0 < n) × (u.requests_in_queue ≡ n - 1)
  Consumed n (ok false, u) = Ended digests client params initial u tail all
  Consumed n (err e, u) = Failed digests client params initial false u all
  Consumed n (panic, u) = ⊥

  not_idle : (n : ℕ) → (shut ≡ true) ⊎ (0 < n) → shut ≡ false → n ≡ 0 → ⊥
  not_idle n (inl c) unclosed e = true≢false (sym c ∙ unclosed)
  not_idle n (inr pos) unclosed e = omega (arith, pos, e)

  consume_known :
      (fuel n : ℕ) (a : Option ChecksumAlgorithm) (x : Received × Upload St)
      → (shut ≡ true) ⊎ (0 < n)
      → Gives digests client params initial shut tail all (some a) n x
      → Consumed n (consume digests client params fuel x)
  unfolding consume
  consume_known fuel n a (event (put_response r), u) live (known, pos, queued, s) = (
    s,
    pos,
    one_less-pos u.requests_in_queue (omega (arith, queued, pos)) ∙ omega (arith, queued),
  )
  consume_known fuel n a (event (checksum_algorithm x), u) live (unknown, queued, s) =
      absurd (none-ne-some _ (sym unknown))
  consume_known fuel n a (event (error e), u) live g = g
  consume_known fuel n a (closed, u) live g = g
  consume_known fuel n a (never, u) live g = absurd (not_idle n live g.0 g.1)

  -- A call does not wait for ever, if the channel is closed or a response is missing.
  pub consume_any :
      (n : ℕ) (a : Option (Option ChecksumAlgorithm)) (x : Received × Upload St)
      → (shut ≡ true) ⊎ (0 < n)
      → length all < 2 ^ 63
      → Gives digests client params initial shut tail all a n x
      → Consumed n (consume digests client params 2 x)
  unfolding consume recv
  consume_any n a (event (put_response r), u) live small (known, pos, queued, s) = (
    s,
    pos,
    one_less-pos u.requests_in_queue (omega (arith, queued, pos)) ∙ omega (arith, queued),
  )
  consume_any n a (event (checksum_algorithm y), u) live small (unknown, queued, s) =
      consume_known 1 n y (recv digests client params (record u { algorithm = some y })) live (
        subst
          (λ k.
            Gives digests client params initial shut tail all (some y) k
              (recv_from digests client params (record u { algorithm = some y }) u.events))
          queued
          (recv_from_lem digests client params initial shut tail all
            (record u { algorithm = some y }) u.events refl s small))
  consume_any n a (event (error e), u) live small g = g
  consume_any n a (closed, u) live small g = g
  consume_any n a (never, u) live small g = absurd (not_idle n live g.0 g.1)
