-- ===== src/Upload/Incremental/Joins.antt =====
-- `join`: after it, the object has all the bytes, or an error is given.
use mountpoint_s.Prelude.{
  ℕ, zero, suc, ◌<◌, ◌^◌, List, Bool, true, false, Option, none, inl, inr, Outcome, ok, err, panic,
  arith, length, refl, sym, if◌then◌else◌,
}
use mathlib.Core.Bool.{true≢false}
use mountpoint_s.Upload.Hasher.{Digests}
use mountpoint_s.Upload.Incremental.{
  UploadError, upload_already_terminated, PutObjectResult, Client, AppendUploadQueueParams, Task,
  starting, looping, finished, Upload, wait,
}
use mountpoint_s.Upload.Incremental.Queue.{recv, consume_next_response, consume_all, join}
use mountpoint_s.Upload.Incremental.Pops.{Stands}
use mountpoint_s.Upload.Incremental.Receives.{recv_from_lem}
use mountpoint_s.Upload.Incremental.Consumes.{Consumed, consume_any}
use mountpoint_s.Upload.Incremental.Object.{Object}
use mountpoint_s.Upload.Incremental.Invariant.{Written, Goes, Ended, Failed, After}
use mountpoint_s.Upload.Incremental.Waits.{wait_lem}

module _ {St : Type 0} (digests : Digests St) (client : Client) (params : AppendUploadQueueParams)
    (initial : Object) (tail all : List ℕ) where
  abbrev pub Drained : Outcome UploadError (Unit {0}) × Upload St → Type 0
  Drained (ok v, u) = Ended digests client params initial u tail all
  Drained (err e, u) = Failed digests client params initial false u all
  Drained (panic, u) = ⊥

  drained :
      (fuel n : ℕ) (x : Outcome UploadError Bool × Upload St)
      → n < suc fuel
      → Consumed digests client params initial true tail all n x
      → ((u : Upload St)
          → Stands digests client params initial true tail all u
          → u.requests_in_queue < fuel
          → Drained (consume_all digests client params fuel u))
      → Drained (elim x.0 as (λ y. Outcome UploadError (Unit {0}) × Upload St) [
        | ok more ↦ if more then consume_all digests client params fuel x.1 else (ok tt, x.1)
        | err e ↦ (err e, x.1)
        | panic ↦ (panic, x.1)
      ])
  drained fuel n (ok true, u) lt (s, pos, queued) rest = rest u s (omega (arith, lt, pos, queued))
  drained fuel n (ok false, u) lt c rest = c
  drained fuel n (err e, u) lt c rest = c
  drained fuel n (panic, u) lt c rest = absurd c

  -- On more fuel than there are requests without a response, the loop ends.
  pub consume_all_lem :
      (fuel : ℕ) (u : Upload St)
      → Stands digests client params initial true tail all u
      → u.requests_in_queue < fuel
      → length all < 2 ^ 63
      → Drained (consume_all digests client params fuel u)
  unfolding consume_all consume_next_response recv
  consume_all_lem zero u s lt small = absurd (omega (arith, lt))
  consume_all_lem (suc fuel) u s lt small =
      drained fuel u.requests_in_queue (consume_next_response digests client params u) lt
        (consume_any digests client params initial true tail all u.requests_in_queue u.algorithm
          (recv digests client params u) (inl refl) small
          (recv_from_lem digests client params initial true tail all u u.events refl s small))
        (λ v s' lt'. consume_all_lem fuel v s' lt' small)

  Goes-closed :
      (u : Upload St) (o : Object) (t : Task)
      → Goes digests client params initial o u t
      → Goes digests client params initial o (record u { closed = true }) t
  Goes-closed u o starting g = g
  Goes-closed u o (looping etag offset) g = g
  Goes-closed u o finished g = g

  -- How `join` ends: with a result, all the bytes are in the object; with an error, a start of them.
  abbrev pub Joined : Outcome UploadError (Option PutObjectResult) × Upload St → Type 0
  Joined (ok result, u) = Written initial u.puts tail all
  Joined (err e, u) = (rest : List ℕ) × Written initial u.puts rest all
  Joined (panic, u) = ⊥

  closing :
      (u : Upload St)
      → After digests client params initial false u tail all
      → Stands digests client params initial true tail all (record u { closed = true })
  closing u (inl r) = inl (record {
    written = r.written;
    is_closed = refl;
    goes = Goes-closed u r.written.object u.task r.goes;
  })
  closing u (inr (inl (c, i))) = absurd (true≢false (sym c))
  closing u (inr (inr i)) = inr (
      inr (record {
        rest = i.rest;
        written = i.written;
        is_closed = refl;
        task = i.task;
        buffers = i.buffers;
        failing = i.failing;
      }))

  joined_lem :
      (was_closed : Bool) (x : Outcome UploadError (Unit {0}) × Upload St)
      → Drained x
      → Joined (elim x.0 as (λ y. Outcome UploadError (Option PutObjectResult) × Upload St) [
        | err e ↦ (err e, x.1)
        | panic ↦ (panic, x.1)
        | ok v ↦
            if was_closed
            then (err upload_already_terminated, x.1)
            else (ok x.1.last_known_result, record x.1 { last_known_result = none })
      ])
  joined_lem was_closed (err e, u) d = (d.rest, d.written)
  joined_lem was_closed (panic, u) d = absurd d
  joined_lem true (ok v, u) d = (tail, d.written)
  joined_lem false (ok v, u) d = d.written

  -- Once all has been pushed (the object, the buffers in the channel and `tail` make up `all`, of less than
  -- 2^63 bytes, and the task runs; or it has failed), `join` returns, whatever the client answers and whenever the task
  -- steps: it does not wait for ever. If it gives a result, all the buffers are in the object, each put in its
  -- place; if it gives an error, the object is a start of `all`.
  pub join_lem :
      (u : Upload St)
      → After digests client params initial false u tail all
      → length all < 2 ^ 63
      → Joined (join digests client params u)
  unfolding join
  join_lem u r small =
      let u' : Upload St = wait digests client params u.schedule u in
      let s = closing u' (wait_lem digests client params initial u tail all r small) in
      joined_lem u'.closed
        (consume_all digests client params (suc u'.requests_in_queue) (record u' { closed = true }))
        (consume_all_lem (suc u'.requests_in_queue) (record u' { closed = true }) s (omega arith)
          small)
