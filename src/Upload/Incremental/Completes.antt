-- ===== src/Upload/Incremental/Completes.antt =====
-- `complete`: what is in the buffer is pushed, and all that is in the channel is sent.
use mathlib.Core.Path.{subst}
use mathlib.Core.List.{append-nil}
use mountpoint_s.Prelude.{
  ℕ, ◌≤◌, ◌<◌, ◌^◌, ◌==◌, List, [], ◌++◌, Bool, true, false, Option, none, some, Outcome, ok, err,
  panic, arith, length, ◌≡◌, refl, sym, if◌then◌else◌,
}
use mountpoint_s.Upload.Hasher.{Digests}
use mountpoint_s.Upload.Buffer.{UploadBuffer}
use mountpoint_s.Upload.Incremental.{UploadError, Client, AppendUploadQueueParams, Upload}
use mountpoint_s.Upload.Incremental.Queue.{push, get_buffer}
use mountpoint_s.Upload.Incremental.Request.{push_empty, push_last, complete_pushed, complete}
use mountpoint_s.Upload.Incremental.Object.{Object}
use mountpoint_s.Upload.Incremental.Invariant.{After}
use mountpoint_s.Upload.Incremental.Joins.{Joined, join_lem}
use mountpoint_s.Upload.Incremental.Waits.{After-aside}
use mountpoint_s.Upload.Incremental.Pushes.{Ends, Ready, Stays, push_lem}
use mountpoint_s.Upload.Incremental.Gets.{Fetched, get_buffer_lem}
use mountpoint_s.Upload.Incremental.Buffered.{held, Fits, Open}

module _ {St : Type 0} (digests : Digests St) (client : Client) (params : AppendUploadQueueParams)
    (initial : Object) (buffer_size : ℕ) where
  abbrev Pushed : List ℕ → Outcome UploadError (Unit {0}) × Upload St → Type 0
  Pushed all =
      Ends digests client params initial (λ _ v. After digests client params initial false v [] all)
        all

  stayed_lem :
      (u : Upload St) (all : List ℕ) (x : Outcome UploadError (Unit {0}) × Upload St)
      → Ends digests client params initial
          (λ _ v. Stays digests client params initial u [] all v)
          all
          x
      → Pushed all x
  stayed_lem u all (ok _, v) s = s.ready.after
  stayed_lem u all (err e, v) s = s
  stayed_lem u all (panic, v) s = s

  push_empty_lem :
      (u : Upload St) (all : List ℕ) (x : Outcome UploadError (UploadBuffer St) × Upload St)
      → length u.buffers ≤ params.capacity
      → 0 < params.capacity
      → length all < 2 ^ 63
      → Ends digests client params initial (Fetched digests client params initial [] all u 0) all x
      → Pushed all (push_empty digests client params buffer_size x)
  push_empty_lem u all (ok b, v) room pos small f =
      stayed_lem v all (push digests client params b v) (
        push_lem digests client params initial v b [] all
          (record {
            after =
                subst (λ k. After digests client params initial false v (k ++ []) all) (sym f.empty)
                  f.after;
            room = omega (arith, f.quiet.fewer, room);
          })
          f.known pos small)
  push_empty_lem u all (err e, v) room pos small f = f
  push_empty_lem u all (panic, v) room pos small f = f

  push_last_lem :
      (u : Upload St) (all : List ℕ) (b : Option (UploadBuffer St))
      → u.buffer ≡ b
      → Open digests client params initial buffer_size u all
      → 0 < params.capacity
      → length all < 2 ^ 63
      → Pushed all (push_last digests client params buffer_size b u)
  unfolding push_last
  push_last_lem u all (some b) e o pos small =
      let ready =
        subst
          (λ k.
            Ready digests client params initial u (held digests client params initial buffer_size k)
              all)
          e o.ready in
      stayed_lem (record u { buffer = none }) all
        (push digests client params b (record u { buffer = none }))
        (push_lem digests client params initial (record u { buffer = none }) b [] all
          (record {
            after =
                subst
                  (λ k.
                    After digests client params initial false (record u { buffer = none }) k all)
                  (sym (append-nil b.bytes))
                  (After-aside digests client params initial false u b.bytes all none u.offset
                    u.mem_limiter u.schedule ready.after);
            room = o.ready.room;
          })
          (subst (Fits digests client params initial buffer_size u) e o.fits).2 pos small)
  push_last_lem u all none e o pos small =
      let i =
        subst
          (λ k.
            After digests client params initial false u
              (held digests client params initial buffer_size k) all)
          e o.ready.after in
      empty_or_not (u.offset == 0) i
    where
      empty_or_not :
          (k : Bool)
          → After digests client params initial false u [] all
          → Pushed all (
              if k
              then push_empty digests client params buffer_size
                  (get_buffer digests client params 0 u)
              else (ok tt, u))
      empty_or_not false i = i
      empty_or_not true i =
          push_empty_lem u all (get_buffer digests client params 0 u) o.ready.room pos small
            (get_buffer_lem digests client params initial [] all u 0 i small)

  complete_pushed_lem :
      (all : List ℕ) (x : Outcome UploadError (Unit {0}) × Upload St)
      → Pushed all x
      → length all < 2 ^ 63
      → Joined digests client params initial [] all
          (complete_pushed digests client params buffer_size x)
  complete_pushed_lem all (ok _, v) i small =
      join_lem digests client params initial [] all v i small
  complete_pushed_lem all (err e, v) p small = p
  complete_pushed_lem all (panic, v) p small = p

  pub complete_lem :
      (u : Upload St) (all : List ℕ)
      → Open digests client params initial buffer_size u all
      → 0 < params.capacity
      → length all < 2 ^ 63
      → Joined digests client params initial [] all (complete digests client params buffer_size u)
  unfolding complete
  complete_lem u all o pos small =
      complete_pushed_lem all (push_last digests client params buffer_size u.buffer u)
        (push_last_lem u all u.buffer refl o pos small) small
