-- ===== src/Upload/Incremental/Takes.antt =====
-- Writes, one after another: if all are taken, they are those of a file that is written at its end.
use mathlib.Core.Path.{subst}
use mathlib.Core.List.{append-nil, append_assoc}
use mountpoint_s.Prelude.{
  ℕ, ◌+◌, ◌<◌, ◌^◌, ◌==◌, List, [], ◌∷◌, ◌++◌, true, some, Outcome, ok, err, panic, arith, length,
  length-append, ◌≡◌, sym, ap, ◌∙◌,
}
use mountpoint_s.Upload.Hasher.{Digests}
use mountpoint_s.Upload.Incremental.{UploadError, Client, AppendUploadQueueParams, Upload}
use mountpoint_s.Upload.Incremental.Request.{write}
use mountpoint_s.Upload.Incremental.Object.{Object}
use mountpoint_s.Upload.Incremental.Waits.{Begun, Begun-extend}
use mountpoint_s.Upload.Incremental.Pushes.{Ends}
use mountpoint_s.Upload.Incremental.Buffered.{Open}
use mountpoint_s.Upload.Incremental.Writes.{Writes, write_lem}
use mountpoint_s.Upload.Incremental.Calls.{append_all, contents, write_each}

module _ {St : Type 0} (digests : Digests St) (client : Client) (params : AppendUploadQueueParams)
    (initial : Object) (buffer_size : ℕ) where
  -- All has been taken: the writes are those of a file that is written at its end.
  pub record Taken (ws : List (ℕ × List ℕ)) (all : List ℕ) (u : Upload St) : Type 0 where
    pub file : append_all all ws ≡ some (all ++ contents ws)
    pub now_open : Open digests client params initial buffer_size u (all ++ contents ws)

  abbrev pub Takes :
      List (ℕ × List ℕ) → List ℕ → Outcome UploadError (Unit {0}) × Upload St → Type 0
  Takes ws all = Ends digests client params initial (λ _ v. Taken ws all v) (all ++ contents ws)

  Taken-cons :
      (offset : ℕ) (bytes : List ℕ) (ws : List (ℕ × List ℕ)) (all : List ℕ)
      (x : Outcome UploadError (Unit {0}) × Upload St)
      → offset ≡ length all
      → Takes ws (all ++ bytes) x
      → Takes ((offset, bytes) ∷ ws) all x
  Taken-cons offset bytes ws all (ok _, v) e t =
      let same : (offset == length all) ≡ true = ground (arith, e) in
      record {
        file = rw same (t.file ∙ ap (λ k. some k) (append_assoc all bytes (contents ws)));
        now_open =
            subst (Open digests client params initial buffer_size v)
              (append_assoc all bytes (contents ws)) t.now_open;
      }
  Taken-cons offset bytes ws all (err _, v) e t =
      subst (Begun digests client params initial v) (append_assoc all bytes (contents ws)) t
  Taken-cons offset bytes ws all (panic, v) e t = t

  after_write :
      (offset : ℕ) (bytes : List ℕ) (ws : List (ℕ × List ℕ)) (all : List ℕ)
      (x : Outcome UploadError ℕ × Upload St)
      → Writes digests client params initial buffer_size offset bytes all x
      → ((v : Upload St)
          → Open digests client params initial buffer_size v (all ++ bytes)
          → Takes ws (all ++ bytes) (write_each digests client params buffer_size ws v))
      → Takes
          ((offset, bytes) ∷ ws)
          all
          (elim x.0 as (λ y. Outcome UploadError (Unit {0}) × Upload St) [
            | ok n ↦ write_each digests client params buffer_size ws x.1
            | err e ↦ (err e, x.1)
            | panic ↦ (panic, x.1)
          ])
  after_write offset bytes ws all (ok n, v) w ih =
      Taken-cons offset bytes ws all (write_each digests client params buffer_size ws v) w.in_order
        (ih v w.now_open)
  after_write offset bytes ws all (err e, v) w ih =
      subst (Begun digests client params initial v) (append_assoc all bytes (contents ws))
        (Begun-extend digests client params initial v (all ++ bytes) (contents ws) w)
  after_write offset bytes ws all (panic, v) w ih = w

  pub write_each_lem :
      (ws : List (ℕ × List ℕ)) (all : List ℕ) (u : Upload St)
      → Open digests client params initial buffer_size u all
      → 0 < params.capacity
      → 0 < buffer_size
      → length all + length (contents ws) < 2 ^ 63
      → Takes ws all (write_each digests client params buffer_size ws u)
  unfolding write_each
  write_each_lem [] all u o pos size small = record {
    file = ap (λ k. some k) (sym (append-nil all));
    now_open = subst (Open digests client params initial buffer_size u) (sym (append-nil all)) o;
  }
  write_each_lem ((offset, bytes) ∷ ws) all u o pos size small =
      let more = length-append bytes (contents ws) in
      after_write offset bytes ws all (write digests client params buffer_size offset bytes u)
        (write_lem digests client params initial buffer_size offset bytes all u o pos size
          (omega (arith, more, small)))
        (λ v now_open.
          write_each_lem ws (all ++ bytes) v now_open pos size
            (omega (arith, more, length-append all bytes, small)))
