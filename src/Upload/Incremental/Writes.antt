-- ===== src/Upload/Incremental/Writes.antt =====
-- `write`: the bytes that have been written are in the object, in the channel or in the buffer.
use mathlib.Core.Path.{subst}
use mathlib.Core.List.{append-nil, append_assoc}
use mountpoint_s.Prelude.{
  ℕ, zero, suc, ◌+◌, ◌≤◌, ◌<◌, ◌^◌, ◌==◌, List, [], ◌∷◌, ◌++◌, Bool, false, not, Option, none, some,
  inl, inr, Outcome, ok, err, panic, arith, length, length-append, ◌≡◌, sym, ap, ◌∙◌, Bool-cases,
  if◌then◌else◌,
}
use mountpoint_s.Upload.Hasher.{Digests}
use mountpoint_s.Upload.Buffer.{UploadBuffer}
use mountpoint_s.Upload.Incremental.{
  UploadError, Client, AppendUploadQueueParams, Upload, out_of_order_write,
}
use mountpoint_s.Upload.Incremental.Queue.{verify}
use mountpoint_s.Upload.Incremental.Request.{
  current_buffer, write_round, write_loop, counted, write_verified, write,
}
use mountpoint_s.Upload.Incremental.Object.{Object}
use mountpoint_s.Upload.Incremental.Waits.{After-Begun, Begun-extend}
use mountpoint_s.Upload.Incremental.Pushes.{Ends, Ready, Stays, verify_lem}
use mountpoint_s.Upload.Incremental.Buffered.{held, Fits, Open, current_buffer_lem}
use mountpoint_s.Upload.Incremental.Rounds.{Opens, Rounds, write_round_lem}

module _ {St : Type 0} (digests : Digests St) (client : Client) (params : AppendUploadQueueParams)
    (initial : Object) (buffer_size : ℕ) where
  -- The rest of the loop, after a round.
  after_round :
      (fuel : ℕ) (slice all : List ℕ) (x : Outcome UploadError (List ℕ) × Upload St)
      → Rounds digests client params initial buffer_size slice all x
      → ((taken rest : List ℕ) (v : Upload St)
          → slice ≡ taken ++ rest
          → 0 < length taken
          → Open digests client params initial buffer_size v (all ++ taken)
          → Opens digests client params initial buffer_size
              ((all ++ taken) ++ rest)
              (write_loop digests client params buffer_size fuel rest v))
      → Opens digests client params initial buffer_size
          (all ++ slice)
          (elim x.0 as (λ y. Outcome UploadError (Unit {0}) × Upload St) [
            | ok rest ↦ write_loop digests client params buffer_size fuel rest x.1
            | err e ↦ (err e, x.1)
            | panic ↦ (panic, x.1)
          ])
  after_round fuel slice all (ok rest, v) r ih =
      subst
        (λ k.
          Opens digests client params initial buffer_size k
            (write_loop digests client params buffer_size fuel rest v))
        (append_assoc all r.taken rest ∙ ap (λ k. all ++ k) (sym r.parts))
        (ih r.taken rest v r.parts r.progress r.now_open)
  after_round fuel slice all (err e, v) r ih = r
  after_round fuel slice all (panic, v) r ih = r

  write_loop_lem :
      (fuel : ℕ) (slice all : List ℕ) (u : Upload St)
      → length slice ≤ fuel
      → Open digests client params initial buffer_size u all
      → 0 < params.capacity
      → 0 < buffer_size
      → length all + length slice < 2 ^ 63
      → Opens digests client params initial buffer_size
          (all ++ slice)
          (write_loop digests client params buffer_size fuel slice u)
  unfolding write_loop
  write_loop_lem zero [] all u enough o pos size small =
      subst (Open digests client params initial buffer_size u) (sym (append-nil all)) o
  write_loop_lem (suc fuel) [] all u enough o pos size small =
      subst (Open digests client params initial buffer_size u) (sym (append-nil all)) o
  write_loop_lem zero (b ∷ bs) all u enough o pos size small = absurd (omega (arith, enough))
  write_loop_lem (suc fuel) (b ∷ bs) all u enough o pos size small =
      after_round fuel (b ∷ bs) all
        (write_round digests client params buffer_size (b ∷ bs)
          (current_buffer digests client params buffer_size u.buffer u))
        (write_round_lem digests client params initial buffer_size (b ∷ bs) all
          (current_buffer digests client params buffer_size u.buffer u)
          (current_buffer_lem digests client params initial buffer_size all u o size
            (omega (arith, small)))
          (omega arith) pos small)
        (λ taken rest v parts progress now_open.
          let split : suc (length bs) ≡ length taken + length rest =
            ap length parts ∙ length-append taken rest in
          write_loop_lem fuel rest (all ++ taken) v (omega (arith, split, progress, enough))
            now_open pos size (omega (arith, length-append all taken, split, small)))

  Stays-Open :
      (u v : Upload St) (all : List ℕ)
      → Open digests client params initial buffer_size u all
      → Stays digests client params initial u
          (held digests client params initial buffer_size u.buffer)
          all
          v
      → Open digests client params initial buffer_size v all
  Stays-Open u v all o s = record {
    ready =
        subst
          (λ k.
            Ready digests client params initial v (held digests client params initial buffer_size k)
              all)
          (sym s.buffer) s.ready;
    offset = s.offset ∙ o.offset;
    fits =
        subst (Fits digests client params initial buffer_size v) (sym s.buffer)
          (kept u.buffer o.fits);
  }
    where
      kept :
          (b : Option (UploadBuffer St))
          → Fits digests client params initial buffer_size u b
          → Fits digests client params initial buffer_size v b
      kept none f = tt
      kept (some b) (size, room, known) = (size, room, s.known known)

  -- What a `write` does that ends without an error.
  pub record Accepts (offset : ℕ) (bytes all : List ℕ) (n : ℕ) (v : Upload St) : Type 0 where
    pub in_order : offset ≡ length all
    pub count : n ≡ length bytes
    pub now_open : Open digests client params initial buffer_size v (all ++ bytes)

  abbrev pub Writes : ℕ → List ℕ → List ℕ → Outcome UploadError ℕ × Upload St → Type 0
  Writes offset bytes all =
      Ends digests client params initial (Accepts offset bytes all) (all ++ bytes)

  counted_lem :
      (offset : ℕ) (bytes all : List ℕ) (x : Outcome UploadError (Unit {0}) × Upload St)
      → offset ≡ length all
      → length all + length bytes < 2 ^ 63
      → Opens digests client params initial buffer_size (all ++ bytes) x
      → Writes offset bytes all (counted digests client params buffer_size offset x)
  counted_lem offset bytes all (ok _, v) e small o = record {
    in_order = e;
    count = omega (arith, o.offset, length-append all bytes, e, small);
    now_open = o;
  }
  counted_lem offset bytes all (err _, v) e small o = o
  counted_lem offset bytes all (panic, v) e small o = o

  write_verified_lem :
      (offset : ℕ) (bytes all : List ℕ) (u : Upload St)
      (x : Outcome UploadError (Unit {0}) × Upload St)
      → Open digests client params initial buffer_size u all
      → Ends digests client params initial
          (λ _ v.
            Stays digests client params initial u
              (held digests client params initial buffer_size u.buffer)
              all
              v)
          all
          x
      → 0 < params.capacity
      → 0 < buffer_size
      → length all + length bytes < 2 ^ 63
      → Writes offset bytes all (write_verified digests client params buffer_size offset bytes x)
  write_verified_lem offset bytes all u (err e, v) o s pos size small =
      Begun-extend digests client params initial v all bytes s
  write_verified_lem offset bytes all u (panic, v) o s pos size small = s
  write_verified_lem offset bytes all u (ok _, v) o s pos size small =
      let now_open = Stays-Open u v all o s in
      let go : Bool → Outcome UploadError ℕ × Upload St = λ k.
        if not k
        then (err (out_of_order_write offset v.offset), v)
        else counted digests client params buffer_size offset
            (write_loop digests client params buffer_size (length bytes) bytes v) in
      elim (Bool-cases (offset == v.offset)) [
        | inl same ↦
            subst (λ k. Writes offset bytes all (go k)) (sym same)
              (counted_lem offset bytes all
                (write_loop digests client params buffer_size (length bytes) bytes v)
                (ground (arith, same, now_open.offset)) small
                (write_loop_lem (length bytes) bytes all v (omega arith) now_open pos size small))
        | inr other ↦
            subst (λ k. Writes offset bytes all (go k)) (sym other)
              (Begun-extend digests client params initial v all bytes (
                After-Begun digests client params initial false v
                  (held digests client params initial buffer_size v.buffer) all
                  now_open.ready.after))
      ]

  -- A write at the end is taken whole, or gives an error; so does a write at another place.
  pub write_lem :
      (offset : ℕ) (bytes all : List ℕ) (u : Upload St)
      → Open digests client params initial buffer_size u all
      → 0 < params.capacity
      → 0 < buffer_size
      → length all + length bytes < 2 ^ 63
      → Writes offset bytes all (write digests client params buffer_size offset bytes u)
  unfolding write
  write_lem offset bytes all u o pos size small =
      write_verified_lem offset bytes all u (verify digests client params u) o
        (verify_lem digests client params initial u
          (held digests client params initial buffer_size u.buffer) all o.ready
          (omega (arith, small)))
        pos size small
