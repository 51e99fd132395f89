-- ===== src/Upload/Incremental/Rounds.antt =====
-- A round of the loop of `write`: it takes a part of the slice into the buffer, and pushes the buffer if it is full.
use mathlib.Core.Path.{subst}
use mathlib.Core.List.{append-nil, append_assoc}
use mountpoint_s.Prelude.{
  ℕ, ◌+◌, ◌-◌, ◌≤◌, ◌<◌, ◌^◌, ◌+w◌, List, [], ◌++◌, Bool, false, none, some, ◌⊎◌, inl, inr, Outcome,
  ok, err, panic, arith, length, min, length-append, ◌≡◌, ◌≢◌, refl, sym, ap, ◌∙◌, Bool-cases,
  if◌then◌else◌,
}
use mountpoint_s.Upload.Hasher.{ChecksumHasherError, Digests}
use mountpoint_s.Upload.Buffer
use mountpoint_s.Upload.Buffer.{UploadBuffer}
use mountpoint_s.Upload.Incremental.{UploadError, Client, AppendUploadQueueParams, Upload}
use mountpoint_s.Upload.Incremental.Queue.{push}
use mountpoint_s.Upload.Incremental.Request.{flush, flushed, stored, write_round}
use mountpoint_s.Upload.Incremental.Object.{Object}
use mountpoint_s.Upload.Incremental.Invariant.{After}
use mountpoint_s.Upload.Incremental.Waits.{
  After-aside, After-extend, After-Begun, Begun, Begun-extend,
}
use mountpoint_s.Upload.Incremental.Pushes.{Ends, Ready, Stays, push_lem}
use mountpoint_s.Upload.Incremental.Buffered.{Wrote, buffer_write_lem, held, Fits, Open, Holds}

module _ {St : Type 0} (digests : Digests St) (client : Client) (params : AppendUploadQueueParams)
    (initial : Object) (buffer_size : ℕ) where
  abbrev pub Opens : List ℕ → Outcome UploadError (Unit {0}) × Upload St → Type 0
  Opens all =
      Ends digests client params initial
        (λ _ v. Open digests client params initial buffer_size v all) all

  pushed_lem :
      (u : Upload St) (all : List ℕ) (x : Outcome UploadError (Unit {0}) × Upload St)
      → u.buffer ≡ none
      → u.offset ≡ length all
      → Ends digests client params initial
          (λ _ v. Stays digests client params initial u [] all v)
          all
          x
      → Opens all x
  pushed_lem u all (ok _, v) none_left at s =
      let e : v.buffer ≡ none = s.buffer ∙ none_left in
      record {
        ready =
            subst
              (λ k.
                Ready digests client params initial v
                  (held digests client params initial buffer_size k) all)
              (sym e) s.ready;
        offset = s.offset ∙ at;
        fits = subst (Fits digests client params initial buffer_size v) (sym e) tt;
      }
  pushed_lem u all (err e, v) none_left at s = s
  pushed_lem u all (panic, v) none_left at s = s

  flush_lem :
      (u : Upload St) (b : UploadBuffer St) (all : List ℕ)
      → Ready digests client params initial u b.bytes all
      → u.offset ≡ length all
      → b.capacity ≡ buffer_size
      → length b.bytes ≤ buffer_size
      → u.algorithm ≢ none
      → 0 < params.capacity
      → length all < 2 ^ 63
      → Opens all (flush digests client params buffer_size b u)
  unfolding flush
  flush_lem u b all r at size le known pos small =
      let go : Bool → Outcome UploadError (Unit {0}) × Upload St = λ k.
        if k
        then push digests client params b (record u { buffer = none })
        else (ok tt, record u { buffer = some b }) in
      elim (Bool-cases (Buffer.is_full b)) [
        | inl full ↦
            subst (λ k. Opens all (go k)) (sym full)
              (pushed_lem (record u { buffer = none }) all
                (push digests client params b (record u { buffer = none })) refl at
                (push_lem digests client params initial (record u { buffer = none }) b [] all
                  (record {
                    after =
                        subst
                          (λ k.
                            After digests client params initial false (record u { buffer = none }) k
                              all)
                          (sym (append-nil b.bytes))
                          (After-aside digests client params initial false u b.bytes all none
                            u.offset u.mem_limiter u.schedule r.after);
                    room = r.room;
                  })
                  known pos small))
        | inr partial ↦
            subst (λ k. Opens all (go k)) (sym partial)
              (record {
                ready = record {
                  after =
                      After-aside digests client params initial false u b.bytes all (some b)
                        u.offset u.mem_limiter u.schedule r.after;
                  room = r.room;
                };
                offset = at;
                fits = (size, ground (arith, partial, le, size), known);
              })
      ]

  -- The round has taken a part of the slice, which is not empty.
  pub record Round (slice all rest : List ℕ) (v : Upload St) : Type 0 where
    pub taken : List ℕ
    pub parts : slice ≡ taken ++ rest
    pub progress : 0 < length taken
    pub now_open : Open digests client params initial buffer_size v (all ++ taken)

  abbrev pub Rounds : List ℕ → List ℕ → Outcome UploadError (List ℕ) × Upload St → Type 0
  Rounds slice all = Ends digests client params initial (Round slice all) (all ++ slice)

  flushed_lem :
      (slice all taken rest : List ℕ) (x : Outcome UploadError (Unit {0}) × Upload St)
      → slice ≡ taken ++ rest
      → 0 < length taken
      → Opens (all ++ taken) x
      → Rounds slice all (flushed digests client params buffer_size rest x)
  flushed_lem slice all taken rest (ok _, v) parts pos o = record {
    taken = taken;
    parts = parts;
    progress = pos;
    now_open = o;
  }
  flushed_lem slice all taken rest (err e, v) parts pos o =
      subst (Begun digests client params initial v)
        (append_assoc all taken rest ∙ ap (λ k. all ++ k) (sym parts))
        (Begun-extend digests client params initial v (all ++ taken) rest o)
  flushed_lem slice all taken rest (panic, v) parts pos o = o

  stored_lem :
      (slice all : List ℕ) (b : UploadBuffer St) (u : Upload St)
      (x : ChecksumHasherError ⊎ (UploadBuffer St × List ℕ))
      → Wrote digests b slice x
      → Holds digests client params initial buffer_size all b u
      → 0 < length slice
      → 0 < params.capacity
      → length all + length slice < 2 ^ 63
      → Rounds slice all (stored digests client params buffer_size slice b x u)
  stored_lem slice all b u (inl e) w h some_left pos small =
      Begun-extend digests client params initial
        (record u { buffer = some (Buffer.appended b slice) }) all slice
        (After-Begun digests client params initial false
          (record u { buffer = some (Buffer.appended b slice) }) b.bytes all
          (After-aside digests client params initial false u b.bytes all
            (some (Buffer.appended b slice)) u.offset u.mem_limiter u.schedule h.ready.after))
  stored_lem slice all b u (inr (c, rest)) w h some_left pos small =
      let split : length slice ≡ length w.taken + length rest =
        ap length w.parts ∙ length-append w.taken rest in
      let amount : length w.taken ≡ min (buffer_size - length b.bytes) (length slice) =
        omega (arith, w.amount, h.size) in
      let more : length (all ++ w.taken) ≡ length all + length w.taken =
        length-append all w.taken in
      let filled : length c.bytes ≡ length b.bytes + length w.taken =
        ap length w.bytes ∙ length-append b.bytes w.taken in
      let offset : ℕ = u.offset +w (length slice - length rest) in
      flushed_lem slice all w.taken rest
        (flush digests client params buffer_size c (record u { offset = offset })) w.parts
        (omega (arith, amount, h.some_room, some_left))
        (flush_lem (record u { offset = offset }) c (all ++ w.taken)
          (record {
            after =
                subst
                  (λ k.
                    After digests client params initial false (record u { offset = offset }) k
                      (all ++ w.taken))
                  (sym w.bytes)
                  (After-extend digests client params initial false (record u { offset = offset })
                    b.bytes all w.taken
                    (After-aside digests client params initial false u b.bytes all u.buffer offset
                      u.mem_limiter u.schedule h.ready.after));
            room = h.ready.room;
          })
          (omega (arith, h.offset, split, more, small)) (w.size ∙ h.size)
          (omega (arith, filled, amount, h.some_room)) h.known pos
          (omega (arith, more, split, small)))

  pub write_round_lem :
      (slice all : List ℕ) (x : Outcome UploadError (UploadBuffer St) × Upload St)
      → Ends digests client params initial
          (Holds digests client params initial buffer_size all)
          all
          x
      → 0 < length slice
      → 0 < params.capacity
      → length all + length slice < 2 ^ 63
      → Rounds slice all (write_round digests client params buffer_size slice x)
  unfolding write_round
  write_round_lem slice all (ok b, u) h some_left pos small =
      stored_lem slice all b u (Buffer.write digests b slice) (buffer_write_lem digests b slice) h
        some_left pos small
  write_round_lem slice all (err e, u) h some_left pos small =
      Begun-extend digests client params initial u all slice h
  write_round_lem slice all (panic, u) h some_left pos small = h
