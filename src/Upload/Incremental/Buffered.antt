-- ===== src/Upload/Incremental/Buffered.antt =====
-- The buffer of a request between its calls: it has room, and takes a part of a slice.
use mathlib.Core.Path.{subst}
use mountpoint_s.Prelude.{
  ℕ, ◌-◌, ◌≤◌, ◌<◌, ◌^◌, List, [], ◌++◌, false, Option, none, some, ◌⊎◌, inl, inr, Outcome, ok, err,
  panic, arith, length, min, take, drop, length-take, take-append-drop, ◌≡◌, ◌≢◌, refl, sym, ap,
  ◌∙◌,
}
use mountpoint_s.Upload.Hasher
use mountpoint_s.Upload.Hasher.{ChecksumHasherError, ChecksumHasher, Digests}
use mountpoint_s.Upload.Buffer
use mountpoint_s.Upload.Buffer.{UploadBuffer}
use mountpoint_s.Upload.Incremental.{UploadError, Client, AppendUploadQueueParams, Upload}
use mountpoint_s.Upload.Incremental.Queue.{get_buffer}
use mountpoint_s.Upload.Incremental.Request.{current_buffer}
use mountpoint_s.Upload.Incremental.Object.{Object}
use mountpoint_s.Upload.Incremental.Invariant.{After}
use mountpoint_s.Upload.Incremental.Pushes.{Ends, Ready}
use mountpoint_s.Upload.Incremental.Gets.{Fetched, get_buffer_lem}

module _ {St : Type 0} (digests : Digests St) where
  -- What a buffer takes of a slice, and what is left of it.
  pub record Splits (b : UploadBuffer St) (slice : List ℕ) (c : UploadBuffer St) (rest : List ℕ)
      : Type 0 where
    pub taken : List ℕ
    pub parts : slice ≡ taken ++ rest
    pub bytes : c.bytes ≡ b.bytes ++ taken
    pub size : c.capacity ≡ b.capacity
    pub amount : length taken ≡ min (b.capacity - length b.bytes) (length slice)

  abbrev pub Wrote :
      UploadBuffer St → List ℕ → ChecksumHasherError ⊎ (UploadBuffer St × List ℕ) → Type 0
  Wrote b slice (inl e) = Unit
  Wrote b slice (inr (c, rest)) = Splits b slice c rest

  pub buffer_write_lem :
      (b : UploadBuffer St) (slice : List ℕ) → Wrote b slice (Buffer.write digests b slice)
  unfolding Buffer.write
  buffer_write_lem b slice =
      let n : ℕ = min (b.capacity - length b.bytes) (length slice) in
      updated n refl (Hasher.update digests b.hasher (take n slice))
    where
      updated :
          (n : ℕ)
          → n ≡ min (b.capacity - length b.bytes) (length slice)
          → (x : ChecksumHasherError ⊎ ChecksumHasher St)
          → Wrote b slice (elim x as (λ y. ChecksumHasherError ⊎ (UploadBuffer St × List ℕ)) [
            | inr h ↦ inr (record b { bytes = b.bytes ++ take n slice; hasher = h }, drop n slice)
            | inl e ↦ inl e
          ])
      updated n is (inl e) = tt
      updated n is (inr h) = record {
        taken = take n slice;
        parts = sym (take-append-drop n slice);
        bytes = refl;
        size = refl;
        amount = omega (arith, length-take n slice, is);
      }

module _ {St : Type 0} (digests : Digests St) (client : Client) (params : AppendUploadQueueParams)
    (initial : Object) (buffer_size : ℕ) where
  abbrev pub held : Option (UploadBuffer St) → List ℕ
  held none = []
  held (some b) = b.bytes

  -- The buffer has room.
  abbrev pub Fits : Upload St → Option (UploadBuffer St) → Type 0
  Fits u none = Unit
  Fits u (some b) =
      (b.capacity ≡ buffer_size) × (length b.bytes < buffer_size) × (u.algorithm ≢ none)

  -- An upload to which `all` has been written.
  pub record Open (u : Upload St) (all : List ℕ) : Type 0 where
    pub ready : Ready digests client params initial u (held u.buffer) all
    pub offset : u.offset ≡ length all
    pub fits : Fits u u.buffer

  -- An upload whose buffer `b` has room.
  pub record Holds (all : List ℕ) (b : UploadBuffer St) (u : Upload St) : Type 0 where
    pub ready : Ready digests client params initial u b.bytes all
    pub offset : u.offset ≡ length all
    pub size : b.capacity ≡ buffer_size
    pub some_room : length b.bytes < buffer_size
    pub known : u.algorithm ≢ none

  fetched_lem :
      (all : List ℕ) (u : Upload St) (x : Outcome UploadError (UploadBuffer St) × Upload St)
      → u.offset ≡ length all
      → length u.buffers ≤ params.capacity
      → 0 < buffer_size
      → Ends digests client params initial
          (Fetched digests client params initial [] all u buffer_size)
          all
          x
      → Ends digests client params initial (Holds all) all x
  fetched_lem all u (ok b, v) at room pos f = record {
    ready = record {
      after = subst (λ k. After digests client params initial false v k all) (sym f.empty) f.after;
      room = omega (arith, f.quiet.fewer, room);
    };
    offset = f.quiet.offset ∙ at;
    size = f.size;
    some_room = omega (arith, ap length f.empty, pos);
    known = f.known;
  }
  fetched_lem all u (err e, v) at room pos f = f
  fetched_lem all u (panic, v) at room pos f = f

  pub current_buffer_lem :
      (all : List ℕ) (u : Upload St)
      → Open u all
      → 0 < buffer_size
      → length all < 2 ^ 63
      → Ends digests client params initial
          (Holds all)
          all
          (current_buffer digests client params buffer_size u.buffer u)
  unfolding current_buffer
  current_buffer_lem all u o pos small = current u.buffer refl
    where
      current :
          (b : Option (UploadBuffer St))
          → u.buffer ≡ b
          → Ends digests client params initial
              (Holds all)
              all
              (current_buffer digests client params buffer_size b u)
      current none e =
          fetched_lem all u (get_buffer digests client params buffer_size u) o.offset o.ready.room
            pos
            (get_buffer_lem digests client params initial [] all u buffer_size
              (subst (λ k. After digests client params initial false u (held k) all) e
                o.ready.after)
              small)
      current (some b) e =
          let fits = subst (Fits u) e o.fits in
          record {
            ready = subst (λ k. Ready digests client params initial u (held k) all) e o.ready;
            offset = o.offset;
            size = fits.0;
            some_room = fits.1;
            known = fits.2;
          }
