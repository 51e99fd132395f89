-- ===== src/Prefetch/Reader/Correct.antt =====
-- `try_read` and `read`: the reader gives the bytes of the object, wherever it is asked to read.
use mathlib.Core.Path.{subst}
use mountpoint_s.Prelude.{
  ℕ, ◌+◌, ◌-◌, ◌*◌, ◌≤◌, ◌<◌, min, max, ◌≡◌, refl, sym, List, Bool, true, false, Option, none, some,
  Outcome, ok, err, panic, arith, length, slice, slice_empty, ◌==◌, eqb→eq, eqb→ne, Bool-cases, inl,
  inr, eq→eqb,
}
use mountpoint_s.Checksums
use mountpoint_s.Checksums.{Crc, ChecksummedBytes}
use mountpoint_s.Checksums.Content
use mountpoint_s.Checksums.Content.{IsIntact, content}
use mountpoint_s.Prefetch.Errors.{ReadError}
use mountpoint_s.Prefetch.Part.{ObjectId}
use mountpoint_s.Prefetch.Task.{RequestTask}
use mountpoint_s.Prefetch.Reader.{Source, Reader, reset_prefetch_to_offset}
use mountpoint_s.Prefetch.Reader.Seek.{try_seek}
use mountpoint_s.Prefetch.Reader.Calls.{
  settle, seek, ensure_task, read_settled, try_read, finish, read,
}
use mountpoint_s.Prefetch.Reader.Invariant.{IsHonest, IsSound, IsReady, reset-IsReady}
use mountpoint_s.Prefetch.Reader.Loop.{ReadsTo, read_loop_lem}
use mountpoint_s.Prefetch.Reader.Skips.{Seeks, try_seek_lem}
use mountpoint_s.Prefetch.Reader.Spawns.{spawn_lem}

module _ (crc : Crc) (source : Source) (id : ObjectId) (object : List ℕ) (whole : Bool) where
  -- How a seek may end for `try_read`.
  abbrev Settles : ℕ → Outcome ReadError (Unit {0}) × Reader → Type 0
  Settles target (ok _, r) =
      IsReady crc id object whole r × (r.next_sequential_read_offset ≡ target)
  Settles target (err e, r) = (whole ≡ false) × IsSound crc id object whole r
  Settles target (panic, r) = ⊥

  settle_lem :
      (target : ℕ) (x : Outcome ReadError Bool × Reader)
      → target ≤ length object
      → Seeks crc id object whole target x
      → Settles target (settle target x)
  unfolding settle reset_prefetch_to_offset
  settle_lem target (ok true, r) le s = s
  settle_lem target (ok false, r) le s = (reset-IsReady crc id object whole r target s le, refl)
  settle_lem target (err e, r) le s = s
  settle_lem target (panic, r) le s = s

  seek_lem :
      (target : ℕ) (r : Reader)
      → IsReady crc id object whole r
      → target ≤ length object
      → Settles target (seek r target)
  unfolding seek
  seek_lem target r v le = elim (Bool-cases (r.next_sequential_read_offset == target)) [
    | inl here ↦ rw here (v, eqb→eq _ _ here)
    | inr away ↦ rw away (
        settle_lem target (try_seek r target) le
          (try_seek_lem crc id object whole target r v (λ e. eqb→ne _ _ away (sym e)) le))
  ]

  ensure_task_lem :
      (r : Reader) (task : Option RequestTask)
      → r.task ≡ task
      → IsHonest crc id object whole source
      → IsReady crc id object whole r
      → (r' : Reader) × (t : RequestTask) × (ensure_task crc source r task ≡ ok r')
        × IsReady crc id object whole r'
        × (r'.next_sequential_read_offset ≡ r.next_sequential_read_offset)
        × (r'.task ≡ some t)
  unfolding ensure_task
  ensure_task_lem r (some t) e h v = (r, t, refl, v, refl, e)
  ensure_task_lem r none e h v = spawn_lem crc source id object whole r h v

  read_settled_lem :
      (offset n : ℕ) (x : Outcome ReadError (Unit {0}) × Reader)
      → IsHonest crc id object whole source
      → offset + n ≤ length object
      → Settles offset x
      → ReadsTo crc source id object whole offset (offset + n) (read_settled crc source offset n x)
  unfolding read_settled Checksums.default slice
  read_settled_lem offset n (err e, r) h le s = s
  read_settled_lem offset n (panic, r) h le s = s
  read_settled_lem offset n (ok u, r) h le (v, at) =
      let (r', t, e, ready, next, task) = ensure_task_lem r r.task refl h v in
      rw (eq→eqb _ _ at, e)
        (read_loop_lem crc source id object whole n offset (offset + n) n r' Checksums.default true
          (record {
            ready = ready;
            valid = omega arith;
            intact = inr crc.checksum_empty;
            bytes = sym (slice_empty object offset r'.next_sequential_read_offset (omega arith));
            ordered = omega arith;
            goal = omega arith;
            target_le = le;
            task = (t, task);
          })
          (omega arith))

  -- What a read answers: the bytes from the offset on, up to the length asked for or the end of the
  -- object, and a ready reader; or, if the producer may fail, an error, and a ready reader too.
  abbrev pub Answers : ℕ → ℕ → Outcome ReadError ChecksummedBytes × Reader → Type 0
  Answers offset n (ok bytes, r) =
      Content.IsValid bytes
      × IsIntact crc bytes
      × (content bytes ≡ slice object offset (min (offset + n) (length object)))
      × IsReady crc id object whole r
  Answers offset n (err e, r) = (whole ≡ false) × IsReady crc id object whole r
  Answers offset n (panic, r) = ⊥

  finish_lem :
      (offset n : ℕ) (x : Outcome ReadError (ChecksummedBytes × Bool) × Reader)
      → offset ≤ length object
      → ReadsTo crc source id object whole offset (min (offset + n) (length object)) x
      → Answers offset n (finish crc source offset x)
  unfolding finish
  finish_lem offset n (ok (bytes, from_cache), r) le (valid, intact, e, ready, next) =
      (valid, intact, e, ready)
  finish_lem offset n (err e, r) le (w, sound) =
      (w, reset-IsReady crc id object whole r offset sound le)
  finish_lem offset n (panic, r) le x = x

  sized-IsReady :
      (r : Reader) (n : ℕ)
      → IsReady crc id object whole r
      → IsReady crc id object whole
          (record r { preferred_part_size = min (max r.preferred_part_size n) (1024 * 1024) })
  sized-IsReady r n v = record {
    sound = record {
      size_is = v.sound.size_is;
      object_small = v.sound.object_small;
      id_is = v.sound.id_is;
      sensible = v.sound.sensible;
      part_pos = omega (arith, v.sound);
      part_small = omega (arith, v.sound);
      window_small = v.sound.window_small;
      limit = v.sound.limit;
    };
    within = v.within;
    window = v.window;
    task = v.task;
  }

  -- From a ready reader, with an honest source, a read at any offset and of any length, whatever arrives
  -- when: it returns, and gives exactly the bytes of the object from the offset on, up to the length or to
  -- the end of the object, with a checksum that fits them; or it fails, which it can do only if the
  -- producer may stop early or send an error. It never panics, and leaves the reader ready either way.
  pub read_correct :
      (r : Reader) (offset n : ℕ)
      → IsHonest crc id object whole source
      → IsReady crc id object whole r
      → Answers offset n (read crc source r offset n)
  unfolding read try_read finish Checksums.default slice
  read_correct r offset n h v =
      let sized : Reader = record r {
        preferred_part_size = min (max r.preferred_part_size n) (1024 * 1024);
      } in
      let ready : IsReady crc id object whole sized = sized-IsReady r n v in
      elim (Bool-cases (r.size - offset == 0)) [
        | inl past ↦
            rw (past, read, finish, try_read)
              (
                omega arith,
                inr crc.checksum_empty,
                sym (slice_empty object offset _ (omega (arith, eqb→eq _ _ past, v.sound))),
                ready,
              )
        | inr before ↦
            let le : offset < length object = omega (arith, eqb→ne _ _ before, v.sound) in
            rw (before, read, try_read)
              (finish_lem offset n
                (read_settled crc source offset (min n (r.size - offset)) (seek sized offset))
                (omega arith)
                (subst
                  (λ k.
                    ReadsTo crc source id object whole offset k (
                      read_settled crc source offset (min n (r.size - offset)) (seek sized offset)))
                  (omega (arith, v.sound))
                  (read_settled_lem offset (min n (r.size - offset)) (seek sized offset) h
                    (omega (arith, v.sound)) (seek_lem offset sized ready (omega arith)))))
      ]
