-- ===== src/Prefetch/Reader/Loop.antt =====
-- The loop of `try_read`: what it appends to the response is what comes next in the object.
use mathlib.Core.Path.{subst}
use mountpoint_s.Prelude.{
  ℕ, zero, suc, ◌+◌, ◌-◌, ◌≤◌, ◌<◌, ◌^◌, ◌≡◌, refl, sym, ◌∙◌, ap, ap₂, List, ◌++◌, Bool, true,
  false, ◌&&◌, some, Outcome, ok, err, panic, arith, length, slice, slice-append, length-slice,
  ◌==◌, ◌+w◌, ◌⊎◌, inl, inr,
}
use mountpoint_s.Checksums
use mountpoint_s.Checksums.{Crc, ChecksummedBytes}
use mountpoint_s.Checksums.Content
use mountpoint_s.Checksums.Content.{IsIntact, content, length-content}
use mountpoint_s.Checksums.Extend.{extend-content}
use mountpoint_s.Prefetch.Errors.{ReadError}
use mountpoint_s.Prefetch.Part.{ObjectId, Part, len, is_from_cache}
use mountpoint_s.Prefetch.Stream.{Holds}
use mountpoint_s.Prefetch.SeekWindow.Inv.{push_lem}
use mountpoint_s.Prefetch.Backpressure.{Shared}
use mountpoint_s.Prefetch.Task.{RequestTask}
use mountpoint_s.Prefetch.Task.Reads.{Gives}
use mountpoint_s.Prefetch.Reader.{
  Source, Reader, ReadRound, done, more, append, absorb, read_round, read_loop, read_task,
}
use mountpoint_s.Prefetch.Reader.Invariant.{
  IsSound, IsReady, TaskGives, Took, took, failed, into_bytes_self, read_task_lem, moved,
  moved-IsReady,
}

-- `is_empty`, as a test of the length, and the test of a round.
abbrev whole_part : ChecksummedBytes → ChecksummedBytes → ℕ → Bool
whole_part response bytes to_read = Checksums.is_empty response && (Checksums.len bytes == to_read)

whole_part-cases :
    (response bytes : ChecksummedBytes) (to_read : ℕ)
    → ((whole_part response bytes to_read ≡ true)
        × (Checksums.len response ≡ 0)
        × (Checksums.len bytes ≡ to_read))
      ⊎ (whole_part response bytes to_read ≡ false)
whole_part-cases response bytes to_read = ground arith

module _ (crc : Crc) (source : Source) (id : ObjectId) (object : List ℕ) (whole : Bool) where
  -- How a read of the bytes from `base` to `target` may end: with these bytes, valid and intact, and a
  -- ready reader that goes on after them, or with an error, if the producer may fail.
  abbrev pub ReadsTo : ℕ → ℕ → Outcome ReadError (ChecksummedBytes × Bool) × Reader → Type 0
  ReadsTo base target (ok (bytes, from_cache), r) =
      Content.IsValid bytes
      × IsIntact crc bytes
      × (content bytes ≡ slice object base target)
      × IsReady crc id object whole r
      × (r.next_sequential_read_offset ≡ target)
  ReadsTo base target (err e, r) = (whole ≡ false) × IsSound crc id object whole r
  ReadsTo base target (panic, r) = ⊥

  -- Between two rounds: the response holds the bytes from `base` to the next offset, and there is a task.
  pub record Reading (base target : ℕ) (r : Reader) (to_read : ℕ) (response : ChecksummedBytes)
      : Type 0 where
    pub ready : IsReady crc id object whole r
    pub valid : Content.IsValid response
    pub intact : IsIntact crc response
    pub bytes : content response ≡ slice object base r.next_sequential_read_offset
    pub ordered : base ≤ r.next_sequential_read_offset
    pub goal : r.next_sequential_read_offset + to_read ≡ target
    pub target_le : target ≤ length object
    pub task : (t : RequestTask) × (r.task ≡ some t)

  abbrev RoundGives : ℕ → ℕ → ℕ → ReadRound crc source → Type 0
  RoundGives base target n (done result r) = ReadsTo base target (result, r)
  RoundGives base target n (more r n' response c) = (n' < n) × Reading base target r n' response

  append_lem :
      (base target from n : ℕ) (r : Reader) (t : RequestTask) (response : ChecksummedBytes)
      (c : Bool) (p : Part)
      → Content.IsValid response
      → IsIntact crc response
      → content response ≡ slice object base from
      → base ≤ from
      → from + n ≡ target
      → target ≤ length object
      → length object < 2 ^ 61
      → Holds crc id object p
      → p.offset ≡ from
      → 0 < len p
      → len p ≤ n
      → IsReady crc id object whole r
      → r.next_sequential_read_offset ≡ from + len p
      → r.task ≡ some t
      → RoundGives base target n (append crc source r n response c p.checksummed_bytes)
  unfolding append
  append_lem base target from n r t response c p valid intact bytes ordered goal target_le small h
        at some_len le ready next task =
      elim (whole_part-cases response p.checksummed_bytes n) [
        | inl (e, empty, all) ↦
            let measured : Checksums.len response ≡ from - base =
              sym (length-content valid)
              ∙ ap length bytes
              ∙ length-slice object base from (omega arith) in
            rw e (
              h.valid,
              h.intact,
              h.bytes ∙ ap₂ (slice object) (omega arith) (omega arith),
              ready,
              omega arith,
            )
        | inr e ↦
            let measured : Checksums.len response ≡ from - base =
              sym (length-content valid)
              ∙ ap length bytes
              ∙ length-slice object base from (omega arith) in
            let (response', e', same, valid', intact') =
              extend-content crc response p.checksummed_bytes valid h.valid intact h.intact
                (omega (arith, h.within)) in
            rw (e, e')
              (
                omega arith,
                record {
                  ready = ready;
                  valid = valid';
                  intact = intact';
                  bytes =
                      same
                      ∙ ap₂ ◌++◌ bytes (h.bytes ∙ ap₂ (slice object) at (ap (λ k. k + len p) at))
                      ∙ slice-append object base from (from + len p) ordered (omega arith)
                      ∙ ap (slice object base) (sym next);
                  ordered = omega arith;
                  goal = omega arith;
                  target_le = target_le;
                  task = (t, task);
                },
              )
      ]

  absorb_lem :
      (base target n : ℕ) (r : Reader) (t : RequestTask) (s : Shared) (arrivals : List ℕ)
      (response : ChecksummedBytes) (c : Bool) (p : Part)
      → Reading base target r n response
      → Holds crc id object p
      → p.offset ≡ r.next_sequential_read_offset
      → 0 < len p
      → len p ≤ n
      → Gives crc id object whole t s (r.next_sequential_read_offset + len p)
      → RoundGives base target n (
          absorb crc source
            (record r { task = some t; shared = s; arrivals = arrivals })
            n
            response
            c
            (ok p))
  unfolding absorb
  absorb_lem base target n r t s arrivals response c p v h at some_len le g =
      let next : ℕ = r.next_sequential_read_offset in
      let sound = v.ready.sound in
      let (w, e, ends, max, kept) =
        push_lem crc id object r.window p next v.ready.window h at some_len
          (omega (arith, v, sound)) in
      let next' : next +w len p ≡ next + len p = omega (arith, v, sound) in
      rw (e, absorb, into_bytes_self p r.object_id next (h.id_same ∙ sym sound.id_is) at, next')
        (append_lem base target next n (moved r w (next + len p) t s arrivals) t response
          (c && is_from_cache p) p v.valid v.intact v.bytes v.ordered v.goal v.target_le
          sound.object_small h at some_len le
          (moved-IsReady crc id object whole r w (next + len p) t s arrivals sound
            (omega (arith, v)) ends g)
          refl refl)

  round_of :
      (base target n : ℕ) (r : Reader) (response : ChecksummedBytes) (c : Bool)
      (result : Outcome ReadError Part × Reader)
      → Reading base target r n response
      → Took crc id object whole r n result
      → RoundGives base target n (absorb crc source result.1 n response c result.0)
  round_of base target n r response c result v (took p t s arrivals h at some_len le g e) =
      rw e (absorb_lem base target n r t s arrivals response c p v h at some_len le g)
  round_of base target n r response c result v (failed x w e) =
      rw e (unfold absorb in (w, v.ready.sound))

  read_round_lem :
      (base target n : ℕ) (r : Reader) (response : ChecksummedBytes) (c : Bool)
      → Reading base target r n response
      → 0 < n
      → RoundGives base target n (read_round crc source r r.task n response c)
  unfolding read_round
  read_round_lem base target n r response c v pos =
      let (t, e) = v.task in
      let g =
        subst (λ k. TaskGives crc id object whole k r.shared r.next_sequential_read_offset) e
          v.ready.task in
      subst (λ k. RoundGives base target n (read_round crc source r k n response c)) (sym e)
        (round_of base target n r response c (read_task r t n) v
          (read_task_lem crc id object whole r t n v.ready.sound g (omega (arith, v)) pos))

  -- As much fuel as there are bytes to read is enough.
  pub read_loop_lem :
      (fuel base target n : ℕ) (r : Reader) (response : ChecksummedBytes) (c : Bool)
      → Reading base target r n response
      → n ≤ fuel
      → ReadsTo base target (read_loop crc source fuel r n response c)
  unfolding read_loop
  read_loop_lem fuel base target zero r response c v le =
      let e : r.next_sequential_read_offset ≡ target = omega (arith, v) in
      (v.valid, v.intact, v.bytes ∙ ap (slice object base) e, v.ready, e)
  read_loop_lem zero base target (suc n) r response c v le = absurd (omega arith)
  read_loop_lem (suc fuel) base target (suc n) r response c v le =
      goes_on (read_round crc source r r.task (suc n) response c)
        (read_round_lem base target (suc n) r response c v (omega arith))
        (λ n' r' response' c'. read_loop_lem fuel base target n' r' response' c')
    where
      goes_on :
          (x : ReadRound crc source)
          → RoundGives base target (suc n) x
          → ((n' : ℕ) (r' : Reader) (response' : ChecksummedBytes) (c' : Bool)
              → Reading base target r' n' response'
              → n' ≤ fuel
              → ReadsTo base target (read_loop crc source fuel r' n' response' c'))
          → ReadsTo base target (elim x [
            | done result r' ↦ (result, r')
            | more r' to_read response' from_cache' ↦
                read_loop crc source fuel r' to_read response' from_cache'
          ])
      goes_on (done result r') g rest = g
      goes_on (more r' n' response' c') g rest = rest n' r' response' c' g.1 (omega (arith, g.0))
