-- ===== src/Prefetch/Reader/Skips.antt =====
-- Seeks: a seek that succeeds leaves a reader that goes on at the offset.
use mathlib.Core.Path.{subst}
use mountpoint_s.Prelude.{
  ℕ, zero, suc, ◌+◌, ◌-◌, ◌≤◌, ◌<◌, ◌≡◌, ◌≢◌, refl, sym, List, Bool, true, false, Option, none,
  some, Outcome, ok, err, panic, arith, length, ltb, leb, ltb→lt, ltb→le, ne→eqb, ◌+w◌, ◌-w◌,
  saturating_add, Bool-cases, inl, inr,
}
use mountpoint_s.Checksums.{Crc}
use mountpoint_s.Prefetch.Errors.{ReadError}
use mountpoint_s.Prefetch.Part.{ObjectId, Part, len}
use mountpoint_s.Prefetch.Stream.{Holds, Run}
use mountpoint_s.Prefetch.SeekWindow.Inv.{EndsAt, push_lem}
use mountpoint_s.Prefetch.SeekWindow.Back.{read_back_lem}
use mountpoint_s.Prefetch.Backpressure.{Shared}
use mountpoint_s.Prefetch.Task
use mountpoint_s.Prefetch.Task.{RequestTask}
use mountpoint_s.Prefetch.Task.Reads.{Gives, task_push_front_lem}
use mountpoint_s.Prefetch.Reader.{Reader, read_task}
use mountpoint_s.Prefetch.Reader.Seek.{
  SkipRound, done, more, skip, skip_round, skip_loop, try_seek_forward, try_seek_backward, try_seek,
}
use mountpoint_s.Prefetch.Reader.Invariant.{
  IsSound, IsReady, TaskGives, Took, took, failed, read_task_lem, moved-IsReady,
}

module _ (crc : Crc) (id : ObjectId) (object : List ℕ) (whole : Bool) where
  -- How an attempt to seek may end: at the offset; not, which leaves a reader to be reset; or with an
  -- error, if the producer may fail.
  abbrev pub Seeks : ℕ → Outcome ReadError Bool × Reader → Type 0
  Seeks target (ok true, r) =
      IsReady crc id object whole r × (r.next_sequential_read_offset ≡ target)
  Seeks target (ok false, r) = IsSound crc id object whole r
  Seeks target (err e, r) = (whole ≡ false) × IsSound crc id object whole r
  Seeks target (panic, r) = ⊥

  -- Between two rounds of the forward loop.
  record Skipping (target : ℕ) (r : Reader) (distance : ℕ) : Type 0 where
    ready : IsReady crc id object whole r
    goal : r.next_sequential_read_offset + distance ≡ target
    target_le : target ≤ length object
    task : (t : RequestTask) × (r.task ≡ some t)

  abbrev SkipGives : ℕ → ℕ → SkipRound → Type 0
  SkipGives target n (done result r) = Seeks target (result, r)
  SkipGives target n (more r n') = (n' < n) × Skipping target r n'

  skip_lem :
      (target n : ℕ) (r : Reader) (t : RequestTask) (s : Shared) (arrivals : List ℕ) (p : Part)
      → Skipping target r n
      → Holds crc id object p
      → p.offset ≡ r.next_sequential_read_offset
      → 0 < len p
      → len p ≤ n
      → Gives crc id object whole t s (r.next_sequential_read_offset + len p)
      → SkipGives target n
          (skip (record r { task = some t; shared = s; arrivals = arrivals }) n (ok p))
  unfolding skip
  skip_lem target n r t s arrivals p v h at some_len le g =
      let next : ℕ = r.next_sequential_read_offset in
      let sound = v.ready.sound in
      let (w, pushed, ends, max, kept) =
        push_lem crc id object r.window p next v.ready.window h at some_len
          (omega (arith, v, sound)) in
      let next' : next +w len p ≡ next + len p = omega (arith, v, sound) in
      rw (pushed, skip, next')
        (
          omega (arith, v, sound),
          record {
            ready =
                moved-IsReady crc id object whole r w (next + len p) t s arrivals sound
                  (omega (arith, v)) ends g;
            goal = omega (arith, v, sound);
            target_le = v.target_le;
            task = (t, refl);
          },
        )

  skip_of :
      (target n : ℕ) (r : Reader) (result : Outcome ReadError Part × Reader)
      → Skipping target r n
      → Took crc id object whole r n result
      → SkipGives target n (skip result.1 n result.0)
  skip_of target n r result v (failed x w e) = rw e (unfold skip in (w, v.ready.sound))
  skip_of target n r result v (took p t s arrivals h at some_len le g e) =
      rw e (skip_lem target n r t s arrivals p v h at some_len le g)

  skip_round_lem :
      (target n : ℕ) (r : Reader)
      → Skipping target r n
      → 0 < n
      → SkipGives target n (skip_round r r.task n)
  unfolding skip_round
  skip_round_lem target n r v pos =
      let (t, e) = v.task in
      let g =
        subst (λ k. TaskGives crc id object whole k r.shared r.next_sequential_read_offset) e
          v.ready.task in
      subst (λ k. SkipGives target n (skip_round r k n)) (sym e)
        (skip_of target n r (read_task r t n) v
          (read_task_lem crc id object whole r t n v.ready.sound g (omega (arith, v)) pos))

  -- As much fuel as there are bytes to skip is enough.
  skip_loop_lem :
      (fuel target n : ℕ) (r : Reader)
      → Skipping target r n
      → n ≤ fuel
      → Seeks target (skip_loop fuel r n)
  unfolding skip_loop
  skip_loop_lem fuel target zero r v le = (v.ready, omega (arith, v))
  skip_loop_lem zero target (suc n) r v le = absurd (omega arith)
  skip_loop_lem (suc fuel) target (suc n) r v le =
      goes_on (skip_round r r.task (suc n)) (skip_round_lem target (suc n) r v (omega arith))
        (λ n' r'. skip_loop_lem fuel target n' r')
    where
      goes_on :
          (x : SkipRound)
          → SkipGives target (suc n) x
          → ((n' : ℕ) (r' : Reader)
              → Skipping target r' n'
              → n' ≤ fuel
              → Seeks target (skip_loop fuel r' n'))
          → Seeks target (elim x [
            | done result r' ↦ (result, r')
            | more r' distance ↦ skip_loop fuel r' distance
          ])
      goes_on (done result r') g rest = g
      goes_on (more r' n') g rest = rest n' r' g.1 (omega (arith, g.0))

  forward_lem :
      (target : ℕ) (r : Reader) (task : Option RequestTask)
      → r.task ≡ task
      → IsReady crc id object whole r
      → r.next_sequential_read_offset < target
      → target ≤ length object
      → Seeks target (try_seek_forward r task target)
  unfolding try_seek_forward
  forward_lem target r none e v lt le = v.sound
  forward_lem target r (some t) e v lt le =
      let distance : target -w r.next_sequential_read_offset
          ≡ target - r.next_sequential_read_offset =
        omega (arith, v.sound) in
      rw distance (elim (Bool-cases (leb t.controller.read_window_end_offset target)) [
        | inl out ↦ rw out v.sound
        | inr inside ↦
            rw inside
              (elim (Bool-cases (
                leb
                  (saturating_add (Task.available_offset t) r.config.max_forward_seek_wait_distance)
                  target)) [
                    | inl late ↦ rw late v.sound
                    | inr soon ↦ rw soon (
                        skip_loop_lem (target - r.next_sequential_read_offset) target
                          (target - r.next_sequential_read_offset) r
                          (record { ready = v; goal = omega arith; target_le = le; task = (t, e) })
                          (omega arith))
                  ])
      ])

  backward_lem :
      (target : ℕ) (r : Reader) (task : Option RequestTask)
      → r.task ≡ task
      → IsReady crc id object whole r
      → target < r.next_sequential_read_offset
      → Seeks target (try_seek_backward r task target)
  unfolding try_seek_backward
  backward_lem target r none e v lt = v.sound
  backward_lem target r (some t) e v lt =
      let next : ℕ = r.next_sequential_read_offset in
      let n : ℕ = next -w target in
      let sound = v.sound in
      let back : next - n ≡ target = omega (arith, v, sound) in
      elim (read_back_lem crc id object r.window next n (omega (arith, sound)) v.window) [
        | inr (little, same) ↦ rw (same, try_seek_backward) sound
        | inl (enough, parts, w, e', run, ends, max) ↦
            let g = subst (λ k. TaskGives crc id object whole k r.shared next) e v.task in
            let (t', s', pushed, g') =
              task_push_front_lem crc id object whole parts t r.shared target next
                (omega (arith, sound)) (subst (λ k. Run crc id object parts k next) back run) g in
            rw (e', try_seek_backward, pushed)
              (
                moved-IsReady crc id object whole r w target t' s' r.arrivals sound
                    (omega (arith, v)) (subst (λ k. EndsAt crc id object w k) back ends) g',
                refl,
              )
      ]

  -- From a ready reader, a seek elsewhere in the object ends in one of these ways.
  pub try_seek_lem :
      (target : ℕ) (r : Reader)
      → IsReady crc id object whole r
      → target ≢ r.next_sequential_read_offset
      → target ≤ length object
      → Seeks target (try_seek r target)
  unfolding try_seek
  try_seek_lem target r v differ le =
      rw (ne→eqb target r.next_sequential_read_offset differ)
        (elim (Bool-cases (ltb r.next_sequential_read_offset target)) [
          | inl forward ↦ rw forward (forward_lem target r r.task refl v (ltb→lt _ _ forward) le)
          | inr backward ↦
              rw backward (backward_lem target r r.task refl v (omega (arith, ltb→le _ _ backward)))
        ])
