-- ===== src/Prefetch/Backpressure/FeedbackLoop.antt =====
-- The rounds of the loop of `send_feedback`: it ends, and what it has changed then.
use mountpoint_s.Prelude.{
  ℕ, zero, suc, ◌+◌, ◌-◌, ◌≤◌, ◌<◌, ◌^◌, max, ◌≡◌, refl, ◌⊎◌, inl, inr, true, false, some, arith,
  Bool-cases, saturating_add, ◌/◌,
}
use mountpoint_s.Memory.Limiter.Bounds.{used}
use mountpoint_s.Prefetch.Backpressure.{Controller, Shared, round, wants_more, feedback_loop}
use mountpoint_s.Prefetch.Backpressure.Window.{
  IsValid, align_lem, grown, charged, resized, Ends, grows, enough, shrinks, grow_lem,
}

round_lem :
    (c : Controller) (s : Shared)
    → IsValid c
    → s.mem_limiter.mem_limit < 2 ^ 64 - 1
    → c.next_read_offset < 2 ^ 62
    → c.read_window_end_offset < c.request_end_offset
    → Ends c s (round c s)
unfolding round
round_lem c s v limit h room =
    let sum : saturating_add c.next_read_offset c.preferred_read_window_size
        ≡ c.next_read_offset + c.preferred_read_window_size =
      omega (arith, v) in
    let (y, e, le) =
      align_lem c.read_window_alignment_config
        (saturating_add c.next_read_offset c.preferred_read_window_size) v.aligned
        (omega (arith, v)) in
    rw (e, round) (grow_lem c s y v limit (omega arith) room)

-- What an event leads to: the window grew by `n`, and the preferred size is `p`.
pub record Fed (c : Controller) (s : Shared) (c' : Controller) (s' : Shared) : Type 0 where
  pub n : ℕ
  pub p : ℕ
  pub controller : c' ≡ grown (resized c p) n
  pub shared : ((n ≡ 0) × (s' ≡ s)) ⊎ ((0 < n) × (s' ≡ charged s n))
  pub size_two : 2 ≤ p
  pub size_le : p ≤ c.preferred_read_window_size
  pub in_request : c.read_window_end_offset + n ≤ max c.read_window_end_offset c.request_end_offset
  pub progress :
      (c.next_read_offset < c.read_window_end_offset + n)
      ⊎ (c.request_end_offset ≤ c.read_window_end_offset + n)
  pub limited :
      (n ≡ 0) ⊎ (p ≤ c.min_read_window_size) ⊎ (used s.mem_limiter + n ≤ s.mem_limiter.mem_limit)

resized-IsValid :
    (c : Controller) (p : ℕ)
    → IsValid c
    → 2 ≤ p
    → p < c.preferred_read_window_size
    → IsValid (resized c p)
resized-IsValid c p v two less = record {
  min_two = v.min_two;
  max_two = v.max_two;
  max_small = v.max_small;
  preferred_two = two;
  preferred_small = omega (arith, v);
  multiplier_two = v.multiplier_two;
  end_small = v.end_small;
  window_small = v.window_small;
  aligned = v.aligned;
}

wants_more_room :
    (c : Controller) (remaining : ℕ)
    → wants_more c remaining ≡ true
    → c.read_window_end_offset < c.request_end_offset
unfolding wants_more
wants_more_room c remaining h = ground arith

wants_more_done :
    (c : Controller) (remaining : ℕ)
    → wants_more c remaining ≡ false
    → (c.preferred_read_window_size / 2 ≤ remaining)
      ⊎ (c.request_end_offset ≤ c.read_window_end_offset)
unfolding wants_more
wants_more_done c remaining h = ground arith

pub feedback_loop_lem :
    (fuel : ℕ) (c : Controller) (s : Shared) (remaining : ℕ)
    → IsValid c
    → s.mem_limiter.mem_limit < 2 ^ 64 - 1
    → c.next_read_offset < 2 ^ 62
    → remaining ≡ c.read_window_end_offset - c.next_read_offset
    → c.preferred_read_window_size < fuel
    → (c' : Controller) × (s' : Shared) × (feedback_loop fuel c s remaining ≡ some (c', s'))
      × Fed c s c' s'
unfolding feedback_loop
feedback_loop_lem zero c s remaining v limit h e f = absurd (omega arith)
feedback_loop_lem (suc fuel) c s remaining v limit h e f =
    elim (Bool-cases (wants_more c remaining)) [
      | inr done ↦ (
        c,
        s,
        ground (arith, done),
        record {
          n = 0;
          p = c.preferred_read_window_size;
          controller = ground arith;
          shared = inl (refl, refl);
          size_two = v.preferred_two;
          size_le = omega arith;
          in_request = omega arith;
          progress = progress_of (wants_more_done c remaining done);
          limited = inl refl;
        },
      )
      | inl more ↦ elim (round_lem c s v limit h (wants_more_room c remaining more)) [
        | grows n pos within far fits r ↦ (
          grown c n,
          charged s n,
          rw (more, feedback_loop, r),
          record {
            n = n;
            p = c.preferred_read_window_size;
            controller = refl;
            shared = inr (pos, refl);
            size_two = v.preferred_two;
            size_le = omega arith;
            in_request = omega arith;
            progress = ground (arith, v);
            limited = inr fits;
          },
        )
        | enough far r ↦ (
          c,
          s,
          rw (more, feedback_loop, r),
          record {
            n = 0;
            p = c.preferred_read_window_size;
            controller = ground arith;
            shared = inl (refl, refl);
            size_two = v.preferred_two;
            size_le = omega arith;
            in_request = omega arith;
            progress = ground (arith, v);
            limited = inl refl;
          },
        )
        | shrinks p two less r ↦
            let (c', s', e', fed) =
              feedback_loop_lem fuel (resized c p) s remaining (resized-IsValid c p v two less)
                limit h e (omega arith) in
            (
              c',
              s',
              rw (more, feedback_loop, r) e',
              record {
                n = fed.n;
                p = fed.p;
                controller = fed.controller;
                shared = fed.shared;
                size_two = fed.size_two;
                size_le = omega (arith, fed);
                in_request = fed.in_request;
                progress = fed.progress;
                limited = fed.limited;
              },
            )
      ]
    ]
  where
    progress_of :
        (c.preferred_read_window_size / 2 ≤ remaining)
          ⊎ (c.request_end_offset ≤ c.read_window_end_offset)
        → (c.next_read_offset < c.read_window_end_offset + 0)
          ⊎ (c.request_end_offset ≤ c.read_window_end_offset + 0)
    progress_of d = ground (arith, v)
