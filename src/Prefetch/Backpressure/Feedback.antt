-- ===== src/Prefetch/Backpressure/Feedback.antt =====
-- The loop of `send_feedback` as a whole: it ends, the reader can go on, and memory is accounted for.
use mathlib.Core.Path.{subst}
use mountpoint_s.Prelude.{
  ℕ, ◌+◌, ◌-◌, ◌<◌, ◌^◌, ◌≡◌, refl, sym, ap, ◌⊎◌, inl, inr, some, arith, Bool-cases, ◌+w◌, ltb, leb,
  ◌-w◌, ◌*w◌,
}
use mountpoint_s.Memory.Limiter
use mountpoint_s.Memory.Limiter.{MemoryLimiter, pool_mem_reserved, available_mem}
use mountpoint_s.Prefetch.Backpressure.{
  Controller, Shared, send_feedback, data_read, scale_up, clamp,
}
use mountpoint_s.Prefetch.Backpressure.Window.{IsValid, charged}
use mountpoint_s.Prefetch.Backpressure.FeedbackLoop.{Fed, feedback_loop_lem}

-- The controller and what it shares when the loop starts.
abbrev pub read_up_to : Controller → ℕ → Controller
read_up_to c next = record c { next_read_offset = next }

abbrev pub released : Shared → ℕ → Shared
released s length = record s { mem_limiter = Limiter.release s.mem_limiter length }

pub read_up_to-IsValid : (c : Controller) (next : ℕ) → IsValid c → IsValid (read_up_to c next)
read_up_to-IsValid c next v = record {
  min_two = v.min_two;
  max_two = v.max_two;
  max_small = v.max_small;
  preferred_two = v.preferred_two;
  preferred_small = v.preferred_small;
  multiplier_two = v.multiplier_two;
  end_small = v.end_small;
  window_small = v.window_small;
  aligned = v.aligned;
}

-- A read event always leads to a controller and a shared state of the kind that `Fed` describes.
pub send_feedback-Fed :
    (c : Controller) (s : Shared) (offset length : ℕ)
    → IsValid c
    → s.mem_limiter.mem_limit < 2 ^ 64 - 1
    → offset + length < 2 ^ 62
    → (c' : Controller) × (s' : Shared) × (send_feedback c s (data_read offset length)
        ≡ some (c', s'))
      × Fed (read_up_to c (offset + length)) (released s length) c' s'
unfolding send_feedback Limiter.release
send_feedback-Fed c s offset length v limit h =
    let next : offset +w length ≡ offset + length = omega arith in
    rw next (
      feedback_loop_lem (c.preferred_read_window_size + 1) (read_up_to c (offset + length))
        (released s length) (c.read_window_end_offset - (offset + length))
        (read_up_to-IsValid c (offset + length) v) limit h refl (omega arith))

pub Fed-IsValid :
    (c : Controller) (s : Shared) (c' : Controller) (s' : Shared)
    → IsValid c
    → Fed c s c' s'
    → IsValid c'
Fed-IsValid c s c' s' v f = subst IsValid (sym f.controller) (record {
  min_two = v.min_two;
  max_two = v.max_two;
  max_small = v.max_small;
  preferred_two = f.size_two;
  preferred_small = omega (arith, v, f);
  multiplier_two = v.multiplier_two;
  end_small = v.end_small;
  window_small = omega (arith, v, f);
  aligned = v.aligned;
})

-- The offsets after an event.
pub Fed-offsets :
    (c : Controller) (s : Shared) (c' : Controller) (s' : Shared) (f : Fed c s c' s')
    → (c'.read_window_end_offset ≡ c.read_window_end_offset + f.n)
      × (c'.request_end_offset ≡ c.request_end_offset)
      × (c'.next_read_offset ≡ c.next_read_offset)
      × (c'.preferred_read_window_size ≡ f.p)
      × (c'.min_read_window_size ≡ c.min_read_window_size)
Fed-offsets c s c' s' f = (
  ap (λ (k : Controller). k.read_window_end_offset) f.controller,
  ap (λ (k : Controller). k.request_end_offset) f.controller,
  ap (λ (k : Controller). k.next_read_offset) f.controller,
  ap (λ (k : Controller). k.preferred_read_window_size) f.controller,
  ap (λ (k : Controller). k.min_read_window_size) f.controller,
)

-- The memory after the window has grown by `n`.
charged_lem :
    (s s' : Shared) (n : ℕ)
    → ((n ≡ 0) × (s' ≡ s)) ⊎ ((0 < n) × (s' ≡ charged s n))
    → s.mem_limiter.mem_reserved < 2 ^ 64
    → (s'.mem_limiter.mem_reserved ≡ s.mem_limiter.mem_reserved +w n)
      × (s'.mem_limiter.mem_limit ≡ s.mem_limiter.mem_limit)
      × (pool_mem_reserved s'.mem_limiter ≡ pool_mem_reserved s.mem_limiter)
      × (s'.mem_limiter.additional_mem_reserved ≡ s.mem_limiter.additional_mem_reserved)
unfolding Limiter.reserve pool_mem_reserved
charged_lem s s' n (inl (z, e)) h = rw e (rw z (omega arith, refl, refl, refl))
charged_lem s s' n (inr (pos, e)) h = rw e (refl, refl, refl, refl)

pub Fed-reserved :
    (c : Controller) (s : Shared) (c' : Controller) (s' : Shared) (f : Fed c s c' s')
    → s.mem_limiter.mem_reserved < 2 ^ 64
    → (s'.mem_limiter.mem_reserved ≡ s.mem_limiter.mem_reserved +w f.n)
      × (s'.mem_limiter.mem_limit ≡ s.mem_limiter.mem_limit)
      × (pool_mem_reserved s'.mem_limiter ≡ pool_mem_reserved s.mem_limiter)
      × (s'.mem_limiter.additional_mem_reserved ≡ s.mem_limiter.additional_mem_reserved)
Fed-reserved c s c' s' f = charged_lem s s' f.n f.shared

-- Scaling up keeps the sizes sensible, and touches nothing but the preferred size.
pub scale_up-IsValid :
    (c : Controller) (m : MemoryLimiter)
    → IsValid c
    → IsValid (scale_up c m) × ((scale_up c m).next_read_offset ≡ c.next_read_offset)
unfolding scale_up
scale_up-IsValid c m v =
    elim (Bool-cases (ltb c.preferred_read_window_size c.max_read_window_size)) [
      | inr most ↦ rw most (v, refl)
      | inl less ↦
          elim (Bool-cases (leb (size -w c.preferred_read_window_size) (available_mem m))) [
            | inr little ↦ rw (less, little) (v, refl)
            | inl affordable ↦
                rw (less, affordable)
                  (
                    record {
                      min_two = v.min_two;
                      max_two = v.max_two;
                      max_small = v.max_small;
                      preferred_two = omega (arith, v);
                      preferred_small = omega (arith, v);
                      multiplier_two = v.multiplier_two;
                      end_small = v.end_small;
                      window_small = v.window_small;
                      aligned = v.aligned;
                    },
                    refl,
                  )
          ]
    ]
  where
    size : ℕ
    size = clamp c (c.preferred_read_window_size *w c.read_window_size_multiplier)
