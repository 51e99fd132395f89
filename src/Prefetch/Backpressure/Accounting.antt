-- ===== src/Prefetch/Backpressure/Accounting.antt =====
-- What one read event guarantees: progress for the reader, and exact accounts of the memory.
use mountpoint_s.Prelude.{
  ℕ, ◌%◌, ◌+◌, ◌-◌, ◌≤◌, ◌<◌, ◌^◌, ◌≡◌, ◌⊎◌, inl, inr, some, none, Option, List, [], ◌∷◌, refl,
  arith, max, ltb, ltb→lt, ltb→le, Bool-cases,
}
use mountpoint_s.Memory.Limiter
use mountpoint_s.Memory.Limiter.{MemoryLimiter, pool_mem_reserved}
use mountpoint_s.Memory.Limiter.Bounds.{used}
use mountpoint_s.Prefetch.Backpressure.{
  Controller, Shared, send_feedback, data_read, drop, new, Config,
}
use mountpoint_s.Prefetch.Backpressure.Window.{IsValid}
use mountpoint_s.Prefetch.Backpressure.Feedback.{
  send_feedback-Fed, Fed-IsValid, read_up_to-IsValid, Fed-offsets, Fed-reserved,
}

-- For a valid controller, a memory limit below the largest `u64`, and a read that ends before
-- 2^62: a read event returns, and afterwards the reader can go on: the byte that it wants next is
-- within the read window, or the window reaches the end of the request. The next offset is that
-- after the read, the window never moves back nor past the end of the request (unless it was past
-- it already), and the controller stays valid.
pub send_feedback_progress :
    (c : Controller) (s : Shared) (offset length : ℕ)
    → IsValid c
    → s.mem_limiter.mem_limit < 2 ^ 64 - 1
    → offset + length < 2 ^ 62
    → (c' : Controller) × (s' : Shared) × (send_feedback c s (data_read offset length)
        ≡ some (c', s'))
      × ((offset + length < c'.read_window_end_offset)
          ⊎ (c'.request_end_offset ≤ c'.read_window_end_offset))
      × (c'.next_read_offset ≡ offset + length)
      × (c.read_window_end_offset ≤ c'.read_window_end_offset)
      × (c'.read_window_end_offset ≤ max c.read_window_end_offset c.request_end_offset)
      × IsValid c'
send_feedback_progress c s offset length v limit h =
    let (c', s', e, f) = send_feedback-Fed c s offset length v limit h in
    let (w, r, n, _, _) = Fed-offsets _ _ c' s' f in
    (
      c',
      s',
      e,
      rw (w, r) f.progress,
      n,
      omega arith,
      omega (arith, f),
      Fed-IsValid _ _ c' s' (read_up_to-IsValid c (offset + length) v) f,
    )

-- For a valid controller, a memory limit below the largest `u64`, and a read that ends before
-- 2^62, whatever its offset: a read event returns, the bytes read are released and the growth of
-- the read window is reserved, modulo 2^64. If the window grew, then the preferred size is at its
-- minimum, or all that the limiter counts is within its limit.
pub send_feedback_memory :
    (c : Controller) (s : Shared) (offset length : ℕ)
    → IsValid c
    → s.mem_limiter.mem_limit < 2 ^ 64 - 1
    → offset + length < 2 ^ 62
    → (c' : Controller) × (s' : Shared) × (send_feedback c s (data_read offset length)
        ≡ some (c', s'))
      × ((s'.mem_limiter.mem_reserved + length + c.read_window_end_offset) % 2 ^ 64
          ≡ (s.mem_limiter.mem_reserved + c'.read_window_end_offset) % 2 ^ 64)
      × ((c'.read_window_end_offset ≡ c.read_window_end_offset)
          ⊎ (c'.preferred_read_window_size ≤ c'.min_read_window_size)
          ⊎ (used s'.mem_limiter ≤ s'.mem_limiter.mem_limit))
unfolding Limiter.release pool_mem_reserved
send_feedback_memory c s offset length v limit h =
    let (c', s', e, f) = send_feedback-Fed c s offset length v limit h in
    let (w, _, _, p, m) = Fed-offsets _ _ c' s' f in
    let (r, l, pool, extra) = Fed-reserved _ _ c' s' f (omega arith) in
    (
      c',
      s',
      e,
      omega arith,
      elim f.limited [
        | inl z ↦ inl (omega arith)
        | inr (inl least) ↦ inr (inl (omega arith))
        | inr (inr fits) ↦ inr (inr (omega arith))
      ],
    )

-- A reader that takes the given lengths one after another, from the controller's next offset on.
abbrev pub consume : Controller → Shared → List ℕ → Option (Controller × Shared)
consume c s [] = some (c, s)
consume c s (length ∷ lengths) = elim (send_feedback c s (data_read c.next_read_offset length)) [
  | none ↦ none
  | some (c', s') ↦ consume c' s' lengths
]

abbrev pub sum : List ℕ → ℕ
sum [] = 0
sum (n ∷ ns) = n + sum ns

consume_lem :
    (c : Controller) (s : Shared) (lengths : List ℕ) (base : ℕ)
    → IsValid c
    → s.mem_limiter.mem_limit < 2 ^ 64 - 1
    → c.next_read_offset + sum lengths < 2 ^ 62
    → s.mem_limiter.mem_reserved < 2 ^ 64
    → (s.mem_limiter.mem_reserved + c.next_read_offset) % 2 ^ 64
      ≡ (base + c.read_window_end_offset) % 2 ^ 64
    → (c' : Controller) × (s' : Shared) × (consume c s lengths ≡ some (c', s'))
      × ((s'.mem_limiter.mem_reserved + c'.next_read_offset) % 2 ^ 64
          ≡ (base + c'.read_window_end_offset) % 2 ^ 64)
      × (c'.next_read_offset ≡ c.next_read_offset + sum lengths)
      × IsValid c'
      × (s'.mem_limiter.mem_reserved < 2 ^ 64)
unfolding Limiter.release
consume_lem c s [] base v limit h small b = (c, s, refl, b, omega arith, v, small)
consume_lem c s (length ∷ lengths) base v limit h small b =
    let (c', s', e, f) = send_feedback-Fed c s c.next_read_offset length v limit (omega arith) in
    let (w, _, n, _, _) = Fed-offsets _ _ c' s' f in
    let (r, l, _, _) = Fed-reserved _ _ c' s' f (omega arith) in
    let v' : IsValid c' = Fed-IsValid _ _ c' s' (read_up_to-IsValid c _ v) f in
    let (c'', s'', e', b', n', v'', small') =
      consume_lem c' s' lengths base v' (omega arith) (omega arith) (omega arith) (omega arith) in
    (c'', s'', rw (e, consume) e', b', omega arith, v'', small')

-- The life of a request: the controller is made, any lengths are read one after another, and it is
-- dropped. If the new controller is valid, the memory limit below the largest `u64`, the bytes
-- reserved and the end of the first window are `u64`s, and the reads end before 2^62: each read
-- event returns, and unless the reader has passed the end of the read window, the limiter is left
-- with exactly the bytes reserved that it had before.
pub life_cycle :
    (config : Config) (mem_limiter : MemoryLimiter) (lengths : List ℕ)
    → IsValid (new config mem_limiter).0
    → mem_limiter.mem_limit < 2 ^ 64 - 1
    → mem_limiter.mem_reserved < 2 ^ 64
    → config.request_start + config.initial_read_window_size < 2 ^ 64
    → config.request_start + sum lengths < 2 ^ 62
    → let (c, s) = new config mem_limiter in
      (c' : Controller) × (s' : Shared) × (consume c s lengths ≡ some (c', s'))
      × ((c'.read_window_end_offset < c'.next_read_offset)
          ⊎ ((drop c' s').mem_limiter.mem_reserved ≡ mem_limiter.mem_reserved))
unfolding new drop Limiter.release Limiter.reserve
life_cycle config mem_limiter lengths v limit small w h =
    let (c', s', e, b, n, v', small') =
      consume_lem (new config mem_limiter).0 (new config mem_limiter).1 lengths
        mem_limiter.mem_reserved v limit h (omega arith) (omega arith) in
    (
      c',
      s',
      e,
      elim (Bool-cases (ltb c'.read_window_end_offset c'.next_read_offset)) [
        | inl passed ↦ inl (ltb→lt _ _ passed)
        | inr within ↦ inr (omega (arith, ltb→le _ _ within))
      ],
    )
