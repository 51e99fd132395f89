-- ===== src/Prefetch/Backpressure/Window.antt =====
-- How one event changes the controller: the read window grows enough for the reader to go on, within
-- the request, and the loop ends.
use mountpoint_s.Prelude.{
  ℕ, ◌+◌, ◌-◌, ◌/◌, ◌%◌, ◌≤◌, ◌<◌, ◌^◌, min, ◌≡◌, refl, ◌⊎◌, inl, inr, [], ◌∷◌, ◌++◌, Option, some,
  arith, ltb, leb, ltb→lt, ◌==◌, if◌then◌else◌, Bool-cases, ◌-w◌, eqb→ne,
}
use mountpoint_s.Memory.Limiter
use mountpoint_s.Memory.Limiter.{MemoryLimiter}
use mountpoint_s.Memory.Limiter.Bounds.{used, try_reserve_alone}
use mountpoint_s.Prefetch.Backpressure.{
  Alignment, align_to_part_size, disable, next_multiple_of, align, Controller, Shared,
  increment_read_window, clamp, scale_down, Round, stop, again, grow,
}

abbrev pub IsAligned : Alignment → Type 0
IsAligned (align_to_part_size from_offset part_size) =
    (from_offset < 2 ^ 62) × (0 < part_size) × (part_size < 2 ^ 62)
IsAligned disable = Unit

-- Sizes that make sense: windows of two bytes at least, and offsets far from the end of the `u64`s.
pub record IsValid (c : Controller) : Type 0 where
  pub min_two : 2 ≤ c.min_read_window_size
  pub max_two : 2 ≤ c.max_read_window_size
  pub max_small : c.max_read_window_size < 2 ^ 62
  pub preferred_two : 2 ≤ c.preferred_read_window_size
  pub preferred_small : c.preferred_read_window_size < 2 ^ 62
  pub multiplier_two : 2 ≤ c.read_window_size_multiplier
  pub end_small : c.request_end_offset < 2 ^ 62
  pub window_small : c.read_window_end_offset < 2 ^ 63
  pub aligned : IsAligned c.read_window_alignment_config

next_multiple_of_lem :
    (a b : ℕ)
    → 0 < b
    → a + b < 2 ^ 64
    → (m : ℕ) × (next_multiple_of a b ≡ some m) × (a ≤ m) × (m < a + b)
unfolding next_multiple_of
next_multiple_of_lem a b pos small = elim (Bool-cases (a % b == 0)) [
  | inl whole ↦ (a, ground arith, omega arith, omega arith)
  | inr part ↦ (a + (b - a % b), ground arith, grind arith, omega (arith, eqb→ne _ _ part))
]

-- The aligned end of the window is not before the end that is asked for.
pub align_lem :
    (cfg : Alignment) (x : ℕ)
    → IsAligned cfg
    → x < 2 ^ 63
    → (y : ℕ) × (align cfg x ≡ some y) × (x ≤ y)
unfolding align
align_lem disable x h small = (x, refl, omega arith)
align_lem (align_to_part_size from part) x h small = elim (Bool-cases (ltb from x)) [
  | inr before ↦ (x, ground arith, omega arith)
  | inl after ↦
      let (m, e, le, lt) =
        next_multiple_of_lem (x -w from) part h.1 (omega (arith, ltb→lt _ _ after)) in
      (from + m, ground (arith, e), omega (arith, ltb→lt _ _ after))
]

div-lt : (p m : ℕ) → 2 ≤ m → 0 < p → p / m < p
div-lt p m h pos = grind arith

-- The controller and what it shares after the window has grown by `n`.
abbrev pub grown : Controller → ℕ → Controller
grown c n = record c { read_window_end_offset = c.read_window_end_offset + n }

abbrev pub charged : Shared → ℕ → Shared
charged s n = record s {
  mem_limiter = Limiter.reserve s.mem_limiter n;
  increments = if s.receiver_alive then s.increments ++ (n ∷ []) else s.increments;
}

abbrev pub resized : Controller → ℕ → Controller
resized c p = record c { preferred_read_window_size = p }

scale_down_lem :
    (c : Controller)
    → IsValid c
    → c.min_read_window_size < c.preferred_read_window_size
    → (p : ℕ) × (scale_down c ≡ some (resized c p)) × (2 ≤ p) × (p < c.preferred_read_window_size)
unfolding scale_down
scale_down_lem c v h = (
  clamp c (c.preferred_read_window_size / c.read_window_size_multiplier),
  ground (arith, v),
  omega (arith, v),
  omega (
    arith,
    h,
    div-lt c.preferred_read_window_size c.read_window_size_multiplier v.multiplier_two
        (omega (arith, v)),
  ),
)

-- How a round ends, when the aligned end of the window is `aligned`.
pub data Ends (c : Controller) (s : Shared) (r : Option Round) : Type 0 where
  grows :
      (n : ℕ)
      → 0 < n
      → c.read_window_end_offset + n ≤ c.request_end_offset
      → (c.next_read_offset + c.preferred_read_window_size ≤ c.read_window_end_offset + n)
        ⊎ (c.request_end_offset ≤ c.read_window_end_offset + n)
      → (c.preferred_read_window_size ≤ c.min_read_window_size)
        ⊎ (used s.mem_limiter + n ≤ s.mem_limiter.mem_limit)
      → r ≡ some (stop (grown c n) (charged s n))
      → Ends c s r
  enough :
      c.next_read_offset + c.preferred_read_window_size ≤ c.read_window_end_offset
      → r ≡ some (stop c s)
      → Ends c s r
  shrinks :
      (p : ℕ)
      → 2 ≤ p
      → p < c.preferred_read_window_size
      → r ≡ some (again (resized c p) s)
      → Ends c s r

increment_lem :
    (c : Controller) (s : Shared) (n : ℕ) (m : MemoryLimiter)
    → c.read_window_end_offset + n < 2 ^ 64
    → m ≡ Limiter.reserve s.mem_limiter n
    → increment_read_window c (record s { mem_limiter = m }) n ≡ (grown c n, charged s n)
unfolding increment_read_window
increment_lem c s n m small e = elim (Bool-cases s.receiver_alive) [
  | inl alive ↦ ground (arith, e)
  | inr gone ↦ ground (arith, e)
]

-- A reservation that is granted is what `reserve` does.
granted_lem :
    (l : MemoryLimiter) (n : ℕ)
    → used l + n < 2 ^ 64
    → record l { mem_reserved = l.mem_reserved + n } ≡ Limiter.reserve l n
unfolding Limiter.reserve
granted_lem l n h = ground arith

pub grow_lem :
    (c : Controller) (s : Shared) (aligned : ℕ)
    → IsValid c
    → s.mem_limiter.mem_limit < 2 ^ 64 - 1
    → c.next_read_offset + c.preferred_read_window_size ≤ aligned
    → c.read_window_end_offset < c.request_end_offset
    → Ends c s (grow c s aligned)
unfolding grow
grow_lem c s aligned v limit h room =
    let n : ℕ = min aligned c.request_end_offset - c.read_window_end_offset in
    let small : c.read_window_end_offset + n < 2 ^ 64 = omega (arith, v) in
    elim (Bool-cases (leb (min aligned c.request_end_offset) c.read_window_end_offset)) [
      | inl far ↦ enough (ground (arith, v)) (rw far)
      | inr near ↦ elim (Bool-cases (leb c.preferred_read_window_size c.min_read_window_size)) [
        | inl least ↦
            grows n (ground arith) (ground arith) (ground arith) (inl (ground arith))
              (rw (near, least, increment_lem c s n (Limiter.reserve s.mem_limiter n) small refl))
        | inr larger ↦ elim (try_reserve_alone s.mem_limiter n limit) [
          | inl (fits, e) ↦ grows n (ground arith) (ground arith) (ground arith) (inr fits) (
              rw (
                near,
                larger,
                e,
                increment_lem c s n _ small (granted_lem s.mem_limiter n (omega arith)),
              ))
          | inr (full, e) ↦
              let (p, e', two, less) = scale_down_lem c v (ground arith) in
              shrinks p two less (rw (near, larger, e, e'))
        ]
      ]
    ]
