-- ===== src/Prefetch/Backpressure.antt =====
-- mountpoint-s3-fs/src/prefetch/backpressure_controller.rs, the consumer's side: how far ahead of the
-- reader the producer may go. The producer's side is in `Producer`.
--
-- The controller shares with others the memory limiter and the channel of read window increments:
-- both are in `Shared`, which an operation takes and gives back. `none` is a panic. The trace messages
-- and the metrics are left out.
pub mod Window
pub mod FeedbackLoop
pub mod Feedback
pub mod Accounting
pub mod Producer
mod Tests
use mountpoint_s.Prelude.{
  ℕ, zero, suc, ◌+◌, ◌-◌, ◌*◌, ◌/◌, ◌%◌, min, max, List, [], ◌∷◌, ◌++◌, Bool, true, false, ◌&&◌,
  Option, none, some, ltb, leb, ◌==◌, if◌then◌else◌, ◌+w◌, ◌-w◌, ◌*w◌, saturating_add,
}
use mountpoint_s.Memory.Limiter
use mountpoint_s.Memory.Limiter.{MemoryLimiter}

pub data Event : Type 0 where
  data_read : ℕ → ℕ → Event
  part_queue_stall : Event

pub data Alignment : Type 0 where
  align_to_part_size : ℕ → ℕ → Alignment
  disable : Alignment

-- `u64::next_multiple_of`, which panics for 0.
next_multiple_of : ℕ → ℕ → Option ℕ
next_multiple_of a b = if b == 0 then none else some (if a % b == 0 then a else a +w (b - a % b))

unfoldable pub align : Alignment → ℕ → Option ℕ
unfolding next_multiple_of
align (align_to_part_size from_offset part_size) read_window_end =
    if ltb from_offset read_window_end
    then elim (next_multiple_of (read_window_end -w from_offset) part_size) [
      | none ↦ none
      | some relative ↦ some (from_offset +w relative)
    ]
    else some read_window_end
align disable read_window_end = some read_window_end

pub record Config : Type 0 where
  pub initial_read_window_size : ℕ
  pub min_read_window_size : ℕ
  pub max_read_window_size : ℕ
  pub read_window_size_multiplier : ℕ
  pub request_start : ℕ
  pub request_end : ℕ
  pub read_window_alignment_config : Alignment

pub record Controller : Type 0 where
  pub preferred_read_window_size : ℕ
  pub min_read_window_size : ℕ
  pub max_read_window_size : ℕ
  pub read_window_size_multiplier : ℕ
  pub read_window_end_offset : ℕ
  pub next_read_offset : ℕ
  pub request_end_offset : ℕ
  pub read_window_alignment_config : Alignment

-- The limiter, and the channel: the increments sent and not yet received, and whether the receiver is
-- still there.
pub record Shared : Type 0 where
  pub mem_limiter : MemoryLimiter
  pub increments : List ℕ
  pub receiver_alive : Bool

-- `new_backpressure_controller`; the limiter that goes with it is `Producer.new`.
unfoldable pub new : Config → MemoryLimiter → Controller × Shared
unfolding Limiter.reserve
new config mem_limiter = (
  record {
    preferred_read_window_size = config.initial_read_window_size;
    min_read_window_size = config.min_read_window_size;
    max_read_window_size = config.max_read_window_size;
    read_window_size_multiplier = max config.read_window_size_multiplier 2;
    read_window_end_offset = config.request_start +w config.initial_read_window_size;
    next_read_offset = config.request_start;
    request_end_offset = config.request_end;
    read_window_alignment_config = config.read_window_alignment_config;
  },
  record {
    mem_limiter = Limiter.reserve mem_limiter config.initial_read_window_size;
    increments = [];
    receiver_alive = true;
  },
)

-- A send into a closed channel is ignored.
unfoldable pub increment_read_window : Controller → Shared → ℕ → Controller × Shared
increment_read_window c s len = (
  record c { read_window_end_offset = c.read_window_end_offset +w len },
  if s.receiver_alive then record s { increments = s.increments ++ (len ∷ []) } else s,
)

-- The new size is at least the minimum, then at most the maximum.
abbrev pub clamp : Controller → ℕ → ℕ
clamp c size = min (max size c.min_read_window_size) c.max_read_window_size

unfoldable pub scale_up : Controller → MemoryLimiter → Controller
scale_up c mem_limiter =
    let size = clamp c (c.preferred_read_window_size *w c.read_window_size_multiplier) in
    if ltb c.preferred_read_window_size c.max_read_window_size
    then (if leb (size -w c.preferred_read_window_size) (Limiter.available_mem mem_limiter)
        then record c { preferred_read_window_size = size }
        else c)
    else c

unfoldable pub scale_down : Controller → Option Controller
scale_down c =
    let size = clamp c (c.preferred_read_window_size / c.read_window_size_multiplier) in
    if ltb c.min_read_window_size c.preferred_read_window_size
    then (if ltb 1 c.read_window_size_multiplier
        then some (record c { preferred_read_window_size = size })
        else none)
    else some c

-- How a round of the loop in `send_feedback` ends: by `break`, or at its end.
pub data Round : Type 0 where
  stop again : Controller → Shared → Round

-- The rest of a round, with the aligned end of the window that is preferred. No other thread comes
-- between the rounds of `try_reserve`.
unfoldable pub grow : Controller → Shared → ℕ → Option Round
grow c s aligned =
    let new_end = min aligned c.request_end_offset in
    let to_increase = new_end - c.read_window_end_offset in
    let forced =
      increment_read_window c (record s { mem_limiter = Limiter.reserve s.mem_limiter to_increase })
        to_increase in
    let (mem_limiter, reserved) = Limiter.try_reserve s.mem_limiter to_increase [] in
    let granted = increment_read_window c (record s { mem_limiter = mem_limiter }) to_increase in
    if leb new_end c.read_window_end_offset
    then some (stop c s)
    else if leb c.preferred_read_window_size c.min_read_window_size
    then some (stop forced.0 forced.1)
    else if reserved
    then some (stop granted.0 granted.1)
    else elim (scale_down c) [ none ↦ none | some c' ↦ some (again c' s) ]

unfoldable pub round : Controller → Shared → Option Round
round c s =
    elim (align c.read_window_alignment_config
      (saturating_add c.next_read_offset c.preferred_read_window_size)) [
        | none ↦ none
        | some aligned ↦ grow c s aligned
      ]

-- The test of the loop.
unfoldable pub wants_more : Controller → ℕ → Bool
wants_more c remaining_window =
    ltb remaining_window (c.preferred_read_window_size / 2)
    && ltb c.read_window_end_offset c.request_end_offset

-- The loop, on fuel; a round that does not stop makes the preferred size smaller.
unfoldable pub feedback_loop : ℕ → Controller → Shared → ℕ → Option (Controller × Shared)
feedback_loop zero c s remaining_window = none
feedback_loop (suc fuel) c s remaining_window = elim (wants_more c remaining_window) [
  | false ↦ some (c, s)
  | true ↦ elim (round c s) [
    | none ↦ none
    | some (stop c' s') ↦ some (c', s')
    | some (again c' s') ↦ feedback_loop fuel c' s' remaining_window
  ]
]

unfoldable pub send_feedback : Controller → Shared → Event → Option (Controller × Shared)
send_feedback c s (data_read offset length) =
    let next = offset +w length in
    feedback_loop (c.preferred_read_window_size + 1) (record c { next_read_offset = next })
      (record s { mem_limiter = Limiter.release s.mem_limiter length })
      (c.read_window_end_offset - next)
send_feedback c s part_queue_stall = some (scale_up c s.mem_limiter, s)

-- `Drop`: what is left of the read window is released.
unfoldable pub drop : Controller → Shared → Shared
drop c s = record s {
  mem_limiter = Limiter.release s.mem_limiter (c.read_window_end_offset - c.next_read_offset);
}
