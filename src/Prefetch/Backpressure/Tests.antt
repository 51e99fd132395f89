-- ===== src/Prefetch/Backpressure/Tests.antt =====
-- The two sides of backpressure at concrete inputs.
use mountpoint_s.Prelude.{◌%◌, ◌+◌, ◌≤◌, ◌<◌, ◌^◌, max, ◌≡◌, ◌⊎◌, true, some, [], ◌∷◌, arith}
use mountpoint_s.Memory.Limiter.{MemoryLimiter}
use mountpoint_s.Memory.Limiter.Bounds.{used}
use mountpoint_s.Prefetch.Backpressure
use mountpoint_s.Prefetch.Backpressure.{
  Controller, Shared, Config, align_to_part_size, data_read, send_feedback, drop,
}
use mountpoint_s.Prefetch.Backpressure.Window.{IsValid}
use mountpoint_s.Prefetch.Backpressure.Accounting.{
  send_feedback_progress, send_feedback_memory, consume, life_cycle,
}
use mountpoint_s.Prefetch.Backpressure.Producer.{Answered, wait_for_read_window_increment, wait_lem}

abbrev limiter : MemoryLimiter
limiter = record {
  mem_limit = 1000;
  mem_reserved = 100;
  additional_mem_reserved = 70;
  pool = record { get_object = 5; put_object = 40; disk_cache = 3; append = 2; other = 10 };
}

abbrev config : Config
config = record {
  initial_read_window_size = 64;
  min_read_window_size = 16;
  max_read_window_size = 256;
  read_window_size_multiplier = 2;
  request_start = 8;
  request_end = 500;
  read_window_alignment_config = align_to_part_size 72 16;
}

abbrev controller : Controller
controller = record {
  preferred_read_window_size = 64;
  min_read_window_size = 16;
  max_read_window_size = 256;
  read_window_size_multiplier = 2;
  read_window_end_offset = 72;
  next_read_offset = 8;
  request_end_offset = 500;
  read_window_alignment_config = align_to_part_size 72 16;
}

abbrev shared : Shared
shared = record { mem_limiter = limiter; increments = []; receiver_alive = true }

controller-IsValid : IsValid controller
controller-IsValid = omega arith

send_feedback_progress_example :
    (c' : Controller) × (s' : Shared) × (send_feedback controller shared (data_read 8 40)
      ≡ some (c', s'))
    × ((48 < c'.read_window_end_offset) ⊎ (c'.request_end_offset ≤ c'.read_window_end_offset))
    × (c'.next_read_offset ≡ 48)
    × (72 ≤ c'.read_window_end_offset)
    × (c'.read_window_end_offset ≤ max 72 500)
    × IsValid c'
send_feedback_progress_example =
    send_feedback_progress controller shared 8 40 controller-IsValid (omega arith) (omega arith)

send_feedback_memory_example :
    (c' : Controller) × (s' : Shared) × (send_feedback controller shared (data_read 8 40)
      ≡ some (c', s'))
    × ((s'.mem_limiter.mem_reserved + 40 + 72) % 2 ^ 64
        ≡ (100 + c'.read_window_end_offset) % 2 ^ 64)
    × ((c'.read_window_end_offset ≡ 72)
        ⊎ (c'.preferred_read_window_size ≤ c'.min_read_window_size)
        ⊎ (used s'.mem_limiter ≤ s'.mem_limiter.mem_limit))
send_feedback_memory_example =
    send_feedback_memory controller shared 8 40 controller-IsValid (omega arith) (omega arith)

life_cycle_example :
    (c' : Controller) × (s' : Shared) × (consume
        (Backpressure.new config limiter).0
        (Backpressure.new config limiter).1
        (40 ∷ 30 ∷ [])
      ≡ some (c', s'))
    × ((c'.read_window_end_offset < c'.next_read_offset)
        ⊎ ((drop c' s').mem_limiter.mem_reserved ≡ 100))
unfolding Backpressure.new
life_cycle_example =
    life_cycle config limiter (40 ∷ 30 ∷ []) controller-IsValid (omega arith) (omega arith)
      (omega arith) (omega arith)

wait_lem_example :
    Answered
      (record { read_window_end_offset = 72; request_end_offset = 500 })
      80
      6
      46
      (wait_for_read_window_increment
        (record { read_window_end_offset = 72; request_end_offset = 500 })
        80
        (4 ∷ 2 ∷ [])
        ((40 ∷ []) ∷ []))
wait_lem_example =
    wait_lem (record { read_window_end_offset = 72; request_end_offset = 500 }) 80 (4 ∷ 2 ∷ [])
      ((40 ∷ []) ∷ []) (omega arith)
