-- ===== src/Memory/SizePool/Tests.antt =====
-- A pool of pages at concrete inputs: a buffer is reserved, then another, and the first is dropped.
use mountpoint_s.Prelude.{ℕ, ◌*◌, refl, inr, arith, List, [], ◌∷◌, true, some, ◌≡◌}
use mountpoint_s.Memory.Stats.{BufferKind, PoolStats}
use mountpoint_s.Memory.Stats
use mountpoint_s.Memory.SizeStats
use mountpoint_s.Memory.SizeStats.{SizePoolStats, zero_stats}
use mountpoint_s.Memory.Bits.{zeros}
use mountpoint_s.Memory.Pages
use mountpoint_s.Memory.Pages.{Page, PagedBufferPtr}
use mountpoint_s.Memory.SizePool
use mountpoint_s.Memory.SizePool.{SizePool, reserve, trim, release_in}
use mountpoint_s.Memory.SizePool.Steps.{World, Steps, done, more, slow, fast, drop}
use mountpoint_s.Memory.SizePool.Safe.{Sound}
use mountpoint_s.Memory.SizePool.Grows.{Given}
use mountpoint_s.Memory.SizePool.Runs.{pool_safe, reserve_gives, release_gives, trim_frees}

abbrev first : PagedBufferPtr
first = record { ptr = 1000; pool_page = 1000; kind = BufferKind.append }

abbrev second : PagedBufferPtr
second = record { ptr = 1010; pool_page = 1000; kind = BufferKind.append }

abbrev stats : ℕ → ℕ → SizePoolStats
stats empty used = record {
  buffer_size = 10;
  empty_pages = empty;
  reserved_buffers = record {
    get_object = 0;
    put_object = 0;
    disk_cache = 0;
    append = used;
    other = 0;
  };
  pool_stats = record {
    get_object = 0;
    put_object = 0;
    disk_cache = 0;
    append = 10 * used;
    other = 0;
  };
}

abbrev start : World
start = record { pool = SizePool.new 10 zero_stats; live = [] }

abbrev with_first : World
with_first = record {
  pool = record {
    pages = record { bytes = 1000; reserved_bitmask = true ∷ zeros 15 } ∷ [];
    stats = stats 0 1;
  };
  live = first ∷ [];
}

abbrev with_both : World
with_both = record {
  pool = record {
    pages = record { bytes = 1000; reserved_bitmask = true ∷ true ∷ zeros 14 } ∷ [];
    stats = stats 0 2;
  };
  live = second ∷ first ∷ [];
}

abbrev with_none : World
with_none = record {
  pool = record {
    pages = record { bytes = 1000; reserved_bitmask = zeros 16 } ∷ [];
    stats = stats 1 0;
  };
  live = [];
}

to_first : Steps start with_first
unfolding SizePool.new SizeStats.new SizePool.reserve_slow SizePool.reserve_fast
    SizePool.try_get_buffer_ptr Pages.new Pages.try_reserve Pages.consume Pages.consume_loop
    SizeStats.add_empty_page SizeStats.remove_empty_page SizeStats.add_reserved_buffer
    Stats.reserve_bytes Stats.reserved_bytes
to_first = more done (slow BufferKind.append 1000 first tt refl)

to_both : Steps start with_both
unfolding SizePool.reserve_fast SizePool.try_get_buffer_ptr Pages.try_reserve Pages.consume
    Pages.consume_loop SizeStats.add_reserved_buffer Stats.reserve_bytes Stats.reserved_bytes
to_both = more to_first (fast BufferKind.append second refl)

to_none : Steps start with_none
unfolding SizePool.release_in Pages.release SizeStats.remove_reserved_buffer
    SizeStats.add_empty_page Stats.release_bytes Stats.reserved_bytes
to_none = more to_first (drop [] [] first refl)

pool_safe_example : Sound with_both
pool_safe_example = pool_safe 10 zero_stats with_both (omega arith) to_both

reserve_gives_example : Given with_both.live (reserve BufferKind.other 5000 with_both.pool)
reserve_gives_example =
    reserve_gives 10 zero_stats with_both BufferKind.other 5000 (omega arith) to_both
      (inr (omega arith), tt) (omega arith)

release_gives_example :
    (pages : List Page) × (stats' : SizePoolStats) × (release_in first with_both.pool.pages
        with_both.pool.stats
      ≡ some (pages, stats'))
release_gives_example =
    release_gives 10 zero_stats with_both (second ∷ []) [] first (omega arith) to_both refl

trim_frees_example : (trim with_none.pool).1.pages ≡ []
trim_frees_example = trim_frees 10 zero_stats with_none (omega arith) to_none refl (omega arith)
