-- ===== src/Memory/Limiter.antt =====
-- mountpoint-s3-fs/src/mem_limiter.rs: `MemoryLimiter`, shared by the readers and the writers.
--
-- An operation takes the limiter and returns it as the call leaves it. In `try_reserve` what
-- other threads do meanwhile is the list `seen`, with an element for each failed
-- `compare_exchange_weak`: the value of `mem_reserved` that it shows, and the counters of the pool as
-- the next round reads them. The exchange after the last of them succeeds.
pub mod Bounds
mod Tests
use mountpoint_s.Prelude.{
  ℕ, ◌+◌, ◌-◌, ◌*◌, ◌/◌, max, List, [], ◌∷◌, Bool, true, false, ltb, if◌then◌else◌, ◌+w◌, ◌-w◌,
  saturating_add, u64_max,
}
use mountpoint_s.Memory.Stats.{BufferKind, PoolStats, reserved_bytes}

pub record MemoryLimiter : Type 0 where
  pub mem_limit : ℕ
  pub mem_reserved : ℕ
  pub additional_mem_reserved : ℕ
  pub pool : PoolStats

abbrev min_reserved : ℕ
min_reserved = 128 * 1024 * 1024

unfoldable pub new : PoolStats → ℕ → MemoryLimiter
new pool mem_limit = record {
  mem_limit = mem_limit;
  mem_reserved = 0;
  additional_mem_reserved = max (mem_limit / 8) min_reserved;
  pool = pool;
}

unfoldable pub pool_mem_reserved : MemoryLimiter → ℕ
unfolding reserved_bytes
pool_mem_reserved l =
    reserved_bytes l.pool BufferKind.put_object +w reserved_bytes l.pool BufferKind.other

unfoldable pub reserve : MemoryLimiter → ℕ → MemoryLimiter
reserve l size = record l { mem_reserved = l.mem_reserved +w size }

unfoldable pub release : MemoryLimiter → ℕ → MemoryLimiter
release l size = record l { mem_reserved = l.mem_reserved -w size }

-- `new_total_mem_usage`
unfoldable pub total_usage : MemoryLimiter → ℕ → ℕ
total_usage l new_mem_reserved =
    saturating_add (saturating_add new_mem_reserved (pool_mem_reserved l)) l.additional_mem_reserved

-- What a failed exchange shows, and the counters of the pool in the round after it.
abbrev pub Seen : Type 0
Seen = ℕ × PoolStats

abbrev pub see : MemoryLimiter → Seen → MemoryLimiter
see l (current, pool) = record l { mem_reserved = current; pool = pool }

unfoldable pub try_reserve : MemoryLimiter → ℕ → List Seen → MemoryLimiter × Bool
try_reserve l size [] =
    if ltb l.mem_limit (total_usage l (saturating_add l.mem_reserved size))
    then (l, false)
    else (record l { mem_reserved = saturating_add l.mem_reserved size }, true)
try_reserve l size (now ∷ seen) =
    if ltb l.mem_limit (total_usage l (saturating_add l.mem_reserved size))
    then (l, false)
    else try_reserve (see l now) size seen

unfoldable pub available_mem : MemoryLimiter → ℕ
available_mem l = l.mem_limit - l.mem_reserved - pool_mem_reserved l - l.additional_mem_reserved
