-- ===== src/Memory/Limiter/Tests.antt =====
-- The limiter at concrete inputs: a limit of 1000 bytes, 220 of them counted already.
use mountpoint_s.Prelude.{◌+◌, ◌≤◌, ◌<◌, ◌≡◌, refl, ◌⊎◌, [], ◌∷◌, true, false, arith}
use mountpoint_s.Memory.Stats.{reserved_bytes}
use mountpoint_s.Memory.Limiter.{
  MemoryLimiter, Seen, reserve, release, try_reserve, available_mem, pool_mem_reserved,
}
use mountpoint_s.Memory.Limiter.Bounds.{
  used, last_seen, Refused, try_reserve_alone, try_reserve_contended, release-reserve,
  try_reserve-available_mem,
}

abbrev limiter : MemoryLimiter
limiter = record {
  mem_limit = 1000;
  mem_reserved = 100;
  additional_mem_reserved = 70;
  pool = record { get_object = 5; put_object = 40; disk_cache = 3; append = 2; other = 10 };
}

available : available_mem limiter ≡ 780
unfolding available_mem pool_mem_reserved reserved_bytes
available = refl

try_reserve_alone_example :
    ((used limiter + 781 ≤ 1000)
      × (try_reserve limiter 781 [] ≡ (record limiter { mem_reserved = 881 }, true)))
    ⊎ ((1000 < used limiter + 781) × (try_reserve limiter 781 [] ≡ (limiter, false)))
try_reserve_alone_example = try_reserve_alone limiter 781 (omega arith)

-- A failed exchange shows 300 bytes, and the pool has 60 bytes more for the disk cache and 20 more for other uses.
abbrev others : Seen
others = (300, record { get_object = 5; put_object = 40; disk_cache = 63; append = 2; other = 30 })

try_reserve_contended_example :
    ((used (last_seen limiter (others ∷ [])) + 500 ≤ 1000)
      × (try_reserve limiter 500 (others ∷ [])
          ≡ (record limiter { mem_reserved = 800; pool = others.1 }, true)))
    ⊎ Refused limiter 500 (others ∷ []) (try_reserve limiter 500 (others ∷ []))
try_reserve_contended_example = try_reserve_contended limiter 500 (others ∷ []) (omega arith)

release-reserve_example : release (reserve limiter 64) 64 ≡ limiter
release-reserve_example = release-reserve limiter 64 (omega arith)

try_reserve-available_mem_example :
    ((780 ≤ available_mem limiter) × ((try_reserve limiter 780 []).1 ≡ true))
    ⊎ ((available_mem limiter < 780) × ((try_reserve limiter 780 []).1 ≡ false))
try_reserve-available_mem_example =
    try_reserve-available_mem limiter 780 (omega arith) (omega arith)
