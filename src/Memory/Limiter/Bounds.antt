-- ===== src/Memory/Limiter/Bounds.antt =====
-- What `try_reserve` promises, whatever the other threads do meanwhile.
use mountpoint_s.Prelude.{
  ℕ, ◌+◌, ◌-◌, ◌≤◌, ◌<◌, ◌^◌, ◌≡◌, ◌⊎◌, inl, inr, List, [], ◌∷◌, Bool, true, false, arith, ltb,
  ltb→le, ltb→lt, saturating_add, Bool-cases,
}
use mountpoint_s.Memory.Limiter.{
  MemoryLimiter, Seen, see, pool_mem_reserved, reserve, release, total_usage, try_reserve,
  available_mem,
}

-- All that the limiter counts.
abbrev pub used : MemoryLimiter → ℕ
used l = l.mem_reserved + pool_mem_reserved l + l.additional_mem_reserved

-- The limiter as the last round reads it.
abbrev pub last_seen : MemoryLimiter → List Seen → MemoryLimiter
last_seen l [] = l
last_seen l (now ∷ seen) = last_seen (see l now) seen

-- A round read a state without room for `size` more bytes, and the call left that state as it is.
abbrev pub Refused : MemoryLimiter → ℕ → List Seen → MemoryLimiter × Bool → Type 0
Refused l size [] result = (l.mem_limit < used l + size) × (result ≡ (l, false))
Refused l size (now ∷ seen) result =
    ((l.mem_limit < used l + size) × (result ≡ (l, false))) ⊎ Refused (see l now) size seen result

-- The test of the loop is the comparison of the true sum with the limit: no saturation hides it.
total_usage_lem :
    (l : MemoryLimiter) (size : ℕ)
    → l.mem_limit < 2 ^ 64 - 1
    → ((used l + size ≤ l.mem_limit)
        × (ltb l.mem_limit (total_usage l (saturating_add l.mem_reserved size)) ≡ false)
        × (saturating_add l.mem_reserved size ≡ l.mem_reserved + size))
      ⊎ ((l.mem_limit < used l + size)
          × (ltb l.mem_limit (total_usage l (saturating_add l.mem_reserved size)) ≡ true))
unfolding total_usage
total_usage_lem l size h =
    elim (Bool-cases (ltb l.mem_limit (total_usage l (saturating_add l.mem_reserved size)))) [
      | inl full ↦ inr (omega (arith, ltb→lt _ _ full), full)
      | inr room ↦ inl (omega (arith, ltb→le _ _ room), room, omega (arith, ltb→le _ _ room))
    ]

-- Without contention, for a limit below the largest `u64`: `try_reserve` succeeds exactly if the bytes
-- fit under the limit, and then it adds them; if not, it leaves the limiter as it was.
pub try_reserve_alone :
    (l : MemoryLimiter) (size : ℕ)
    → l.mem_limit < 2 ^ 64 - 1
    → ((used l + size ≤ l.mem_limit)
        × (try_reserve l size [] ≡ (record l { mem_reserved = l.mem_reserved + size }, true)))
      ⊎ ((l.mem_limit < used l + size) × (try_reserve l size [] ≡ (l, false)))
unfolding try_reserve
try_reserve_alone l size h = elim (total_usage_lem l size h) [
  | inl (fits, room, sum) ↦ inl (fits, rw (room, sum))
  | inr (crowded, full) ↦ inr (crowded, rw full)
]

-- For a limit below the largest `u64`, whatever other threads write to the limiter's counter and to
-- the pool's counters between the rounds: if `try_reserve` succeeds, the bytes fitted under the limit
-- by the counter that its last exchange replaced and the pool's counters as read in that round, and
-- it added them to that counter; if it fails, they did not fit by what its last round read, and it
-- added nothing.
pub try_reserve_contended :
    (l : MemoryLimiter) (size : ℕ) (seen : List Seen)
    → l.mem_limit < 2 ^ 64 - 1
    → ((used (last_seen l seen) + size ≤ l.mem_limit)
        × (try_reserve l size seen ≡ (
          record (last_seen l seen) { mem_reserved = (last_seen l seen).mem_reserved + size },
          true,
        )))
      ⊎ Refused l size seen (try_reserve l size seen)
unfolding try_reserve
try_reserve_contended l size [] h = elim (total_usage_lem l size h) [
  | inl (fits, room, sum) ↦ inl (fits, rw (room, sum))
  | inr (crowded, full) ↦ inr (crowded, rw full)
]
try_reserve_contended l size (now ∷ seen) h = elim (total_usage_lem l size h) [
  | inr (crowded, full) ↦ inr (inl (crowded, rw full))
  | inl (fits, room, sum) ↦ elim (try_reserve_contended (see l now) size seen h) [
    | inl (fits', e) ↦ inl (fits', rw room e)
    | inr refused ↦ inr (inr (rw room refused))
  ]
]

-- As long as the reserved bytes fit a `u64`, releasing what was reserved gives the limiter back.
pub release-reserve :
    (l : MemoryLimiter) (size : ℕ)
    → l.mem_reserved + size < 2 ^ 64
    → release (reserve l size) size ≡ l
unfolding release reserve
release-reserve l size h = ground arith

-- Without contention, for a limit below the largest `u64`: a reservation of at least a byte succeeds
-- exactly if it is at most `available_mem`.
pub try_reserve-available_mem :
    (l : MemoryLimiter) (size : ℕ)
    → l.mem_limit < 2 ^ 64 - 1
    → 0 < size
    → ((size ≤ available_mem l) × ((try_reserve l size []).1 ≡ true))
      ⊎ ((available_mem l < size) × ((try_reserve l size []).1 ≡ false))
unfolding available_mem
try_reserve-available_mem l size h pos = elim (try_reserve_alone l size h) [
  | inl (fits, e) ↦ inl (omega arith, rw e)
  | inr (crowded, e) ↦ inr (omega arith, rw e)
]
