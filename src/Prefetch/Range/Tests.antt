-- ===== src/Prefetch/Range/Tests.antt =====
-- Ranges at concrete inputs.
use mountpoint_s.Prelude.{ℕ, ◌-◌, min, ◌≡◌, true, some, arith}
use mountpoint_s.Prefetch.Range.{RequestRange, align}
use mountpoint_s.Prefetch.Range.Trim.{IsValid}
use mountpoint_s.Prefetch.Range.Align.{IsAligned, align_boundary}

abbrev sample : RequestRange
sample = record { object_size = 100; offset = 10; size = 50 }

align_boundary_example :
    (a : RequestRange) × (align sample 8 true ≡ some a)
    × (a.offset ≡ 10)
    × (a.object_size ≡ 100)
    × IsValid a
    × (size : ℕ) × (a.size ≡ min size (100 - 10))
    × IsAligned sample 8 true size
align_boundary_example = align_boundary sample 8 true (omega arith) (omega arith) (omega arith)
