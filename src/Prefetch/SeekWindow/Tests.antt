-- ===== src/Prefetch/SeekWindow/Tests.antt =====
-- The seek window at concrete inputs: a window that holds the first part of the sample object.
use mountpoint_s.Prelude.{◌≤◌, ◌<◌, ◌≡◌, refl, ◌⊎◌, List, [], ◌∷◌, none, some, arith}
use mountpoint_s.Checksums.Sample.{sum_crc}
use mountpoint_s.Prefetch.Part.{Part}
use mountpoint_s.Prefetch.Sample.{object, id, first, second, first-Holds, second-Holds}
use mountpoint_s.Prefetch.Stream.{Run}
use mountpoint_s.Prefetch.SeekWindow.{SeekWindow, push, read_back}
use mountpoint_s.Prefetch.SeekWindow.Inv.{EndsAt, Kept, push_lem}
use mountpoint_s.Prefetch.SeekWindow.Back.{read_back_lem}

abbrev window : SeekWindow
window = record { parts = first ∷ []; max_size = 4; current_size = 2 }

window-EndsAt : EndsAt sum_crc id object window 2
window-EndsAt = record {
  run = (first-Holds, refl, omega arith, refl);
  size_le = omega arith;
  size_max = omega arith;
  max_small = omega arith;
  to_small = omega arith;
}

push_lem_example :
    (w' : SeekWindow) × (push window second ≡ some w')
    × EndsAt sum_crc id object w' 5
    × (w'.max_size ≡ 4)
    × Kept window second w'
push_lem_example =
    push_lem sum_crc id object window second 2 window-EndsAt second-Holds refl (omega arith)
      (omega arith)

read_back_lem_example :
    ((1 ≤ 2)
      × (parts : List Part) × (w' : SeekWindow) × (read_back window 1 ≡ some (some parts, w'))
      × Run sum_crc id object parts 1 2
      × EndsAt sum_crc id object w' 1
      × (w'.max_size ≡ 4))
    ⊎ ((2 < 1) × (read_back window 1 ≡ some (none, window)))
read_back_lem_example = read_back_lem sum_crc id object window 2 1 (omega arith) window-EndsAt
