-- ===== src/Prefetch/SeekWindow.antt =====
-- mountpoint-s3-fs/src/prefetch/seek_window.rs: the parts read last, kept for backward seeks.
--
-- `parts` is the `VecDeque` from its front (the oldest part) to its back. `none` is a panic.
pub mod Inv
pub mod Back
mod Tests
use mountpoint_s.Prelude.{
  ℕ, zero, suc, ◌+◌, List, [], ◌∷◌, ◌++◌, reverse, Option, none, some, ltb, if◌then◌else◌, ◌+w◌,
  ◌-w◌, length,
}
use mountpoint_s.Prefetch.Part.{Part, len, split_off}

pub record SeekWindow : Type 0 where
  pub parts : List Part
  pub max_size : ℕ
  pub current_size : ℕ

unfoldable pub new : ℕ → Option SeekWindow
new max_size =
    if ltb 0 max_size
    then some (record { parts = []; max_size = max_size; current_size = 0 })
    else none

abbrev pub clear : SeekWindow → SeekWindow
clear w = record w { parts = []; current_size = 0 }

-- The loop of `push`: drops parts from the front until `needed` bytes fit.
unfoldable pub evict : List Part → ℕ → ℕ → ℕ → Option (List Part × ℕ)
evict [] max_size current_size needed =
    if ltb (max_size -w current_size) needed then none else some ([], current_size)
evict (p ∷ parts) max_size current_size needed =
    if ltb (max_size -w current_size) needed
    then evict parts max_size (current_size -w len p) needed
    else some (p ∷ parts, current_size)

unfoldable pub push : SeekWindow → Part → Option SeekWindow
push w part =
    if ltb w.max_size (len part)
    then some (clear w)
    else elim (evict w.parts w.max_size w.current_size (len part)) [
      | none ↦ none
      | some (parts, current_size) ↦
          some (record w { parts = parts ++ (part ∷ []); current_size = current_size +w len part })
    ]

-- The state of the loop of `read_back`: the parts left, newest first, the size that they make up,
-- and the parts taken so far.
abbrev pub Taken : Type 0
Taken = List Part × ℕ × List Part

-- One round of the loop goes on with the parts left, the length left, the size and the result.
unfoldable pub take_back : List Part → ℕ → ℕ → List Part → Option (List Part × ℕ × ℕ × List Part)
take_back [] length size result = none
take_back (p ∷ newest) length size result =
    if ltb length (len p)
    then elim (split_off p (len p -w length)) [
      | none ↦ none
      | some (front, back) ↦
          some (front ∷ newest, length -w len back, size -w len back, back ∷ result)
    ]
    else some (newest, length -w len p, size -w len p, p ∷ result)

-- The loop, on fuel: a round takes a part away, or is the last one.
unfoldable pub read_back_loop : ℕ → List Part → ℕ → ℕ → List Part → Option Taken
read_back_loop fuel newest zero size result = some (newest, size, result)
read_back_loop zero newest (suc length) size result = none
read_back_loop (suc fuel) newest (suc length) size result =
    elim (take_back newest (suc length) size result) [
      | none ↦ none
      | some (newest', length', size', result') ↦ read_back_loop fuel newest' length' size' result'
    ]

-- The parts read, if there is enough data, and the window after the call.
unfoldable pub read_back : SeekWindow → ℕ → Option (Option (List Part) × SeekWindow)
read_back w n =
    if ltb w.current_size n
    then some (none, w)
    else elim (read_back_loop (length w.parts + 2) (reverse w.parts) n w.current_size []) [
      | none ↦ none
      | some (newest, size, result) ↦
          some (some result, record w { parts = reverse newest; current_size = size })
    ]
