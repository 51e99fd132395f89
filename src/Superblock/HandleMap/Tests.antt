-- ===== src/Superblock/HandleMap/Tests.antt =====
-- The handle map at concrete inputs.
use mountpoint_s.Prelude.{◌≡◌, refl, [], ◌∷◌, none, some}
use mountpoint_s.Superblock.HandleMap.{
  active, inactive, InodeHandles, Operation, run, update, set_writer, try_add_reader,
  deactivate_reader,
}
use mountpoint_s.Superblock.HandleMap.Exclusive.{
  IsExclusive, Answered, run-IsExclusive, set_writer_alone,
}

abbrev paused : InodeHandles
paused = record { readers = (1, inactive) ∷ []; writer = none }

reader_gives_way :
    run
      ((Operation.add_reader, 7, 1) ∷ (Operation.pause_reader, 7, 1) ∷ (Operation.write, 7, 2) ∷ [])
      (λ k. none)
      7
    ≡ some (record { readers = []; writer = some (2, active) })
unfolding update try_add_reader deactivate_reader set_writer
reader_gives_way = refl

run-IsExclusive_example : IsExclusive (
    run
      ((Operation.add_reader, 7, 1) ∷ (Operation.pause_reader, 7, 1) ∷ (Operation.write, 7, 2) ∷ [])
      (λ k. none)
      7)
run-IsExclusive_example =
    run-IsExclusive
      ((Operation.add_reader, 7, 1) ∷ (Operation.pause_reader, 7, 1) ∷ (Operation.write, 7, 2) ∷ [])
      7

set_writer_alone_example : Answered (some paused) 2 (set_writer (some paused) 2)
set_writer_alone_example = set_writer_alone (some paused) 2
