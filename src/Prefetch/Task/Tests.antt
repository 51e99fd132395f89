-- ===== src/Prefetch/Task/Tests.antt =====
-- A task at concrete inputs: its queue has the second part, and the first comes back by a seek.
use mountpoint_s.Prelude.{◌≡◌, refl, inr, [], ◌∷◌, true, some, false, arith}
use mountpoint_s.Checksums.Sample.{sum_crc}
use mountpoint_s.Prefetch.Sample.{
  object, id, first, second, controller, shared, first-Holds, second-Holds,
}
use mountpoint_s.Prefetch.PartQueue.{part}
use mountpoint_s.Prefetch.Backpressure.{Shared}
use mountpoint_s.Prefetch.Task.{RequestTask, push_front, read}
use mountpoint_s.Prefetch.Task.Reads.{Gives, TaskReads, task_read_lem, task_push_front_lem}

abbrev task : RequestTask
task = record {
  remaining = 3;
  range = record { object_size = 5; offset = 0; size = 5 };
  part_queue = record {
    front_queue = [];
    received = [];
    pending = part second ∷ [];
    failed = false;
    bytes_received = 2;
  };
  controller = controller;
}

task-Gives : Gives sum_crc id object true task shared 2
task-Gives = record {
  feeds = record {
    usable = refl;
    mid = 2;
    front = refl;
    rest = (second-Holds, refl, omega arith, inr refl);
  };
  remaining = refl;
  controller = omega arith;
  limit = omega arith;
}

task_read_lem_example : TaskReads sum_crc id object true 2 2 (read task shared 1 2)
task_read_lem_example =
    task_read_lem sum_crc id object true task shared 1 2 2 (omega arith) (omega arith) (omega arith)
      task-Gives

task_push_front_lem_example :
    (t' : RequestTask) × (s' : Shared) × (push_front task shared (first ∷ []) ≡ some (t', s'))
    × Gives sum_crc id object true t' s' 0
task_push_front_lem_example =
    task_push_front_lem sum_crc id object true (first ∷ []) task shared 0 2 (omega arith)
      (first-Holds, refl, omega arith, refl) task-Gives
