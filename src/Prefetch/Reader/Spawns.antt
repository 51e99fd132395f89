-- ===== src/Prefetch/Reader/Spawns.antt =====
-- A request that is spawned for a reader that is ready makes it ready, with a task.
use mathlib.Core.Path.{subst}
use mountpoint_s.Prelude.{
  ℕ, ◌+◌, ◌≤◌, ◌<◌, ◌^◌, ◌≡◌, ◌≢◌, refl, List, Bool, some, ok, arith, length, ◌+w◌, ne→eqb,
}
use mountpoint_s.Checksums.{Crc}
use mountpoint_s.Memory.Limiter
use mountpoint_s.Prefetch.Part.{ObjectId}
use mountpoint_s.Prefetch.Range
use mountpoint_s.Prefetch.Range.{RequestRange, end_offset, initial_read_window_size}
use mountpoint_s.Prefetch.Backpressure
use mountpoint_s.Prefetch.Task.{RequestTask, from_handle}
use mountpoint_s.Prefetch.PartQueue.{unbounded_part_queue}
use mountpoint_s.Prefetch.PartQueue.Honest.{Delivers}
use mountpoint_s.Prefetch.Reader.{
  Source, Reader, spawn_get_object_request, spawn_read_backpressure_request,
}
use mountpoint_s.Prefetch.Reader.Invariant.{IsHonest, IsReady}

module _ (crc : Crc) (source : Source) (id : ObjectId) (object : List ℕ) (whole : Bool) where
  initial_size_lem :
      (initial part : ℕ)
      → initial ≢ 1
      → initial < 2 ^ 61
      → 2 ≤ part
      → part < 2 ^ 61
      → (2 ≤ initial_read_window_size initial part)
        × (initial_read_window_size initial part < 2 ^ 61)
  unfolding initial_read_window_size
  initial_size_lem initial part a b c d = ground arith

  -- A request for the rest of the object gives a task for it.
  spawn_get_lem :
      (r : Reader) (range : RequestRange)
      → IsHonest crc id object whole source
      → IsReady crc id object whole r
      → range.object_size ≡ length object
      → range.offset ≡ r.next_sequential_read_offset
      → range.offset + range.size ≡ length object
      → (r' : Reader) × (t : RequestTask) × (spawn_get_object_request crc source r range ≡ ok r')
        × IsReady crc id object whole r'
        × (r'.next_sequential_read_offset ≡ r.next_sequential_read_offset)
        × (r'.task ≡ some t)
  unfolding spawn_get_object_request Backpressure.new Limiter.reserve
  spawn_get_lem r range h v size at all =
      let sound = v.sound in
      let sensible = sound.sensible in
      let initial_end : ℕ = range.offset +w r.config.initial_request_size in
      let window : ℕ =
        initial_read_window_size r.config.initial_request_size source.read_part_size in
      let w : (2 ≤ window) × (window < 2 ^ 61) =
        initial_size_lem r.config.initial_request_size source.read_part_size
          sensible.initial_not_one sensible.initial_small h.part_two h.part_small in
      let made =
        Backpressure.new
          (record {
            initial_read_window_size = window;
            min_read_window_size = source.read_part_size;
            max_read_window_size = r.config.max_read_window_size;
            read_window_size_multiplier = r.config.sequential_prefetch_multiplier;
            request_start = range.offset;
            request_end = end_offset range;
            read_window_alignment_config = source.alignment initial_end;
          })
          r.shared.mem_limiter in
      let t : RequestTask =
        from_handle range
          (unbounded_part_queue (source.messages range initial_end r.preferred_part_size)) made.0 in
      let r' : Reader = record r { task = some t; shared = made.1 } in
      (
        r',
        t,
        ground (arith, sound.part_pos),
        record {
          sound = record {
            size_is = sound.size_is;
            object_small = sound.object_small;
            id_is = sound.id_is;
            sensible = sensible;
            part_pos = sound.part_pos;
            part_small = sound.part_small;
            window_small = sound.window_small;
            limit = sound.limit;
          };
          within = v.within;
          window = v.window;
          task = record {
            feeds = record {
              usable = refl;
              mid = r.next_sequential_read_offset;
              front = refl;
              rest =
                  subst
                    (λ k.
                      Delivers crc id object whole
                        (source.messages range initial_end r.preferred_part_size) k)
                    at
                    (h.delivers range initial_end r.preferred_part_size size all sound.part_pos
                      sound.part_small);
            };
            remaining = omega arith;
            controller = record {
              min_two = h.part_two;
              max_two = sensible.max_two;
              max_small = sensible.max_small;
              preferred_two = w.0;
              preferred_small = omega arith;
              multiplier_two = omega arith;
              end_small = omega (arith, sound);
              window_small = omega (arith, sound);
              aligned = h.aligned initial_end (omega (arith, sound, sensible));
            };
            limit = sound.limit;
          };
        },
        refl,
        refl,
      )

  pub spawn_lem :
      (r : Reader)
      → IsHonest crc id object whole source
      → IsReady crc id object whole r
      → (r' : Reader) × (t : RequestTask) × (spawn_read_backpressure_request crc source r ≡ ok r')
        × IsReady crc id object whole r'
        × (r'.next_sequential_read_offset ≡ r.next_sequential_read_offset)
        × (r'.task ≡ some t)
  unfolding spawn_read_backpressure_request Range.new
  spawn_lem r h v =
      let (r', t, e, ready, next, task) =
        spawn_get_lem r (Range.new r.size r.next_sequential_read_offset r.size) h v v.sound.size_is
          refl (omega (arith, v, v.sound)) in
      (
        r',
        t,
        rw
            (
              h.initial_set,
              spawn_read_backpressure_request,
              ne→eqb h.initial 0 (omega (arith, h.initial_pos)),
            )
            e,
        ready,
        next,
        task,
      )
