-- ===== src/Prefetch/Compose/Tests.antt =====
-- The composer at concrete inputs: the sample object, asked for in two requests.
use mountpoint_s.Prelude.{[], ◌∷◌, arith}
use mountpoint_s.Checksums.Sample.{sum_crc}
use mountpoint_s.Prefetch.Sample.{object, id, client, client-KeepsTo}
use mountpoint_s.Prefetch.Range.{RequestRange}
use mountpoint_s.Prefetch.Backpressure.Producer.{Producer}
use mountpoint_s.Prefetch.Compose.{read_from_client_stream, Waits}
use mountpoint_s.Prefetch.Compose.Honest.{Bodies, read_from_client_stream-Bodies}

abbrev everything : RequestRange
everything = record { object_size = 5; offset = 0; size = 5 }

abbrev producer : Producer
producer = record { read_window_end_offset = 2; request_end_offset = 5 }

abbrev waits : Waits
waits = ((3 ∷ []), []) ∷ []

read_from_client_stream-Bodies_example :
    Bodies sum_crc id object (read_from_client_stream client producer waits 2 everything) 0 5
read_from_client_stream-Bodies_example =
    read_from_client_stream-Bodies sum_crc id object client producer waits 2 everything
      client-KeepsTo (omega arith) (omega arith) (omega arith)
