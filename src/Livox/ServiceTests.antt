-- ===== src/Livox/ServiceTests.antt =====
-- The end of the point handler's thread at concrete inputs.
use sensor_packages.Base.{ℕ, ◌≡◌, refl, true, none, some, List, [], ◌∷◌, Option}
use sensor_packages.Livox.Types.{ImuData, PointFrame}
use sensor_packages.Base.Fault.{Ensures}
use sensor_packages.Livox.LidarPubHandler.{point_cloud_process}
use sensor_packages.Livox.PubHandler.{PubHandler, process_packet}
use sensor_packages.Livox.PubHandler.Thread.{
  Service, stop, more, take, process, configure, leave, join, taking, set_point_cloud_config,
}
use sensor_packages.Livox.PubHandler.Thread.Exit.{Last, Steps-Last}
use sensor_packages.Livox.SetupTests.{timer, floats, layout, packet}

-- The exit is requested while the thread waits for a packet, and two packets are in the queue.
abbrev closing : Service
closing = record {
  handler = record timer { raw_packet_queue = packet ∷ packet ∷ [] };
  lidar_listen_id = 3;
  is_quit = true;
  place = taking;
}

abbrev no_imu : List ℕ → Option ImuData
no_imu bytes = none

abbrev took : PubHandler
took = record timer { raw_packet_queue = packet ∷ [] }

some_result :
    (m : Option (PubHandler × List PointFrame))
    → Ensures (λ r. r.1 ≡ []) m
    → (h : PubHandler) × (m ≡ some (h, []))
some_result none e = absurd e
some_result (some (h, frames)) e = (h, λ i. some (h, e i))

-- The next frame is not due yet.
processed : (h : PubHandler) × (process_packet floats layout 5 packet took ≡ some (h, []))
unfolding process_packet point_cloud_process
processed = some_result (process_packet floats layout 5 packet took) refl

-- The thread takes one packet, processes it and returns; `Uninit` joins it, and the thread that the next
-- configuration makes returns at once.
Steps-Last_example : Last taking 1 []
unfolding set_point_cloud_config
Steps-Last_example = Steps-Last floats layout no_imu {s = closing} {n = 1} {frames = []} refl (
    more (take refl refl) (
      more (process 5 refl processed.1) (
        more (leave refl refl)
          (more (join refl refl) (more (configure 50) (more (leave refl refl) stop))))))
