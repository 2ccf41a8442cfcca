-- ===== src/Livox/PubHandler/Thread.antt =====
-- The thread of the point handler in livox_ros2/livox_driver/src/comm/pub_handler.cpp beside the calls of its owner and of the
-- SDK: `RawDataProcess`, `SetPointCloudConfig`, `SetPointCloudsCallback`,
-- `OnLivoxLidarPointCloudCallback` and `Uninit`, whose statements are steps of their own. The thread stands
-- before the test of `is_quit_`, before or in its wait for a packet, or before the processing of the
-- packet that it has taken; it takes one under the mutex. Processing is one step. The interval is
-- computed in floating point: `interval` is `publish_interval_` as it is stored; the id of the observer
-- is the SDK's answer.
pub mod Exit
use sensor_packages.Base.{
  ℕ, ◌+◌, ◌-◌, ◌/◌, ◌%◌, ◌^◌, ◌≤◌, ◌<◌, ◌≡◌, refl, Bool, true, false, List, [], ◌∷◌, ◌++◌, Option,
  some, length, arith,
}
use sensor_packages.Livox.Types.{
  PointFrame, ImuData, k_ratio_of_ms_to_ns, k_ns_tolerant_frame_time_deviation,
}
use sensor_packages.Livox.LidarPubHandler.{RawPacket, Floats, Layout}
use sensor_packages.Livox.PubHandler.{
  PubHandler, EthernetPacket, process_packet, on_livox_lidar_point_cloud_callback,
}

-- `point_process_thread_`: null, or where the thread stands.
pub data Place : Type 0 where
  absent : Place
  testing : Place
  taking : Place
  processing : RawPacket → Place
  returned : Place

-- The handler with its observer, `is_quit_` and its thread
pub record Service : Type 0 where
  pub handler : PubHandler
  pub lidar_listen_id : ℕ
  pub is_quit : Bool
  pub place : Place

-- `SetPointCloudConfig` makes a thread if there is none.
abbrev pub made : Place → Place
made absent = testing
made testing = testing
made taking = taking
made (processing p) = processing p
made returned = returned

-- `SetPointCloudConfig`
unfoldable pub set_point_cloud_config : ℕ → Service → Service
set_point_cloud_config interval s = record s {
  handler = record s.handler {
    publish_interval = interval;
    publish_interval_tolerance = (interval + 2 ^ 64 - k_ns_tolerant_frame_time_deviation) % 2 ^ 64;
    publish_interval_ms = interval / k_ratio_of_ms_to_ns;
  };
  place = made s.place;
}

module _ (fl : Floats) (layout : Layout) (imu_of : List ℕ → Option ImuData) where
  -- A step, with the number of packets taken from the queue and the frames that are given away
  pub data Step (s : Service) : ℕ → List PointFrame → Service → Type 0 where
    leave : s.place ≡ testing → s.is_quit ≡ true → Step s 0 [] (record s { place = returned })
    enter : s.place ≡ testing → s.is_quit ≡ false → Step s 0 [] (record s { place = taking })
    take :
        {p : RawPacket} {rest : List RawPacket}
        → s.place ≡ taking
        → s.handler.raw_packet_queue ≡ p ∷ rest
        → Step s 1 [] (record s {
          handler = record s.handler { raw_packet_queue = rest };
          place = processing p;
        })
    time_out :
        s.place ≡ taking
        → s.handler.raw_packet_queue ≡ []
        → Step s 0 [] (record s { place = testing })
    process :
        (now : ℕ) {p : RawPacket} {h : PubHandler} {frames : List PointFrame}
        → s.place ≡ processing p
        → process_packet fl layout now p s.handler ≡ some (h, frames)
        → Step s 0 frames (record s { handler = h; place = testing })
    configure : (interval : ℕ) → Step s 0 [] (set_point_cloud_config interval s)
    listen : (observer : ℕ) → Step s 0 [] (record s { lidar_listen_id = observer })
    receive :
        (has_callback : Bool) (header now handle dev_type : ℕ) (packet : EthernetPacket)
        {h : PubHandler} {imus : List ImuData}
        → on_livox_lidar_point_cloud_callback imu_of has_callback header now handle dev_type packet
            s.handler
          ≡ some (h, imus)
        → Step s 0 [] (record s { handler = h })
    remove_observer : 0 < s.lidar_listen_id → Step s 0 [] (record s { lidar_listen_id = 0 })
    request_exit : Step s 0 [] (record s { is_quit = true })
    join : s.is_quit ≡ true → s.place ≡ returned → Step s 0 [] (record s { place = absent })

  -- Steps in any order, with all packets taken and all frames given away
  pub data Steps : Service → ℕ → List PointFrame → Service → Type 0 where
    stop : {s : Service} → Steps s 0 [] s
    more :
        {s t u : Service} {k n : ℕ} {frames rest : List PointFrame}
        → Step s k frames t
        → Steps t n rest u
        → Steps s (k + n) (frames ++ rest) u
