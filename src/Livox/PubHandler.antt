-- ===== src/Livox/PubHandler.antt =====
-- `PubHandler` of livox_ros2/livox_driver/src/comm/pub_handler.h and pub_handler.cpp: the queue of raw
-- packets, the lidars' points, and the timer that makes frames of them. A frame that is given to
-- `points_callback_` is an output. `points_` is the memory behind the packets of a frame; it is not
-- looked at otherwise, and a packet here holds its points.
pub mod Timer
pub mod Synced
pub mod Thread
pub mod Frames
use sensor_packages.Base.{
  ℕ, zero, suc, ◌+◌, ◌-◌, ◌*◌, ◌/◌, ◌%◌, ◌^◌, Bool, true, false, not, ◌||◌, ◌&&◌, List, [], ◌∷◌,
  ◌++◌, Option, none, some, length, set, ltb, leb, ◌==◌, if◌then◌else◌,
}
use sensor_packages.Base.Fault.{◌>>=◌}
use sensor_packages.Livox.Types.{
  PointXyzlt, PointPacket, PointFrame, ImuData, LidarExtParameter, k_livox_lidar_type,
  k_ratio_of_ms_to_ns, k_line_number_default, k_line_number_mid360, k_line_number_hap,
}
use sensor_packages.Livox.Queue.{copy_points}
use sensor_packages.Livox.LidarPubHandler.{
  RawPacket, Floats, Layout, LidarPubHandler, new_handler, set_lidars_ext_param,
  point_cloud_process, get_lidar_base_time, get_recent_time_stamp, get_lidar_point_clouds,
}

-- `std::map<uint32_t, ...>`: the entries in the order of their keys.
unfoldable pub lookup {ℓ} : {A : Type ℓ} → ℕ → List (ℕ × A) → Option A
lookup key [] = none
lookup key ((k, v) ∷ m) = let rest = lookup key m in if k == key then some v else rest

unfoldable pub put {ℓ} : {A : Type ℓ} → ℕ → A → List (ℕ × A) → List (ℕ × A)
put key v [] = (key, v) ∷ []
put key v ((k, w) ∷ m) =
    let rest = put key v m in
    if k == key then (key, v) ∷ m else if ltb key k then (key, v) ∷ (k, w) ∷ m else (k, w) ∷ rest

-- `PubHandler`, with the static variable `first` of `CheckTimer`; the times are in nanoseconds.
pub record PubHandler : Type 0 where
  pub is_timestamp_sync : Bool
  pub publish_interval : ℕ
  pub publish_interval_tolerance : ℕ
  pub publish_interval_ms : ℕ
  pub first : Bool
  pub last_pub_time : ℕ
  pub lidar_process_handlers : List (ℕ × LidarPubHandler)
  pub lidar_extrinsics : List (ℕ × LidarExtParameter)
  pub raw_packet_queue : List RawPacket
  pub frame : PointFrame

-- `LivoxLidarEthernetPacket`, as far as it is read; `payload` is the memory from `data` on.
pub record EthernetPacket : Type 0 where
  pub total_length : ℕ
  pub time_interval : ℕ
  pub dot_num : ℕ
  pub data_type : ℕ
  pub time_type : ℕ
  pub timestamp : ℕ
  pub payload : List ℕ

-- `GetLidarId`, into an `id` that was 0.
unfoldable pub get_lidar_id : ℕ → ℕ → ℕ
get_lidar_id lidar_type handle = if lidar_type == k_livox_lidar_type then handle else 0

-- `AddLidarsExtParam`
unfoldable pub add_lidars_ext_param : PubHandler → LidarExtParameter → PubHandler
add_lidars_ext_param s param = record s {
  lidar_extrinsics = put (get_lidar_id param.lidar_type param.handle) param s.lidar_extrinsics;
}

-- `ClearAllLidarsExtrinsicParams`
abbrev pub clear_all_lidars_extrinsic_params : PubHandler → PubHandler
clear_all_lidars_extrinsic_params s = record s { lidar_extrinsics = [] }

-- `GetEthPacketTimestamp`, at the time `now`.
unfoldable pub get_eth_packet_timestamp : ℕ → ℕ → ℕ → ℕ
get_eth_packet_timestamp now time_type stamp =
    if time_type == 1 || time_type == 2 then stamp else now

-- The number of lines that `OnLivoxLidarPointCloudCallback` takes for a device type.
abbrev pub line_num_of : ℕ → ℕ
line_num_of dev_type =
    if dev_type == 10
    then k_line_number_hap
    else if dev_type == 9
    then k_line_number_mid360
    else k_line_number_default

-- The packet that `OnLivoxLidarPointCloudCallback` queues; `header` is the size of the SDK's packet.
unfoldable pub raw_packet_of : ℕ → ℕ → ℕ → ℕ → EthernetPacket → Option RawPacket
raw_packet_of header now handle dev_type packet = if packet.dot_num == 0 then none else (do
  bytes ← copy_points ((packet.total_length + 2 ^ 32 - header + 1) % 2 ^ 32) packet.payload
  some (record {
    lidar_type = k_livox_lidar_type;
    handle = handle;
    extrinsic_enable = false;
    point_num = packet.dot_num;
    data_type = packet.data_type;
    line_num = line_num_of dev_type;
    time_stamp = get_eth_packet_timestamp now packet.time_type packet.timestamp;
    point_interval = packet.time_interval * 100 / packet.dot_num;
    raw_data = bytes;
  }))

-- `OnLivoxLidarPointCloudCallback`: the handler, and the IMU data given to `imu_callback_`, if it is
-- set. `imu_of` reads the SDK's structure for IMU data.
unfoldable pub on_livox_lidar_point_cloud_callback :
    (List ℕ → Option ImuData)
    → Bool
    → ℕ
    → ℕ
    → ℕ
    → ℕ
    → EthernetPacket
    → PubHandler
    → Option (PubHandler × List ImuData)
unfolding raw_packet_of get_eth_packet_timestamp
on_livox_lidar_point_cloud_callback imu_of has_callback header now handle dev_type packet s =
    let s' = record s { is_timestamp_sync = not (packet.time_type == 0) } in
    if packet.data_type == 0
    then (if has_callback
        then (do
          imu ← imu_of packet.payload
          let stamp = get_eth_packet_timestamp now packet.time_type packet.timestamp
          some (
            s',
            record imu { lidar_type = k_livox_lidar_type; handle = handle; time_stamp = stamp }
                ∷ [],
          ))
        else some (s', []))
    else (do
      raw ← raw_packet_of header now handle dev_type packet
      some (record s' { raw_packet_queue = s.raw_packet_queue ++ raw ∷ [] }, []))

-- An assignment to an element of an array.
abbrev pub assign {ℓ} : {A : Type ℓ} → List A → ℕ → A → Option (List A)
assign xs i v = if ltb i (length xs) then some (set xs i v) else none

-- The part of `CheckTimer` that puts a lidar's points into the frame, for both of its branches: the
-- frame, and the handler.
unfoldable pub take_lidar : ℕ → LidarPubHandler → PointFrame → Option (PointFrame × LidarPubHandler)
unfolding get_lidar_base_time get_lidar_point_clouds
take_lidar id h frame = do
  times ← assign frame.base_time frame.lidar_num (get_lidar_base_time h)
  let (cloud, h') = get_lidar_point_clouds h
  if length cloud == 0 then some (record frame { base_time = times }, h') else (do
    packets ← assign frame.lidar_point frame.lidar_num (record {
      handle = id;
      lidar_type = k_livox_lidar_type;
      points_num = length cloud;
      points = cloud;
    })
    some (record { base_time = times; lidar_num = frame.lidar_num + 1; lidar_point = packets }, h'))

-- The loop of `CheckTimer` over the handlers.
unfoldable pub take_lidars :
    List (ℕ × LidarPubHandler) → PointFrame → Option (PointFrame × List (ℕ × LidarPubHandler))
unfolding take_lidar
take_lidars [] frame = some (frame, [])
take_lidars ((id, h) ∷ rest) frame = do
  (frame', h') ← take_lidar id h frame
  (frame'', rest') ← take_lidars rest frame'
  some (frame'', (id, h') ∷ rest')

-- The two tests of `CheckTimer` with time synchronisation, for an interval of at least 1 ms.
abbrev pub due : PubHandler → LidarPubHandler → Bool
due s h =
    let recent_time_ms = get_recent_time_stamp h / k_ratio_of_ms_to_ns in
    let diff = (get_recent_time_stamp h + 2 ^ 64 - get_lidar_base_time h) % 2 ^ 64 in
    not (not (recent_time_ms % s.publish_interval_ms == 0) || recent_time_ms == 0)
    && not (ltb diff s.publish_interval_tolerance)

-- `CheckTimer` with time synchronisation, and `PublishPointCloud`.
unfoldable pub check_timer_sync : ℕ → PubHandler → Option (PubHandler × List PointFrame)
unfolding take_lidar
check_timer_sync id s = do
  h ← lookup id s.lidar_process_handlers
  if s.publish_interval_ms == 0 then none else if not (due s h) then some (s, []) else (do
    (frame, h') ← take_lidar id h s.frame
    let handlers = put id h' s.lidar_process_handlers
    some (
        if length h.points_clouds == 0 || frame.lidar_num == 0
        then (record s { lidar_process_handlers = handlers; frame = frame }, [])
        else (
          record s { lidar_process_handlers = handlers; frame = record frame { lidar_num = 0 } },
          frame ∷ [],
        )))

-- `CheckTimer` without time synchronisation, at the time `now`.
unfoldable pub check_timer_free : ℕ → PubHandler → Option (PubHandler × List PointFrame)
unfolding take_lidars
check_timer_free now s =
    if s.first
    then some (record s { last_pub_time = now; first = false }, [])
    else if ltb now (s.last_pub_time + s.publish_interval)
    then some (s, [])
    else (do
      (frame, handlers) ← take_lidars s.lidar_process_handlers s.frame
      some (
        record s {
          last_pub_time = s.last_pub_time + s.publish_interval;
          lidar_process_handlers = handlers;
          frame = record frame { lidar_num = 0 };
        },
        frame ∷ [],
      ))

-- `CheckTimer`, where `points_callback_` is set.
unfoldable pub check_timer : ℕ → ℕ → PubHandler → Option (PubHandler × List PointFrame)
unfolding check_timer_sync check_timer_free
check_timer now id s = if s.is_timestamp_sync then check_timer_sync id s else check_timer_free now s

module _ (fl : Floats) (layout : Layout) where
  -- The handler of a lidar as `RawDataProcess` prepares it.
  abbrev pub prepared : ℕ → PubHandler → LidarPubHandler
  prepared id s =
      let h : LidarPubHandler = elim (lookup id s.lidar_process_handlers) [
        | none ↦ new_handler fl
        | some old ↦ old
      ] in
      elim (lookup id s.lidar_extrinsics) [
        | none ↦ h
        | some param ↦ set_lidars_ext_param fl h param
      ]

  -- What `RawDataProcess` does with a packet that it has taken from the queue.
  unfoldable pub process_packet : ℕ → RawPacket → PubHandler → Option (PubHandler × List PointFrame)
  unfolding check_timer
  process_packet now raw_data s = do
    let id = get_lidar_id raw_data.lidar_type raw_data.handle
    h ← point_cloud_process fl layout (prepared id s) raw_data
    check_timer now id (record s { lidar_process_handlers = put id h s.lidar_process_handlers })
