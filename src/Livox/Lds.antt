-- ===== src/Livox/Lds.antt =====
-- The data source of livox_ros2/livox_driver/src/lds.h and lds.cpp, with the two functions of
-- comm/comm.cpp that size its queues: 32 devices, each with a point cloud ring and an IMU queue, the
-- index cache, and two semaphores that wake the publishing threads.
pub mod Storage
use sensor_packages.Base.{
  ℕ, zero, suc, ◌+◌, ◌^◌, ◌%◌, Bool, true, false, not, ◌&&◌, ◌||◌, List, [], ◌∷◌, Option, none,
  some, get_elem?, set, ltb, leb, ◌==◌, if◌then◌else◌,
}
use sensor_packages.Base.Fault.{◌>>=◌}
use sensor_packages.Livox.Types.{
  k_max_source_lidar, k_livox_lidar_type, LidarConnectState, state_off, state_sampling, PointPacket,
  PointFrame, ImuData, UserLivoxLidarConfig,
}
use sensor_packages.Livox.Queue.{
  LidarDataQueue, Store, null, init_queue, de_init_queue, queue_is_full, queue_is_empty,
  queue_push_any, queue_used_size,
}
use sensor_packages.Livox.CacheIndex.{CacheIndex, get_index, lvx_get_index}
use sensor_packages.Livox.ImuQueue
use sensor_packages.Livox.ImuQueue.{ImuQueue, signal}

-- A nonnegative `double` as the code looks at it: its whole part, and whether it exceeds that.
pub record Frequency : Type 0 where
  pub whole : ℕ
  pub has_fraction : Bool

-- `LidarDevice`
pub record LidarDevice : Type 0 where
  pub lidar_type : ℕ
  pub device_type : ℕ
  pub handle : ℕ
  pub data_src : ℕ
  pub connect_state : LidarConnectState
  pub points : LidarDataQueue
  pub imu_data : ImuQueue
  pub firmware_ver : ℕ
  pub livox_config : UserLivoxLidarConfig

-- `Lds`
pub record Lds : Type 0 where
  pub lidar_count : ℕ
  pub lidars : List LidarDevice
  pub pcd_semaphore : ℕ
  pub imu_semaphore : ℕ
  pub cache_index : CacheIndex
  pub publish_freq : Frequency
  pub data_src : ℕ
  pub request_exit : Bool

-- `CalculatePacketQueueSize`
unfoldable pub calculate_packet_queue_size : Frequency → ℕ
calculate_packet_queue_size publish_freq =
    if ltb 10 publish_freq.whole || (publish_freq.whole == 10 && publish_freq.has_fraction)
    then (publish_freq.whole + 1) % 2 ^ 32
    else 10

-- `Lds::ResetLidar`
unfoldable pub reset_lidar : LidarDevice → ℕ → Option LidarDevice
reset_lidar lidar data_src = do
  queue ← de_init_queue lidar.points
  some (record lidar {
    points = queue;
    imu_data = ImuQueue.clear lidar.imu_data;
    data_src = data_src;
    connect_state = state_off;
  })

-- `Lds::SetLidarDataSrc`
abbrev pub set_lidar_data_src : LidarDevice → ℕ → LidarDevice
set_lidar_data_src lidar data_src = record lidar { data_src = data_src }

unfoldable pub reset_lidars : List LidarDevice → ℕ → Option (List LidarDevice)
unfolding reset_lidar
reset_lidars [] data_src = some []
reset_lidars (lidar ∷ rest) data_src = do
  lidar' ← reset_lidar lidar data_src
  rest' ← reset_lidars rest data_src
  some (lidar' ∷ rest')

-- `Lds::ResetLds`, over the array of `kMaxSourceLidar` devices.
unfoldable pub reset_lds : Lds → ℕ → Option Lds
unfolding reset_lidars
reset_lds lds data_src = do
  lidars' ← reset_lidars lds.lidars data_src
  some (record lds { lidar_count = k_max_source_lidar; lidars = lidars' })

-- `Lds::RequestExit`
abbrev pub request_exit : Lds → Lds
request_exit lds = record lds { request_exit = true }

-- `Lds::CleanRequestExit`
abbrev pub clean_request_exit : Lds → Lds
clean_request_exit lds = record lds { request_exit = false }

all_empty : ℕ → List LidarDevice → Bool
all_empty zero lidars = true
all_empty (suc n) [] = true
all_empty (suc n) (lidar ∷ rest) =
    let later = all_empty n rest in if not (queue_is_empty lidar.points) then false else later

-- `Lds::IsAllQueueEmpty`
pub is_all_queue_empty : Lds → Bool
unfolding all_empty
is_all_queue_empty lds = all_empty lds.lidar_count lds.lidars

all_read : ℕ → List LidarDevice → Bool
all_read zero lidars = true
all_read (suc n) [] = true
all_read (suc n) (lidar ∷ rest) =
    let later = all_read n rest in if not (queue_used_size lidar.points == 0) then false else later

-- `Lds::IsAllQueueReadStop`
pub is_all_queue_read_stop : Lds → Bool
unfolding all_read
is_all_queue_read_stop lds = all_read lds.lidar_count lds.lidars

-- `if (semaphore.GetCount() <= 0) semaphore.Signal();`, the count being at least 0.
abbrev pub signal_once : ℕ → ℕ
signal_once count = if leb count 0 then signal count else count

-- `Lds::StorageImuData`; `undetermined` is what the queue leaves in `slot`.
unfoldable pub storage_imu_data : ℕ → Lds → ImuData → Option Lds
storage_imu_data undetermined lds imu_data =
    if not (imu_data.lidar_type == k_livox_lidar_type)
    then some lds
    else elim (get_index lds.cache_index imu_data.lidar_type imu_data.handle) [
      | none ↦ some lds
      | some index ↦ do
        lidar ← get_elem? lds.lidars index
        let queue = ImuQueue.push undetermined lidar.imu_data imu_data
        some (record lds {
          lidars = set lds.lidars index (record lidar { imu_data = queue });
          imu_semaphore =
              if not (ImuQueue.is_empty queue)
              then signal_once lds.imu_semaphore
              else lds.imu_semaphore;
        })
    ]

-- The queue that `Lds::PushLidarData` pushes to: allocated at the first packet.
abbrev pub ready_queue : Frequency → LidarDataQueue → Store → Option LidarDataQueue
ready_queue freq queue null = init_queue queue (calculate_packet_queue_size freq)
ready_queue freq queue other = some queue

-- The push of `Lds::PushLidarData` into an allocated queue.
unfoldable pub push_packet : LidarDataQueue → PointPacket → ℕ → ℕ → Option (LidarDataQueue × ℕ)
push_packet queue lidar_data base_time semaphore =
    if not (queue_is_full queue)
    then (do
      queue' ← queue_push_any queue lidar_data base_time
      some (queue', (if not (queue_is_empty queue') then signal_once semaphore else semaphore)))
    else some (queue, signal_once semaphore)

-- `Lds::PushLidarData`
unfoldable pub push_lidar_data : Lds → PointPacket → ℕ → ℕ → Option Lds
unfolding push_packet
push_lidar_data lds lidar_data index base_time = do
  lidar ← get_elem? lds.lidars index
  queue ← ready_queue lds.publish_freq lidar.points lidar.points.storage_packet
  (queue', semaphore) ← push_packet queue lidar_data base_time lds.pcd_semaphore
  some (record lds {
    lidars = set lds.lidars index (record lidar { points = queue' });
    pcd_semaphore = semaphore;
  })

-- One round of the loop of `Lds::StoragePointData`.
unfoldable pub storage_point : Lds → PointPacket → ℕ → Option Lds
unfolding push_lidar_data
storage_point lds lidar_point base_time =
    elim (get_index lds.cache_index lidar_point.lidar_type lidar_point.handle) [
      | none ↦ some lds
      | some index ↦ push_lidar_data lds lidar_point index base_time
    ]

-- One round of the loop of `Lds::StorageLvxPointData`.
unfoldable pub storage_lvx_point : Lds → PointPacket → ℕ → Option Lds
unfolding push_lidar_data
storage_lvx_point lds lidar_point base_time =
    let (cache, ret) = lvx_get_index lds.cache_index lidar_point.lidar_type lidar_point.handle in
    elim ret [
      | none ↦ some (record lds { cache_index = cache })
      | some index ↦ do
        lidar ← get_elem? lds.lidars index
        push_lidar_data
            (record lds {
              cache_index = cache;
              lidars = set lds.lidars index (record lidar { connect_state = state_sampling });
            })
            lidar_point index base_time
    ]

-- The loop over `frame->lidar_point[i]` and `frame->base_time[i]`, `i < lidar_num`.
unfoldable pub over_frame :
    (Lds → PointPacket → ℕ → Option Lds) → ℕ → List PointPacket → List ℕ → Lds → Option Lds
over_frame body zero points times lds = some lds
over_frame body (suc n) (p ∷ points) (t ∷ times) lds = do
  lds' ← body lds p t
  over_frame body n points times lds'
over_frame body (suc n) points times lds = none

-- `Lds::StoragePointData`
unfoldable pub storage_point_data : Lds → PointFrame → Option Lds
unfolding storage_point over_frame
storage_point_data lds frame =
    over_frame storage_point frame.lidar_num frame.lidar_point frame.base_time lds

-- `Lds::StorageLvxPointData`
unfoldable pub storage_lvx_point_data : Lds → PointFrame → Option Lds
unfolding storage_lvx_point over_frame
storage_lvx_point_data lds frame =
    over_frame storage_lvx_point frame.lidar_num frame.lidar_point frame.base_time lds
