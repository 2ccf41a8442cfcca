-- ===== src/Livox/Lddc.antt =====
-- The data distribution of livox_ros2/livox_driver/src/lddc.h and lddc.cpp, as built for ROS 2: the
-- publishing threads empty the devices' queues into ROS messages. A publisher appends to a list; the
-- numeric conversions of C++ that involve floats are a parameter.
pub mod Messages
pub mod Drain
pub mod Distribute
pub mod Topics
use sensor_packages.Base.{
  ℕ, zero, suc, ◌+◌, ◌-◌, Bool, true, false, not, ◌||◌, List, [], ◌∷◌, ◌++◌, Option, none, some,
  ◌==◌, if◌then◌else◌,
}
use sensor_packages.Livox.Types.{
  LidarConnectState, state_sampling, state_off, state_on, state_config, StoragePacket, ImuData,
}
use sensor_packages.Livox.Queue.{
  LidarDataQueue, Store, null, live, freed, blank, queue_pop, queue_is_empty,
}
use sensor_packages.Livox.ImuQueue
use sensor_packages.Livox.ImuQueue.{ImuQueue, wait}
use sensor_packages.Livox.Lds.{Lds, LidarDevice}
use Messages.{
  Conversions, Settings, Message, cloud_message, custom_message, imu_message, init_pointcloud2_msg,
  init_custom_msg, init_imu_msg, k_pointcloud2_msg, k_livox_custom_msg, k_pcl_pxyzi_msg,
  k_output_to_ros,
}

-- How a call ends: `fault` is undefined behaviour, `running` a call that has not returned when its
-- fuel is used up, or that is blocked.
pub data Run {ℓ} (A : Type ℓ) : Type ℓ where
  finished : A → Run A
  fault : Run A
  running : Run A

infixl 5 ◌>>=◌
abbrev pub ◌>>=◌ {ℓ κ} : {A : Type ℓ} {B : Type κ} → Run A → (A → Run B) → Run B
finished a >>= f = f a
fault >>= f = fault
running >>= f = running

abbrev pub run_of {ℓ} : {A : Type ℓ} → Option A → Run A
run_of none = fault
run_of (some a) = finished a

abbrev pub is_sampling : LidarConnectState → Bool
is_sampling state_off = false
is_sampling state_on = false
is_sampling state_config = false
is_sampling state_sampling = true

abbrev pub has_points : StoragePacket → Bool
has_points pkg = elim pkg.points [ [] ↦ false | p ∷ ps ↦ true ]

module _ (conv : Conversions) (s : Settings) where
  -- What `PublishPointcloud2` and `PublishPointcloud2Data` publish of a packet.
  unfoldable pub pointcloud2_messages : ℕ → StoragePacket → Option (List Message)
  pointcloud2_messages index pkg =
      if has_points pkg
      then elim (init_pointcloud2_msg conv s pkg) [
        | none ↦ none
        | some cloud ↦
            some (if s.output_type == k_output_to_ros then cloud_message index cloud ∷ [] else [])
      ]
      else some []

  -- What `PublishCustomPointcloud` and `PublishCustomPointData` publish of a packet of this lidar.
  unfoldable pub custom_messages : LidarDevice → ℕ → StoragePacket → Option (List Message)
  custom_messages lidar index pkg =
      if has_points pkg
      then elim (init_custom_msg conv s lidar.lidar_type lidar.handle pkg) [
        | none ↦ none
        | some msg ↦
            some (if s.output_type == k_output_to_ros then custom_message index msg ∷ [] else [])
      ]
      else some []

  -- The loop of `PublishPointcloud2` and of `PublishCustomPointcloud`, which differ in the message.
  unfoldable pub publish_loop :
      ℕ
      → (StoragePacket → Option (List Message))
      → LidarDataQueue
      → List Message
      → Run (List Message × LidarDataQueue)
  publish_loop zero messages queue log = running
  publish_loop (suc fuel) messages queue log = elim (queue_is_empty queue) [
    | true ↦ finished (log, queue)
    | false ↦ do
      (got, pkg, queue') ← run_of (queue_pop queue blank)
      out ← run_of (messages pkg)
      publish_loop fuel messages queue' (log ++ out)
  ]

  -- The body of the loop of `PollingLidarPointCloudData`. In ROS 2 `PublishPclMsg` returns at once.
  unfoldable pub publish_queue :
      ℕ → LidarDevice → ℕ → LidarDataQueue → List Message → Run (List Message × LidarDataQueue)
  unfolding publish_loop
  publish_queue fuel lidar index queue log =
      if s.transfer_format == k_pointcloud2_msg
      then publish_loop fuel (pointcloud2_messages index) queue log
      else if s.transfer_format == k_livox_custom_msg
      then publish_loop fuel (custom_messages lidar index) queue log
      else finished (log, queue)

  -- The loop of `PollingLidarPointCloudData`; `exits` is what `IsRequestExit` returns in the rounds to
  -- come, the one with `n` rounds behind it at `n`.
  unfoldable pub polling_loop :
      ℕ
      → ℕ
      → (ℕ → Bool)
      → LidarDevice
      → ℕ
      → LidarDataQueue
      → List Message
      → Run (List Message × LidarDataQueue)
  polling_loop zero inner exits lidar index queue log = running
  polling_loop (suc fuel) inner exits lidar index queue log =
      elim (exits fuel || queue_is_empty queue) [
        | true ↦ finished (log, queue)
        | false ↦ do
          (log', queue') ← publish_queue inner lidar index queue log
          polling_loop fuel inner exits lidar index queue' log'
      ]

  abbrev pub is_null : Store → Bool
  is_null null = true
  is_null (live slots) = false
  is_null freed = false

  -- `PollingLidarPointCloudData`
  unfoldable pub polling_lidar_point_cloud_data :
      ℕ → ℕ → (ℕ → Bool) → ℕ → LidarDevice → List Message → Run (List Message × LidarDevice)
  polling_lidar_point_cloud_data fuel inner exits index lidar log =
      if is_null lidar.points.storage_packet then finished (log, lidar) else (do
        (log', queue') ← polling_loop fuel inner exits lidar index lidar.points log
        finished (log', record lidar { points = queue' }))

  -- The loop of `DistributePointCloudData` over the first `count` devices.
  unfoldable pub distribute_points :
      ℕ
      → ℕ
      → (ℕ → Bool)
      → ℕ
      → ℕ
      → List LidarDevice
      → List Message
      → Run (List Message × List LidarDevice)
  unfolding polling_lidar_point_cloud_data
  distribute_points fuel inner exits zero index lidars log = finished (log, lidars)
  distribute_points fuel inner exits (suc count) index [] log = fault
  distribute_points fuel inner exits (suc count) index (lidar ∷ rest) log = do
    (log', lidar') ←
        if is_sampling lidar.connect_state
        then polling_lidar_point_cloud_data fuel inner exits index lidar log
        else finished (log, lidar)
    (log'', rest') ← distribute_points fuel inner exits count (suc index) rest log'
    finished (log'', lidar' ∷ rest')

  -- `PublishImuData` of one message.
  unfoldable pub publish_imu_data : ImuQueue → ImuData → ℕ → List Message → List Message × ImuQueue
  publish_imu_data queue out index log =
      let (got, imu, queue') = ImuQueue.pop queue out in
      if not got then (log, queue') else (
        (if s.output_type == k_output_to_ros
            then log ++ imu_message index (init_imu_msg conv s imu) ∷ []
            else log),
        queue',
      )

  -- `PollingLidarImuData`; `out` is the local variable that `Pop` fills.
  unfoldable pub polling_lidar_imu_data :
      ℕ → (ℕ → Bool) → ImuData → ℕ → ImuQueue → List Message → Run (List Message × ImuQueue)
  unfolding publish_imu_data
  polling_lidar_imu_data zero exits out index queue log = running
  polling_lidar_imu_data (suc fuel) exits out index queue log =
      elim (exits fuel || ImuQueue.is_empty queue) [
        | true ↦ finished (log, queue)
        | false ↦
            let (log', queue') = publish_imu_data queue out index log in
            polling_lidar_imu_data fuel exits out index queue' log'
      ]

  -- The loop of `DistributeImuData`.
  unfoldable pub distribute_imus :
      ℕ
      → (ℕ → Bool)
      → ImuData
      → ℕ
      → ℕ
      → List LidarDevice
      → List Message
      → Run (List Message × List LidarDevice)
  unfolding polling_lidar_imu_data
  distribute_imus fuel exits out zero index lidars log = finished (log, lidars)
  distribute_imus fuel exits out (suc count) index [] log = fault
  distribute_imus fuel exits out (suc count) index (lidar ∷ rest) log = do
    (log', queue') ←
        if is_sampling lidar.connect_state
        then polling_lidar_imu_data fuel exits out index lidar.imu_data log
        else finished (log, lidar.imu_data)
    (log'', rest') ← distribute_imus fuel exits out count (suc index) rest log'
    finished (log'', record lidar { imu_data = queue' } ∷ rest')

  -- `DistributePointCloudData`, on the registered data source.
  unfoldable pub distribute_point_cloud_data :
      ℕ → ℕ → (ℕ → Bool) → Option Lds → List Message → Run (List Message × Option Lds)
  unfolding distribute_points
  distribute_point_cloud_data fuel inner exits none log = finished (log, none)
  distribute_point_cloud_data fuel inner exits (some lds) log =
      if lds.request_exit then finished (log, some lds) else elim (wait lds.pcd_semaphore) [
        | none ↦ running
        | some count ↦ do
          (log', lidars') ← distribute_points fuel inner exits lds.lidar_count 0 lds.lidars log
          finished (log', some (record lds { lidars = lidars'; pcd_semaphore = count }))
      ]

  -- `DistributeImuData`
  unfoldable pub distribute_imu_data :
      ℕ → (ℕ → Bool) → ImuData → Option Lds → List Message → Run (List Message × Option Lds)
  unfolding distribute_imus
  distribute_imu_data fuel exits out none log = finished (log, none)
  distribute_imu_data fuel exits out (some lds) log =
      if lds.request_exit then finished (log, some lds) else elim (wait lds.imu_semaphore) [
        | none ↦ running
        | some count ↦ do
          (log', lidars') ← distribute_imus fuel exits out lds.lidar_count 0 lds.lidars log
          finished (log', some (record lds { lidars = lidars'; imu_semaphore = count }))
      ]

-- `RegisterLds`: the registered source, and the return value as its negation.
abbrev pub register_lds : Option Lds → Lds → Option Lds × ℕ
register_lds none lds = (some lds, 0)
register_lds (some old) lds = (some old, 1)
