-- ===== src/Livox/ImuQueue.antt =====
-- `LidarImuDataQueue` of livox_ros2/livox_driver/src/comm/lidar_imu_data_queue.cpp and `Semaphore` of
-- comm/semaphore.h and semaphore.cpp. Each operation runs under its mutex, so it is one step.
use sensor_packages.Base.{ℕ, zero, suc, Bool, true, false, List, [], ◌∷◌, ◌++◌, Option, none, some}
use sensor_packages.Livox.Types.{ImuData}

abbrev pub ImuQueue : Type 0
ImuQueue = List ImuData

-- `LidarImuDataQueue::Push`; the copy's `slot` is left undetermined, and is the first argument.
unfoldable pub push : ℕ → ImuQueue → ImuData → ImuQueue
push undetermined queue imu_data =
    queue
    ++ record {
      lidar_type = imu_data.lidar_type;
      handle = imu_data.handle;
      slot = undetermined;
      time_stamp = imu_data.time_stamp;
      gyro_x = imu_data.gyro_x;
      gyro_y = imu_data.gyro_y;
      gyro_z = imu_data.gyro_z;
      acc_x = imu_data.acc_x;
      acc_y = imu_data.acc_y;
      acc_z = imu_data.acc_z;
    }
      ∷ []

-- `LidarImuDataQueue::Pop`: the flag, what the argument holds afterwards, and the queue.
unfoldable pub pop : ImuQueue → ImuData → Bool × ImuData × ImuQueue
pop [] out = (false, out, [])
pop (front ∷ rest) out = (true, front, rest)

-- `LidarImuDataQueue::Empty`
abbrev pub is_empty : ImuQueue → Bool
is_empty [] = true
is_empty (front ∷ rest) = false

-- `LidarImuDataQueue::Clear`
abbrev pub clear : ImuQueue → ImuQueue
clear queue = []

-- `Semaphore::Signal`, on the count.
unfoldable pub signal : ℕ → ℕ
signal count = suc count

-- `Semaphore::Wait`: `none` while the caller is blocked.
unfoldable pub wait : ℕ → Option ℕ
wait zero = none
wait (suc count) = some count
