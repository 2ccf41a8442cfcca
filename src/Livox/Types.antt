-- ===== src/Livox/Types.antt =====
-- The data of livox_ros2/livox_driver/src/comm/comm.h and comm/lidar_imu_data_queue.h.
-- A float or double that is only moved is its bit pattern, a number; an integer of w bits is a number
-- below 2 ^ w. The signed fields of a configuration are integers.
use sensor_packages.Base.{ℕ, List}
use sensor_packages.Base.Int.{ℤ}

abbrev pub k_max_source_lidar : ℕ
k_max_source_lidar = 32

abbrev pub k_livox_lidar_type : ℕ
k_livox_lidar_type = 8

abbrev pub k_ns_per_second : ℕ
k_ns_per_second = 1000000000

abbrev pub k_ns_tolerant_frame_time_deviation : ℕ
k_ns_tolerant_frame_time_deviation = 1000000

abbrev pub k_ratio_of_ms_to_ns : ℕ
k_ratio_of_ms_to_ns = 1000000

abbrev pub k_line_number_default : ℕ
k_line_number_default = 1

abbrev pub k_line_number_mid360 : ℕ
k_line_number_mid360 = 4

abbrev pub k_line_number_hap : ℕ
k_line_number_hap = 6

-- `LidarConnectState`
pub data LidarConnectState : Type 0 where
  state_off state_on state_config state_sampling : LidarConnectState

-- `PointXyzlt`
pub record PointXyzlt : Type 0 where
  pub x : ℕ
  pub y : ℕ
  pub z : ℕ
  pub intensity : ℕ
  pub tag : ℕ
  pub line : ℕ
  pub offset_time : ℕ

-- `PointPacket`; the list is the memory that the pointer `points` leads to.
pub record PointPacket : Type 0 where
  pub handle : ℕ
  pub lidar_type : ℕ
  pub points_num : ℕ
  pub points : List PointXyzlt

-- `PointFrame`; both lists stand for arrays of `kMaxSourceLidar` entries.
pub record PointFrame : Type 0 where
  pub base_time : List ℕ
  pub lidar_num : ℕ
  pub lidar_point : List PointPacket

-- `StoragePacket`
pub record StoragePacket : Type 0 where
  pub lidar_type : ℕ
  pub handle : ℕ
  pub base_time : ℕ
  pub points_num : ℕ
  pub points : List PointXyzlt

-- `ImuData`
pub record ImuData : Type 0 where
  pub lidar_type : ℕ
  pub handle : ℕ
  pub slot : ℕ
  pub time_stamp : ℕ
  pub gyro_x : ℕ
  pub gyro_y : ℕ
  pub gyro_z : ℕ
  pub acc_x : ℕ
  pub acc_y : ℕ
  pub acc_z : ℕ

-- `ExtParameter`
pub record ExtParameter : Type 0 where
  pub roll : ℕ
  pub pitch : ℕ
  pub yaw : ℕ
  pub x : ℤ
  pub y : ℤ
  pub z : ℤ

-- `LidarExtParameter`
pub record LidarExtParameter : Type 0 where
  pub lidar_type : ℕ
  pub handle : ℕ
  pub param : ExtParameter

-- `UserLivoxLidarConfig`
pub record UserLivoxLidarConfig : Type 0 where
  pub handle : ℕ
  pub pcl_data_type : ℤ
  pub pattern_mode : ℤ
  pub blind_spot_set : ℤ
  pub dual_emit_en : ℤ
  pub extrinsic_param : ExtParameter
  pub set_bits : ℕ
  pub get_bits : ℕ
