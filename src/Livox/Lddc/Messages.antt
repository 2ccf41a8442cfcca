-- ===== src/Livox/Lddc/Messages.antt =====
-- The ROS messages of livox_ros2/livox_driver/src/lddc.cpp: `InitPointcloud2MsgHeader`,
-- `InitPointcloud2Msg`, `InitCustomMsg`, `FillPointsToCustomMsg`, `InitImuMsg`.
use Prim.Native.String.{String}
use sensor_packages.Base.{
  ℕ, ◌+◌, ◌-◌, ◌*◌, ◌^◌, ◌%◌, Bool, true, false, List, [], ◌∷◌, Option, some, map, ◌==◌,
  if◌then◌else◌,
}
use sensor_packages.Base.Fault.{◌>>=◌}
use sensor_packages.Livox.Types.{k_livox_lidar_type, PointXyzlt, StoragePacket, ImuData}
use sensor_packages.Livox.Queue.{copy_points}

abbrev pub k_pointcloud2_msg : ℕ
k_pointcloud2_msg = 0

abbrev pub k_livox_custom_msg : ℕ
k_livox_custom_msg = 1

abbrev pub k_pcl_pxyzi_msg : ℕ
k_pcl_pxyzi_msg = 2

abbrev pub k_output_to_ros : ℕ
k_output_to_ros = 0

-- The conversions between bit patterns that C++ makes: `double` of a `uint64_t`, `uint8_t` of a
-- `float`, `double` of a `float`.
pub record Conversions : Type 0 where
  pub double_of_u64 : ℕ → ℕ
  pub u8_of_float : ℕ → ℕ
  pub double_of_float : ℕ → ℕ

-- The fields of `Lddc` that messages depend on.
pub record Settings : Type 0 where
  pub transfer_format : ℕ
  pub output_type : ℕ
  pub frame_id : String
  pub imu_frame_id : String

-- `LivoxPointXyzrtlt`, packed: 26 bytes.
pub record LivoxPointXyzrtlt : Type 0 where
  pub x : ℕ
  pub y : ℕ
  pub z : ℕ
  pub reflectivity : ℕ
  pub tag : ℕ
  pub line : ℕ
  pub timestamp : ℕ

abbrev pub size_of_point : ℕ
size_of_point = 26

-- `PointField`; the types are those of sensor_msgs: UINT8 is 2, FLOAT32 7 and FLOAT64 8.
pub record PointField : Type 0 where
  pub offset : ℕ
  pub name : String
  pub count : ℕ
  pub datatype : ℕ

-- `PointCloud2`; the bytes of `data` are those of a list of points.
pub record PointCloud2 : Type 0 where
  pub frame_id : String
  pub stamp : ℕ
  pub height : ℕ
  pub width : ℕ
  pub fields : List PointField
  pub point_step : ℕ
  pub row_step : ℕ
  pub is_bigendian : Bool
  pub is_dense : Bool
  pub points : List LivoxPointXyzrtlt

abbrev field : ℕ → String → ℕ → PointField
field offset name datatype = record { offset = offset; name = name; count = 1; datatype = datatype }

-- The fields that `InitPointcloud2MsgHeader` sets.
unfoldable pub point_fields : List PointField
point_fields =
    field 0 "x" 7
    ∷ field 4 "y" 7
    ∷ field 8 "z" 7
    ∷ field 12 "intensity" 7
    ∷ field 16 "tag" 2
    ∷ field 17 "line" 2
    ∷ field 18 "timestamp" 8
    ∷ []

-- `CustomPoint` and `CustomMsg`
pub record CustomPoint : Type 0 where
  pub offset_time : ℕ
  pub x : ℕ
  pub y : ℕ
  pub z : ℕ
  pub reflectivity : ℕ
  pub tag : ℕ
  pub line : ℕ

pub record CustomMsg : Type 0 where
  pub frame_id : String
  pub stamp : ℕ
  pub timebase : ℕ
  pub point_num : ℕ
  pub lidar_id : ℕ
  pub points : List CustomPoint

-- `ImuMsg`, the fields that the driver sets.
pub record ImuMsg : Type 0 where
  pub frame_id : String
  pub stamp : ℕ
  pub angular_x : ℕ
  pub angular_y : ℕ
  pub angular_z : ℕ
  pub linear_x : ℕ
  pub linear_y : ℕ
  pub linear_z : ℕ

-- What is published for the device with an index.
pub data Message : Type 0 where
  cloud_message : ℕ → PointCloud2 → Message
  custom_message : ℕ → CustomMsg → Message
  imu_message : ℕ → ImuMsg → Message

abbrev stamp_of : StoragePacket → ℕ
stamp_of pkg = elim pkg.points [ [] ↦ 0 | p ∷ ps ↦ pkg.base_time ]

module _ (conv : Conversions) where
  abbrev pub cloud_point : PointXyzlt → LivoxPointXyzrtlt
  cloud_point p = record {
    x = p.x;
    y = p.y;
    z = p.z;
    reflectivity = p.intensity;
    tag = p.tag;
    line = p.line;
    timestamp = conv.double_of_u64 p.offset_time;
  }

  -- `InitPointcloud2Msg`, the header included.
  unfoldable pub init_pointcloud2_msg : Settings → StoragePacket → Option PointCloud2
  unfolding point_fields
  init_pointcloud2_msg s pkg = do
    points ← copy_points pkg.points_num pkg.points
    some (record {
      frame_id = s.frame_id;
      stamp = stamp_of pkg;
      height = 1;
      width = pkg.points_num;
      fields = point_fields;
      point_step = size_of_point;
      row_step = pkg.points_num * size_of_point % 2 ^ 32;
      is_bigendian = false;
      is_dense = true;
      points = map cloud_point points;
    })

  -- A point of `FillPointsToCustomMsg`; the offset is a `uint32_t` of a difference of `uint64_t`.
  abbrev pub custom_point : ℕ → PointXyzlt → CustomPoint
  custom_point base_time p = record {
    offset_time = (p.offset_time + 2 ^ 64 - base_time) % 2 ^ 64 % 2 ^ 32;
    x = p.x;
    y = p.y;
    z = p.z;
    reflectivity = conv.u8_of_float p.intensity;
    tag = p.tag;
    line = p.line;
  }

  -- `InitCustomMsg` and `FillPointsToCustomMsg`; `lidar_id` of the message has 8 bits.
  unfoldable pub init_custom_msg : Settings → ℕ → ℕ → StoragePacket → Option CustomMsg
  init_custom_msg s lidar_type handle pkg = do
    points ← copy_points pkg.points_num pkg.points
    some (record {
      frame_id = s.frame_id;
      stamp = stamp_of pkg;
      timebase = stamp_of pkg;
      point_num = pkg.points_num;
      lidar_id = if lidar_type == k_livox_lidar_type then handle % 2 ^ 8 else 0;
      points = map (custom_point pkg.base_time) points;
    })

  -- `InitImuMsg`
  abbrev pub init_imu_msg : Settings → ImuData → ImuMsg
  init_imu_msg s imu = record {
    frame_id = s.imu_frame_id;
    stamp = imu.time_stamp;
    angular_x = conv.double_of_float imu.gyro_x;
    angular_y = conv.double_of_float imu.gyro_y;
    angular_z = conv.double_of_float imu.gyro_z;
    linear_x = conv.double_of_float imu.acc_x;
    linear_y = conv.double_of_float imu.acc_y;
    linear_z = conv.double_of_float imu.acc_z;
  }
