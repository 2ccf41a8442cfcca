-- ===== src/Livox/SetupTests.antt =====
-- The theorems about the Livox driver's configuration, callbacks and point handlers at concrete inputs.
use sensor_packages.Base.{
  ℕ, zero, suc, ◌-◌, ◌^◌, ◌≡◌, refl, true, false, ◌↔◌, [], ◌∷◌, Option, none, some, replicate,
  get_elem?, arith,
}
use sensor_packages.Base.Int.{pos, negsuc}
use sensor_packages.Base.Fault.{Ensures}
use sensor_packages.Livox.Types.{
  PointXyzlt, PointPacket, PointFrame, UserLivoxLidarConfig, state_off, k_livox_lidar_type,
}
use sensor_packages.Livox.Queue.{null}
use sensor_packages.Livox.CacheIndex.{CacheIndex, get_index, get_free_index, new_cache}
use sensor_packages.Livox.CacheIndex.Slots.{new_cache-Inv}
use sensor_packages.Livox.Lds.{Lds, LidarDevice}
use sensor_packages.Livox.Callback.{scan_pattern, data_type, lidar_info_change_callback}
use sensor_packages.Livox.Callback.Answers.{Outcome, answers, answers-Outcome}
use sensor_packages.Livox.Callback.Configure.{Configured, lidar_info_change_callback-Configured}
use sensor_packages.Livox.LidarPubHandler.{
  RawPacket, RawPoint, Floats, Layout, LidarPubHandler, get_recent_time_stamp, get_lidar_base_time,
  new_handler, point_cloud_process,
}
use sensor_packages.Livox.LidarPubHandler.Points.{Appended, high, point_cloud_process-Appended}
use sensor_packages.Livox.PubHandler.{PubHandler, check_timer, lookup, due}
use sensor_packages.Livox.PubHandler.Synced.{check_timer-Synced}
use sensor_packages.Livox.PubHandler.Timer.{
  Framed, packets_in, packets_of, Emptied, check_timer-Published,
}
use sensor_packages.Livox.Config.{Json, parse_user_configs, parse_user_config}
use sensor_packages.Livox.Config.Users.{WellTyped, Parsed, parse_user_configs-Parsed}
use sensor_packages.Livox.LdsLidar.{add_device}
use sensor_packages.Livox.LdsLidar.Devices.{Source, Registered, add_device-Registered}

abbrev config : UserLivoxLidarConfig
config = record {
  handle = 100;
  pcl_data_type = pos 1;
  pattern_mode = pos 0;
  blind_spot_set = negsuc 0;
  dual_emit_en = negsuc 0;
  extrinsic_param = record { roll = 0; pitch = 0; yaw = 0; x = pos 0; y = pos 0; z = pos 0 };
  set_bits = 0;
  get_bits = 0;
}

abbrev device : LidarDevice
device = record {
  lidar_type = 8;
  device_type = 0;
  handle = 100;
  data_src = 0;
  connect_state = state_off;
  points = record { storage_packet = null; rd_idx = 0; wr_idx = 0; mask = 0; size = 0 };
  imu_data = [];
  firmware_ver = 0;
  livox_config = config;
}

abbrev one_lidar : CacheIndex
one_lidar = (get_free_index new_cache 8 100).0

abbrev source : Lds
source = record {
  lidar_count = 32;
  lidars = replicate 32 device;
  pcd_semaphore = 0;
  imu_semaphore = 0;
  cache_index = one_lidar;
  publish_freq = record { whole = 10; has_fraction = false };
  data_src = 0;
  request_exit = false;
}

slot : get_index one_lidar k_livox_lidar_type 100 ≡ some 0
unfolding get_index get_free_index
slot = refl

lidar_info_change_callback-Configured_example :
    Ensures (Configured 100 0 device) (lidar_info_change_callback (some source) 100 9)
lidar_info_change_callback-Configured_example =
    lidar_info_change_callback-Configured source 100 0 9 device slot refl refl

-- Both settings are asked for; the answers arrive in the other order.
abbrev asking : LidarDevice
asking = record device { livox_config = record config { set_bits = 3 } }

answers-Outcome_example :
    Ensures
      (λ lds'.
        (after : LidarDevice) × (get_elem? lds'.lidars 0 ≡ some after)
        × Outcome (scan_pattern ∷ data_type ∷ []) asking after)
      (answers (scan_pattern ∷ data_type ∷ []) 100 (record source { lidars = asking ∷ [] }))
answers-Outcome_example =
    answers-Outcome scan_pattern (data_type ∷ []) 100 0 (record source { lidars = asking ∷ [] })
      asking slot refl (omega arith)

empty_source : Source (record source { cache_index = new_cache })
empty_source = record { cache = new_cache-Inv; devices = refl }

free_slot : (get_free_index new_cache k_livox_lidar_type 100).1 ≡ some 0
unfolding get_free_index
free_slot = refl

-- The whole numbers in the place of the floating-point ones.
abbrev pub floats : Floats
floats = record {
  f_of_int = λ n. 0;
  f_add = λ a b. a;
  f_mul = λ a b. a;
  f_of_d = λ a. a;
  d_of_f = λ a. a;
  d_of_int = λ n. 0;
  d_add = λ a b. a;
  d_sub = λ a b. a;
  d_mul = λ a b. a;
  d_div = λ a b. a;
  d_neg = λ a. a;
  sin = λ a. a;
  cos = λ a. a;
  pi = 3;
}

abbrev raw : RawPoint
raw = record { x = pos 1; y = pos 2; z = pos 3; reflectivity = 4; tag = 5 }

abbrev pub layout : Layout
layout = record {
  high_point = λ bytes i. some raw;
  low_point = λ bytes i. some raw;
  spher_point = λ bytes i. none;
}

abbrev pub packet : RawPacket
packet = record {
  lidar_type = 8;
  handle = 100;
  extrinsic_enable = false;
  point_num = 6;
  data_type = 1;
  line_num = 4;
  time_stamp = 2 ^ 64 - 1;
  point_interval = 10;
  raw_data = [];
}

point_cloud_process-Appended_example :
    Ensures
      (λ h'. Appended packet 0 6 [] h'.points_clouds)
      (point_cloud_process floats layout (new_handler floats) packet)
point_cloud_process-Appended_example =
    point_cloud_process-Appended floats layout (new_handler floats) packet refl (omega arith)
      (high refl (λ j lt. (raw, refl)))

abbrev point : PointXyzlt
point = record { x = 1; y = 2; z = 3; intensity = 4; tag = 5; line = 6; offset_time = 7 }

abbrev blank_packet : PointPacket
blank_packet = record { handle = 0; lidar_type = 0; points_num = 0; points = [] }

-- Two lidars, one of them with no points.
abbrev pub timer : PubHandler
timer = record {
  is_timestamp_sync = false;
  publish_interval = 100;
  publish_interval_tolerance = 99;
  publish_interval_ms = 1;
  first = false;
  last_pub_time = 1000;
  lidar_process_handlers =
      (100, record (new_handler floats) { points_clouds = point ∷ [] })
      ∷ (200, new_handler floats)
      ∷ [];
  lidar_extrinsics = [];
  raw_packet_queue = [];
  frame = record {
    base_time = replicate 32 0;
    lidar_num = 0;
    lidar_point = replicate 32 blank_packet;
  };
}

check_timer-Published_example :
    Ensures
      (λ r.
        (frame : PointFrame) × (r.1 ≡ frame ∷ [])
        × (packets_in frame ≡ packets_of timer.lidar_process_handlers)
        × Emptied r.0.lidar_process_handlers
        × Framed r.0.frame
        × (r.0.frame.lidar_num ≡ 0)
        × (r.0.last_pub_time ≡ 1100))
      (check_timer 1100 100 timer)
check_timer-Published_example =
    check_timer-Published 1100 100 timer refl refl (omega arith) (refl, refl) refl (omega arith)

add_device-Registered_example :
    Ensures
      (λ r. Registered (record source { cache_index = new_cache }) config r.0)
      (add_device (record source { cache_index = new_cache }) timer config)
add_device-Registered_example =
    add_device-Registered (record source { cache_index = new_cache }) timer config 0 empty_source
      free_slot

-- A document of numbers: 0 has no members, and each member of another number is that number.
abbrev member : ℕ → Option ℕ
member zero = none
member (suc n) = some (suc n)

abbrev numbers : Json
numbers = record {
  Value = ℕ;
  find_member = λ value name. member value;
  get_int = λ value. some (pos value);
  get_uint = λ value. some value;
  get_float = λ value. some value;
  get_array = λ value. none;
  is_object = λ value. true;
  get_ip = λ value. some value;
}

abbrev parsed : ℕ → UserLivoxLidarConfig
parsed ip = record {
  handle = ip;
  pcl_data_type = negsuc 105;
  pattern_mode = negsuc 105;
  blind_spot_set = negsuc 105;
  dual_emit_en = negsuc 105;
  extrinsic_param = record {
    roll = 150;
    pitch = 150;
    yaw = 150;
    x = pos 150;
    y = pos 150;
    z = pos 150;
  };
  set_bits = 0;
  get_bits = 0;
}

parsed_user_config : (ip : ℕ) → parse_user_config numbers 150 ip ≡ some (parsed ip)
unfolding parse_user_config
parsed_user_config ip = refl

two_items : WellTyped numbers (150 ∷ 0 ∷ [])
two_items = (λ ip e. (parsed ip, parsed_user_config ip), (λ ip e. absurd (ground arith), tt))

parse_user_configs-Parsed_example :
    Ensures
      (λ r. Parsed numbers (150 ∷ 0 ∷ []) r.1 × ((r.0 ≡ false) ↔ (r.1 ≡ [])))
      (parse_user_configs numbers (150 ∷ 0 ∷ []) [])
parse_user_configs-Parsed_example = parse_user_configs-Parsed numbers (150 ∷ 0 ∷ []) two_items

-- A lidar with a point at 1 ns and one at 100 ms, and an interval of 100 ms.
abbrev late_handler : LidarPubHandler
late_handler = record (new_handler floats) {
  points_clouds = record point { offset_time = 1 } ∷ record point { offset_time = 100000000 } ∷ [];
}

abbrev synced : PubHandler
synced = record timer {
  is_timestamp_sync = true;
  publish_interval = 100000000;
  publish_interval_tolerance = 99000000;
  publish_interval_ms = 100;
  lidar_process_handlers = (100, late_handler) ∷ [];
}

has_late : lookup 100 synced.lidar_process_handlers ≡ some late_handler
unfolding lookup
has_late = refl

is_due : due synced late_handler ≡ true
unfolding get_recent_time_stamp get_lidar_base_time
is_due = refl

check_timer-Synced_example :
    Ensures
      (λ r.
        (frame : PointFrame) × (h' : LidarPubHandler) × (r.1 ≡ frame ∷ [])
        × (packets_in frame
            ≡ record {
              handle = 100;
              lidar_type = 8;
              points_num = 2;
              points = late_handler.points_clouds;
            }
              ∷ [])
        × (lookup 100 r.0.lidar_process_handlers ≡ some h')
        × (h'.points_clouds ≡ [])
        × (r.0.frame.lidar_num ≡ 0))
      (check_timer 7 100 synced)
check_timer-Synced_example =
    check_timer-Synced 7 100 synced late_handler refl (omega arith) has_late is_due (refl, refl)
      refl
