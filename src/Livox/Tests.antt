-- ===== src/Livox/Tests.antt =====
-- The theorems about the Livox driver's queues at concrete inputs.
use sensor_packages.Base.{
  ℕ, ◌-◌, ◌^◌, ◌<◌, ◌≡◌, ◌≢◌, refl, ap, inr, true, false, List, [], ◌∷◌, ◌++◌, none, some,
  get_elem?, replicate, arith,
}
use sensor_packages.Base.Fault.{Ensures}
use sensor_packages.Livox.Types.{
  PointXyzlt, PointPacket, PointFrame, StoragePacket, UserLivoxLidarConfig, ExtParameter,
  state_sampling, state_off, k_livox_lidar_type, k_max_source_lidar,
}
use sensor_packages.Base.Int.{pos, negsuc}
use sensor_packages.Livox.Queue.{
  LidarDataQueue, live, null, freed, blank, queue_is_full, queue_is_empty, queue_push_any,
  queue_pop, queue_capacity, de_init_queue,
}
use sensor_packages.Livox.Queue.Invariant.{IsValid}
use sensor_packages.Livox.Queue.Window.{contents}
use sensor_packages.Livox.Queue.Refine.{
  packet_entry, Popped, queue_push_any-contents, queue_pop-Popped,
}
use sensor_packages.Livox.CacheIndex.{CacheIndex, get_index, get_free_index, find}
use sensor_packages.Livox.CacheIndex.Slots.{
  Inv, new_cache-Inv, get_free_index-Inv, get_index-get_free_index,
}
use sensor_packages.Livox.Lds.{Lds, LidarDevice, push_lidar_data, reset_lidar, storage_point_data}
use sensor_packages.Livox.Lds.Storage.{
  Stored, Served, Sized, push_lidar_data-Stored, storage_point_data-Served, reset_lidar-dangling,
}
use sensor_packages.Livox.Lddc.Distribute.{
  AllEmptied, all_messages, distribute_point_cloud_data-AllEmptied,
}
use sensor_packages.Livox.Lddc.{
  distribute_point_cloud_data, finished, running, polling_loop, publish_queue,
}
use sensor_packages.Livox.Lddc.Messages.{Conversions, Settings}
use sensor_packages.Livox.Lddc.Drain.{polling_loop-running}

abbrev point : PointXyzlt
point = record { x = 1; y = 2; z = 3; intensity = 4; tag = 5; line = 6; offset_time = 7 }

abbrev packet : PointPacket
packet = record { handle = 100; lidar_type = 8; points_num = 1; points = point ∷ [] }

abbrev stored : StoragePacket
stored = record { lidar_type = 0; handle = 0; base_time = 9; points_num = 1; points = point ∷ [] }

-- Two slots, one used, with the indices about to wrap: the entry is in the second slot.
abbrev ring : LidarDataQueue
ring = record {
  storage_packet = live (blank ∷ stored ∷ []);
  rd_idx = 2 ^ 32 - 1;
  wr_idx = 0;
  mask = 1;
  size = 2;
}

abbrev ring-IsValid : IsValid ring
ring-IsValid = record {
  bits = 1;
  slots = blank ∷ stored ∷ [];
  bits_le = omega arith;
  storage = refl;
  size_pow = refl;
  mask_ones = refl;
  count = refl;
  rd_word = omega arith;
  wr_word = omega arith;
  used = omega arith;
  filled = (refl, (refl, tt));
}

room : queue_is_full ring ≡ false
unfolding queue_is_full
room = refl

queue_capacity_ten : queue_capacity 10 ≡ 16
unfolding queue_capacity
queue_capacity_ten = refl

abbrev no_queue : LidarDataQueue
no_queue = record { storage_packet = null; rd_idx = 0; wr_idx = 0; mask = 0; size = 0 }

queue_push_any-contents_example :
    Ensures
      (λ r. IsValid r × (contents r ≡ contents ring ++ packet_entry packet 20 ∷ []))
      (queue_push_any ring packet 20)
queue_push_any-contents_example = queue_push_any-contents ring-IsValid packet 20 (omega arith) room

queue_pop-Popped_example : Ensures (Popped ring blank (contents ring)) (queue_pop ring blank)
queue_pop-Popped_example = queue_pop-Popped ring-IsValid blank

abbrev one_lidar : CacheIndex
one_lidar = record { map_index = (100, 0) ∷ []; index_cache = true ∷ replicate 31 false }

one_lidar-Inv : Inv one_lidar
unfolding get_free_index find
one_lidar-Inv = get_free_index-Inv 8 100 new_cache-Inv

get_index-get_free_index_example :
    let c' = (get_free_index one_lidar k_livox_lidar_type 200).0 in
    (get_index c' k_livox_lidar_type 200 ≡ some 1)
    × (1 < k_max_source_lidar)
    × ((other : ℕ)
        → other ≢ 200
        → (get_index c' k_livox_lidar_type other ≡ get_index one_lidar k_livox_lidar_type other)
          × (get_index c' k_livox_lidar_type other ≢ some 1))
unfolding get_free_index
get_index-get_free_index_example = get_index-get_free_index 200 1 one_lidar-Inv refl

abbrev no_extrinsics : ExtParameter
no_extrinsics = record { roll = 0; pitch = 0; yaw = 0; x = pos 0; y = pos 0; z = pos 0 }

abbrev config : UserLivoxLidarConfig
config = record {
  handle = 100;
  pcl_data_type = negsuc 0;
  pattern_mode = negsuc 0;
  blind_spot_set = negsuc 0;
  dual_emit_en = negsuc 0;
  extrinsic_param = no_extrinsics;
  set_bits = 0;
  get_bits = 0;
}

abbrev pub device : LidarDevice
device = record {
  lidar_type = 8;
  device_type = 9;
  handle = 100;
  data_src = 0;
  connect_state = state_sampling;
  points = ring;
  imu_data = [];
  firmware_ver = 0;
  livox_config = config;
}

abbrev pub source : Lds
source = record {
  lidar_count = 1;
  lidars = device ∷ [];
  pcd_semaphore = 0;
  imu_semaphore = 0;
  cache_index = one_lidar;
  publish_freq = record { whole = 10; has_fraction = false };
  data_src = 0;
  request_exit = false;
}

push_lidar_data-Stored_example :
    Ensures (Stored source 0 device (packet_entry packet 20)) (push_lidar_data source packet 0 20)
push_lidar_data-Stored_example =
    push_lidar_data-Stored source packet 0 20 device refl (inr ring-IsValid) (omega arith)
      (omega arith)

abbrev frame : PointFrame
frame = record { base_time = 20 ∷ []; lidar_num = 1; lidar_point = packet ∷ [] }

only_slot : (type handle index : ℕ) → get_index one_lidar type handle ≡ some index → index ≡ 0
unfolding get_index
only_slot type handle index found = ground arith

source-Served : Served source
source-Served type handle index found = (
  device,
  ap (λ i. get_elem? source.lidars i) (only_slot type handle index found),
  inr ring-IsValid,
)

storage_point_data-Served_example :
    Ensures (λ lds. Served lds × Sized lds.publish_freq) (storage_point_data source frame)
storage_point_data-Served_example =
    storage_point_data-Served source frame source-Served (omega arith) (omega arith)

abbrev wiped_device : LidarDevice
wiped_device = record device {
  points = record { storage_packet = freed; rd_idx = 0; wr_idx = 0; mask = 0; size = 0 };
  data_src = 1;
  connect_state = state_off;
}

abbrev wiped_source : Lds
wiped_source = record source { lidars = wiped_device ∷ [] }

reset_lidar-dangling_example :
    (push_lidar_data wiped_source packet 0 20 ≡ none) × (reset_lidar wiped_device 1 ≡ none)
unfolding reset_lidar de_init_queue
reset_lidar-dangling_example =
    reset_lidar-dangling wiped_source packet 0 20 1 device wiped_device ring-IsValid refl refl

abbrev pub conversions : Conversions
conversions = record { double_of_u64 = λ n. n; u8_of_float = λ n. n; double_of_float = λ n. n }

abbrev pub clouds_to_ros : Settings
clouds_to_ros = record {
  transfer_format = 0;
  output_type = 0;
  frame_id = "livox_frame";
  imu_frame_id = "livox_frame";
}

-- The source with its semaphore up
abbrev signalled : Lds
signalled = record source { pcd_semaphore = 1 }

distribute_point_cloud_data-AllEmptied_example :
    (lidars' : List LidarDevice) × (distribute_point_cloud_data conversions clouds_to_ros 2 2
        (λ n. false)
        (some signalled)
        []
      ≡ finished (
        [] ++ all_messages conversions clouds_to_ros 0 signalled.lidars,
        some (record signalled { lidars = lidars'; pcd_semaphore = 0 }),
      ))
    × AllEmptied signalled.lidars lidars'
distribute_point_cloud_data-AllEmptied_example =
    distribute_point_cloud_data-AllEmptied conversions clouds_to_ros 0 2 0 (λ n. false) signalled []
      refl refl refl refl refl refl (inr (ring-IsValid, omega arith), tt)

-- The PCL format
abbrev pcl_to_ros : Settings
pcl_to_ros = record clouds_to_ros { transfer_format = 2 }

polling_loop-running_example :
    (publish_queue conversions pcl_to_ros 2 device 0 ring [] ≡ finished ([], ring))
    × (polling_loop conversions pcl_to_ros 50 2 (λ n. false) device 0 ring [] ≡ running)
unfolding queue_is_empty
polling_loop-running_example =
    polling_loop-running conversions pcl_to_ros 50 2 (λ n. false) device 0 ring [] (omega arith)
      (omega arith) (λ n. refl) refl
