-- ===== src/Livox/Callback.antt =====
-- The SDK callbacks of livox_ros2/livox_driver/src/call_back/livox_lidar_callback.cpp and
-- lidar_common_callback.cpp. A callback takes the data source that `client_data` points to, or `none`
-- for a null pointer, and returns it with the requests that it makes of the SDK, in their order. A
-- lock makes a change of `set_bits` one step.
pub mod Answers
pub mod Configure
use sensor_packages.Base.{
  ℕ, ◌+◌, ◌-◌, ◌*◌, ◌/◌, ◌%◌, ◌^◌, Bool, true, false, not, List, [], ◌∷◌, ◌++◌, Option, none, some,
  get_elem?, set, ◌==◌, if◌then◌else◌,
}
use sensor_packages.Base.Int.{ℤ, pos, negsuc}
use sensor_packages.Base.Fault.{◌>>=◌}
use sensor_packages.Livox.Types.{
  k_livox_lidar_type, LidarConnectState, state_sampling, ExtParameter, UserLivoxLidarConfig,
  PointFrame, ImuData,
}
use sensor_packages.Livox.CacheIndex.{get_index, get_free_index}
use sensor_packages.Livox.Lds.{Lds, LidarDevice, storage_point_data, storage_imu_data}

-- `livox_status`, as far as the callbacks tell values apart.
pub data Status : Type 0 where
  success timeout other_status : Status

-- The four settings of `LivoxLidarConfigCodeBit`.
pub data Setting : Type 0 where
  data_type scan_pattern blind_spot dual_emit : Setting

-- The bit of a setting in `LivoxLidarConfigCodeBit`.
abbrev pub bit_of : Setting → ℕ
bit_of data_type = 1
bit_of scan_pattern = 2
bit_of blind_spot = 4
bit_of dual_emit = 8

-- The calls of the SDK that change a lidar; `set_dual_emit` has a Boolean, as its value is not 0.
pub data Request : Type 0 where
  set_pcl_data_type : ℕ → ℤ → Request
  set_scan_pattern : ℕ → ℤ → Request
  set_blind_spot : ℕ → ℕ → Request
  set_dual_emit : ℕ → Bool → Request
  set_install_attitude : ℕ → ExtParameter → Request
  set_work_mode_normal : ℕ → Request
  enable_imu_data : ℕ → Request

abbrev pub has_bit : ℕ → ℕ → Bool
has_bit bits bit = bits / bit % 2 == 1

-- `bits |= bit`, for a `bit` that is a power of two.
abbrev pub with_bit : ℕ → ℕ → ℕ
with_bit bits bit = if has_bit bits bit then bits else bits + bit

-- `bits &= ~bit`
abbrev pub without_bit : ℕ → ℕ → ℕ
without_bit bits bit = if has_bit bits bit then bits - bit else bits

-- An `int32_t` as the `uint32_t` argument of `SetLivoxLidarBlindSpot`.
abbrev pub to_word : ℤ → ℕ
to_word (pos n) = n % 2 ^ 32
to_word (negsuc n) = 2 ^ 32 - 1 - n % 2 ^ 32

abbrev pub not_zero : ℤ → Bool
not_zero (pos n) = not (n == 0)
not_zero (negsuc n) = true

-- The request for a setting, with the value that the configuration has for it.
unfoldable pub request_of : Setting → ℕ → UserLivoxLidarConfig → Request
request_of data_type handle config = set_pcl_data_type handle config.pcl_data_type
request_of scan_pattern handle config = set_scan_pattern handle config.pattern_mode
request_of blind_spot handle config = set_blind_spot handle (to_word config.blind_spot_set)
request_of dual_emit handle config = set_dual_emit handle (not_zero config.dual_emit_en)

abbrev pub value_of : Setting → UserLivoxLidarConfig → ℤ
value_of data_type config = config.pcl_data_type
value_of scan_pattern config = config.pattern_mode
value_of blind_spot config = config.blind_spot_set
value_of dual_emit config = config.dual_emit_en

-- `value != -1`
abbrev pub configured : ℤ → Bool
configured (pos n) = true
configured (negsuc n) = not (n == 0)

-- `GetLidarDevice`: the index of the device.
unfoldable pub get_lidar_device : Option Lds → ℕ → Option ℕ
get_lidar_device none handle = none
get_lidar_device (some lds) handle = get_index lds.cache_index k_livox_lidar_type handle

-- One `if (config... != -1)` of `LidarInfoChangeCallback`, on the device and the requests so far.
unfoldable pub ask : Setting → ℕ → LidarDevice × List Request → LidarDevice × List Request
unfolding request_of
ask setting handle (lidar, requests) =
    if configured (value_of setting lidar.livox_config)
    then (
      record lidar {
        livox_config = record lidar.livox_config {
          set_bits = with_bit lidar.livox_config.set_bits (bit_of setting);
        };
      },
      requests ++ request_of setting handle lidar.livox_config ∷ [],
    )
    else (lidar, requests)

-- The branch of `LidarInfoChangeCallback` for a lidar of the configuration.
unfoldable pub configure_device : LidarDevice → ℕ → ℕ → LidarDevice × List Request
unfolding ask
configure_device lidar handle dev_type =
    let (lidar', requests) = ask dual_emit handle (
      ask blind_spot handle (
        ask scan_pattern handle
          (ask data_type handle (record lidar { device_type = dev_type }, [])))) in
    (
      lidar',
      requests
          ++ set_install_attitude lidar'.livox_config.handle lidar'.livox_config.extrinsic_param
            ∷ [],
    )

-- The requests that end `LidarInfoChangeCallback`.
abbrev pub start_requests : ℕ → List Request
start_requests handle = set_work_mode_normal handle ∷ enable_imu_data handle ∷ []

-- `LidarInfoChangeCallback`
unfoldable pub lidar_info_change_callback : Option Lds → ℕ → ℕ → Option (Option Lds × List Request)
unfolding get_lidar_device configure_device
lidar_info_change_callback none handle dev_type = some (none, [])
lidar_info_change_callback (some lds) handle dev_type = elim (get_lidar_device (some lds) handle) [
  | some index ↦ do
    lidar ← get_elem? lds.lidars index
    let (lidar', requests) = configure_device lidar handle dev_type
    some (
      some (record lds { lidars = set lds.lidars index lidar' }),
      requests ++ start_requests handle,
    )
  | none ↦
      let (cache, ret) = get_free_index lds.cache_index k_livox_lidar_type handle in
      elim ret [
        | none ↦ some (some (record lds { cache_index = cache }), [])
        | some index ↦ do
          lidar ← get_elem? lds.lidars index
          let lidar' = record lidar { lidar_type = k_livox_lidar_type; device_type = dev_type }
          some (
            some (record lds { cache_index = cache; lidars = set lds.lidars index lidar' }),
            start_requests handle,
          )
      ]
]

-- `WorkModeChangedCallback`
unfoldable pub work_mode_changed_callback : Status → ℕ → List Request
work_mode_changed_callback success handle = []
work_mode_changed_callback timeout handle = set_work_mode_normal handle ∷ []
work_mode_changed_callback other_status handle = set_work_mode_normal handle ∷ []

-- The device after a setting was accepted.
unfoldable pub accepted : Setting → LidarDevice → LidarDevice
accepted setting lidar =
    let bits = without_bit lidar.livox_config.set_bits (bit_of setting) in
    record lidar {
      livox_config = record lidar.livox_config { set_bits = bits };
      connect_state = if bits == 0 then state_sampling else lidar.connect_state;
    }

-- What the answer to a setting does with the device.
unfoldable pub answer : Setting → Status → ℕ → LidarDevice → LidarDevice × List Request
unfolding accepted request_of
answer setting success handle lidar = (accepted setting lidar, [])
answer setting timeout handle lidar = (lidar, request_of setting handle lidar.livox_config ∷ [])
answer setting other_status handle lidar = (lidar, [])

-- The body that the callbacks of the four settings have in common.
unfoldable pub setting_callback :
    Setting → Status → ℕ → Option Lds → Option (Option Lds × List Request)
unfolding answer get_lidar_device
setting_callback setting status handle none = some (none, [])
setting_callback setting status handle (some lds) = elim (get_lidar_device (some lds) handle) [
  | none ↦ some (some lds, [])
  | some index ↦ do
    lidar ← get_elem? lds.lidars index
    let (lidar', requests) = answer setting status handle lidar
    some (some (record lds { lidars = set lds.lidars index lidar' }), requests)
]

-- `SetDataTypeCallback`
abbrev pub set_data_type_callback : Status → ℕ → Option Lds → Option (Option Lds × List Request)
set_data_type_callback = setting_callback data_type

-- `SetPatternModeCallback`
abbrev pub set_pattern_mode_callback : Status → ℕ → Option Lds → Option (Option Lds × List Request)
set_pattern_mode_callback = setting_callback scan_pattern

-- `SetBlindSpotCallback`
abbrev pub set_blind_spot_callback : Status → ℕ → Option Lds → Option (Option Lds × List Request)
set_blind_spot_callback = setting_callback blind_spot

-- `SetDualEmitCallback`
abbrev pub set_dual_emit_callback : Status → ℕ → Option Lds → Option (Option Lds × List Request)
set_dual_emit_callback = setting_callback dual_emit

-- `SetAttitudeCallback`
unfoldable pub set_attitude_callback : Status → ℕ → Option Lds → Option (List Request)
unfolding get_lidar_device
set_attitude_callback status handle none = some []
set_attitude_callback status handle (some lds) = elim (get_lidar_device (some lds) handle) [
  | none ↦ some []
  | some index ↦ elim status [
    | timeout ↦ do
      lidar ← get_elem? lds.lidars index
      some (set_install_attitude lidar.livox_config.handle lidar.livox_config.extrinsic_param ∷ [])
    | success ↦ some []
    | other_status ↦ some []
  ]
]

-- `EnableLivoxLidarImuDataCallback`; the Boolean says whether `response` is not null.
unfoldable pub enable_imu_data_callback : Status → ℕ → Bool → Option Lds → List Request
unfolding get_lidar_device
enable_imu_data_callback status handle has_response client = elim (get_lidar_device client handle) [
  | none ↦ []
  | some index ↦
      if not has_response
      then []
      else elim status [ timeout ↦ enable_imu_data handle ∷ [] | success ↦ [] | other_status ↦ [] ]
]

-- `LidarCommonCallback::OnLidarPointClounCb`
unfoldable pub on_lidar_point_cloud_cb : Option PointFrame → Option Lds → Option (Option Lds)
on_lidar_point_cloud_cb none client = some client
on_lidar_point_cloud_cb (some frame) none = some none
on_lidar_point_cloud_cb (some frame) (some lds) =
    if frame.lidar_num == 0
    then some (some lds)
    else (do lds' ← storage_point_data lds frame; some (some lds'))

-- `LidarCommonCallback::LidarImuDataCallback`
unfoldable pub lidar_imu_data_callback : ℕ → Option ImuData → Option Lds → Option (Option Lds)
lidar_imu_data_callback undetermined none client = some client
lidar_imu_data_callback undetermined (some imu_data) none = some none
lidar_imu_data_callback undetermined (some imu_data) (some lds) = do
  lds' ← storage_imu_data undetermined lds imu_data
  some (some lds')
