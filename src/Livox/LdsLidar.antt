-- ===== src/Livox/LdsLidar.antt =====
-- `LdsLidar` of livox_ros2/livox_driver/src/lds_lidar.cpp: the data source of the driver, from the
-- configuration files to the devices. There is one object, which `g_lds_ldiar` points to. The SDK's
-- answer to its initialisation is an argument; the setting of callbacks is a flag.
pub mod Devices
use sensor_packages.Base.{
  ℕ, ◌+◌, ◌-◌, ◌*◌, ◌/◌, ◌%◌, Bool, true, false, List, [], ◌∷◌, Option, none, some, get_elem?, set,
  ◌==◌, if◌then◌else◌,
}
use sensor_packages.Base.Int.{ℤ, pos, negsuc}
use sensor_packages.Base.Fault.{◌>>=◌}
use sensor_packages.Livox.Types.{
  ExtParameter, LidarExtParameter, UserLivoxLidarConfig, k_livox_lidar_type,
}
use sensor_packages.Livox.CacheIndex.{get_free_index}
use sensor_packages.Livox.Lds.{Lds, LidarDevice}
use sensor_packages.Livox.PubHandler.{PubHandler, add_lidars_ext_param}

-- `LdsLidar`, with the handler that `pub_handler()` returns and the callbacks that are set.
pub record LdsLidar : Type 0 where
  pub lds : Lds
  pub handler : PubHandler
  pub summary_lidar_type : ℕ
  pub is_initialized : Bool
  pub info_callback_set : Bool
  pub data_callbacks_set : Bool

-- `/ 10` on `int32_t`, towards zero.
abbrev pub tenth : ℤ → ℤ
tenth (pos n) = pos (n / 10)
tenth (negsuc n) = if (n + 1) / 10 == 0 then pos 0 else negsuc ((n + 1) / 10 - 1)

abbrev eq_ℤ : ℤ → ℕ → Bool
eq_ℤ (pos n) m = n == m
eq_ℤ (negsuc n) m = false

-- The `lidar_param` of a configuration.
unfoldable pub ext_param_of : UserLivoxLidarConfig → LidarExtParameter
ext_param_of config = record {
  lidar_type = k_livox_lidar_type;
  handle = config.handle;
  param =
      if eq_ℤ config.pcl_data_type 2
      then record config.extrinsic_param {
        x = tenth config.extrinsic_param.x;
        y = tenth config.extrinsic_param.y;
        z = tenth config.extrinsic_param.z;
      }
      else config.extrinsic_param;
}

-- The device of a configuration.
abbrev pub with_config : LidarDevice → UserLivoxLidarConfig → LidarDevice
with_config lidar config = record lidar {
  lidar_type = k_livox_lidar_type;
  device_type = 0;
  livox_config = config;
  handle = config.handle;
}

-- One round of the loop of `InitLivoxLidar`.
unfoldable pub add_device : Lds → PubHandler → UserLivoxLidarConfig → Option (Lds × PubHandler)
unfolding ext_param_of
add_device lds handler config =
    let (cache, ret) = get_free_index lds.cache_index k_livox_lidar_type config.handle in
    elim ret [
      | none ↦ some (record lds { cache_index = cache }, handler)
      | some index ↦ do
        lidar ← get_elem? lds.lidars index
        some (
          record lds {
            cache_index = cache;
            lidars = set lds.lidars index (with_config lidar config);
          },
          add_lidars_ext_param handler (ext_param_of config),
        )
    ]

-- The loop of `InitLivoxLidar`.
unfoldable pub add_devices :
    List UserLivoxLidarConfig → Lds → PubHandler → Option (Lds × PubHandler)
unfolding add_device
add_devices [] lds handler = some (lds, handler)
add_devices (config ∷ rest) lds handler = do
  (lds', handler') ← add_device lds handler config
  add_devices rest lds' handler'

-- `InitLivoxLidar`, on the configurations that the parser leaves in the vector, whatever it returns.
unfoldable pub init_livox_lidar :
    List UserLivoxLidarConfig → Bool → LdsLidar → Option (Bool × LdsLidar)
unfolding add_devices
init_livox_lidar user_configs sdk_init s =
    if sdk_init
    then (do
      (lds', handler') ← add_devices user_configs s.lds s.handler
      some (true, record s { lds = lds'; handler = handler'; info_callback_set = true }))
    else some (false, s)

-- `summary_lidar_type & kLivoxLidarType`
abbrev pub is_livox : ℕ → Bool
is_livox lidar_type = lidar_type / 8 % 2 == 1

-- `InitLidars`, on the result of `ParseSummaryInfo`.
unfoldable pub init_lidars :
    Bool × ℕ → List UserLivoxLidarConfig → Bool → LdsLidar → Option (Bool × LdsLidar)
unfolding init_livox_lidar
init_lidars (parsed, lidar_type) user_configs sdk_init s =
    let s' = record s { summary_lidar_type = lidar_type } in
    if parsed
    then (if is_livox lidar_type
        then init_livox_lidar user_configs sdk_init s'
        else some (true, s'))
    else some (false, s')

-- `InitLdsLidar`; `Start` always succeeds.
unfoldable pub init_lds_lidar :
    Bool × ℕ → List UserLivoxLidarConfig → Bool → LdsLidar → Option (Bool × LdsLidar)
unfolding init_lidars
init_lds_lidar summary user_configs sdk_init s = if s.is_initialized then some (false, s) else (do
  (ok, s') ← init_lidars summary user_configs sdk_init s
  some (
      if ok
      then (true, record s' { data_callbacks_set = true; is_initialized = true })
      else (false, s')))

-- `DeInitLdsLidar`: the return value as a flag, and whether the SDK is told.
unfoldable pub de_init_lds_lidar : LdsLidar → Bool × Bool
de_init_lds_lidar s =
    if s.is_initialized then (true, is_livox s.summary_lidar_type) else (false, false)
