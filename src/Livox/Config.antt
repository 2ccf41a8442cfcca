-- ===== src/Livox/Config.antt =====
-- The configuration files: livox_ros2/livox_driver/src/parse_cfg_file/parse_livox_lidar_cfg.cpp and
-- parse_cfg_file.cpp. The JSON library is a parameter: a document is the value that it parsed, or
-- `none` after a parse error, and a value has members by name.
pub mod Users
use Prim.Native.String.{String}
use sensor_packages.Base.{
  ℕ, ◌+◌, ◌-◌, ◌*◌, ◌/◌, ◌%◌, ◌^◌, Bool, true, false, List, [], ◌∷◌, ◌++◌, Option, none, some,
  length, ltb, ◌==◌, if◌then◌else◌,
}
use sensor_packages.Base.Int.{ℤ, pos, negsuc}
use sensor_packages.Base.Fault.{◌>>=◌}
use sensor_packages.Livox.Types.{ExtParameter, UserLivoxLidarConfig}

-- What the parsers ask of a JSON value: `HasMember` and `[]` in one, the accessors, which are `none`
-- where the value has another type, and `inet_addr` of a string. A value that is asked for members is
-- taken to be an object.
pub record Json : Type 1 where
  pub Value : Type 0
  pub find_member : Value → String → Option Value
  pub get_int : Value → Option ℤ
  pub get_uint : Value → Option ℕ
  pub get_float : Value → Option ℕ
  pub get_array : Value → Option (List Value)
  pub is_object : Value → Bool
  pub get_ip : Value → Option ℕ

-- `static_cast<int8_t>` of an `int`.
abbrev pub to_int8 : ℤ → ℤ
to_int8 (pos n) = if ltb (n % 256) 128 then pos (n % 256) else negsuc (255 - n % 256)
to_int8 (negsuc n) = if ltb (n % 256) 128 then negsuc (n % 256) else pos (255 - n % 256)

module _ (json : Json) where
  -- A member that is converted, or a default where it is missing.
  abbrev pub member_or : json.Value → String → ℤ → (ℤ → ℤ) → Option ℤ
  member_or value name default convert = elim (json.find_member value name) [
    | none ↦ some default
    | some member ↦ do n ← json.get_int member; some (convert n)
  ]

  abbrev float_or_zero : json.Value → String → Option ℕ
  float_or_zero value name = elim (json.find_member value name) [
    | none ↦ some 0
    | some member ↦ json.get_float member
  ]

  -- `ParseExtrinsics`, which always returns true.
  unfoldable pub parse_extrinsics : json.Value → Option ExtParameter
  parse_extrinsics value = do
    roll ← float_or_zero value "roll"
    pitch ← float_or_zero value "pitch"
    yaw ← float_or_zero value "yaw"
    x ← member_or value "x" (pos 0) (λ n. n)
    y ← member_or value "y" (pos 0) (λ n. n)
    z ← member_or value "z" (pos 0) (λ n. n)
    some (record { roll = roll; pitch = pitch; yaw = yaw; x = x; y = y; z = z })

  abbrev pub no_extrinsics : ExtParameter
  no_extrinsics = record { roll = 0; pitch = 0; yaw = 0; x = pos 0; y = pos 0; z = pos 0 }

  -- The body of the loop of `ParseUserConfigs`, for a configuration with the member `ip`.
  unfoldable pub parse_user_config : json.Value → json.Value → Option UserLivoxLidarConfig
  unfolding parse_extrinsics
  parse_user_config config ip = do
    handle ← json.get_ip ip
    pcl_data_type ← member_or config "pcl_data_type" (negsuc 0) to_int8
    pattern_mode ← member_or config "pattern_mode" (negsuc 0) to_int8
    blind_spot_set ← member_or config "blind_spot_set" (negsuc 0) to_int8
    dual_emit_en ← member_or config "dual_emit_en" (negsuc 0) to_int8
    extrinsic_param ←
        elim (json.find_member config "extrinsic_parameter") as (λ o. Option ExtParameter) [
          | none ↦ some no_extrinsics
          | some value ↦ parse_extrinsics value
        ]
    some (record {
      handle = handle;
      pcl_data_type = pcl_data_type;
      pattern_mode = pattern_mode;
      blind_spot_set = blind_spot_set;
      dual_emit_en = dual_emit_en;
      extrinsic_param = extrinsic_param;
      set_bits = 0;
      get_bits = 0;
    })

  -- The loop of `ParseUserConfigs`, onto the configurations so far.
  unfoldable pub parse_configs :
      List json.Value → List UserLivoxLidarConfig → Option (List UserLivoxLidarConfig)
  unfolding parse_user_config
  parse_configs [] user_configs = some user_configs
  parse_configs (config ∷ rest) user_configs = elim (json.find_member config "ip") [
    | none ↦ parse_configs rest user_configs
    | some ip ↦ do
      user_config ← parse_user_config config ip
      parse_configs rest (user_configs ++ user_config ∷ [])
  ]

  -- `ParseUserConfigs`
  unfoldable pub parse_user_configs :
      List json.Value → List UserLivoxLidarConfig → Option (Bool × List UserLivoxLidarConfig)
  unfolding parse_configs
  parse_user_configs lidar_configs user_configs = do
    configs ← parse_configs lidar_configs user_configs
    some (if length configs == 0 then false else true, configs)

  -- `Parse`, of a file that cannot be opened (`none`), or the document in it; the vector is cleared.
  unfoldable pub parse :
      Option (Option json.Value)
      → List UserLivoxLidarConfig
      → Option (Bool × List UserLivoxLidarConfig)
  unfolding parse_user_configs
  parse none lidar_configs = some (false, lidar_configs)
  parse (some none) lidar_configs = some (false, [])
  parse (some (some doc)) lidar_configs = elim (json.find_member doc "lidar_configs") [
    | none ↦ some (false, [])
    | some value ↦ elim (json.get_array value) [
      | none ↦ some (false, [])
      | some items ↦ if length items == 0 then some (false, []) else parse_user_configs items []
    ]
  ]

  -- `ParseSummaryInfo`: the return value, and `lidar_type`.
  unfoldable pub parse_summary_info : Option (Option json.Value) → ℕ → Bool × ℕ
  parse_summary_info none lidar_type = (false, lidar_type)
  parse_summary_info (some none) lidar_type = (false, lidar_type)
  parse_summary_info (some (some doc)) lidar_type =
      elim (json.find_member doc "lidar_summary_info") [
        | none ↦ (false, lidar_type)
        | some object ↦
            if json.is_object object
            then (elim (json.find_member object "lidar_type") [
              | none ↦ (false, lidar_type)
              | some value ↦ elim (json.get_uint value) [
                | none ↦ (false, lidar_type)
                | some type ↦ (true, type % 256)
              ]
            ])
            else (false, lidar_type)
      ]
