-- ===== src/Livox/TopicTests.antt =====
-- The publishers of the driver at concrete inputs, with the dotted text of an address.
use sensor_packages.Base.{
  ℕ, ◌+◌, ◌*◌, zero, suc, ◌/◌, ◌%◌, ◌^◌, ◌≡◌, ◌≢◌, refl, inl, true, List, [], ◌∷◌, ◌++◌, none, some,
  map, replicate, ltb, arith, if◌then◌else◌,
}
use sensor_packages.Base.Fault.{Ensures}
use sensor_packages.Livox.Comm.{codes, is_file_path_valid, replace_period_by_underline}
use sensor_packages.Livox.Comm.Underlined.{underline, replace_period_by_underline-underline}
use sensor_packages.Livox.Lds.{Lds, LidarDevice}
use sensor_packages.Livox.Lddc.Topics.{
  Publisher, Publishers, sensor_or_default, topic_of_lidar, get_current_publisher, publish_points,
  publish_imu,
}
use sensor_packages.Livox.Lddc.Topics.Cached.{AllHaveType, Typed, publish-Typed}
use sensor_packages.Livox.Lddc.Topics.Distinct.{IsAddress, topic_of_lidar-distinct}
use sensor_packages.Livox.Tests.{device, source}

abbrev octet : ℕ → List ℕ
octet n =
    if ltb n 10
    then (n + 48) ∷ []
    else if ltb n 100
    then (n / 10 + 48) ∷ (n % 10 + 48) ∷ []
    else (n / 100 + 48) ∷ (n / 10 % 10 + 48) ∷ (n % 10 + 48) ∷ []

-- Four octets, the lowest first
abbrev dotted : ℕ → List ℕ
dotted n =
    octet (n % 256)
    ++ codes "."
    ++ octet (n / 2 ^ 8 % 256)
    ++ codes "."
    ++ octet (n / 2 ^ 16 % 256)
    ++ codes "."
    ++ octet (n / 2 ^ 24 % 256)

-- 192.168.1.100 and 192.168.1.101
abbrev lidar100 : LidarDevice
lidar100 = record device { handle = 192 + 168 * 2 ^ 8 + 2 ^ 16 + 100 * 2 ^ 24 }

abbrev lidar101 : LidarDevice
lidar101 = record device { handle = 192 + 168 * 2 ^ 8 + 2 ^ 16 + 101 * 2 ^ 24 }

dotted_100 : dotted lidar100.handle ≡ codes "192.168.1.100"
dotted_100 = refl

underlined_100 : replace_period_by_underline (codes "192.168.1.100") ≡ some (codes "192_168_1_100")
unfolding replace_period_by_underline
underlined_100 = refl

replace_period_by_underline-underline_example :
    replace_period_by_underline (codes "192.168.1.100")
    ≡ some (map underline (codes "192.168.1.100"))
replace_period_by_underline-underline_example =
    replace_period_by_underline-underline (codes "192.168.1.100")

config_path : is_file_path_valid (codes "/opt/config.json") ≡ true
unfolding is_file_path_valid
config_path = refl

abbrev lidars : Lds
lidars = record source { lidar_count = 32; lidars = lidar100 ∷ lidar101 ∷ replicate 30 device }

abbrev no_publishers : Publishers
no_publishers = record {
  private_pub = replicate 32 none;
  global_pub = none;
  private_imu_pub = replicate 32 none;
  global_imu_pub = none;
}

abbrev topic100 : List ℕ
topic100 = codes "/sensor/lidar/livox_mid360_192_168_1_100/points"

abbrev publisher100 : Publisher
publisher100 = record { msg_type = 0; topic = topic100 }

abbrev made100 : Publishers
made100 = record no_publishers { private_pub = some publisher100 ∷ replicate 31 none }

created_100 :
    get_current_publisher dotted true 0 (some lidars) 0 no_publishers
    ≡ some (some publisher100, made100)
unfolding get_current_publisher replace_period_by_underline
created_100 = refl

AllHaveType-none : (t n : ℕ) → AllHaveType t (replicate n none)
AllHaveType-none t zero = tt
AllHaveType-none t (suc n) = (tt, AllHaveType-none t n)

no_publishers-Typed : Typed 0 no_publishers
no_publishers-Typed = record {
  points = AllHaveType-none 0 32;
  points_count = refl;
  all_points = tt;
  imus = AllHaveType-none 3 32;
  imus_count = refl;
  all_imus = tt;
}

publish-Typed_example :
    Ensures (λ r. Typed 0 r.1) (publish_points dotted true 0 0 (some lidars) 1 no_publishers)
    × Ensures (λ r. Typed 0 r.1) (publish_imu dotted true 0 (some lidars) 1 no_publishers)
publish-Typed_example =
    publish-Typed dotted true 0 0 lidars 1 no_publishers (inl refl) refl (omega arith)
      no_publishers-Typed

lidar100-IsAddress : IsAddress (dotted lidar100.handle)
lidar100-IsAddress = ground arith

lidar101-IsAddress : IsAddress (dotted lidar101.handle)
lidar101-IsAddress = ground arith

differ : dotted lidar100.handle ≢ dotted lidar101.handle
differ = ground arith

topic_of_lidar-distinct_example :
    topic_of_lidar dotted
      (codes "/sensor/lidar/")
      sensor_or_default
      (codes "/points")
      (some lidars)
      0
    ≢ topic_of_lidar dotted
        (codes "/sensor/lidar/")
        sensor_or_default
        (codes "/points")
        (some lidars)
        1
topic_of_lidar-distinct_example =
    topic_of_lidar-distinct dotted lidars 0 1 lidar100 lidar101 lidar100-IsAddress
      lidar101-IsAddress differ refl refl refl
