-- ===== src/Oculus/Publishers.antt =====
-- `OculusDriverPublishers` of oculus_ros2/oculus_sonar/src/oculus_driver_publishers.cpp and
-- include/oculus_sonar/oculus_driver_publishers.hpp: the messages of a ping and the statistics of the
-- latencies. A latency is the bit pattern of a double, and their order a parameter. `none` is an
-- access outside an object.
pub mod Window
pub mod Sized
use sensor_packages.Base.{
  ℕ, zero, suc, ◌+◌, ◌-◌, ◌*◌, ◌/◌, ◌%◌, ◌^◌, Bool, true, false, List, [], ◌∷◌, ◌++◌, Option, none,
  some, length, set, get_elem?, ltb, ◌==◌, if◌then◌else◌,
}
use sensor_packages.Base.Fault.{◌>>=◌}
use sensor_packages.Base.Text.{String}
use sensor_packages.Oculus.SonarImage.{Floats, Ping, SonarImage, ping_to_sonar_image}

-- `kLatencyWindow`
abbrev pub k_latency_window : ℕ
k_latency_window = 100

-- `latency_window_`, `latency_write_idx_` and `total_pings_`.
pub record Latency : Type 0 where
  pub window : List ℕ
  pub write_idx : ℕ
  pub total_pings : ℕ

-- `std::sort`, by insertion.
unfoldable pub insert : (ℕ → ℕ → Bool) → ℕ → List ℕ → List ℕ
insert less x [] = x ∷ []
insert less x (y ∷ ys) = let rest = insert less x ys in if less x y then x ∷ y ∷ ys else y ∷ rest

unfoldable pub sort : (ℕ → ℕ → Bool) → List ℕ → List ℕ
unfolding insert
sort less [] = []
sort less (x ∷ xs) = insert less x (sort less xs)

-- The percentiles that are logged.
unfoldable pub percentiles : (ℕ → ℕ → Bool) → List ℕ → Option (ℕ × ℕ)
unfolding sort
percentiles less window = do
  p50 ← get_elem? (sort less window) (length (sort less window) / 2)
  p99 ← get_elem? (sort less window) (length (sort less window) * 99 / 100)
  some (p50, p99)

-- The new window.
unfoldable pub record_latency : ℕ → Latency → Latency
record_latency latency_ms s =
    if ltb (length s.window) k_latency_window
    then record {
      window = s.window ++ latency_ms ∷ [];
      write_idx = s.write_idx;
      total_pings = (s.total_pings + 1) % 2 ^ 64;
    }
    else record {
      window = set s.window s.write_idx latency_ms;
      write_idx = (s.write_idx + 1) % k_latency_window;
      total_pings = (s.total_pings + 1) % 2 ^ 64;
    }

-- `recordLatencyAndLog`: the new state, and the percentiles.
unfoldable pub record_latency_and_log : (ℕ → ℕ → Bool) → ℕ → Latency → Option (Latency × (ℕ × ℕ))
unfolding record_latency percentiles
record_latency_and_log less latency_ms s =
    (percentiles less (record_latency latency_ms s).window >>= λ logged.
    some (record_latency latency_ms s, logged))

-- `sensor_msgs::msg::Image`, without its header.
pub record Image : Type 0 where
  pub height : ℕ
  pub width : ℕ
  pub encoding : String
  pub is_bigendian : Bool
  pub step : ℕ
  pub bytes : List ℕ

-- The text of the encoding: that of a new message, where the size is none of the three.
abbrev pub encoding_of : ℕ → String
encoding_of data_size =
    if data_size == 1
    then "mono8"
    else if data_size == 2
    then "mono16"
    else if data_size == 4
    then "32FC1"
    else ""

-- `sonarToImage`
unfoldable pub sonar_to_image : SonarImage → Image
sonar_to_image m = record {
  height = length m.ranges % 2 ^ 32;
  width = length m.azimuth_angles % 2 ^ 32;
  encoding = encoding_of m.data_size;
  is_bigendian = m.is_bigendian;
  step = (length m.azimuth_angles % 2 ^ 32) * m.data_size % 2 ^ 32;
  bytes = m.intensities;
}

-- `std_msgs::msg::Header`
pub record Header : Type 0 where
  pub stamp : ℕ
  pub frame_id : String

-- What `publishPing` publishes.
pub data Message : Type 0 where
  sonar : Header → SonarImage → Message
  image : Header → Image → Message
  metadata : Header → List ℕ → Message

abbrev pub messages_of : Header → Ping → SonarImage → List Message
unfolding sonar_to_image
messages_of header ping m =
    sonar header m ∷ image header (sonar_to_image m) ∷ metadata header ping.gains ∷ []

-- `publishPing`: the messages, and the new statistics.
unfoldable pub publish_ping :
    Floats → (ℕ → ℕ → Bool) → Header → ℕ → Ping → Latency → Option (List Message × Latency)
unfolding ping_to_sonar_image record_latency_and_log
publish_ping floats less header latency_ms ping s =
    (ping_to_sonar_image floats ping >>= λ m. record_latency_and_log less latency_ms s >>= λ logged.
    some (messages_of header ping m, logged.0))
