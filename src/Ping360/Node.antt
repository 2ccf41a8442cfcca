-- ===== src/Ping360/Node.antt =====
-- The configuration of the Ping360 node: `updatedParams`, `initPublishers` and `configureFromParams` of
-- ping360_ros2/ping360_sonar/src/ping360_node.cpp, with `Sector::configure` of
-- include/ping360_sonar/sector.h. What the node's parameters hold, as integers, is an argument.
-- Floating-point formulas are parameters. `none` is a missing parameter, a division by 0, or what is `none` in
-- `configureTransducer`; it also stands for a run with a negative sector, step or image size, which the ranges
-- that the node declares do not admit, and which is not modelled.
pub mod Configured
pub mod Refresh
mod Tests
mod RefreshTests
use sensor_packages.Base.{
  ℕ, ◌*◌, ◌/◌, ◌%◌, ◌^◌, ◌-◌, Bool, true, false, not, ◌||◌, ◌&&◌, List, [], ◌∷◌, Option, none, some,
  replicate, ◌==◌, if◌then◌else◌,
}
use sensor_packages.Base.Fault.{◌>>=◌}
use sensor_packages.Base.Int.{ℤ, pos, negsuc}
use sensor_packages.Base.Text.{String, find_text, eq_text}
use sensor_packages.Ping360.Angles.{Head, configure_angles}
use sensor_packages.Ping360.Transducer.{Device, Formulas, configure_transducer}
use sensor_packages.Ping360.Scan
use sensor_packages.Ping360.Scan.{Scan}

-- A new parameter: a Boolean, an integer, or a value of another type.
pub data Setting : Type 0 where
  boolean : Bool → Setting
  integer : ℤ → Setting
  other : Setting

-- `IntParams`; the first entry of a name counts.
abbrev pub IntParams : Type 0
IntParams = List (String × ℤ)

abbrev pub to_int : Bool → ℤ
to_int true = pos 1
to_int false = pos 0

-- `updatedParams`, from the current values.
unfoldable pub updated_params : List (String × Setting) → IntParams → IntParams
updated_params [] mapping = mapping
updated_params ((name, boolean b) ∷ rest) mapping = updated_params rest ((name, to_int b) ∷ mapping)
updated_params ((name, integer n) ∷ rest) mapping = updated_params rest ((name, n) ∷ mapping)
updated_params ((name, other) ∷ rest) mapping = updated_params rest mapping

-- What is to be published, and which publishers there are.
pub record Publishers : Type 0 where
  pub publish_image : Bool
  pub publish_scan : Bool
  pub publish_echo : Bool
  pub image_pub : Bool
  pub scan_pub : Bool
  pub echo_pub : Bool
  pub param_pubs : Bool

-- `initPublishers`
unfoldable pub init_publishers : Bool → Bool → Bool → Publishers → Publishers
init_publishers image scan echo p = record {
  publish_image = image;
  publish_scan = scan;
  publish_echo = echo;
  image_pub = p.image_pub || image;
  scan_pub = p.scan_pub || scan;
  echo_pub = p.echo_pub || echo;
  param_pubs = true;
}

-- The image message.
pub record Picture : Type 0 where
  pub height : ℕ
  pub width : ℕ
  pub step : ℕ
  pub bytes : List ℕ

-- The fields of the echo message that do not change from ping to ping.
pub record EchoFields : Type 0 where
  pub gain : ℤ
  pub range : ℤ
  pub speed_of_sound : ℤ
  pub number_of_samples : ℕ
  pub transmit_frequency : ℤ

-- The members of the node, with the radius and the samples of its sector.
pub record Node : Type 0 where
  pub head : Head
  pub device : Device
  pub publishers : Publishers
  pub echo : EchoFields
  pub scan : Scan
  pub time_increment : ℕ
  pub image : Picture
  pub sector_radius : ℕ
  pub sector_samples : ℕ
  pub scan_threshold : ℤ
  pub timeout : ℤ

-- Whether a sector is among the new parameters.
unfoldable pub has_sector : List (String × Setting) → Bool
has_sector [] = false
has_sector ((name, setting) ∷ rest) = eq_text name "angle_sector" || has_sector rest

-- The image for a size.
unfoldable pub sized_image : ℕ → Bool → Picture → Picture
sized_image size sector_changed image =
    if not (size == image.step) || sector_changed
    then record { height = size; width = size; step = size; bytes = replicate (size * size) 0 }
    else image

abbrev pub is_set : ℤ → Bool
is_set (pos n) = not (n == 0)
is_set (negsuc n) = true

-- The scan message for the limits of a head.
abbrev pub configured_scan : Scan.Floats → (ℤ → ℕ) → Head → ℤ → Scan → Scan
configured_scan f of_int head range_max scan = record scan {
  range_max = of_int range_max;
  angle_max = f.radians head.angle_max;
  angle_min = f.radians head.angle_min;
  angle_increment = f.radians head.angle_step;
}

-- The ranges in which the constructor declares the integers; ROS rejects any other value.
abbrev pub declared_ranges : List (String × (ℕ × ℕ))
declared_ranges =
    ("gain", (0, 2))
    ∷ ("frequency", (650, 850))
    ∷ ("range_max", (1, 50))
    ∷ ("angle_sector", (60, 360))
    ∷ ("angle_step", (1, 20))
    ∷ ("image_size", (100, 1000))
    ∷ ("scan_threshold", (1, 255))
    ∷ ("speed_of_sound", (1450, 1550))
    ∷ ("sonar_timeout", (0, 20000))
    ∷ []

-- A parameter that is not negative.
abbrev pub natural : ℤ → Option ℕ
natural (pos n) = some n
natural (negsuc n) = none

-- The conversion of an `int` to an unsigned integer of `w` bits.
abbrev pub to_unsigned : ℕ → ℤ → ℕ
to_unsigned w (pos n) = n % 2 ^ w
to_unsigned w (negsuc n) = 2 ^ w - 1 - n % 2 ^ w

-- The head for the three parameters of the angles.
unfoldable pub configured_head : Head → ℤ → ℤ → ℤ → Option Head
unfolding configure_angles
configured_head head angle_sector angle_step publish_scan = do
  sector ← natural angle_sector
  step ← natural angle_step
  result ← configure_angles head sector step (is_set publish_scan)
  some (result.0)

-- The transducer for its four parameters.
unfoldable pub configured_device :
    Formulas → (ℤ → ℕ) → Bool → ℤ → ℤ → ℤ → ℤ → Device → Option Device
unfolding configure_transducer
configured_device formulas of_int real_sonar gain frequency speed_of_sound range_max device =
    configure_transducer formulas real_sonar (to_unsigned 8 gain) (to_unsigned 16 frequency)
      (to_unsigned 16 speed_of_sound) (of_int range_max) device

-- `configureFromParams`; `of_int` is the conversion of an integer to a float, `seconds` that of the
-- transmit duration.
unfoldable pub configure_from_params :
    Scan.Floats
    → Formulas
    → (ℤ → ℕ)
    → (ℕ → ℕ)
    → Bool
    → List (String × Setting)
    → IntParams
    → Node
    → Option Node
configure_from_params f formulas of_int seconds real_sonar new_params current node = do
  angle_sector ← find_text "angle_sector" (updated_params new_params current)
  angle_step ← find_text "angle_step" (updated_params new_params current)
  publish_scan ← find_text "publish_scan" (updated_params new_params current)
  head ← configured_head node.head angle_sector angle_step publish_scan
  publish_image ← find_text "publish_image" (updated_params new_params current)
  publish_echo ← find_text "publish_echo" (updated_params new_params current)
  gain ← find_text "gain" (updated_params new_params current)
  frequency ← find_text "frequency" (updated_params new_params current)
  speed_of_sound ← find_text "speed_of_sound" (updated_params new_params current)
  range_max ← find_text "range_max" (updated_params new_params current)
  device ←
      configured_device formulas of_int real_sonar gain frequency speed_of_sound range_max
        node.device
  sonar_timeout ← find_text "sonar_timeout" (updated_params new_params current)
  image_size ← find_text "image_size" (updated_params new_params current)
  size ← natural image_size
  scan_threshold ← find_text "scan_threshold" (updated_params new_params current)
  some (record {
    head = head;
    device = device;
    publishers =
        init_publishers (is_set publish_image) (is_set publish_scan) (is_set publish_echo)
          node.publishers;
    echo = record {
      gain = gain;
      range = range_max;
      speed_of_sound = speed_of_sound;
      number_of_samples = device.number_of_samples;
      transmit_frequency = frequency;
    };
    scan = configured_scan f of_int head range_max node.scan;
    time_increment = seconds device.transmit_duration;
    image = sized_image size (has_sector new_params) node.image;
    sector_radius = size / 2;
    sector_samples = device.number_of_samples;
    scan_threshold = scan_threshold;
    timeout = sonar_timeout;
  })
