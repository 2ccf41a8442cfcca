-- ===== src/Oculus/PingTests.antt =====
-- The theorems on the way of a ping, from the driver to the fan image, at concrete inputs.
use sensor_packages.Base.{ℕ, ◌+◌, ◌*◌, ◌≡◌, refl, true, false, List, [], ◌∷◌, some, ltb, arith}
use sensor_packages.Base.Fault.{◌>>=◌, Ensures}
use sensor_packages.Base.Int.{pos}
use sensor_packages.Oculus.Tests.{codes}
use sensor_packages.Oculus.SonarImage
use sensor_packages.Oculus.SonarImage.{Ping, ImageData, ping_to_sonar_image}
use sensor_packages.Oculus.Publishers.{Latency, Header, record_latency_and_log, publish_ping}
use sensor_packages.Oculus.Publishers.Window.{IsValid, Recorded, record_latency_and_log-Recorded}
use sensor_packages.Oculus.Publishers.Sized.{Fits, Published, publish_ping-Published}
use sensor_packages.Oculus.Converter
use sensor_packages.Oculus.Converter.{new_converter, Cv}
use sensor_packages.Oculus.FanImager.{Imager, sonar_image_callback}
use sensor_packages.Oculus.FanImager.Shown.{PingShown, sonar_image_callback-ping_to_sonar_image}

abbrev floats : SonarImage.Floats
floats = record {
  mean = λ a b. a;
  range_at = λ i resolution. i * resolution;
  azimuth_2100 = 3;
  elevation_2100 = 4;
  azimuth_1200 = 1;
  elevation_1200 = 2;
}

-- Two ranges of three beams, in bytes, behind a gain of one byte in each row.
abbrev ping : Ping
ping = record {
  frequency = 1200000;
  n_beams = 3;
  n_ranges = 2;
  range_resolution = 4;
  data_size = 1;
  bearings = 10 ∷ 20 ∷ 30 ∷ [];
  gains = 7 ∷ 7 ∷ [];
  image = record { bytes = some (7 ∷ 1 ∷ 2 ∷ 3 ∷ 7 ∷ 4 ∷ 5 ∷ 6 ∷ []); offset = 1; stride = 4 };
}

ping-Fits : Fits ping
ping-Fits = record {
  some_bearing = omega arith;
  bytes = 7 ∷ 1 ∷ 2 ∷ 3 ∷ 7 ∷ 4 ∷ 5 ∷ 6 ∷ [];
  is_data = refl;
  start = omega arith;
  rows = omega arith;
  ranges_small = omega arith;
  beams_small = omega arith;
  row_small = omega arith;
}

abbrev header : Header
header = record { stamp = 5; frame_id = "sonar_link" }

abbrev latency : Latency
latency = record { window = 3 ∷ 4 ∷ []; write_idx = 0; total_pings = 2 }

latency-IsValid : IsValid latency
latency-IsValid = record { size = omega arith; index = omega arith; filling = λ h. refl }

record_latency_and_log-Recorded_example :
    Ensures (Recorded 9 latency) (record_latency_and_log ltb 9 latency)
record_latency_and_log-Recorded_example =
    record_latency_and_log-Recorded ltb 9 latency latency-IsValid

publish_ping-Published_example :
    Ensures (Published header ping) (publish_ping floats ltb header 9 ping latency)
publish_ping-Published_example =
    publish_ping-Published floats ltb header 9 ping latency ping-Fits latency-IsValid

abbrev fan_floats : Converter.Floats
fan_floats = record {
  close = λ a b. false;
  per_range = λ range n. 1;
  default_bearing = λ fov beams i. i;
  width_of = λ rows first back. 2;
  bearing_at = λ range rows cols row col. 10 + col;
  range_index_at = λ range resolution rows cols row col. row;
  less = ltb;
  equal = λ a b. false;
  minus_one = 0;
  of_index = λ i. i;
  blend = λ before b low high. before;
}

abbrev cv : Cv (List ℕ)
cv = record {
  empty = [];
  remap = λ polar map_x map_y. polar;
  has_one_channel = λ m. true;
  apply_color_map = λ code m. m;
}

abbrev imager : Imager
unfolding new_converter
imager = record {
  sonar_model = "m750d";
  freq_mode = pos 2;
  apply_colormap = true;
  colormap_name = "turbo";
  polar_converter = new_converter codes "m750d" (pos 2);
  frame_count = 0;
  last_image_time = 0;
}

not_yet : imager.polar_converter.initialized ≡ true → ⊥
unfolding imager new_converter
not_yet e = cc

sonar_image_callback-ping_to_sonar_image_example :
    Ensures (PingShown cv (λ size bytes. bytes) header ping imager) (
      ping_to_sonar_image floats ping >>= λ m.
      sonar_image_callback fan_floats cv (λ size bytes. bytes) 6 header m imager)
sonar_image_callback-ping_to_sonar_image_example =
    sonar_image_callback-ping_to_sonar_image fan_floats cv (λ size bytes. bytes) 6 header floats
      ping imager ping-Fits (omega arith) (omega arith) refl (λ e. absurd (not_yet e))

abbrev no_data : SonarImage.SonarImage
no_data = record {
  frequency = 1200000;
  azimuth_beamwidth = 1;
  elevation_beamwidth = 2;
  azimuth_angles = 10 ∷ 20 ∷ [];
  ranges = 0 ∷ 4 ∷ [];
  is_bigendian = false;
  data_size = 2;
  intensities = [];
}
