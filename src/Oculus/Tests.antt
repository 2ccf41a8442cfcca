-- ===== src/Oculus/Tests.antt =====
-- The theorems on the Oculus driver at concrete inputs.
use sensor_packages.Base.{ℕ, true, false, ◌≡◌, refl, List, [], ◌∷◌, some, arith}
use sensor_packages.Base.Int.{pos}
use sensor_packages.Base.Text.{String, find_text}
use sensor_packages.Oculus.Registry.{
  ColormapTypes, ColormapConfig, get_colormap_config, get_colormap_by_code,
}
use sensor_packages.Oculus.Registry.Codes.{get_colormap_by_code-get_colormap_config}
use sensor_packages.Oculus.SonarImage.{copy_image, copy_rows}
use sensor_packages.Oculus.SonarImage.Rows.{copy_image-copy_rows}
use sensor_packages.Oculus.DriverConfig.{
  real, whole, flag, text, Setters, Store, apply_parameters, update_sonar_config,
}
use sensor_packages.Oculus.DriverConfig.Listener.{
  Stored, listed, update_sonar_config-apply_parameters,
}

-- Distinct numbers for the constants of OpenCV.
abbrev pub codes : ColormapTypes
codes = record {
  autumn = 0;
  bone = 1;
  jet = 2;
  winter = 3;
  rainbow = 4;
  ocean = 5;
  summer = 6;
  spring = 7;
  cool = 8;
  hsv = 9;
  pink = 10;
  hot = 11;
  parula = 12;
  magma = 13;
  inferno = 14;
  plasma = 15;
  viridis = 16;
  cividis = 17;
  twilight = 18;
  turbo = 20;
  deepgreen = 21;
}

abbrev turbo : ColormapConfig
turbo = record { name = "turbo"; opencv_code = 20 }

turbo_found : get_colormap_config codes "turbo" ≡ some turbo
unfolding get_colormap_config find_text
turbo_found = refl

get_colormap_by_code-get_colormap_config_example : get_colormap_by_code codes 20 ≡ some turbo
get_colormap_by_code-get_colormap_config_example =
    get_colormap_by_code-get_colormap_config codes "turbo" turbo refl turbo_found

-- Two rows of two bytes, behind a header of one byte.
copy_image-copy_rows_example :
    copy_image {A = ℕ} (9 ∷ 1 ∷ 2 ∷ 3 ∷ 4 ∷ []) 1 2 2 2
    ≡ copy_rows {A = ℕ} (9 ∷ 1 ∷ 2 ∷ 3 ∷ 4 ∷ []) 1 2 2 2
copy_image-copy_rows_example = copy_image-copy_rows (9 ∷ 1 ∷ 2 ∷ 3 ∷ 4 ∷ []) 1 2 2 2 (omega arith)

-- A configuration as the list of the settings made.
abbrev setters : Setters (List String)
setters = record {
  set_range = λ r c. "range" ∷ c;
  set_gain_percent = λ n c. "gain" ∷ c;
  set_gamma = λ n c. "gamma" ∷ c;
  set_ping_rate = λ n c. "ping_rate" ∷ c;
  set_freq_mode = λ n c. "freq_mode" ∷ c;
  set_data_size = λ n c. "data_size" ∷ c;
  send_range_as_meters = λ b c. "send_range_as_meters" ∷ c;
  set_send_gain = λ b c. "send_gain" ∷ c;
  set_simple_return = λ b c. "simple_return" ∷ c;
  set_gain_assistance = λ b c. "gain_assistance" ∷ c;
  use_512_beams = λ c. "512" ∷ c;
}

abbrev store : Store
store =
    ("ip_address", text "auto")
    ∷ ("frame_id", text "sonar_link")
    ∷ ("sonar_model", text "m750d")
    ∷ ("range", real 2)
    ∷ ("gain", whole (pos 100))
    ∷ ("gamma", whole (pos 200))
    ∷ ("ping_rate", whole (pos 3))
    ∷ ("freq_mode", whole (pos 2))
    ∷ ("send_gain", flag true)
    ∷ ("data_size", text "8bit")
    ∷ ("send_range_as_meters", flag true)
    ∷ ("send_simple_return", flag true)
    ∷ ("gain_assistance", flag false)
    ∷ []

abbrev stored : Stored store
unfolding find_text
stored = record {
  range = 2;
  gain = pos 100;
  gamma = pos 200;
  ping_rate = pos 3;
  freq_mode = pos 2;
  data_size = "8bit";
  range_as_meters = true;
  send_gain = true;
  simple_return = true;
  gain_assistance = false;
  has_range = refl;
  has_gain = refl;
  has_gamma = refl;
  has_ping_rate = refl;
  has_freq_mode = refl;
  has_data_size = refl;
  has_range_as_meters = refl;
  has_send_gain = refl;
  has_simple_return = refl;
  has_gain_assistance = refl;
}

update_sonar_config-apply_parameters_example :
    (d : List String) × (apply_parameters setters (listed store stored) [] ≡ some d)
    × (update_sonar_config setters store [] ≡ some ("512" ∷ d))
update_sonar_config-apply_parameters_example =
    update_sonar_config-apply_parameters setters store [] stored
