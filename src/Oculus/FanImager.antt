-- ===== src/Oculus/FanImager.antt =====
-- `OculusFanImager` of oculus_ros2/oculus_sonar/src/oculus_fan_imager.cpp: the callbacks. The functions of OpenCV and the
-- clock are parameters, as in Oculus/Converter. `none` is an access outside an object, or an exception of
-- `as_int`, `as_bool` or `as_string`; exceptions of OpenCV, which the code catches, are left out, and so is
-- the overflow of `frame_count` after 2^31 frames.
pub mod Shown
use sensor_packages.Base.{
  ℕ, ◌+◌, ◌*◌, Bool, true, false, not, ◌||◌, List, [], ◌∷◌, Option, none, some, length, ◌==◌,
  if◌then◌else◌,
}
use sensor_packages.Base.Fault.{◌>>=◌}
use sensor_packages.Base.Int.{ℤ}
use sensor_packages.Base.Text.{String, eq_text}
use sensor_packages.Oculus.Registry.{ColormapTypes, is_colormap_supported, is_model_supported}
use sensor_packages.Oculus.SonarImage.{SonarImage, copy_bytes}
use sensor_packages.Oculus.Publishers.{Header}
use sensor_packages.Oculus.DriverConfig.{Value, as_int, as_bool, as_string}
use sensor_packages.Oculus.Converter.{
  Floats, Converter, Cv, last, same_int, update_mapping, convert_to_cartesian, set_frequency_mode,
  set_colormap, set_sonar_model, new_converter,
}

-- The members of `OculusFanImager` that the callbacks use.
pub record Imager : Type 0 where
  pub sonar_model : String
  pub freq_mode : ℤ
  pub apply_colormap : Bool
  pub colormap_name : String
  pub polar_converter : Converter
  pub frame_count : ℕ
  pub last_image_time : ℕ

-- The message with the fan image.
pub record FanMessage (M : Type 0) : Type 0 where
  pub header : Header
  pub encoding : String
  pub image : M

-- The part of `init` that sets the state, from the parameters of the node.
unfoldable pub init : ColormapTypes → String → ℤ → Bool → String → ℕ → Imager
unfolding new_converter set_colormap is_colormap_supported
init codes sonar_model freq_mode apply_colormap colormap_name now =
    let converter = new_converter codes sonar_model freq_mode in
    let name = if is_colormap_supported codes colormap_name then colormap_name else "turbo" in
    record {
      sonar_model = sonar_model;
      freq_mode = freq_mode;
      apply_colormap = apply_colormap;
      colormap_name = name;
      polar_converter = set_colormap codes name converter;
      frame_count = 0;
      last_image_time = now;
    }

-- Whether there is a matrix for the size of an element.
abbrev pub is_size : ℕ → Bool
is_size data_size = data_size == 1 || data_size == 2 || data_size == 4

-- The elements of `polar_image`, read from the intensities; `to_8_bit` is `convertTo`, and nothing for
-- elements of one byte.
unfoldable pub polar_image_of : (ℕ → List ℕ → List ℕ) → SonarImage → Option (List ℕ)
unfolding copy_bytes
polar_image_of to_8_bit m =
    (copy_bytes m.intensities 0 (length m.ranges * length m.azimuth_angles * m.data_size)
      >>= λ bytes. some (if m.data_size == 1 then bytes else to_8_bit m.data_size bytes))

-- `sonarImageCallback`: the messages, and the new state.
unfoldable pub sonar_image_callback :
    {M : Type 0}
    → Floats
    → Cv M
    → (ℕ → List ℕ → List ℕ)
    → ℕ
    → Header
    → SonarImage
    → Imager
    → Option (List (FanMessage M) × Imager)
sonar_image_callback f cv to_8_bit now header m s =
    if length m.ranges == 0 || length m.azimuth_angles == 0
    then some ([], s)
    else if not (is_size m.data_size)
    then some ([], s)
    else (last m.ranges >>= λ max_range. polar_image_of to_8_bit m >>= λ polar_image.
        update_mapping f s.polar_converter (length m.ranges) (length m.azimuth_angles) max_range
          m.azimuth_angles
        >>= λ c. some (
          record {
            header = header;
            encoding = if s.apply_colormap then "bgr8" else "mono8";
            image = convert_to_cartesian cv c polar_image s.apply_colormap;
          }
              ∷ [],
          record s { polar_converter = c; frame_count = s.frame_count + 1; last_image_time = now },
        ))

-- Whether the parameters are accepted so far, and the state.
pub record Update : Type 0 where
  pub successful : Bool
  pub imager : Imager

-- The cases of the loop of `parameterCallback`.
unfoldable pub change_freq_mode : ℤ → Update → Update
unfolding set_frequency_mode
change_freq_mode freq_mode u = if same_int freq_mode u.imager.freq_mode then u else record u {
  imager = record u.imager {
    freq_mode = freq_mode;
    polar_converter = set_frequency_mode freq_mode u.imager.polar_converter;
  };
}

unfoldable pub change_colormap : ColormapTypes → String → Update → Update
unfolding set_colormap is_colormap_supported
change_colormap codes name u =
    if is_colormap_supported codes name
    then record u {
      imager = record u.imager {
        colormap_name = name;
        polar_converter = set_colormap codes name u.imager.polar_converter;
      };
    }
    else record u { successful = false }

unfoldable pub change_sonar_model : String → Update → Update
unfolding set_sonar_model is_model_supported
change_sonar_model model u =
    if not (is_model_supported model)
    then record u { successful = false }
    else if eq_text model u.imager.sonar_model
    then u
    else record u {
      imager = record u.imager {
        sonar_model = model;
        polar_converter = set_sonar_model model u.imager.polar_converter;
      };
    }

-- The body of the loop.
unfoldable pub update_parameter : ColormapTypes → String → Value → Update → Option Update
unfolding change_freq_mode change_colormap change_sonar_model
update_parameter codes name value u =
    if eq_text name "freq_mode"
    then (as_int value >>= λ n. some (change_freq_mode n u))
    else if eq_text name "apply_colormap"
    then (as_bool value >>= λ b.
        some (record u { imager = record u.imager { apply_colormap = b } }))
    else if eq_text name "colormap"
    then (as_string value >>= λ s. some (change_colormap codes s u))
    else if eq_text name "sonar_model"
    then (as_string value >>= λ s. some (change_sonar_model s u))
    else some u

-- The loop.
unfoldable pub update_parameters : ColormapTypes → List (String × Value) → Update → Option Update
unfolding update_parameter
update_parameters codes [] u = some u
update_parameters codes ((name, value) ∷ rest) u =
    update_parameter codes name value u >>= update_parameters codes rest

-- `parameterCallback`
unfoldable pub parameter_callback : ColormapTypes → List (String × Value) → Imager → Option Update
unfolding update_parameters
parameter_callback codes parameters s =
    update_parameters codes parameters (record { successful = true; imager = s })
