-- ===== src/Oculus/Registry.antt =====
-- `SonarConfigRegistry` of oculus_ros2/oculus_sonar/include/oculus_sonar/sonar_config.hpp and
-- src/sonar_config.cpp: the models and the colormaps. A float constant is its bit pattern. The codes of
-- OpenCV's colormaps are a parameter. `none` is an exception.
pub mod Codes
use sensor_packages.Base.{
  ℕ, Bool, true, false, List, [], ◌∷◌, Option, none, some, map, ◌==◌, if◌then◌else◌,
}
use sensor_packages.Base.Fault.{◌>>=◌}
use sensor_packages.Base.Int.{ℤ, pos, negsuc}
use sensor_packages.Base.Text.{String, find_text}

-- `FrequencyModeSpecs`
pub record FrequencyModeSpecs : Type 0 where
  pub horizontal_fov_deg : ℕ
  pub vertical_fov_deg : ℕ
  pub frequency_mhz : ℕ
  pub max_range_m : ℕ
  pub resolution_mm : ℕ

-- `SonarModelConfig`
pub record SonarModelConfig : Type 0 where
  pub model_name : String
  pub low_freq : FrequencyModeSpecs
  pub high_freq : FrequencyModeSpecs
  pub max_beams : ℕ

-- `ColormapConfig`
pub record ColormapConfig : Type 0 where
  pub name : String
  pub opencv_code : ℕ

abbrev specs : ℕ → ℕ → ℕ → ℕ → ℕ → FrequencyModeSpecs
specs horizontal vertical frequency range resolution = record {
  horizontal_fov_deg = horizontal;
  vertical_fov_deg = vertical;
  frequency_mhz = frequency;
  max_range_m = range;
  resolution_mm = resolution;
}

-- 130, 20, 0.75, 120 and 4; 130, 20, 1.2, 40 and 2.5.
abbrev pub m750d : SonarModelConfig
m750d = record {
  model_name = "m750d";
  low_freq = specs 0x43020000 0x41A00000 0x3F400000 0x42F00000 0x40800000;
  high_freq = specs 0x43020000 0x41A00000 0x3F99999A 0x42200000 0x40200000;
  max_beams = 512;
}

-- 130, 20, 1.2, 40 and 2.5; 60, 12, 2.1, 10 and 1.5.
abbrev pub m1200d : SonarModelConfig
m1200d = record {
  model_name = "m1200d";
  low_freq = specs 0x43020000 0x41A00000 0x3F99999A 0x42200000 0x40200000;
  high_freq = specs 0x42700000 0x41400000 0x40066666 0x41200000 0x3FC00000;
  max_beams = 512;
}

-- 130, 20, 1.2, 30 and 2.5; 40, 12, 3, 5 and 2.
abbrev pub m3000d : SonarModelConfig
m3000d = record {
  model_name = "m3000d";
  low_freq = specs 0x43020000 0x41A00000 0x3F99999A 0x41F00000 0x40200000;
  high_freq = specs 0x42200000 0x41400000 0x40400000 0x40A00000 0x40000000;
  max_beams = 512;
}

-- `models_`
abbrev pub models : List (String × SonarModelConfig)
models = ("m750d", m750d) ∷ ("m1200d", m1200d) ∷ ("m3000d", m3000d) ∷ []

-- The constants `cv::COLORMAP_...` of OpenCV that the code uses.
pub record ColormapTypes : Type 0 where
  pub autumn : ℕ
  pub bone : ℕ
  pub jet : ℕ
  pub winter : ℕ
  pub rainbow : ℕ
  pub ocean : ℕ
  pub summer : ℕ
  pub spring : ℕ
  pub cool : ℕ
  pub hsv : ℕ
  pub pink : ℕ
  pub hot : ℕ
  pub parula : ℕ
  pub magma : ℕ
  pub inferno : ℕ
  pub plasma : ℕ
  pub viridis : ℕ
  pub cividis : ℕ
  pub twilight : ℕ
  pub turbo : ℕ
  pub deepgreen : ℕ

abbrev colormap : String → ℕ → String × ColormapConfig
colormap name code = (name, record { name = name; opencv_code = code })

-- `colormaps_`
abbrev pub colormaps : ColormapTypes → List (String × ColormapConfig)
colormaps cv =
    colormap "autumn" cv.autumn
    ∷ colormap "bone" cv.bone
    ∷ colormap "jet" cv.jet
    ∷ colormap "winter" cv.winter
    ∷ colormap "rainbow" cv.rainbow
    ∷ colormap "ocean" cv.ocean
    ∷ colormap "summer" cv.summer
    ∷ colormap "spring" cv.spring
    ∷ colormap "cool" cv.cool
    ∷ colormap "hsv" cv.hsv
    ∷ colormap "pink" cv.pink
    ∷ colormap "hot" cv.hot
    ∷ colormap "parula" cv.parula
    ∷ colormap "magma" cv.magma
    ∷ colormap "inferno" cv.inferno
    ∷ colormap "plasma" cv.plasma
    ∷ colormap "viridis" cv.viridis
    ∷ colormap "cividis" cv.cividis
    ∷ colormap "twilight" cv.twilight
    ∷ colormap "turbo" cv.turbo
    ∷ colormap "deepgreen" cv.deepgreen
    ∷ []

-- `colormap_code_to_name_`
abbrev pub colormap_code_to_name : ColormapTypes → List (ℕ × String)
colormap_code_to_name cv =
    (cv.autumn, "autumn")
    ∷ (cv.bone, "bone")
    ∷ (cv.jet, "jet")
    ∷ (cv.winter, "winter")
    ∷ (cv.rainbow, "rainbow")
    ∷ (cv.ocean, "ocean")
    ∷ (cv.summer, "summer")
    ∷ (cv.spring, "spring")
    ∷ (cv.cool, "cool")
    ∷ (cv.hsv, "hsv")
    ∷ (cv.pink, "pink")
    ∷ (cv.hot, "hot")
    ∷ (cv.parula, "parula")
    ∷ (cv.magma, "magma")
    ∷ (cv.inferno, "inferno")
    ∷ (cv.plasma, "plasma")
    ∷ (cv.viridis, "viridis")
    ∷ (cv.cividis, "cividis")
    ∷ (cv.twilight, "twilight")
    ∷ (cv.turbo, "turbo")
    ∷ (cv.deepgreen, "deepgreen")
    ∷ []

-- An `unordered_map` with numbers for keys: the first entry of a key counts.
unfoldable pub find_code : ℕ → List (ℕ × String) → Option String
find_code code [] = none
find_code code ((c, name) ∷ m) =
    let rest = find_code code m in if c == code then some name else rest

-- `getModelConfig`
unfoldable pub get_model_config : String → Option SonarModelConfig
unfolding find_text
get_model_config model = find_text model models

-- `getColormapConfig`
unfoldable pub get_colormap_config : ColormapTypes → String → Option ColormapConfig
unfolding find_text
get_colormap_config cv name = find_text name (colormaps cv)

-- `getColormapByCode`
unfoldable pub get_colormap_by_code : ColormapTypes → ℕ → Option ColormapConfig
unfolding find_code get_colormap_config
get_colormap_by_code cv code = do
  name ← find_code code (colormap_code_to_name cv)
  get_colormap_config cv name

abbrev pub is_some {ℓ} : {A : Type ℓ} → Option A → Bool
is_some none = false
is_some (some a) = true

-- `isModelSupported`
unfoldable pub is_model_supported : String → Bool
unfolding find_text
is_model_supported model = is_some (find_text model models)

-- `isColormapSupported`
unfoldable pub is_colormap_supported : ColormapTypes → String → Bool
unfolding find_text
is_colormap_supported cv name = is_some (find_text name (colormaps cv))

-- `getSupportedModels` and `getSupportedColormaps`; `sort` is `std::sort` of a vector of texts.
abbrev pub get_supported_models : (List String → List String) → List String
get_supported_models sort = sort (map (λ entry. entry.0) models)

abbrev pub get_supported_colormaps : ColormapTypes → (List String → List String) → List String
get_supported_colormaps cv sort = sort (map (λ entry. entry.0) (colormaps cv))

-- `getFreqModeSpecs`
unfoldable pub get_freq_mode_specs : SonarModelConfig → ℤ → FrequencyModeSpecs
get_freq_mode_specs config (pos n) = if n == 2 then config.high_freq else config.low_freq
get_freq_mode_specs config (negsuc n) = config.low_freq
