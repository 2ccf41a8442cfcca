-- ===== src/Oculus/Converter.antt =====
-- `PolarToCartesianConverter` of oculus_ros2/oculus_sonar/src/polar_to_cartesian.cpp. A floating-point number is its
-- bit pattern; the operations on such numbers, and those of OpenCV, are parameters. A matrix of the mapping is the
-- list of its rows, one behind the other. `none` is an access outside an object.
pub mod Mapped
use sensor_packages.Base.{
  ℕ, zero, suc, ◌+◌, ◌-◌, ◌*◌, Bool, true, false, not, ◌&&◌, ◌||◌, List, [], ◌∷◌, ◌++◌, Option,
  none, some, length, get_elem?, get_or, ltb, ◌==◌, if◌then◌else◌,
}
use sensor_packages.Base.Fault.{◌>>=◌}
use sensor_packages.Base.Int.{ℤ, pos, ltb_ℤ}
use sensor_packages.Base.Text.{String, eq_text}
use sensor_packages.Oculus.Registry.{
  ColormapTypes, SonarModelConfig, FrequencyModeSpecs, ColormapConfig, m750d, is_model_supported,
  get_model_config, is_colormap_supported, get_colormap_config, get_freq_mode_specs,
}

-- The floating-point operations: `|a - b| < 1e-6`; a range by a number of ranges; the default bearing of a beam, for
-- a field of view; the width for a height and the outer bearings; the bearing and the range of a pixel, in
-- an image of some rows and columns; `a < b`; `|a - b| < 1e-9`; -1 and the conversion of an index; the index
-- between two bearings.
pub record Floats : Type 0 where
  pub close : ℕ → ℕ → Bool
  pub per_range : ℕ → ℕ → ℕ
  pub default_bearing : ℕ → ℕ → ℕ → ℕ
  pub width_of : ℕ → ℕ → ℕ → ℕ
  pub bearing_at : ℕ → ℕ → ℕ → ℕ → ℕ → ℕ
  pub range_index_at : ℕ → ℕ → ℕ → ℕ → ℕ → ℕ → ℕ
  pub less : ℕ → ℕ → Bool
  pub equal : ℕ → ℕ → Bool
  pub minus_one : ℕ
  pub of_index : ℕ → ℕ
  pub blend : ℕ → ℕ → ℕ → ℕ → ℕ

-- `PolarToCartesianConverter`
pub record Converter : Type 0 where
  pub sonar_model : String
  pub freq_mode : ℤ
  pub colormap_code : ℕ
  pub initialized : Bool
  pub rows : ℕ
  pub cols : ℕ
  pub num_beams : ℕ
  pub num_ranges : ℕ
  pub range_resolution : ℕ
  pub max_range : ℕ
  pub bearings : List ℕ
  pub map_x : List ℕ
  pub map_y : List ℕ
  pub config : SonarModelConfig
  pub current_specs : FrequencyModeSpecs

-- The configuration of a model; that of the m750d, if it is not supported.
abbrev pub config_or_default : String → SonarModelConfig
unfolding get_model_config
config_or_default model = elim (get_model_config model) [ none ↦ m750d | some config ↦ config ]

-- The constructor
unfoldable pub new_converter : ColormapTypes → String → ℤ → Converter
unfolding config_or_default get_freq_mode_specs
new_converter codes model freq_mode = record {
  sonar_model = model;
  freq_mode = freq_mode;
  colormap_code = codes.turbo;
  initialized = false;
  rows = 0;
  cols = 0;
  num_beams = 0;
  num_ranges = 0;
  range_resolution = 0;
  max_range = 0;
  bearings = [];
  map_x = [];
  map_y = [];
  config = config_or_default model;
  current_specs = get_freq_mode_specs (config_or_default model) freq_mode;
}

-- `std::lower_bound`: the first place whose bearing is not less, or the end.
unfoldable pub lower_bound : (ℕ → ℕ → Bool) → List ℕ → ℕ → ℕ
lower_bound less [] b = 0
lower_bound less (x ∷ xs) b = let rest = lower_bound less xs b in if less x b then suc rest else 0

-- `interpolateBearing` behind the search, at place `idx`.
unfoldable pub interpolate_at : Floats → List ℕ → ℕ → ℕ → Option ℕ
interpolate_at f bearings b zero = some (f.of_index 0)
interpolate_at f bearings b (suc before) =
    if suc before == length bearings
    then some (f.of_index before)
    else (get_elem? bearings (suc before) >>= λ high. get_elem? bearings before >>= λ low.
        some (if f.equal high low then f.of_index before else f.blend before b low high))

-- `back()`
unfoldable pub last : List ℕ → Option ℕ
last [] = none
last (x ∷ []) = some x
last (x ∷ y ∷ ys) = last (y ∷ ys)

-- `interpolateBearing`
unfoldable pub interpolate_bearing : Floats → List ℕ → ℕ → Option ℕ
unfolding lower_bound interpolate_at last
interpolate_bearing f [] b = some f.minus_one
interpolate_bearing f (x ∷ xs) b =
    (last (x ∷ xs) >>= λ back.
    if f.less b x || f.less back b
    then some f.minus_one
    else interpolate_at f (x ∷ xs) b (lower_bound f.less (x ∷ xs) b))

-- The elements of a row, with `n` columns left, from `col` on.
unfoldable pub row_of : (ℕ → Option ℕ) → ℕ → ℕ → Option (List ℕ)
row_of element zero col = some []
row_of element (suc n) col = do x ← element col; rest ← row_of element n (col + 1); some (x ∷ rest)

-- The rows of a matrix, with `n` of them left, from `row` on.
unfoldable pub matrix_of : (ℕ → ℕ → Option ℕ) → ℕ → ℕ → ℕ → Option (List ℕ)
unfolding row_of
matrix_of element cols zero row = some []
matrix_of element cols (suc n) row = do
  elements ← row_of (element row) cols 0
  rest ← matrix_of element cols n (row + 1)
  some (elements ++ rest)

-- The width of the image.
unfoldable pub columns_of : Floats → ℕ → ℕ → ℕ → ℕ
columns_of f rows first back =
    if ltb (f.width_of rows first back) 1 then 1 else f.width_of rows first back

-- `generateCartesianMapping`
unfoldable pub generate_cartesian_mapping : Floats → Converter → Option Converter
unfolding interpolate_bearing matrix_of columns_of last
generate_cartesian_mapping f c = do
  first ← get_elem? c.bearings 0
  back ← last c.bearings
  let rows = c.num_ranges in
      let cols = columns_of f rows first back in
      (matrix_of
          (λ row col. interpolate_bearing f c.bearings (f.bearing_at c.max_range rows cols row col))
          cols rows 0
        >>= λ map_x.
            matrix_of
              (λ row col. some (f.range_index_at c.max_range c.range_resolution rows cols row col))
              cols rows 0
            >>= λ map_y. some (record c {
              rows = rows;
              cols = cols;
              map_x = map_x;
              map_y = map_y;
              initialized = true;
            }))

-- The default bearings of the beams, with `n` of them left, from `i` on.
unfoldable pub default_bearings : Floats → ℕ → ℕ → ℕ → ℕ → List ℕ
default_bearings f fov beams zero i = []
default_bearings f fov beams (suc n) i =
    f.default_bearing fov beams i ∷ default_bearings f fov beams n (i + 1)

-- The bearings that `updateMapping` takes.
unfoldable pub bearings_for : Floats → Converter → ℕ → List ℕ → List ℕ
unfolding default_bearings
bearings_for f c num_beams azimuth_angles =
    if not (length azimuth_angles == 0) && length azimuth_angles == num_beams
    then azimuth_angles
    else default_bearings f c.current_specs.horizontal_fov_deg num_beams num_beams 0

-- The test for unchanged parameters.
abbrev pub unchanged : Floats → Converter → ℕ → ℕ → ℕ → Bool
unchanged f c num_ranges num_beams max_range =
    c.initialized
    && num_beams == c.num_beams
    && num_ranges == c.num_ranges
    && f.close max_range c.max_range

-- `updateMapping`
unfoldable pub update_mapping : Floats → Converter → ℕ → ℕ → ℕ → List ℕ → Option Converter
unfolding bearings_for generate_cartesian_mapping
update_mapping f c num_ranges num_beams max_range azimuth_angles =
    if unchanged f c num_ranges num_beams max_range
    then some c
    else generate_cartesian_mapping f (record c {
      num_beams = num_beams;
      num_ranges = num_ranges;
      max_range = max_range;
      range_resolution = f.per_range max_range num_ranges;
      bearings = bearings_for f c num_beams azimuth_angles;
    })

-- The functions of OpenCV on matrices: an empty one, `remap`, whether there is one channel, `applyColorMap`.
pub record Cv (M : Type 0) : Type 0 where
  pub empty : M
  pub remap : List ℕ → List ℕ → List ℕ → M
  pub has_one_channel : M → Bool
  pub apply_color_map : ℕ → M → M

-- `convertToCartesian`
unfoldable pub convert_to_cartesian : {M : Type 0} → Cv M → Converter → List ℕ → Bool → M
convert_to_cartesian cv c polar_image apply_colormap =
    if not c.initialized
    then cv.empty
    else if apply_colormap && cv.has_one_channel (cv.remap polar_image c.map_x c.map_y)
    then cv.apply_color_map c.colormap_code (cv.remap polar_image c.map_x c.map_y)
    else cv.remap polar_image c.map_x c.map_y

abbrev pub same_int : ℤ → ℤ → Bool
same_int a b = not (ltb_ℤ a b || ltb_ℤ b a)

-- `setFrequencyMode`
unfoldable pub set_frequency_mode : ℤ → Converter → Converter
unfolding get_freq_mode_specs
set_frequency_mode freq_mode c = if same_int c.freq_mode freq_mode then c else record c {
  freq_mode = freq_mode;
  current_specs = get_freq_mode_specs c.config freq_mode;
  initialized = false;
}

-- `setSonarModel`
unfoldable pub set_sonar_model : String → Converter → Converter
unfolding get_model_config get_freq_mode_specs
set_sonar_model model c = if eq_text c.sonar_model model then c else elim (get_model_config model) [
  | none ↦ record c { sonar_model = model }
  | some config ↦ record c {
    sonar_model = model;
    config = config;
    current_specs = get_freq_mode_specs config c.freq_mode;
    initialized = false;
  }
]

-- `setColormap`
unfoldable pub set_colormap : ColormapTypes → String → Converter → Converter
unfolding get_colormap_config
set_colormap codes name c = elim (get_colormap_config codes name) [
  | none ↦ c
  | some colormap ↦ record c { colormap_code = colormap.opencv_code }
]

-- `setColormapCode`
abbrev pub set_colormap_code : ℕ → Converter → Converter
set_colormap_code code c = record c { colormap_code = code }
