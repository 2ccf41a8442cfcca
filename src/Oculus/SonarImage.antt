-- ===== src/Oculus/SonarImage.antt =====
-- `pingToSonarImage` of oculus_ros2/oculus_sonar/include/oculus_sonar/ping_to_sonar_image.hpp. What the
-- accessors of liboculus return is the record `Ping`; floating-point numbers are bit patterns, and the
-- operations on them a parameter. `none` is an access outside an object.
pub mod Rows
use sensor_packages.Base.{
  ℕ, zero, suc, ◌+◌, ◌-◌, ◌*◌, ◌/◌, ◌%◌, Bool, true, false, ◌&&◌, ◌||◌, List, [], ◌∷◌, ◌++◌, Option,
  none, some, length, take, drop, replicate, get_elem?, min, ltb, leb, ◌==◌, if◌then◌else◌,
}
use sensor_packages.Base.Fault.{◌>>=◌}

-- The image of a ping: `data`, if it is not null, with `offset` and `stride`.
pub record ImageData : Type 0 where
  pub bytes : Option (List ℕ)
  pub offset : ℕ
  pub stride : ℕ

-- `liboculus::SimplePingResult`; the bearings are what `at_rad` returns for each.
pub record Ping : Type 0 where
  pub frequency : ℕ
  pub n_beams : ℕ
  pub n_ranges : ℕ
  pub range_resolution : ℕ
  pub data_size : ℕ
  pub bearings : List ℕ
  pub gains : List ℕ
  pub image : ImageData

-- The floating-point operations: `(a + b) / 2`, the middle of range `i`, and the beamwidths that
-- liboculus has for 2.1 and 1.2 MHz.
pub record Floats : Type 0 where
  pub mean : ℕ → ℕ → ℕ
  pub range_at : ℕ → ℕ → ℕ
  pub azimuth_2100 : ℕ
  pub elevation_2100 : ℕ
  pub azimuth_1200 : ℕ
  pub elevation_1200 : ℕ

-- `SonarImage`
pub record SonarImage : Type 0 where
  pub frequency : ℕ
  pub azimuth_beamwidth : ℕ
  pub elevation_beamwidth : ℕ
  pub azimuth_angles : List ℕ
  pub ranges : List ℕ
  pub is_bigendian : Bool
  pub data_size : ℕ
  pub intensities : List ℕ

-- A loop that computes an element in each round, from `i` on with `n` rounds left.
unfoldable pub each {ℓ} : {A : Type ℓ} → (ℕ → Option A) → ℕ → ℕ → Option (List A)
each f zero i = some []
each f (suc n) i = do x ← f i; rest ← each f n (i + 1); some (x ∷ rest)

-- The last of a number of bearings; with none, `at_rad` is called with -1.
abbrev pub last_bearing : List ℕ → ℕ → Option ℕ
last_bearing bearings zero = none
last_bearing bearings (suc count) = get_elem? bearings count

-- The angle of beam `b`, where there are 512 beams and at most 256 bearings.
abbrev pub interpolated : (ℕ → ℕ → ℕ) → List ℕ → ℕ → Option ℕ
interpolated mean bearings b =
    let count = length bearings in
    if b % 2 == 0
    then (if ltb (b / 2) count then get_elem? bearings (b / 2) else last_bearing bearings count)
    else if ltb (b / 2 + 1) count
    then (do
      bearing1 ← get_elem? bearings (b / 2)
      bearing2 ← get_elem? bearings (b / 2 + 1)
      some (mean bearing1 bearing2))
    else last_bearing bearings count

-- The angle of beam `b` otherwise: 0, as `resize` leaves it, where there are no bearings.
abbrev pub direct : List ℕ → ℕ → Option ℕ
direct bearings b =
    let count = length bearings in
    if ltb b count
    then get_elem? bearings b
    else if ltb 0 count
    then last_bearing bearings count
    else some 0

-- `azimuth_angles`
unfoldable pub azimuth_angles_of : (ℕ → ℕ → ℕ) → Ping → Option (List ℕ)
unfolding each
azimuth_angles_of mean ping =
    if ping.n_beams == 512 && leb (length ping.bearings) 256
    then each (interpolated mean ping.bearings) ping.n_beams 0
    else each (direct ping.bearings) ping.n_beams 0

-- `memcpy` of `n` bytes from `from` on.
unfoldable pub copy_bytes {ℓ} : {A : Type ℓ} → List A → ℕ → ℕ → Option (List A)
copy_bytes bytes from n =
    if leb (from + n) (length bytes) then some (take n (drop from bytes)) else none

-- The copy row by row, with `n` rows left.
unfoldable pub copy_rows {ℓ} : {A : Type ℓ} → List A → ℕ → ℕ → ℕ → ℕ → Option (List A)
unfolding copy_bytes
copy_rows bytes from stride row_bytes zero = some []
copy_rows bytes from stride row_bytes (suc n) = do
  row ← copy_bytes bytes from row_bytes
  rest ← copy_rows bytes (from + stride) stride row_bytes n
  some (row ++ rest)

-- The bytes that `intensities` gets, where there are any.
unfoldable pub copy_image {ℓ} : {A : Type ℓ} → List A → ℕ → ℕ → ℕ → ℕ → Option (List A)
unfolding copy_rows
copy_image bytes offset stride row_bytes num_ranges =
    if stride == row_bytes
    then copy_bytes bytes offset (num_ranges * row_bytes)
    else copy_rows bytes offset stride row_bytes num_ranges

-- `intensities`
unfoldable pub intensities_of : Ping → Option (List ℕ)
unfolding copy_image
intensities_of ping =
    let row_bytes = ping.n_beams * ping.data_size in
    elim ping.image.bytes [
      | none ↦ some []
      | some bytes ↦
          if ping.n_ranges * row_bytes == 0
          then some []
          else copy_image bytes ping.image.offset ping.image.stride row_bytes ping.n_ranges
    ]

-- The frequencies in Hz for which the code has beamwidths.
abbrev pub is_supported : ℕ → Bool
is_supported frequency = ltb 2000000 frequency || (ltb 1100000 frequency && ltb frequency 1300000)

-- A beamwidth for a frequency; for any other the field keeps its first value, 0.
unfoldable pub beamwidth : ℕ → ℕ → ℕ → ℕ
beamwidth high low frequency =
    if ltb 2000000 frequency
    then high
    else if ltb 1100000 frequency && ltb frequency 1300000
    then low
    else 0

-- `pingToSonarImage`
unfoldable pub ping_to_sonar_image : Floats → Ping → Option SonarImage
unfolding azimuth_angles_of intensities_of beamwidth
ping_to_sonar_image floats ping = do
  azimuth_angles ← azimuth_angles_of floats.mean ping
  ranges ← each (λ i. some (floats.range_at i ping.range_resolution)) ping.n_ranges 0
  intensities ← intensities_of ping
  some (record {
    frequency = ping.frequency;
    azimuth_beamwidth = beamwidth floats.azimuth_2100 floats.azimuth_1200 ping.frequency;
    elevation_beamwidth = beamwidth floats.elevation_2100 floats.elevation_1200 ping.frequency;
    azimuth_angles = azimuth_angles;
    ranges = ranges;
    is_bigendian = false;
    data_size = ping.data_size;
    intensities = intensities;
  })
