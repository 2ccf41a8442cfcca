-- ===== src/Oculus/FanImager/Shown.antt =====
-- The fan image of a ping, from the driver to the fan imager.
use native.Mathlib.Nat.{mul_assoc}
use sensor_packages.Base.{
  ℕ, zero, suc, take, le→leb, if◌then◌else◌, ◌+◌, ◌*◌, ◌<◌, ◌≡◌, refl, sym, ◌∙◌, ap, true, false,
  List, [], ◌∷◌, Option, none, some, length, ◌==◌, arith, leb,
}
use sensor_packages.Base.Fault.{◌>>=◌, Ensures, Runs, Ensures-bind, Ensures-mono}
use sensor_packages.Oculus.SonarImage.{
  Ping, SonarImage, ping_to_sonar_image, copy_bytes, copy_rows, intensities_of,
}
use sensor_packages.Oculus.SonarImage.Rows.{copy_image-copy_rows}
use sensor_packages.Oculus.SonarImage
use sensor_packages.Oculus.Publishers.{Header}
use sensor_packages.Oculus.Publishers.Sized.{Fits, Sized, ping_to_sonar_image-Sized}
use sensor_packages.Oculus.Converter.{Floats, Cv, last, update_mapping, convert_to_cartesian}
use sensor_packages.Oculus.Converter.Mapped.{Mapped, Fitting, update_mapping-Fitting, last-Runs}
use sensor_packages.Oculus.FanImager.{
  Imager, FanMessage, is_size, polar_image_of, sonar_image_callback,
}

nonzero : (n : ℕ) → 0 < n → (n == 0) ≡ false
nonzero n h = ground arith

-- The elements of an image whose intensities are `bytes`.
abbrev eight_bit : (ℕ → List ℕ → List ℕ) → ℕ → List ℕ → List ℕ
eight_bit to_8_bit data_size bytes = if data_size == 1 then bytes else to_8_bit data_size bytes

-- What the callback publishes and leaves for an image of a number of ranges and of beams with these elements.
pub record Shown {M : Type 0} (cv : Cv M) (header : Header) (num_ranges num_beams : ℕ)
    (polar_image : List ℕ) (before : Imager) (r : List (FanMessage M) × Imager) : Type 0 where
  pub message : FanMessage M
  pub only : r.0 ≡ message ∷ []
  pub same_header : message.header ≡ header
  pub image :
      message.image ≡ convert_to_cartesian cv r.1.polar_converter polar_image before.apply_colormap
  pub fitting : Fitting num_ranges num_beams r.1.polar_converter
  pub counted : r.1.frame_count ≡ before.frame_count + 1

-- The elements shown are those of the rows of the ping, `n_beams * data_size` bytes each, one every
-- `stride` bytes from `offset` on.
pub record PingShown {M : Type 0} (cv : Cv M) (to_8_bit : ℕ → List ℕ → List ℕ) (header : Header)
    (ping : Ping) (before : Imager) (r : List (FanMessage M) × Imager) : Type 0 where
  pub ping_data : List ℕ
  pub is_data : ping.image.bytes ≡ some ping_data
  pub bytes : List ℕ
  pub rows :
      copy_rows ping_data ping.image.offset ping.image.stride
        (ping.n_beams * ping.data_size)
        ping.n_ranges
      ≡ some bytes
  pub shown :
      Shown cv header ping.n_ranges ping.n_beams (eight_bit to_8_bit ping.data_size bytes) before r

take_all : (n : ℕ) (xs : List ℕ) → length xs ≡ n → take n xs ≡ xs
take_all zero [] e = refl
take_all zero (x ∷ xs) e = absurd (omega arith)
take_all (suc n) [] e = absurd (omega arith)
take_all (suc n) (x ∷ xs) e = ap (λ l. x ∷ l) (take_all n xs (omega arith))

copy_bytes-all : (n : ℕ) (xs : List ℕ) → length xs ≡ n → copy_bytes xs 0 n ≡ some xs
unfolding copy_bytes
copy_bytes-all n xs e = rw (le→leb (0 + n) (length xs) (omega arith), take_all n xs e) refl

polar_image_of-eight_bit :
    (to_8_bit : ℕ → List ℕ → List ℕ) (m : SonarImage)
    → length m.intensities ≡ length m.ranges * length m.azimuth_angles * m.data_size
    → polar_image_of to_8_bit m ≡ some (eight_bit to_8_bit m.data_size m.intensities)
unfolding polar_image_of
polar_image_of-eight_bit to_8_bit m e = rw (copy_bytes-all _ m.intensities e) refl

size_positive : (n : ℕ) → is_size n ≡ true → 0 < n
size_positive n e = ground arith

gt→leb : (a b : ℕ) → b < a → leb a b ≡ false
gt→leb a b h = ground arith

outside : (a b c : ℕ) → 0 < a → 0 < b → 0 < c → leb (0 + a * b * c) 0 ≡ false
outside a b c h k l =
    let first : 0 < a * b = grind arith in
    let whole : 0 < a * b * c = grind arith in gt→leb (0 + a * b * c) 0 (omega (arith, whole))

Runs-some : {A : Type 0} (m : Option A) → Runs m → (a : A) × (m ≡ some a)
Runs-some none h = absurd h
Runs-some (some a) h = (a, refl)

product_positive : (a b c : ℕ) → 0 < a → 0 < b → 0 < c → (a * (b * c) == 0) ≡ false
product_positive a b c h k l =
    let row : 0 < b * c = grind arith in
    let whole : 0 < a * (b * c) = grind arith in nonzero (a * (b * c)) whole

-- What the driver copies of a ping are its rows.
intensities_of-copy_rows :
    (ping : Ping) (fits : Fits ping)
    → 0 < ping.n_ranges
    → 0 < ping.n_beams
    → 0 < ping.data_size
    → (bytes : List ℕ) → intensities_of ping ≡ some bytes
    → copy_rows fits.bytes ping.image.offset ping.image.stride
        (ping.n_beams * ping.data_size)
        ping.n_ranges
      ≡ some bytes
unfolding intensities_of
intensities_of-copy_rows ping fits h k l bytes e =
    let e' =
      rw (fits.is_data, product_positive ping.n_ranges ping.n_beams ping.data_size h k l) at e in
    sym (
      copy_image-copy_rows fits.bytes ping.image.offset ping.image.stride
        (ping.n_beams * ping.data_size) ping.n_ranges fits.start)
    ∙ e'

module _ {M : Type 0} (f : Floats) (cv : Cv M) (to_8_bit : ℕ → List ℕ → List ℕ) (now : ℕ)
    (header : Header) where
  sonar_image_callback-Shown :
      (m : SonarImage) (s : Imager)
      → 0 < length m.ranges
      → 0 < length m.azimuth_angles
      → is_size m.data_size ≡ true
      → length m.intensities ≡ length m.ranges * length m.azimuth_angles * m.data_size
      → (s.polar_converter.initialized ≡ true → Mapped s.polar_converter)
      → Ensures
          (Shown cv header
            (length m.ranges)
            (length m.azimuth_angles)
            (eight_bit to_8_bit m.data_size m.intensities)
            s)
          (sonar_image_callback f cv to_8_bit now header m s)
  unfolding sonar_image_callback
  sonar_image_callback-Shown m s some_range some_beam size e kept =
      rw
        (
          nonzero (length m.ranges) some_range,
          nonzero (length m.azimuth_angles) some_beam,
          size,
          polar_image_of-eight_bit to_8_bit m e,
        )
        (Ensures-bind (λ a. Unit {0})
          (Shown cv header (length m.ranges) (length m.azimuth_angles)
            (eight_bit to_8_bit m.data_size m.intensities) s)
          (last m.ranges) _ (last-Runs m.ranges some_range)
          λ max_range _.
            Ensures-bind (Fitting (length m.ranges) (length m.azimuth_angles))
              (Shown cv header (length m.ranges) (length m.azimuth_angles)
                (eight_bit to_8_bit m.data_size m.intensities) s)
              (update_mapping f s.polar_converter (length m.ranges) (length m.azimuth_angles)
                max_range m.azimuth_angles)
              _
              (update_mapping-Fitting f s.polar_converter (length m.ranges)
                (length m.azimuth_angles) max_range m.azimuth_angles some_beam kept)
              λ c fitting. record {
                message = _;
                only = refl;
                same_header = refl;
                image = refl;
                fitting = fitting;
                counted = refl;
              })

  -- A ping whose rows all lie in its data, with at least one bearing, range and beam and elements of 1, 2
  -- or 4 bytes, is shown: the driver makes a message of it, at every frequency, also at one for which
  -- it logs that it does not publish, and the callback of the fan imager publishes exactly one image
  -- under the message's header. It is made of the bytes of the ping's rows, without what lies between the
  -- rows, converted to 8 bits where the elements are longer, by the mapping for the ping's numbers of
  -- ranges and beams, and counted. The mapping that the fan imager has is one that it has made.
  pub sonar_image_callback-ping_to_sonar_image :
      (floats : SonarImage.Floats) (ping : Ping) (s : Imager)
      → Fits ping
      → 0 < ping.n_ranges
      → 0 < ping.n_beams
      → is_size ping.data_size ≡ true
      → (s.polar_converter.initialized ≡ true → Mapped s.polar_converter)
      → Ensures (PingShown cv to_8_bit header ping s) (
          ping_to_sonar_image floats ping >>= λ m.
          sonar_image_callback f cv to_8_bit now header m s)
  sonar_image_callback-ping_to_sonar_image floats ping s fits some_range some_beam size kept =
      Ensures-bind (Sized ping) (PingShown cv to_8_bit header ping s)
        (ping_to_sonar_image floats ping) _ (ping_to_sonar_image-Sized floats ping fits)
        λ m z.
          Ensures-mono _ _ (sonar_image_callback f cv to_8_bit now header m s)
            (sonar_image_callback-Shown m s (omega (arith, z.ranges)) (omega (arith, z.azimuths))
              (ap is_size z.element ∙ size)
              (z.intensities
                ∙ sym (
                    rw (z.ranges, z.azimuths, z.element)
                      (mul_assoc ping.n_ranges ping.n_beams ping.data_size)))
              kept)
            λ r shown. record {
              ping_data = fits.bytes;
              is_data = fits.is_data;
              bytes = m.intensities;
              rows =
                  intensities_of-copy_rows ping fits some_range some_beam
                    (size_positive ping.data_size size) m.intensities z.copied;
              shown = rw (← z.ranges, ← z.azimuths, ← z.element) shown;
            }

  -- A message with ranges and azimuths, elements of 1, 2 or 4 bytes and no intensities, as the driver makes it
  -- for a ping without data, is read outside its intensities.
  pub sonar_image_callback-no_data :
      (m : SonarImage) (s : Imager)
      → 0 < length m.ranges
      → 0 < length m.azimuth_angles
      → is_size m.data_size ≡ true
      → m.intensities ≡ []
      → sonar_image_callback f cv to_8_bit now header m s ≡ none
  unfolding sonar_image_callback polar_image_of copy_bytes
  sonar_image_callback-no_data m s some_range some_beam size empty =
      let (back, e) = Runs-some (last m.ranges) (last-Runs m.ranges some_range) in
      rw
        (
          nonzero (length m.ranges) some_range,
          nonzero (length m.azimuth_angles) some_beam,
          size,
          e,
          empty,
          outside (length m.ranges) (length m.azimuth_angles) m.data_size some_range some_beam
              (size_positive m.data_size size),
        )
        refl
