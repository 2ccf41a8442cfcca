-- ===== src/Oculus/Publishers/Sized.antt =====
-- The sizes in the messages of a ping.
use native.Mathlib.Nat.{mod-eq_of_lt}
use sensor_packages.Base.{
  ℕ, zero, suc, ◌+◌, ◌*◌, ◌^◌, ◌%◌, ◌/◌, ◌<◌, ◌≤◌, ◌≡◌, refl, sym, ◌∙◌, ap, Bool, false, List, ◌∷◌,
  ◌++◌, Option, none, some, length, drop, length-append, length-take, length-drop, get_elem?-some,
  ◌==◌, leb, ltb, ltb→lt, lt→ltb, le→leb, if◌then◌else◌, arith, Bool-cases, inl, inr, get_elem?,
  ◌&&◌,
}
use sensor_packages.Base.Fault.{◌>>=◌, Ensures, Runs, Ensures-bind}
use sensor_packages.Oculus.SonarImage.{
  Floats, Ping, SonarImage, each, azimuth_angles_of, copy_bytes, copy_rows, intensities_of,
  is_supported, beamwidth, ping_to_sonar_image, interpolated, direct, last_bearing,
}
use sensor_packages.Oculus.SonarImage.Rows.{copy_image-copy_rows, suc_times}
use sensor_packages.Oculus.Publishers.{
  Latency, Header, Message, sonar_to_image, messages_of, publish_ping, record_latency_and_log,
}
use sensor_packages.Oculus.Publishers.Window.{IsValid, Recorded, record_latency_and_log-Recorded}

Runs-get : (xs : List ℕ) (i : ℕ) → i < length xs → Runs (get_elem? xs i)
Runs-get xs i h = rw ((get_elem?-some xs i h).1) tt

each-length :
    (f : ℕ → Option ℕ) (n i : ℕ)
    → ((j : ℕ) → Runs (f j))
    → Ensures (λ xs. length xs ≡ n) (each f n i)
unfolding each
each-length f zero i h = refl
each-length f (suc n) i h =
    Ensures-bind (λ a. Unit {0}) (λ xs. length xs ≡ suc n) (f i)
      (λ x. each f n (i + 1) >>= λ rest. some (x ∷ rest)) (h i)
      λ x _.
        Ensures-bind (λ xs. length xs ≡ n) (λ xs. length xs ≡ suc n) (each f n (i + 1))
          (λ rest. some (x ∷ rest)) (each-length f n (i + 1) h) λ rest e. ap suc e

module _ (bearings : List ℕ) (some_bearing : 0 < length bearings) where
  last_bearing-Runs : (count : ℕ) → count ≡ length bearings → Runs (last_bearing bearings count)
  last_bearing-Runs zero e = absurd (omega arith)
  last_bearing-Runs (suc count) e = Runs-get bearings count (omega arith)

  direct-Runs : (b : ℕ) → Runs (direct bearings b)
  direct-Runs b = elim (Bool-cases (ltb b (length bearings))) [
    | inl e ↦ rw e (Runs-get bearings b (ltb→lt b (length bearings) e))
    | inr e ↦
        rw (e, lt→ltb 0 (length bearings) some_bearing) (last_bearing-Runs (length bearings) refl)
  ]

  even_beam :
      (b : ℕ)
      → Runs (
          if ltb (b / 2) (length bearings)
          then get_elem? bearings (b / 2)
          else last_bearing bearings (length bearings))
  even_beam b = elim (Bool-cases (ltb (b / 2) (length bearings))) [
    | inl e ↦ rw e (Runs-get bearings (b / 2) (ltb→lt (b / 2) (length bearings) e))
    | inr e ↦ rw e (last_bearing-Runs (length bearings) refl)
  ]

  interpolated-Runs : (mean : ℕ → ℕ → ℕ) (b : ℕ) → Runs (interpolated mean bearings b)
  interpolated-Runs mean b = elim (Bool-cases (b % 2 == 0)) [
    | inl e ↦ rw e (even_beam b)
    | inr e ↦ elim (Bool-cases (ltb (b / 2 + 1) (length bearings))) [
      | inl k ↦
          let low =
            get_elem?-some bearings (b / 2)
              (omega (arith, ltb→lt (b / 2 + 1) (length bearings) k)) in
          let high = get_elem?-some bearings (b / 2 + 1) (ltb→lt (b / 2 + 1) (length bearings) k) in
          rw (e, k, low.1, high.1) tt
      | inr k ↦ rw (e, k) (last_bearing-Runs (length bearings) refl)
    ]
  ]

azimuth_angles_of-length :
    (mean : ℕ → ℕ → ℕ) (ping : Ping)
    → 0 < length ping.bearings
    → Ensures (λ xs. length xs ≡ ping.n_beams) (azimuth_angles_of mean ping)
unfolding azimuth_angles_of
azimuth_angles_of-length mean ping h =
    elim (Bool-cases (ping.n_beams == 512 && leb (length ping.bearings) 256)) [
      | inl e ↦ rw e (
          each-length (interpolated mean ping.bearings) ping.n_beams 0
            (interpolated-Runs ping.bearings h mean))
      | inr e ↦
          rw e (each-length (direct ping.bearings) ping.n_beams 0 (direct-Runs ping.bearings h))
    ]

pub copy_bytes-length :
    (bytes : List ℕ) (from n : ℕ)
    → from + n ≤ length bytes
    → Ensures (λ xs. length xs ≡ n) (copy_bytes bytes from n)
unfolding copy_bytes
copy_bytes-length bytes from n h =
    rw (le→leb (from + n) (length bytes) h)
      (omega (arith, length-take n (drop from bytes), length-drop from bytes))

-- The rows fit into the data: the last one ends inside.
copy_rows-length :
    (n : ℕ) (bytes : List ℕ) (from stride w : ℕ)
    → from + n * stride + w ≤ length bytes + stride
    → Ensures (λ xs. length xs ≡ n * w) (copy_rows bytes from stride w n)
unfolding copy_rows
copy_rows-length zero bytes from stride w h = omega arith
copy_rows-length (suc n) bytes from stride w h =
    Ensures-bind (λ xs. length xs ≡ w) (λ xs. length xs ≡ suc n * w) (copy_bytes bytes from w)
      (λ row. copy_rows bytes (from + stride) stride w n >>= λ rest. some (row ++ rest))
      (copy_bytes-length bytes from w (omega (arith, suc_times n stride)))
      λ row e.
        Ensures-bind (λ xs. length xs ≡ n * w) (λ xs. length xs ≡ suc n * w)
          (copy_rows bytes (from + stride) stride w n) (λ rest. some (row ++ rest))
          (copy_rows-length n bytes (from + stride) stride w (omega (arith, suc_times n stride)))
          λ rest d. omega (arith, e, d, length-append row rest, suc_times n w)

-- A ping with at least one bearing, whose rows all lie in its data, and whose sizes fit into 32 bits.
pub record Fits (ping : Ping) : Type 0 where
  pub some_bearing : 0 < length ping.bearings
  pub bytes : List ℕ
  pub is_data : ping.image.bytes ≡ some bytes
  pub start : ping.image.offset ≤ length bytes
  pub rows :
      ping.image.offset + ping.n_ranges * ping.image.stride + ping.n_beams * ping.data_size
      ≤ length bytes + ping.image.stride
  pub ranges_small : ping.n_ranges < 2 ^ 32
  pub beams_small : ping.n_beams < 2 ^ 32
  pub row_small : ping.n_beams * ping.data_size < 2 ^ 32

intensities_of-length :
    (ping : Ping)
    → Fits ping
    → Ensures
        (λ xs. length xs ≡ ping.n_ranges * (ping.n_beams * ping.data_size))
        (intensities_of ping)
unfolding intensities_of
intensities_of-length ping fits =
    let row_bytes = ping.n_beams * ping.data_size in
    rw fits.is_data elim (Bool-cases (ping.n_ranges * row_bytes == 0)) [
      | inl e ↦ let none_left : ping.n_ranges * row_bytes ≡ 0 = ground arith in rw e (sym none_left)
      | inr e ↦
          rw
            (
              e,
              copy_image-copy_rows fits.bytes ping.image.offset ping.image.stride row_bytes
                  ping.n_ranges fits.start,
            )
            (copy_rows-length ping.n_ranges fits.bytes ping.image.offset ping.image.stride row_bytes
              fits.rows)
    ]

-- The sizes of the lists of an image, what it takes over from the ping, and the beamwidths that stay 0
-- for a frequency that is not supported.
pub record Sized (ping : Ping) (m : SonarImage) : Type 0 where
  pub azimuths : length m.azimuth_angles ≡ ping.n_beams
  pub ranges : length m.ranges ≡ ping.n_ranges
  pub intensities : length m.intensities ≡ ping.n_ranges * (ping.n_beams * ping.data_size)
  pub element : m.data_size ≡ ping.data_size
  pub copied : intensities_of ping ≡ some m.intensities
  pub unset :
      is_supported ping.frequency ≡ false → (m.azimuth_beamwidth ≡ 0) × (m.elevation_beamwidth ≡ 0)

-- What holds of the result, with the equation that gives it.
Ensures-value :
    {A : Type 0} (P : A → Type 0) (m : Option A) → Ensures P m → Ensures (λ a. P a × (m ≡ some a)) m
Ensures-value P none h = h
Ensures-value P (some a) h = (h, refl)

beamwidth-unset :
    (high low frequency : ℕ) → is_supported frequency ≡ false → beamwidth high low frequency ≡ 0
unfolding beamwidth
beamwidth-unset high low frequency e = ground arith

pub ping_to_sonar_image-Sized :
    (floats : Floats) (ping : Ping)
    → Fits ping
    → Ensures (Sized ping) (ping_to_sonar_image floats ping)
unfolding ping_to_sonar_image
ping_to_sonar_image-Sized floats ping fits =
    Ensures-bind (λ xs. length xs ≡ ping.n_beams) (Sized ping) (azimuth_angles_of floats.mean ping)
      _ (azimuth_angles_of-length floats.mean ping fits.some_bearing)
      λ azimuths e.
        Ensures-bind (λ xs. length xs ≡ ping.n_ranges) (Sized ping)
          (each (λ i. some (floats.range_at i ping.range_resolution)) ping.n_ranges 0) _
          (each-length (λ i. some (floats.range_at i ping.range_resolution)) ping.n_ranges 0
            (λ j. tt))
          λ ranges d.
            Ensures-bind
              (λ xs.
                (length xs ≡ ping.n_ranges * (ping.n_beams * ping.data_size))
                × (intensities_of ping ≡ some xs))
              (Sized ping) (intensities_of ping) _
              (Ensures-value _ (intensities_of ping) (intensities_of-length ping fits))
              λ intensities c. record {
                azimuths = e;
                ranges = d;
                intensities = c.0;
                element = refl;
                copied = c.1;
                unset = λ e. (
                  beamwidth-unset floats.azimuth_2100 floats.azimuth_1200 ping.frequency e,
                  beamwidth-unset floats.elevation_2100 floats.elevation_1200 ping.frequency e,
                );
              }

-- What `publishPing` publishes and leaves.
pub record Published (header : Header) (ping : Ping) (r : List Message × Latency) : Type 0 where
  pub image : SonarImage
  pub messages : r.0 ≡ messages_of header ping image
  pub height : (sonar_to_image image).height ≡ ping.n_ranges
  pub width : (sonar_to_image image).width ≡ ping.n_beams
  pub size :
      length (sonar_to_image image).bytes
      ≡ (sonar_to_image image).height * (sonar_to_image image).step
  pub copied : intensities_of ping ≡ some image.intensities
  pub unset :
      is_supported ping.frequency ≡ false
      → (image.azimuth_beamwidth ≡ 0) × (image.elevation_beamwidth ≡ 0)
  pub valid : IsValid r.1

-- For a ping with at least one bearing, whose rows all lie in its data and whose sizes fit into 32 bits,
-- `publishPing` runs through: it publishes the sonar message, the image and the metadata in this
-- order, and the image has a row for each range, a column for each beam, and exactly `height * step`
-- bytes, those of the ping. So it does at every frequency, also at one that is not supported, for which the
-- code logs that it publishes no sonar message; the beamwidths are 0 then. The
-- statistics of the latencies stay valid.
pub publish_ping-Published :
    (floats : Floats) (less : ℕ → ℕ → Bool) (header : Header) (latency_ms : ℕ) (ping : Ping)
    (s : Latency)
    → Fits ping
    → IsValid s
    → Ensures (Published header ping) (publish_ping floats less header latency_ms ping s)
unfolding publish_ping sonar_to_image
publish_ping-Published floats less header latency_ms ping s fits v =
    Ensures-bind (Sized ping) (Published header ping) (ping_to_sonar_image floats ping) _
      (ping_to_sonar_image-Sized floats ping fits)
      λ m z.
        Ensures-bind (Recorded latency_ms s) (Published header ping)
          (record_latency_and_log less latency_ms s) _
          (record_latency_and_log-Recorded less latency_ms s v)
          λ logged kept.
            let height : length m.ranges % 2 ^ 32 ≡ ping.n_ranges =
              ap (λ n. n % 2 ^ 32) z.ranges ∙ mod-eq_of_lt fits.ranges_small in
            let width : length m.azimuth_angles % 2 ^ 32 ≡ ping.n_beams =
              ap (λ n. n % 2 ^ 32) z.azimuths ∙ mod-eq_of_lt fits.beams_small in
            record {
              image = m;
              messages = refl;
              height = height;
              width = width;
              size =
                  z.intensities
                  ∙ sym (
                      rw (height, width, z.element)
                        (ap (λ n. ping.n_ranges * n) (mod-eq_of_lt fits.row_small)));
              copied = z.copied;
              unset = z.unset;
              valid = kept.valid;
            }
