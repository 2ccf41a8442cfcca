-- ===== src/Ping360/Scan.antt =====
-- The laser scan of the Ping360: `publishScan` of ping360_ros2/ping360_sonar/src/ping360_node.cpp. A
-- floating-point number is its bit pattern and the operations on such numbers are a parameter. `none` is an access
-- outside an object.
pub mod Nearest
mod Tests
use sensor_packages.Base.{
  ℕ, zero, suc, ◌+◌, ◌≤◌, Bool, true, false, not, ◌&&◌, List, [], ◌∷◌, ◌++◌, Option, none, some,
  length, take, replicate, set, ltb, leb, if◌then◌else◌,
}
use sensor_packages.Base.Fault.{◌>>=◌}
use sensor_packages.Base.Int.{ℤ, pos, ltb_ℤ}
use sensor_packages.Ping360.Angles.{Head, full_scan, angle_count, angle_index}

-- The floating-point operations: `rangeFrom`, `a < b`, a sample over 255, radians, the negative, the difference.
pub record Floats : Type 0 where
  pub range_from : ℕ → ℕ
  pub less : ℕ → ℕ → Bool
  pub scaled : ℕ → ℕ
  pub radians : ℤ → ℕ
  pub negative : ℕ → ℕ
  pub minus : ℕ → ℕ → ℕ

-- The members of `scan` that `publishScan` uses.
pub record Scan : Type 0 where
  pub angle_min : ℕ
  pub angle_max : ℕ
  pub angle_increment : ℕ
  pub range_min : ℕ
  pub range_max : ℕ
  pub ranges : List ℕ
  pub intensities : List ℕ

-- `resize`
abbrev pub resize : ℕ → List ℕ → List ℕ
resize n xs = take n (xs ++ replicate n 0)

-- Whether the sample at `index` is a valid point.
abbrev pub is_valid : Floats → ℕ → Scan → ℕ → ℕ → Bool
is_valid f scan_threshold scan index sample =
    leb scan_threshold sample
    && (not (f.less (f.range_from index) scan.range_min)
        && f.less (f.range_from index) scan.range_max)

-- The loop, from `index` on: the range and the intensity of the first valid point.
unfoldable pub first_point : Floats → ℕ → Scan → ℕ → List ℕ → Option (ℕ × ℕ)
first_point f scan_threshold scan index [] = none
first_point f scan_threshold scan index (sample ∷ data_left) =
    let rest = first_point f scan_threshold scan (index + 1) data_left in
    if is_valid f scan_threshold scan index sample
    then some (f.range_from index, f.scaled sample)
    else rest

-- What the loop leaves in the two elements of this direction, which start as 0.
abbrev pub point_or_zero : Option (ℕ × ℕ) → ℕ × ℕ
point_or_zero none = (0, 0)
point_or_zero (some p) = p

unfoldable pub reading : Floats → ℕ → Scan → List ℕ → ℕ × ℕ
unfolding first_point
reading f scan_threshold scan samples = point_or_zero (first_point f scan_threshold scan 0 samples)

-- The limits and the increment at the end of a turn.
unfoldable pub turn_limits : Floats → Head → Scan → Scan
turn_limits f head scan =
    if full_scan head
    then scan
    else let backwards = ltb_ℤ head.angle_step (pos 0) in
      let increment = f.negative (f.radians head.angle_step) in
      let top = if backwards then f.radians head.angle_max else f.radians head.angle_min in
      let bottom = if backwards then f.radians head.angle_min else f.radians head.angle_max in
      record scan {
        angle_min = bottom;
        angle_max = f.minus top increment;
        angle_increment = increment;
      }

-- The scan with the reading of this direction.
unfoldable pub write_reading : Head → ℕ × ℕ → Scan → Option Scan
write_reading head p scan =
    if ltb (angle_index head) (angle_count head)
    then some (record scan {
      ranges = set (resize (angle_count head) scan.ranges) (angle_index head) p.0;
      intensities = set (resize (angle_count head) scan.intensities) (angle_index head) p.1;
    })
    else none

-- `publishScan`: the published scans, and the new one.
unfoldable pub publish_scan : Floats → ℕ → Head → List ℕ → Bool → Scan → Option (List Scan × Scan)
unfolding write_reading reading turn_limits
publish_scan f scan_threshold head samples end_turn scan =
    (write_reading head (reading f scan_threshold scan samples) scan >>= λ written. some (
      if end_turn
      then (turn_limits f head written ∷ [], turn_limits f head written)
      else ([], written)))
