-- ===== src/Ping360/Scan/Tests.antt =====
-- The theorem on the scan at a concrete input.
use sensor_packages.Base.{◌+◌, ◌*◌, ◌≡◌, refl, true, [], ◌∷◌, ltb, arith}
use sensor_packages.Base.Fault.{Ensures}
use sensor_packages.Base.Int.{pos, negsuc, ◌+ℤ◌, ◌-ℤ◌, pos_part}
use sensor_packages.Ping360.Angles.{Head, abs}
use sensor_packages.Ping360.Angles.Turn.{Inside}
use sensor_packages.Ping360.Scan.{Floats, Scan, publish_scan}
use sensor_packages.Ping360.Scan.Nearest.{Scanned, publish_scan-Scanned}

-- A sector of 40 gradians each side in steps of 4, on the way back.
abbrev head : Head
head = record {
  angle_min = negsuc 39;
  angle_max = pos 40;
  angle_step = negsuc 3;
  angle = negsuc 31;
}

head-Inside : Inside head
unfolding ◌+ℤ◌
head-Inside = record {
  sector = refl;
  above = omega arith;
  below = omega arith;
  next_above = omega arith;
  next_below = omega arith;
  moves = λ e. omega arith;
}

eighty : abs (head.angle_max -ℤ head.angle_min) ≡ abs head.angle_step * 20
unfolding ◌-ℤ◌
eighty = refl

abbrev floats : Floats
floats = record {
  range_from = λ i. i + 1;
  less = ltb;
  scaled = λ sample. sample;
  radians = pos_part;
  negative = λ a. a;
  minus = λ a b. a;
}

abbrev scan : Scan
scan = record {
  angle_min = 0;
  angle_max = 0;
  angle_increment = 0;
  range_min = 2;
  range_max = 5;
  ranges = [];
  intensities = [];
}

publish_scan-Scanned_example :
    Ensures
      (Scanned floats 200 head (250 ∷ 10 ∷ 220 ∷ 230 ∷ []) true scan)
      (publish_scan floats 200 head (250 ∷ 10 ∷ 220 ∷ 230 ∷ []) true scan)
publish_scan-Scanned_example =
    publish_scan-Scanned floats 200 head (250 ∷ 10 ∷ 220 ∷ 230 ∷ []) true scan 20 head-Inside eighty
