-- ===== src/Ping360/Angles/Tests.antt =====
-- The theorems about the head of the Ping360 at concrete inputs.
use sensor_packages.Base.{ℕ, ◌≡◌, refl, true, some, arith}
use sensor_packages.Base.Fault.{Ensures}
use sensor_packages.Base.Int.{pos, negsuc, ◌+ℤ◌, ◌-ℤ◌}
use sensor_packages.Ping360.Angles.{
  Head, update_angle, minus_200, configure_angles, divides_by_zero, configured, search_divisor,
}
use sensor_packages.Ping360.Angles.Divisor.{Nearest, search_divisor-Nearest}
use sensor_packages.Ping360.Angles.Aligned.{Spans, configure_angles-Spans}
use sensor_packages.Ping360.Angles.Turn.{Inside, update_angle-Inside}

-- A sector of 40 gradians each side in steps of 4, on the way back.
abbrev sector : Head
sector = record {
  angle_min = negsuc 39;
  angle_max = pos 40;
  angle_step = negsuc 3;
  angle = negsuc 31;
}

abbrev sector-Inside : Inside sector
unfolding ◌+ℤ◌
sector-Inside = record {
  sector = refl;
  above = omega arith;
  below = omega arith;
  next_above = omega arith;
  next_below = omega arith;
  moves = λ e. omega arith;
}

update_angle-Inside_example : Inside (update_angle sector).1
update_angle-Inside_example = update_angle-Inside sector-Inside

-- The default configuration: 360 degrees in steps of 1 degree.
abbrev full : Head
full = record { angle_min = minus_200; angle_max = pos 199; angle_step = pos 1; angle = pos 198 }

next : full.angle +ℤ full.angle_step ≡ full.angle_max
unfolding ◌+ℤ◌
next = refl

-- The search finds a step of 1 gradian for it.
full_configured : configure_angles full 360 1 true ≡ some (record full { angle = pos 198 }, 360, 1)
unfolding configure_angles divides_by_zero configured ◌-ℤ◌
full_configured = refl

search_divisor-Nearest_example : Nearest 3 100 (search_divisor 3 100)
search_divisor-Nearest_example =
    search_divisor-Nearest 3 100 (omega arith) (omega arith) (omega arith)

-- A sector of 120 degrees in steps of 3 degrees.
configure_angles-Spans_example :
    Ensures (λ r. (n : ℕ) × Spans r.0 n) (configure_angles sector 120 3 true)
configure_angles-Spans_example =
    configure_angles-Spans sector 120 3 (omega arith) (omega arith) (omega arith)
