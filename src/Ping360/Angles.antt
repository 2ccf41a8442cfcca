-- ===== src/Ping360/Angles.antt =====
-- The head of the Ping360 in ping360_ros2/ping360_sonar/src/sonar_interface.cpp and
-- include/ping360_sonar/sonar_interface.h: `configureAngles`, `updateAngle`, `angleCount` and
-- `angleIndex`. Angles are in gradians. The conversions from degrees are rounded in floating point;
-- no argument of them lies half way between two integers before the last one, so the quotients of
-- integers below are their values, and `round` goes up from half way.
pub mod Divisor
pub mod Aligned
pub mod Turn
mod Tests
use sensor_packages.Base.{
  ℕ, zero, suc, ◌+◌, ◌-◌, ◌*◌, ◌/◌, ◌%◌, ◌^◌, Bool, true, false, not, ◌||◌, ◌&&◌, min, ltb, leb,
  ◌==◌, if◌then◌else◌, Option, none, some,
}
use sensor_packages.Base.Int.{ℤ, pos, negsuc, ◌+ℤ◌, ◌-ℤ◌, ltb_ℤ, pos_part, neg_part}

-- The members of `Ping360Interface` that hold angles.
pub record Head : Type 0 where
  pub angle_min : ℤ
  pub angle_max : ℤ
  pub angle_step : ℤ
  pub angle : ℤ

abbrev pub leb_ℤ : ℤ → ℤ → Bool
leb_ℤ a b = not (ltb_ℤ b a)

abbrev pub eqb_ℤ : ℤ → ℤ → Bool
eqb_ℤ a b = leb_ℤ a b && leb_ℤ b a

abbrev pub minus_200 : ℤ
minus_200 = negsuc 199

-- `fullScan`
abbrev pub full_scan : Head → Bool
full_scan h = eqb_ℤ h.angle_min minus_200

abbrev pub dist : ℕ → ℕ → ℕ
dist a b = (a - b) + (b - a)

-- The lambda `computeCost`, for a positive step.
unfoldable pub compute_cost : ℕ → ℕ → ℕ → ℕ → ℕ
compute_cost target_step target_half step half =
    if not (half % step == 0) then 1000 else dist step target_step + dist half target_half

-- The variables of the search: `angle_step`, `best_cost`, `best_half_aperture`.
pub record Best : Type 0 where
  pub step : ℕ
  pub cost : ℕ
  pub half : ℕ

-- The body of the inner loop.
abbrev pub try_pair : ℕ → ℕ → ℕ → ℕ → Best → Best
try_pair target_step target_half step half best =
    let cost = compute_cost target_step target_half step half in
    if ltb cost best.cost then record { step = step; cost = cost; half = half } else best

-- The inner loop with its rounds left, from `half` on.
unfoldable pub try_halves : ℕ → ℕ → ℕ → ℕ → ℕ → Best → Best
try_halves target_step target_half step zero half best = best
try_halves target_step target_half step (suc n) half best =
    try_halves target_step target_half step n (half + 1)
      (try_pair target_step target_half step half best)

-- The number of values from `target_half` to `min(target_half + 10, 200)`.
abbrev pub half_count : ℕ → ℕ
half_count target_half = min (target_half + 10) 200 + 1 - target_half

-- The outer loop with its rounds left, from `step` on.
unfoldable pub try_steps : ℕ → ℕ → ℕ → ℕ → Best → Best
unfolding try_halves
try_steps target_step target_half zero step best = best
try_steps target_step target_half (suc n) step best =
    try_steps target_step target_half n (step + 1)
      (try_halves target_step target_half step (half_count target_half) target_half best)

abbrev pub target_half_of : ℕ → ℕ
target_half_of aperture_deg = (aperture_deg * 10 + 9) / 18

abbrev pub target_step_of : ℕ → ℕ
target_step_of step_deg = (step_deg * 20 + 9) / 18

abbrev pub first_try : ℕ → ℕ → Best
first_try target_step target_half = record {
  step = target_step;
  cost = compute_cost target_step target_half target_step target_half;
  half = target_half;
}

-- The search of `configureAngles`, for a positive target step.
unfoldable pub search_divisor : ℕ → ℕ → Best
unfolding try_steps compute_cost
search_divisor target_step target_half =
    if (first_try target_step target_half).cost == 0
    then first_try target_step target_half
    else try_steps target_step target_half (target_step * 2 - 1) 1
        (first_try target_step target_half)

abbrev pub chosen : ℕ → ℕ → Bool → Best
chosen target_step target_half ensure_divisor =
    if ensure_divisor
    then search_divisor target_step target_half
    else record { step = target_step; cost = 0; half = target_half }

abbrev pub negate : ℕ → ℤ
negate zero = pos 0
negate (suc n) = negsuc n

abbrev pub outside : ℤ → ℤ → ℤ → ℕ → Bool
outside angle angle_min angle_max step =
    ltb_ℤ angle angle_min
    || ltb_ℤ angle_max angle
    || not (pos_part (angle -ℤ angle_min) % step == 0)

-- The end of `configureAngles`: the new limits, and the old angle if it fits them.
unfoldable pub apply_best : Head → Best → Head
apply_best h best =
    let angle_min = negate best.half in
    let angle_max =
      if eqb_ℤ angle_min minus_200 then pos best.half -ℤ pos best.step else pos best.half in
    record {
      angle_min = angle_min;
      angle_max = angle_max;
      angle_step = pos best.step;
      angle = if outside h.angle angle_min angle_max best.step then pos 0 else h.angle;
    }

-- The head, and the sector and the step in degrees that `configureAngles` reports.
unfoldable pub configured : Head → Best → Head × ℕ × ℕ
unfolding apply_best
configured h best = (apply_best h best, (best.half * 18 + 5) / 10, (best.step * 9 + 5) / 10)

-- Whether `configureAngles` divides by a step of 0: in the search, and at the end where the old angle
-- lies within the new limits.
unfoldable pub divides_by_zero : Head → ℕ → Best → Bool → Bool
unfolding apply_best
divides_by_zero h target_step best ensure_divisor =
    target_step == 0
    && (ensure_divisor
        || (leb_ℤ (apply_best h best).angle_min h.angle
            && leb_ℤ h.angle (apply_best h best).angle_max))

-- `configureAngles`, of arguments that are not negative; `none` is a division by 0.
unfoldable pub configure_angles : Head → ℕ → ℕ → Bool → Option (Head × ℕ × ℕ)
unfolding search_divisor divides_by_zero configured
configure_angles h aperture_deg step_deg ensure_divisor =
    let best = chosen (target_step_of step_deg) (target_half_of aperture_deg) ensure_divisor in
    if divides_by_zero h (target_step_of step_deg) best ensure_divisor
    then none
    else some (configured h best)

-- `updateAngle`: whether the turn ends, and the head.
unfoldable pub update_angle : Head → Bool × Head
update_angle h =
    let angle = h.angle +ℤ h.angle_step in
    let next = angle +ℤ h.angle_step in
    if full_scan h
    then (
      ltb_ℤ h.angle_max next,
      record h { angle = if ltb_ℤ h.angle_max angle then h.angle_min else angle },
    )
    else if leb_ℤ h.angle_max next || leb_ℤ next h.angle_min
    then (true, record h { angle = angle; angle_step = pos 0 -ℤ h.angle_step })
    else (false, record h { angle = angle })

abbrev pub abs : ℤ → ℕ
abs a = pos_part a + neg_part a

-- `/` on `int`, which rounds towards 0, converted to `size_t`: a negative quotient wraps around. The
-- divisor is not 0.
abbrev pub index_quotient : ℤ → ℤ → ℕ
index_quotient a b =
    let quotient = abs a / abs b in
    let negated = (2 ^ 64 - quotient) % 2 ^ 64 in
    if ltb_ℤ a (pos 0)
    then (if ltb_ℤ b (pos 0) then quotient else negated)
    else if ltb_ℤ b (pos 0)
    then negated
    else quotient

-- `angleCount`
unfoldable pub angle_count : Head → ℕ
angle_count h = abs (h.angle_max -ℤ h.angle_min) / abs h.angle_step

-- `angleIndex`, also for an angle outside the limits. With a step of 0, where the source divides by 0,
-- there is no index below `angle_count`, which is 0 then.
unfoldable pub angle_index : Head → ℕ
angle_index h =
    if ltb_ℤ (pos 0) h.angle_step
    then index_quotient (h.angle -ℤ h.angle_min) h.angle_step
    else index_quotient (h.angle -ℤ h.angle_max) h.angle_step
