-- ===== src/Ping360/Sector.antt =====
-- The image sector of the Ping360: ping360_ros2/ping360_sonar/src/sector.cpp and
-- include/ping360_sonar/sector.h. Floating-point numbers are bit patterns and the operations on them a
-- parameter. The iterator `cur` is the part of `bounds` that it stands before: `[]` is `bounds.end()`, its
-- head what it points to. `none` is an access through an iterator at the end.
mod Steps
pub mod Order
use sensor_packages.Base.{
  ℕ, zero, suc, ◌+◌, ◌*◌, Bool, true, false, not, ◌&&◌, List, [], ◌∷◌, ◌++◌, Option, none, some,
  map, if◌then◌else◌,
}
use sensor_packages.Base.Int.{ℤ, pos, negsuc, ◌+ℤ◌, ◌-ℤ◌, ◌*ℤ◌, ltb_ℤ, pos_part}
unfoldable pub use Steps.*

-- The floating-point operations: `angle -+ angle_step / 2`, the cosine and the tangent; the tests `< 0`, `a < b`,
-- `|a| > |b|`, `a * b >= 0` and `a * b > 0`, and whether an angle is nearer to a quarter turn forward; an integer,
-- the square root of an integer, the product by an integer, and the conversion to `int`.
pub record Floats : Type 0 where
  pub lower : ℕ → ℕ → ℕ
  pub upper : ℕ → ℕ → ℕ
  pub cos : ℕ → ℕ
  pub tan : ℕ → ℕ
  pub is_negative : ℕ → Bool
  pub less : ℕ → ℕ → Bool
  pub steeper : ℕ → ℕ → Bool
  pub same_side : ℕ → ℕ → Bool
  pub same_sign : ℕ → ℕ → Bool
  pub forward : ℕ → Bool
  pub of_int : ℤ → ℕ
  pub root : ℤ → ℕ
  pub times : ℤ → ℕ → ℕ
  pub truncate : ℕ → ℤ

-- `Bound::clamp`
unfoldable pub clamp : Floats → ℕ → ℕ → ℤ
clamp f radius value =
    let low = f.of_int (pos 0 -ℤ pos radius) in
    let high = f.of_int (pos radius) in
    f.truncate (if f.less value low then low else if f.less high value then high else value)

-- The swap at the end of the constructors.
unfoldable pub ordered : ℤ → ℤ → ℤ → Bound
ordered x low up =
    if ltb_ℤ up low
    then record { x = x; low = up; up = low }
    else record { x = x; low = low; up = up }

-- `radius_sq`
abbrev pub radius_sq : ℕ → ℤ
radius_sq radius = pos (radius * radius) -ℤ pos 1

-- The `up` of the constructor with two tangents, before the swap.
unfoldable pub up_end : Floats → ℕ → ℤ → ℕ → ℤ
unfolding clamp
up_end f radius x tan_max =
    let up = clamp f radius (f.times x tan_max) in
    let sign = if ltb_ℤ (pos 0) up then pos 1 else negsuc 0 in
    if ltb_ℤ (radius_sq radius) (up *ℤ up +ℤ x *ℤ x)
    then clamp f radius (f.times sign (f.root (radius_sq radius -ℤ x *ℤ x)))
    else up

-- The constructor with two tangents.
unfoldable pub between : Floats → ℕ → ℤ → ℕ → ℕ → Bound
unfolding clamp up_end ordered
between f radius x tan_min tan_max =
    ordered x (clamp f radius (f.times x tan_min)) (up_end f radius x tan_max)

-- The constructor with a direction.
unfoldable pub from_tangent : Floats → ℕ → ℤ → ℕ → ℤ → Bound
unfolding clamp ordered
from_tangent f radius x tan_min direction =
    ordered x (clamp f radius (f.times x tan_min))
      (clamp f radius (f.times direction (f.root (radius_sq radius -ℤ x *ℤ x))))

-- The limits of `xLimits` after the swap.
unfoldable pub limits_of : Floats → ℕ → ℕ → ℕ → ℕ → ℤ × ℤ × Bool
unfolding clamp
limits_of f radius cos_min cos_max zero_value =
    let narrowed : ℕ × ℕ =
      if f.same_sign cos_min cos_max
      then (if f.is_negative cos_max then (cos_min, zero_value) else (zero_value, cos_max))
      else (cos_min, cos_max) in
    (
      clamp f radius (f.times (pos radius) narrowed.0),
      clamp f radius (f.times (pos radius) narrowed.1),
      f.same_side cos_min cos_max,
    )

-- `xLimits`
unfoldable pub x_limits : Floats → ℕ → ℕ → ℕ → ℤ × ℤ × Bool
unfolding limits_of
x_limits f radius angle_min angle_max =
    let cos_min = f.cos angle_min in
    let cos_max = f.cos angle_max in
    if f.less cos_max cos_min
    then limits_of f radius cos_max cos_min (f.of_int (pos 0))
    else limits_of f radius cos_min cos_max (f.of_int (pos 0))

-- The integers from `x` on, `n` of them.
abbrev pub from_int : ℕ → ℤ → List ℤ
from_int zero x = []
from_int (suc n) x = x ∷ from_int n (x +ℤ pos 1)

-- The integers from `low` to `high`.
abbrev pub range : ℤ → ℤ → List ℤ
range low high = from_int (pos_part (high +ℤ pos 1 -ℤ low)) low

-- The bounds of a sector on one side.
unfoldable pub side_bounds : Floats → ℕ → ℤ → ℤ → ℕ → ℕ → List Bound
unfolding between
side_bounds f radius xmin xmax tan_min tan_max =
    if f.steeper tan_min tan_max
    then map (λ x. between f radius x tan_max tan_min) (range xmin xmax)
    else map (λ x. between f radius x tan_min tan_max) (range xmin xmax)

-- Those of a sector on both sides: the first tangent for the negative `x`, the second for the others.
unfoldable pub split_bounds : Floats → ℕ → ℤ → ℤ → ℤ → ℕ → ℕ → List Bound
unfolding from_tangent
split_bounds f radius direction xmin xmax tan_back tan_front =
    map (λ x. from_tangent f radius x tan_back direction) (range xmin (negsuc 0))
    ++ map (λ x. from_tangent f radius x tan_front direction) (range (pos 0) xmax)

-- The `bounds` that `init` leaves.
unfoldable pub bounds_of : Floats → ℕ → ℕ → ℕ → List Bound
unfolding x_limits side_bounds split_bounds
bounds_of f radius angle angle_step =
    let angle_min = f.lower angle angle_step in
    let angle_max = f.upper angle angle_step in
    let limits : ℤ × ℤ × Bool = x_limits f radius angle_min angle_max in
    let tan_min = f.tan angle_min in
    let tan_max = f.tan angle_max in
    if limits.2
    then side_bounds f radius limits.0 limits.1 tan_min tan_max
    else if f.forward angle
    then split_bounds f radius (pos 1) limits.0 limits.1 tan_max tan_min
    else split_bounds f radius (negsuc 0) limits.0 limits.1 tan_min tan_max

-- `init`
unfoldable pub init : Floats → ℕ → ℕ → ℕ → Sector
unfolding bounds_of
init f radius angle angle_step = record { bounds = bounds_of f radius angle angle_step; cur = [] }
