-- ===== src/Ping360/Sector/Steps.antt =====
-- `Sector`, its columns, and `nextPoint` of ping360_ros2/ping360_sonar/src/sector.cpp.
use sensor_packages.Base.{Bool, true, false, List, [], ◌∷◌, Option, none, some, if◌then◌else◌}
use sensor_packages.Base.Int.{ℤ, pos, ◌+ℤ◌, ltb_ℤ}

-- `Bound`: the points of one `x`, from `low` to `up`.
pub record Bound : Type 0 where
  pub x : ℤ
  pub low : ℤ
  pub up : ℤ

pub record Sector : Type 0 where
  pub bounds : List Bound
  pub cur : List Bound

-- What `nextPoint` leaves, but for the index, which depends on `x` and `y` only.
pub record Step : Type 0 where
  pub more : Bool
  pub sector : Sector
  pub x : ℤ
  pub y : ℤ

-- The first point of the column that `cur` stands before.
unfoldable pub first_point : List Bound → List Bound → Option Step
first_point bounds [] = none
first_point bounds (b ∷ later) = some (record {
  more = true;
  sector = record { bounds = bounds; cur = b ∷ later };
  x = b.x;
  y = b.low;
})

-- `cur++` at the end of a column.
unfoldable pub next_column : List Bound → List Bound → ℤ → ℤ → Option Step
unfolding first_point
next_column bounds [] x y =
    some (record { more = false; sector = record { bounds = bounds; cur = [] }; x = x; y = y })
next_column bounds (c ∷ later) x y = first_point bounds (c ∷ later)

-- `nextPoint`
unfoldable pub next_point : List Bound → List Bound → ℤ → ℤ → Option Step
unfolding first_point next_column
next_point bounds [] x y = first_point bounds bounds
next_point bounds (b ∷ later) x y =
    if ltb_ℤ y b.up
    then some (record {
      more = true;
      sector = record { bounds = bounds; cur = b ∷ later };
      x = x;
      y = y +ℤ pos 1;
    })
    else next_column bounds later x y
