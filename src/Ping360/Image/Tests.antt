-- ===== src/Ping360/Image/Tests.antt =====
-- The theorems on the image at a concrete input: three columns of an image of 6 by 6 pixels.
use mathlib.Core.Path.{subst}
use sensor_packages.Base.{
  ℕ, ◌+◌, ◌<◌, ◌≡◌, ◌≢◌, refl, sym, true, List, [], ◌∷◌, some, length, replicate, Each, arith, ltb,
  ltb→lt,
}
use sensor_packages.Base.Int.{ℤ, pos, ◌+ℤ◌, ◌-ℤ◌, ◌*ℤ◌, pos_part, sub_ℕ}
use sensor_packages.Ping360.Sector.{
  Floats, Bound, bounds_of, x_limits, limits_of, side_bounds, between, clamp, up_end, ordered,
}
use sensor_packages.Ping360.Image.{refresh_image}
use sensor_packages.Ping360.Image.Loop.{points, paint_points, refresh_image-paint_points}
use sensor_packages.Ping360.Image.Pixels.{Inside, Painted, refresh_image-Painted}

-- Numbers from -100 on, as `n + 100`.
abbrev encode : ℤ → ℕ
encode z = pos_part (z +ℤ pos 100)

abbrev decode : ℕ → ℤ
decode n = sub_ℕ n 100

abbrev pub floats : Floats
floats = record {
  lower = λ angle step. 0;
  upper = λ angle step. 1;
  cos = λ angle. encode (pos 1);
  tan = λ angle. encode (pos angle);
  is_negative = λ a. ltb a 100;
  less = ltb;
  steeper = λ a b. ltb b a;
  same_side = λ a b. true;
  same_sign = λ a b. true;
  forward = λ angle. true;
  of_int = encode;
  root = λ n. encode (pos 0);
  times = λ n a. encode (n *ℤ decode a);
  truncate = decode;
}

abbrev columns : List Bound
columns =
    record { x = pos 0; low = pos 0; up = pos 0 }
    ∷ record { x = pos 1; low = pos 0; up = pos 1 }
    ∷ record { x = pos 2; low = pos 0; up = pos 0 }
    ∷ []

bounds_of-columns : (angle step : ℕ) → bounds_of floats 2 angle step ≡ columns
unfolding bounds_of x_limits limits_of side_bounds between clamp up_end ordered ◌+ℤ◌ ◌-ℤ◌ ◌*ℤ◌
bounds_of-columns angle step = refl

inside :
    {p : ℤ × ℤ} (row column : ℕ)
    → pos 3 -ℤ p.0 ≡ pos row
    → pos 3 -ℤ p.1 ≡ pos column
    → ltb row 6 ≡ true
    → ltb column 6 ≡ true
    → Inside 6 p
inside row column e f h k = record {
  row = row;
  column = column;
  below = e;
  beside = f;
  row_lt = ltb→lt row 6 h;
  column_lt = ltb→lt column 6 k;
}

columns-Inside : Each (Inside 6) (points columns)
unfolding ◌-ℤ◌ ◌+ℤ◌
columns-Inside = (
  inside 3 3 refl refl refl refl,
  (
    inside 2 3 refl refl refl refl,
    (inside 2 2 refl refl refl refl, (inside 1 3 refl refl refl refl, tt)),
  ),
)

-- What holds of the columns holds of the bounds that `init` makes.
pub some_columns : (angle step : ℕ) → bounds_of floats 2 angle step ≢ []
some_columns angle step = subst (λ bs. bs ≢ []) (sym (bounds_of-columns angle step)) (λ e. cc)

pub few_points : (angle step : ℕ) → length (points (bounds_of floats 2 angle step)) < 5
unfolding ◌-ℤ◌
few_points angle step =
    subst (λ bs. length (points bs) < 5) (sym (bounds_of-columns angle step)) (omega arith)

pub points-Inside : (angle step : ℕ) → Each (Inside 6) (points (bounds_of floats 2 angle step))
points-Inside angle step =
    subst (λ bs. Each (Inside 6) (points bs)) (sym (bounds_of-columns angle step)) columns-Inside

abbrev image : List ℕ
image = replicate 36 0

abbrev sample_of : ℤ → ℤ → ℕ
sample_of x y = pos_part x + pos_part y

abbrev intensities : List ℕ
intensities = 9 ∷ 8 ∷ []

some_intensities : intensities ≢ []
some_intensities e = cc

refresh_image-paint_points_example :
    refresh_image sample_of intensities 6 5 (bounds_of floats 2 0 0) image
    ≡ paint_points sample_of intensities 6 (points (bounds_of floats 2 0 0)) image
refresh_image-paint_points_example =
    refresh_image-paint_points floats sample_of intensities 6 5 2 0 0 image some_intensities
      (some_columns 0 0) (few_points 0 0)

refresh_image-Painted_example :
    (w : Painted sample_of intensities 6 (points (bounds_of floats 2 0 0)) image) × (refresh_image
        sample_of intensities 6 5
        (bounds_of floats 2 0 0)
        image
      ≡ some w.after)
refresh_image-Painted_example =
    refresh_image-Painted floats sample_of intensities 6 5 2 0 0 image some_intensities
      (some_columns 0 0) (few_points 0 0) (points-Inside 0 0) (omega arith) refl
