-- ===== src/Ping360/Image/Loop.antt =====
-- The loop of `refreshImage` over the points that `nextPoint` gives.
use mathlib.Core.Path.{fun_ext}
use sensor_packages.Base.{
  ℕ, zero, suc, ◌+◌, ◌<◌, ◌≡◌, refl, ap, true, false, List, [], ◌∷◌, ◌++◌, Option, some, length,
  ◌≢◌, Each, arith,
}
use sensor_packages.Base.Fault.{◌>>=◌}
use sensor_packages.Base.Int.{ℤ, pos, ◌+ℤ◌, ◌-ℤ◌, ltb_ℤ, pos_part, neg_part, +ℤ_parts}
use sensor_packages.Ping360.Sector.Order.{Ordered, bounds_of-Ordered}
use sensor_packages.Ping360.Sector.{Bound, Floats, bounds_of, next_point, first_point, next_column}
use sensor_packages.Ping360.Image.{paint_point, paint, refresh_image}

-- The `n` points above (x, y).
abbrev pub above : ℤ → ℤ → ℕ → List (ℤ × ℤ)
above x y zero = []
above x y (suc n) = (x, y +ℤ pos 1) ∷ above x (y +ℤ pos 1) n

-- The number of points above the lowest one of a column.
abbrev pub span : Bound → ℕ
span b = pos_part (b.up -ℤ b.low)

-- The points of the columns, from the lowest to the highest in each.
abbrev pub points : List Bound → List (ℤ × ℤ)
points [] = []
points (b ∷ bs) = (b.x, b.low) ∷ (above b.x b.low (span b) ++ points bs)

-- `up` is `n` above `y`.
abbrev Gap : ℤ → ℤ → ℕ → Type 0
Gap y up n = pos_part up + neg_part y ≡ pos_part y + neg_part up + n

below-up : (y up : ℤ) (n : ℕ) → Gap y up (suc n) → ltb_ℤ y up ≡ true
below-up y up n e = ground arith

at-up : (y up : ℤ) → Gap y up 0 → ltb_ℤ y up ≡ false
at-up y up e = ground arith

span-Gap : (b : Bound) → Ordered b → Gap b.low b.up (span b)
unfolding ◌-ℤ◌
span-Gap b h = ground arith

Gap-suc : (y up : ℤ) (n : ℕ) → Gap y up (suc n) → Gap (y +ℤ pos 1) up n
Gap-suc y up n e = omega (arith, +ℤ_parts y (pos 1))

module _ (sample_of : ℤ → ℤ → ℕ) (intensities : List ℕ) (step : ℕ) where
  -- The painting of a list of points.
  unfoldable pub paint_points : List (ℤ × ℤ) → List ℕ → Option (List ℕ)
  paint_points [] image = some image
  paint_points ((x, y) ∷ ps) image =
      paint_point sample_of intensities step x y image >>= paint_points ps

  next_above :
      (bounds later : List Bound) (b : Bound) (y : ℤ)
      → ltb_ℤ y b.up ≡ true
      → next_point bounds (b ∷ later) b.x y
        ≡ some (record {
          more = true;
          sector = record { bounds = bounds; cur = b ∷ later };
          x = b.x;
          y = y +ℤ pos 1;
        })
  unfolding next_point
  next_above bounds later b y h = rw h refl

  next_ended :
      (bounds : List Bound) (b : Bound) (y : ℤ)
      → ltb_ℤ y b.up ≡ false
      → next_point bounds (b ∷ []) b.x y
        ≡ some
            (record { more = false; sector = record { bounds = bounds; cur = [] }; x = b.x; y = y })
  unfolding next_point next_column
  next_ended bounds b y h = rw h refl

  next_columns :
      (bounds later : List Bound) (b c : Bound) (y : ℤ)
      → ltb_ℤ y b.up ≡ false
      → next_point bounds (b ∷ c ∷ later) b.x y
        ≡ some (record {
          more = true;
          sector = record { bounds = bounds; cur = c ∷ later };
          x = c.x;
          y = c.low;
        })
  unfolding next_point next_column first_point
  next_columns bounds later b c y h = rw h refl

  -- The loop from a point on paints the points above it and those of the later columns.
  paint-rest :
      (fuel : ℕ) (bounds later : List Bound) (b : Bound) (y : ℤ) (n : ℕ) (image : List ℕ)
      → Gap y b.up n
      → Each Ordered later
      → length (above b.x y n ++ points later) < fuel
      → paint sample_of intensities step fuel
          (record { bounds = bounds; cur = b ∷ later })
          b.x
          y
          image
        ≡ paint_points (above b.x y n ++ points later) image
  unfolding paint paint_points
  paint-rest zero bounds later b y n image e o h = absurd (omega arith)
  paint-rest (suc fuel) bounds later b y (suc n) image e o h =
      rw (next_above bounds later b y (below-up y b.up n e)) (
        ap (λ k. paint_point sample_of intensities step b.x (y +ℤ pos 1) image >>= k)
          (fun_ext λ i.
            paint-rest fuel bounds later b (y +ℤ pos 1) n i (Gap-suc y b.up n e) o (omega arith)))
  paint-rest (suc fuel) bounds [] b y zero image e o h =
      rw (next_ended bounds b y (at-up y b.up e)) refl
  paint-rest (suc fuel) bounds (c ∷ later) b y zero image e o h =
      rw (next_columns bounds later b c y (at-up y b.up e)) (
        ap (λ k. paint_point sample_of intensities step c.x c.low image >>= k)
          (fun_ext λ i.
            paint-rest fuel bounds later c c.low (span c) i (span-Gap c o.0) o.1 (omega arith)))

  paint-points :
      (fuel : ℕ) (bounds : List Bound) (x y : ℤ) (image : List ℕ)
      → bounds ≢ []
      → Each Ordered bounds
      → length (points bounds) < fuel
      → paint sample_of intensities step fuel (record { bounds = bounds; cur = [] }) x y image
        ≡ paint_points (points bounds) image
  unfolding paint paint_points next_point first_point
  paint-points fuel [] x y image some_bound o h = absurd (some_bound refl)
  paint-points zero (b ∷ later) x y image some_bound o h = absurd (omega arith)
  paint-points (suc fuel) (b ∷ later) x y image some_bound o h =
      ap (λ k. paint_point sample_of intensities step b.x b.low image >>= k)
        (fun_ext λ i.
          paint-rest fuel (b ∷ later) later b b.low (span b) i (span-Gap b o.0) o.1 (omega arith))

-- The loop of `refreshImage` ends, given more fuel than there are points: it paints every point of every
-- column that `init` has made once, column by column and from the lowest point to the highest,
-- and no other point. There are intensities and at least one column.
pub refresh_image-paint_points :
    (f : Floats) (sample_of : ℤ → ℤ → ℕ) (intensities : List ℕ)
    (step fuel radius angle angle_step : ℕ) (image : List ℕ)
    → intensities ≢ []
    → bounds_of f radius angle angle_step ≢ []
    → length (points (bounds_of f radius angle angle_step)) < fuel
    → refresh_image sample_of intensities step fuel (bounds_of f radius angle angle_step) image
      ≡ paint_points sample_of intensities step (points (bounds_of f radius angle angle_step)) image
unfolding refresh_image
refresh_image-paint_points f sample_of [] step fuel radius angle angle_step image n some_bound h =
    absurd (n refl)
refresh_image-paint_points f sample_of (v ∷ vs) step fuel radius angle angle_step image n some_bound
      h =
    paint-points sample_of (v ∷ vs) step fuel (bounds_of f radius angle angle_step) (pos 0) (pos 0)
      image some_bound (bounds_of-Ordered f radius angle angle_step) h
