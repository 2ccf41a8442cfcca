-- ===== src/Ping360/Image.antt =====
-- The image of the Ping360: `refreshImage` of ping360_ros2/ping360_sonar/src/ping360_node.cpp, with `image.data`
-- as a list. `none` is an access outside an object, or the end of the fuel, which
-- `refresh_image-paint_points` shows not to come where it exceeds the number of points.
pub mod Loop
pub mod Pixels
pub mod Tests
use sensor_packages.Base.{
  ℕ, zero, suc, ◌+◌, ◌-◌, ◌*◌, ◌/◌, ◌%◌, ◌^◌, Bool, true, false, List, [], ◌∷◌, Option, none, some,
  length, get_elem?, set, ltb, if◌then◌else◌,
}
use sensor_packages.Base.Fault.{◌>>=◌}
use sensor_packages.Base.Int.{ℤ, pos, negsuc, ◌+ℤ◌, ◌-ℤ◌, ◌*ℤ◌}
use sensor_packages.Ping360.Sector.{Bound, Sector, Step, next_point}

-- The conversion to a 32-bit unsigned number.
abbrev pub wrap_32 : ℤ → ℕ
wrap_32 (pos n) = n % 2 ^ 32
wrap_32 (negsuc n) = 2 ^ 32 - 1 - n % 2 ^ 32

-- The place of a point in `image.data`.
unfoldable pub pixel : ℕ → ℤ → ℤ → ℕ
pixel step x y = wrap_32 (pos (step / 2) -ℤ y +ℤ pos step *ℤ (pos (step / 2) -ℤ x))

-- The body of the loop; `sample_of x y` is the index that `nextPoint` gives to a point.
unfoldable pub paint_point : (ℤ → ℤ → ℕ) → List ℕ → ℕ → ℤ → ℤ → List ℕ → Option (List ℕ)
unfolding pixel
paint_point sample_of intensities step x y image =
    let index = sample_of x y in
    let place = pixel step x y in
    if ltb index (length intensities)
    then (get_elem? intensities index >>= λ value.
        if ltb place (length image) then some (set image place value) else none)
    else some image

-- The loop, on fuel.
unfoldable pub paint : (ℤ → ℤ → ℕ) → List ℕ → ℕ → ℕ → Sector → ℤ → ℤ → List ℕ → Option (List ℕ)
unfolding next_point paint_point
paint sample_of intensities step zero sector x y image = none
paint sample_of intensities step (suc fuel) sector x y image =
    next_point sector.bounds sector.cur x y >>= λ s. elim s.more [
      | true ↦
          paint_point sample_of intensities step s.x s.y image
          >>= paint sample_of intensities step fuel s.sector s.x s.y
      | false ↦ some image
    ]

-- `refreshImage`, where `init` has left `bounds`.
unfoldable pub refresh_image : (ℤ → ℤ → ℕ) → List ℕ → ℕ → ℕ → List Bound → List ℕ → Option (List ℕ)
unfolding paint
refresh_image sample_of [] step fuel bounds image = some image
refresh_image sample_of (v ∷ vs) step fuel bounds image =
    paint sample_of (v ∷ vs) step fuel (record { bounds = bounds; cur = [] }) (pos 0) (pos 0) image
