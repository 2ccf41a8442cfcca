-- ===== src/Ping360/Transducer/Angle.antt =====
-- The angle that the device gets.
use sensor_packages.Base.{◌≡◌, ◌⊎◌, arith}
use sensor_packages.Base.Int.{ℤ, pos, negsuc, ◌+ℤ◌, ◌≤ℤ◌}
use sensor_packages.Ping360.Transducer.{transducer_angle}

-- The device gets the angle of the head, or a full turn more, between 1 and 400: the angle 0
-- is sent as 400.
pub transducer_angle-Inside :
    (a : ℤ)
    → negsuc 199 ≤ℤ a
    → a ≤ℤ pos 400
    → (pos 1 ≤ℤ transducer_angle a)
      × (transducer_angle a ≤ℤ pos 400)
      × ((transducer_angle a ≡ a) ⊎ (transducer_angle a ≡ a +ℤ pos 400))
      × (a ≡ pos 0 → transducer_angle a ≡ pos 400)
unfolding transducer_angle ◌+ℤ◌
transducer_angle-Inside a h k = ground arith
