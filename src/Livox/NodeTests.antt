-- ===== src/Livox/NodeTests.antt =====
-- Runs of the Livox node's threads to their end, and to where they hang.
use sensor_packages.Base.{◌≡◌, ◌≢◌, refl, true}
use sensor_packages.Livox.DriverNode.{
  called, waiting, turn, signalled, joined, Driver, poll_points, request, set_value, own, started,
  Reach, here, next, Quiet, stay, more,
}
use sensor_packages.Livox.DriverNode.Shutdown.{Quiet-hangs}

-- No data have come, and the points' thread waits.
abbrev waits : Driver
waits = record started { points = waiting }

waits-Reach : Reach waits
unfolding turn
waits-Reach = next here (own (poll_points refl))

-- The destructor has requested the exit and set the signal.
abbrev asked : Driver
asked = record waits { exit = true; signal = true; closer = signalled }

asked-Quiet : Quiet waits asked
asked-Quiet = more (more stay (request refl)) (set_value refl)

Quiet-hangs_example : (asked.points ≡ waiting) × (asked.closer ≢ joined)
Quiet-hangs_example = Quiet-hangs refl refl (λ c. cc) (λ c. cc) asked-Quiet

-- The points' thread has been called back and has not yet left, that of the IMU data is in `Wait` with its
-- semaphore up.
abbrev closing : Driver
closing = record started {
  exit = true;
  signal = true;
  imu_count = 1;
  points = called;
  imus = waiting;
  closer = signalled;
}
