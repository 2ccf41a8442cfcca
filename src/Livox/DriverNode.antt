-- ===== src/Livox/DriverNode.antt =====
-- The node of livox_ros2/livox_driver/src/livox_driver.cpp, as built for ROS 2, and its end in
-- driver_node.cpp: the two polling threads, and the destructor that asks them to leave and waits for
-- them. The threads are at the granularity of their accesses to the flags and semaphores.
pub mod Shutdown
use sensor_packages.Base.{
  ℕ, zero, suc, ◌≡◌, Bool, true, false, Option, none, some, ◌==◌, if◌then◌else◌,
}
use sensor_packages.Livox.Lds.{Lds, request_exit}
use sensor_packages.Livox.LdsLidar.{LdsLidar}
use sensor_packages.Livox.Lddc.{register_lds}

abbrev pub k_source_raw_lidar : ℕ
k_source_raw_lidar = 0

-- `lddc_ptr_->lds_` behind the constructor of `DriverNode`; `lidar` is `LdsLidar::GetInstance`. A
-- failure of `InitLdsLidar` is only logged.
unfoldable pub registered_source : ℕ → Lds → Option Lds
registered_source data_src lidar =
    if data_src == k_source_raw_lidar then (register_lds none lidar).0 else none

-- `lddc_ptr_->lds_->RequestExit()`, a call on a null pointer if there is no source
unfoldable pub request_source_exit : Option Lds → Option Lds
request_source_exit none = none
request_source_exit (some lds) = some (request_exit lds)

-- Where a polling thread stands: before the call that distributes, in `Wait` behind the test for a
-- request to exit, in the loop over the lidars, behind the call, or out of its function.
pub data Poll : Type 0 where
  top : Poll
  waiting : Poll
  emptying : Poll
  called : Poll
  left : Poll

-- What a polling thread does next, with the flags of the request and of the exit signal, and the count
-- of its semaphore; nothing where it is blocked or has left. The loop over the lidars ends.
unfoldable pub turn : Bool → Bool → Poll → ℕ → Option (Poll × ℕ)
turn exit signal top count = some (if exit then called else waiting, count)
turn exit signal waiting zero = none
turn exit signal waiting (suc count) = some (emptying, count)
turn exit signal emptying count = some (called, count)
turn exit signal called count = some (if signal then left else top, count)
turn exit signal left count = none

-- The turns of a thread, at most `k` of them and until it is blocked or has left.
unfoldable pub turns : ℕ → Bool → Bool → Poll → ℕ → Poll
unfolding turn
turns zero exit signal p n = p
turns (suc k) exit signal p n = elim (turn exit signal p n) [
  | none ↦ p
  | some (q, m) ↦ turns k exit signal q m
]

-- Where the destructor of `DriverNode` stands.
pub data Closer : Type 0 where
  not_begun : Closer
  requested : Closer
  signalled : Closer
  joined_points : Closer
  joined : Closer

-- The node with a registered data source
pub record Driver : Type 0 where
  pub exit : Bool
  pub signal : Bool
  pub pcd_count : ℕ
  pub imu_count : ℕ
  pub points : Poll
  pub imus : Poll
  pub closer : Closer

-- A step of the threads of the node
pub data Step (s : Driver) : Driver → Type 0 where
  poll_points :
      {p : Poll} {n : ℕ}
      → turn s.exit s.signal s.points s.pcd_count ≡ some (p, n)
      → Step s (record s { points = p; pcd_count = n })
  poll_imus :
      {p : Poll} {n : ℕ}
      → turn s.exit s.signal s.imus s.imu_count ≡ some (p, n)
      → Step s (record s { imus = p; imu_count = n })
  request : s.closer ≡ not_begun → Step s (record s { exit = true; closer = requested })
  set_value : s.closer ≡ requested → Step s (record s { signal = true; closer = signalled })
  join_points :
      s.closer ≡ signalled → s.points ≡ left → Step s (record s { closer = joined_points })
  join_imus : s.closer ≡ joined_points → s.imus ≡ left → Step s (record s { closer = joined })

-- A step of the node, or of a callback of the SDK, which raises a semaphore that is down.
pub data Event (s : Driver) : Driver → Type 0 where
  own : {t : Driver} → Step s t → Event s t
  points_arrive : s.pcd_count ≡ 0 → Event s (record s { pcd_count = 1 })
  imu_arrives : s.imu_count ≡ 0 → Event s (record s { imu_count = 1 })

-- The node when its threads start
abbrev pub started : Driver
started = record {
  exit = false;
  signal = false;
  pcd_count = 0;
  imu_count = 0;
  points = top;
  imus = top;
  closer = not_begun;
}

pub data Reach : Driver → Type 0 where
  here : Reach started
  next : {s t : Driver} → Reach s → Event s t → Reach t

-- What the node reaches from `s` when no data arrive any more
pub data Quiet (s : Driver) : Driver → Type 0 where
  stay : Quiet s s
  more : {t u : Driver} → Quiet s t → Step t u → Quiet s u
