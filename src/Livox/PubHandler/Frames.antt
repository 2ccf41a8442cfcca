-- ===== src/Livox/PubHandler/Frames.antt =====
-- The frames that `RawDataProcess` makes of one packet.
use mathlib.Core.Path.{subst}
use sensor_packages.Base.{
  ℕ, ◌≤◌, ◌≡◌, Bool, true, false, List, [], ◌∷◌, Option, none, some, length, ◌==◌, if◌then◌else◌,
  not, ltb, ◌+◌, arith,
}
use sensor_packages.Base.Fault.{◌>>=◌}
use sensor_packages.Livox.Types.{PointFrame}
use sensor_packages.Livox.LidarPubHandler.{RawPacket, Floats, Layout, point_cloud_process}
use sensor_packages.Livox.PubHandler.{
  PubHandler, process_packet, check_timer, check_timer_sync, check_timer_free, lookup, take_lidar,
  take_lidars, due, prepared, get_lidar_id,
}

-- If a run has a result, it gives away at most one frame.
abbrev AtMostOne : Option (PubHandler × List PointFrame) → Type 0
AtMostOne none = Unit {0}
AtMostOne (some (s, frames)) = length frames ≤ 1

AtMostOne-bind :
    {A : Type 0} (m : Option A) (f : A → Option (PubHandler × List PointFrame))
    → ((a : A) → AtMostOne (f a))
    → AtMostOne (m >>= f)
AtMostOne-bind none f h = tt
AtMostOne-bind (some a) f h = h a

AtMostOne-if :
    (b : Bool) (m n : Option (PubHandler × List PointFrame))
    → AtMostOne m
    → AtMostOne n
    → AtMostOne (if b then m else n)
AtMostOne-if true m n h k = h
AtMostOne-if false m n h k = k

one_of :
    (b : Bool) (s t : PubHandler) (frame : PointFrame)
    → AtMostOne (some (if b then (s, []) else (t, frame ∷ [])))
one_of true s t frame = omega arith
one_of false s t frame = omega arith

check_timer-AtMostOne : (now id : ℕ) (s : PubHandler) → AtMostOne (check_timer now id s)
unfolding check_timer check_timer_sync check_timer_free
check_timer-AtMostOne now id s =
    AtMostOne-if s.is_timestamp_sync _ _
      (AtMostOne-bind (lookup id s.lidar_process_handlers) _ λ h.
        AtMostOne-if (s.publish_interval_ms == 0) _ _ tt (
          AtMostOne-if (not (due s h)) _ _ (omega arith)
            (AtMostOne-bind (take_lidar id h s.frame) _ λ r. one_of _ _ _ _)))
      (AtMostOne-if s.first _ _ (omega arith) (
        AtMostOne-if (ltb now (s.last_pub_time + s.publish_interval)) _ _ (omega arith)
          (AtMostOne-bind (take_lidars s.lidar_process_handlers s.frame) _ λ r. omega arith)))

process_packet-AtMostOne :
    (fl : Floats) (layout : Layout) (now : ℕ) (p : RawPacket) (s : PubHandler)
    → AtMostOne (process_packet fl layout now p s)
unfolding process_packet
process_packet-AtMostOne fl layout now p s =
    AtMostOne-bind
      (point_cloud_process fl layout (prepared fl layout (get_lidar_id p.lidar_type p.handle) s) p)
      _ λ h. check_timer-AtMostOne now (get_lidar_id p.lidar_type p.handle) _

-- Processing a packet gives away at most one frame.
pub process_packet-frames :
    (fl : Floats) (layout : Layout) (now : ℕ) (p : RawPacket) (s h : PubHandler)
    (frames : List PointFrame)
    → process_packet fl layout now p s ≡ some (h, frames)
    → length frames ≤ 1
process_packet-frames fl layout now p s h frames e =
    subst AtMostOne e (process_packet-AtMostOne fl layout now p s)
