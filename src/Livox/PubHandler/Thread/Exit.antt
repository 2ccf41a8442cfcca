-- ===== src/Livox/PubHandler/Thread/Exit.antt =====
-- What the thread of the point handler still does once its exit is requested.
use mathlib.Core.Path.{subst}
use mathlib.Core.List.{append-nil}
use sensor_packages.Base.{ℕ, ◌+◌, ◌≤◌, ◌≡◌, refl, true, List, [], ◌++◌, Option, length, arith}
use sensor_packages.Livox.Types.{PointFrame, ImuData}
use sensor_packages.Livox.LidarPubHandler.{Floats, Layout}
use sensor_packages.Livox.PubHandler.Frames.{process_packet-frames}
use sensor_packages.Livox.PubHandler.Thread.{
  Service, Place, absent, testing, taking, processing, returned, made, set_point_cloud_config, Step,
  leave, enter, take, time_out, process, configure, listen, receive, remove_observer, request_exit,
  join, Steps, stop, more,
}

-- What a thread still takes and gives away once the exit is requested
pub Last : Place → ℕ → List PointFrame → Type 0
Last taking n frames = (n ≤ 1) × (length frames ≤ 1)
Last (processing p) n frames = (n ≡ 0) × (length frames ≤ 1)
Last absent n frames = (n ≡ 0) × (frames ≡ [])
Last testing n frames = (n ≡ 0) × (frames ≡ [])
Last returned n frames = (n ≡ 0) × (frames ≡ [])

Last-made :
    (p : Place) (n : ℕ) (frames : List PointFrame) → Last (made p) n frames → Last p n frames
unfolding Last
Last-made absent n frames h = h
Last-made testing n frames h = h
Last-made taking n frames h = h
Last-made (processing p) n frames h = h
Last-made returned n frames h = h

Last-nothing :
    (p : Place) (n : ℕ) (frames : List PointFrame) → (n ≡ 0) × (frames ≡ []) → Last p n frames
unfolding Last
Last-nothing absent n frames h = h
Last-nothing testing n frames h = h
Last-nothing taking n frames h = (omega (arith, h.0), rw h.1 (omega arith))
Last-nothing (processing p) n frames h = (h.0, rw h.1 (omega arith))
Last-nothing returned n frames h = h

Last-none_taken :
    (p : Place) (n : ℕ) (frames : List PointFrame) → Last p n frames → Last p (0 + n) frames
Last-none_taken p n frames h = subst (λ m. Last p m frames) (omega arith) h

module _ (fl : Floats) (layout : Layout) (imu_of : List ℕ → Option ImuData) where
  -- What may follow a step after the request may follow with the step.
  Step-Last :
      {s t : Service} {k : ℕ} {frames : List PointFrame}
      → Step fl layout imu_of s k frames t
      → s.is_quit ≡ true
      → (n : ℕ) (rest : List PointFrame) → Last t.place n rest
      → Last s.place (k + n) (frames ++ rest)
  unfolding Last set_point_cloud_config
  Step-Last {s = s} (leave e q) quit n rest h =
      Last-none_taken s.place n rest (Last-nothing s.place n rest h)
  Step-Last {s = s} (enter e q) quit n rest h = cc
  Step-Last (take e some_packet) quit n rest h = rw e (omega (arith, h.0), h.1)
  Step-Last {s = s} (time_out e empty) quit n rest h =
      Last-none_taken s.place n rest (Last-nothing s.place n rest h)
  Step-Last {s = s} {frames = frames} (process now {p = p} {h = h} e made_of) quit n rest l =
      rw (e, l.1, append-nil)
        (omega (arith, l.0), process_packet-frames fl layout now p s.handler h frames made_of)
  Step-Last {s = s} (configure interval) quit n rest h =
      Last-none_taken s.place n rest (Last-made s.place n rest h)
  Step-Last {s = s} (listen observer) quit n rest h = Last-none_taken s.place n rest h
  Step-Last {s = s} (receive c header now handle dev_type packet e) quit n rest h =
      Last-none_taken s.place n rest h
  Step-Last {s = s} (remove_observer some_id) quit n rest h = Last-none_taken s.place n rest h
  Step-Last {s = s} request_exit quit n rest h = Last-none_taken s.place n rest h
  Step-Last {s = s} (join q e) quit n rest h =
      Last-none_taken s.place n rest (Last-nothing s.place n rest h)

  Step-quit :
      {s t : Service} {k : ℕ} {frames : List PointFrame}
      → Step fl layout imu_of s k frames t
      → s.is_quit ≡ true
      → t.is_quit ≡ true
  unfolding set_point_cloud_config
  Step-quit (leave e q) quit = quit
  Step-quit (enter e q) quit = quit
  Step-quit (take e some_packet) quit = quit
  Step-quit (time_out e empty) quit = quit
  Step-quit (process now e made_of) quit = quit
  Step-quit (configure interval) quit = quit
  Step-quit (listen observer) quit = quit
  Step-quit (receive c header now handle dev_type packet e) quit = quit
  Step-quit (remove_observer some_id) quit = quit
  Step-quit request_exit quit = refl
  Step-quit (join q e) quit = quit

  -- Once `RequestExit` has set `is_quit_`, whatever the owner and the SDK call after it and however often the thread
  -- gets to run, also a thread that `SetPointCloudConfig` makes later: a thread that has already tested
  -- the flag takes at most one more packet, one that has taken its packet takes none, and each gives away at most
  -- one frame; with the thread at any other place no packet is taken and no frame is given away.
  pub Steps-Last :
      {s t : Service} {n : ℕ} {frames : List PointFrame}
      → s.is_quit ≡ true
      → Steps fl layout imu_of s n frames t
      → Last s.place n frames
  Steps-Last {s = s} quit stop = Last-nothing s.place 0 [] (refl, refl)
  Steps-Last quit (more {n = n} {rest = rest} st later) =
      Step-Last st quit n rest (Steps-Last (Step-quit st quit) later)
