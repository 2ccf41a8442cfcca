-- ===== src/Livox/PubHandler/Synced.antt =====
-- The frames that CheckTimer makes with time synchronisation.
use sensor_packages.Base.{
  ℕ, ◌≡◌, ◌≢◌, refl, ◌∙◌, ap, true, false, ◌||◌, List, [], ◌∷◌, ◌++◌, some, length, take, ◌==◌,
  if◌then◌else◌, arith,
}
use sensor_packages.Base.Fault.{◌>>=◌, Ensures, Ensures-bind}
use sensor_packages.Livox.Types.{PointXyzlt, PointFrame, k_livox_lidar_type}
use sensor_packages.Livox.LidarPubHandler.{LidarPubHandler, last_time, get_recent_time_stamp}
use sensor_packages.Livox.PubHandler.{
  PubHandler, lookup, put, due, take_lidar, check_timer, check_timer_sync,
}
use sensor_packages.Livox.PubHandler.Timer.{Framed, Grown, packet_of, packets_in, take_lidar-Grown}

lookup-put :
    (key : ℕ) (h : LidarPubHandler) (m : List (ℕ × LidarPubHandler))
    → lookup key (put key h m) ≡ some h
unfolding lookup put
lookup-put key h [] = ground arith
lookup-put key h ((k, v) ∷ m) = ground (arith, lookup-put key h m)

recent-none : (h : LidarPubHandler) → length h.points_clouds ≡ 0 → get_recent_time_stamp h ≡ 0
unfolding get_recent_time_stamp
recent-none h z = go h.points_clouds z
  where
    go : (cloud : List PointXyzlt) → length cloud ≡ 0 → last_time cloud ≡ 0
    go [] z = refl
    go (p ∷ cloud) z = absurd (omega arith)

not_eq : {a b : ℕ} → a ≢ b → (a == b) ≡ false
not_eq ne = ground arith

-- A lidar that is due has points.
due-points : (s : PubHandler) (h : LidarPubHandler) → due s h ≡ true → length h.points_clouds ≢ 0
due-points s h e z = let r = recent-none h z in ground arith

check_timer-due :
    (now id : ℕ) (s : PubHandler) (h : LidarPubHandler)
    → s.is_timestamp_sync ≡ true
    → s.publish_interval_ms ≢ 0
    → lookup id s.lidar_process_handlers ≡ some h
    → due s h ≡ true
    → check_timer now id s ≡ (
        take_lidar id h s.frame >>= λ (frame, h'). some (
          if length h.points_clouds == 0 || frame.lidar_num == 0
          then (
            record s { lidar_process_handlers = put id h' s.lidar_process_handlers; frame = frame },
            [],
          )
          else (
            record s {
              lidar_process_handlers = put id h' s.lidar_process_handlers;
              frame = record frame { lidar_num = 0 };
            },
            frame ∷ [],
          )))
unfolding check_timer check_timer_sync
check_timer-due now id s h sync some_ms found e = ground arith

-- `CheckTimer` with time synchronisation and an interval of at least 1 ms, on a cleared frame, for a
-- lidar whose latest point is in a millisecond that is a multiple of the interval and not 0, and at
-- least the tolerance after its first point: one frame is published, with one packet of all the points
-- of that lidar; the lidar keeps none, and the frame is cleared.
pub check_timer-Synced :
    (now id : ℕ) (s : PubHandler) (h : LidarPubHandler)
    → s.is_timestamp_sync ≡ true
    → s.publish_interval_ms ≢ 0
    → lookup id s.lidar_process_handlers ≡ some h
    → due s h ≡ true
    → Framed s.frame
    → s.frame.lidar_num ≡ 0
    → Ensures
        (λ r.
          (frame : PointFrame) × (h' : LidarPubHandler) × (r.1 ≡ frame ∷ [])
          × (packets_in frame
              ≡ record {
                handle = id;
                lidar_type = k_livox_lidar_type;
                points_num = length h.points_clouds;
                points = h.points_clouds;
              }
                ∷ [])
          × (lookup id r.0.lidar_process_handlers ≡ some h')
          × (h'.points_clouds ≡ [])
          × (r.0.frame.lidar_num ≡ 0))
        (check_timer now id s)
check_timer-Synced now id s h sync some_ms found e framed cleared =
    let full : (length h.points_clouds == 0) ≡ false = not_eq (due-points s h e) in
    let one : length (packet_of id h) ≡ 1 = rw full refl in
    rw (check_timer-due now id s h sync some_ms found e) (
      Ensures-bind (λ r. Grown s.frame (packet_of id h) r.0 × (r.1.points_clouds ≡ [])) _
        (take_lidar id h s.frame) _ (take_lidar-Grown id h s.frame framed (omega (arith, cleared)))
        λ (frame, h') (g, gone).
          let some_packet : (frame.lidar_num == 0) ≡ false =
            not_eq (λ z. omega (arith, g.count, one, z)) in
          rw (full, some_packet)
            (
              frame,
              h',
              refl,
              g.content
                  ∙ ap (λ n. take n s.frame.lidar_point ++ packet_of id h) cleared
                  ∙ rw full refl,
              lookup-put id h' s.lidar_process_handlers,
              gone,
              refl,
            ))
