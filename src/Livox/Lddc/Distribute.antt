-- ===== src/Livox/Lddc/Distribute.antt =====
-- A whole pass of the publishing thread of lddc.cpp: `DistributePointCloudData` over all devices.
use mathlib.Core.Path.{ap₂}
use mathlib.Core.List.{flat_map, append-nil, append_assoc}
use sensor_packages.Base.{
  ℕ, zero, suc, ◌<◌, ◌≡◌, refl, sym, ap, ◌∙◌, ◌⊎◌, inl, inr, Bool, true, false, List, [], ◌∷◌, ◌++◌,
  none, some, length, arith, if◌then◌else◌,
}
use sensor_packages.Livox.ImuQueue.{wait}
use sensor_packages.Livox.Queue.{LidarDataQueue, null}
use sensor_packages.Livox.Queue.Invariant.{IsValid}
use sensor_packages.Livox.Queue.Window.{contents}
use sensor_packages.Livox.Lds.{Lds, LidarDevice}
use sensor_packages.Livox.Lddc.Messages.{
  Conversions, Settings, Message, k_pointcloud2_msg, k_output_to_ros,
}
use sensor_packages.Livox.Lddc.{
  finished, running, ◌>>=◌, is_sampling, polling_lidar_point_cloud_data, distribute_points,
  distribute_point_cloud_data,
}
use sensor_packages.Livox.Lddc.Drain.{clouds_of, polling_lidar_point_cloud_data-Drained}

-- A queue that is not allocated, and empty, or that is valid and holds fewer than `inner` packets
abbrev pub Pollable : ℕ → LidarDataQueue → Type 0
Pollable inner q =
    ((q.storage_packet ≡ null) × (contents q ≡ [])) ⊎ (IsValid q × (length (contents q) < inner))

abbrev pub AllPollable : ℕ → List LidarDevice → Type 0
AllPollable inner [] = Unit {0}
AllPollable inner (d ∷ ds) = Pollable inner d.points × AllPollable inner ds

-- A device after the pass: its queue is empty if the device was sampling, and all else is as it was.
abbrev pub EmptiedIf : Bool → LidarDevice → LidarDevice → Type 0
EmptiedIf true d d' =
    (q' : LidarDataQueue) × (d' ≡ record d { points = q' })
    × (contents q' ≡ [])
    × ((q' ≡ d.points) ⊎ IsValid q')
EmptiedIf false d d' = d' ≡ d

abbrev pub AllEmptied : List LidarDevice → List LidarDevice → Type 0
AllEmptied [] [] = Unit {0}
AllEmptied [] (d' ∷ ds') = ⊥
AllEmptied (d ∷ ds) [] = ⊥
AllEmptied (d ∷ ds) (d' ∷ ds') = EmptiedIf (is_sampling d.connect_state) d d' × AllEmptied ds ds'

module _ (conv : Conversions) (s : Settings) where
  -- The messages of one device: one for each packet that it holds, if it is sampling
  abbrev pub device_messages : ℕ → LidarDevice → List Message
  device_messages index d =
      if is_sampling d.connect_state
      then flat_map (clouds_of conv s index) (contents d.points)
      else []

  -- The messages of all devices from the index `index` on
  abbrev pub all_messages : ℕ → List LidarDevice → List Message
  all_messages index [] = []
  all_messages index (d ∷ ds) = device_messages index d ++ all_messages (suc index) ds

  module _ (fuel inner : ℕ) (exits : ℕ → Bool) (fmt : s.transfer_format ≡ k_pointcloud2_msg)
      (ros : s.output_type ≡ k_output_to_ros) (on : exits (suc fuel) ≡ false) where
    skipped :
        (index : ℕ) (d : LidarDevice) (log : List Message)
        → d.points.storage_packet ≡ null
        → polling_lidar_point_cloud_data conv s (suc (suc fuel)) inner exits index d log
          ≡ finished (log, d)
    unfolding polling_lidar_point_cloud_data
    skipped index d log unallocated = rw (unallocated, if◌then◌else◌) refl

    polled :
        (index : ℕ) (d : LidarDevice) (log : List Message)
        → Pollable inner d.points
        → (d' : LidarDevice) × (polling_lidar_point_cloud_data conv s
              (suc (suc fuel))
              inner
              exits
              index
              d
              log
            ≡ finished (log ++ flat_map (clouds_of conv s index) (contents d.points), d'))
          × EmptiedIf true d d'
    unfolding flat_map
    polled index d log (inl (unallocated, nothing)) = (
      d,
      skipped index d log unallocated
          ∙ ap (λ l. finished (l, d)) (sym (append-nil log))
          ∙ ap (λ es. finished (log ++ flat_map (clouds_of conv s index) es, d)) (sym nothing),
      (d.points, refl, nothing, inl refl),
    )
    polled index d log (inr (v, lt)) =
        let (q', ends, v', done) =
          polling_lidar_point_cloud_data-Drained conv s fuel inner exits index d log fmt ros on v
            lt in
        (record d { points = q' }, ends, (q', refl, done, inr v'))

    -- The body of the loop, whether or not the device is sampling
    visited :
        (index : ℕ) (d : LidarDevice) (log : List Message) (b : Bool)
        → Pollable inner d.points
        → (d' : LidarDevice) × ((if b
              then polling_lidar_point_cloud_data conv s (suc (suc fuel)) inner exits index d log
              else finished (log, d))
            ≡ finished (
              log ++ (if b then flat_map (clouds_of conv s index) (contents d.points) else []),
              d',
            ))
          × EmptiedIf b d d'
    visited index d log true p = polled index d log p
    visited index d log false p = (d, ap (λ l. finished (l, d)) (sym (append-nil log)), refl)

    distribute_points-AllEmptied :
        (count index : ℕ) (lidars : List LidarDevice) (log : List Message)
        → length lidars ≡ count
        → AllPollable inner lidars
        → (lidars' : List LidarDevice) × (distribute_points conv s
              (suc (suc fuel))
              inner
              exits
              count
              index
              lidars
              log
            ≡ finished (log ++ all_messages index lidars, lidars'))
          × AllEmptied lidars lidars'
    unfolding distribute_points
    distribute_points-AllEmptied zero index [] log e p =
        ([], ap (λ l. finished (l, [])) (sym (append-nil log)), tt)
    distribute_points-AllEmptied zero index (d ∷ ds) log e p = absurd (omega (arith, e))
    distribute_points-AllEmptied (suc count) index [] log e p = absurd (omega (arith, e))
    distribute_points-AllEmptied (suc count) index (d ∷ ds) log e p =
        let (d', ran, one) = visited index d log (is_sampling d.connect_state) p.0 in
        let (ds', rest, others) =
          distribute_points-AllEmptied count (suc index) ds (log ++ device_messages index d)
            (omega (arith, e)) p.1 in
        (
          d' ∷ ds',
          rw (ran, rest)
              (ap (λ l. finished (l, d' ∷ ds'))
                (append_assoc log (device_messages index d) (all_messages (suc index) ds))),
          (one, others),
        )

-- A pass of `DistributePointCloudData` in the PointCloud2 format, with output to ROS, a registered data
-- source of `lidar_count` devices with its semaphore up, and no request to exit, where each queue is
-- valid or not yet allocated, returns: it takes one from the semaphore, publishes a message for each
-- packet with points of every sampling device, device by device and oldest first, and leaves those
-- devices' queues empty and everything else as it was. As many rounds as the longest queue has packets,
-- and one more, are enough.
pub distribute_point_cloud_data-AllEmptied :
    (conv : Conversions) (s : Settings) (fuel inner n : ℕ) (exits : ℕ → Bool) (lds : Lds)
    (log : List Message)
    → s.transfer_format ≡ k_pointcloud2_msg
    → s.output_type ≡ k_output_to_ros
    → exits (suc fuel) ≡ false
    → lds.request_exit ≡ false
    → lds.pcd_semaphore ≡ suc n
    → length lds.lidars ≡ lds.lidar_count
    → AllPollable inner lds.lidars
    → (lidars' : List LidarDevice) × (distribute_point_cloud_data conv s
          (suc (suc fuel))
          inner
          exits
          (some lds)
          log
        ≡ finished (
          log ++ all_messages conv s 0 lds.lidars,
          some (record lds { lidars = lidars'; pcd_semaphore = n }),
        ))
      × AllEmptied lds.lidars lidars'
unfolding distribute_point_cloud_data wait
distribute_point_cloud_data-AllEmptied conv s fuel inner n exits lds log fmt ros on stay up all p =
    let (lidars', ran, emptied) =
      distribute_points-AllEmptied conv s fuel inner exits fmt ros on lds.lidar_count 0 lds.lidars
        log all p in
    (
      lidars',
      ap₂
            (λ b w. if b then finished (log, some lds) else elim w [
              | none ↦ running
              | some count ↦
                  distribute_points conv s (suc (suc fuel)) inner exits lds.lidar_count 0 lds.lidars
                    log
                  >>= λ r. finished (r.0, some (record lds { lidars = r.1; pcd_semaphore = count }))
            ])
            stay (ap wait up)
          ∙ ap
              (λ m.
                m >>= λ r. finished (r.0, some (record lds { lidars = r.1; pcd_semaphore = n })))
              ran,
      emptied,
    )
