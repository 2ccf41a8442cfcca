-- ===== src/Livox/Lddc/Drain.antt =====
-- The publishing loops of lddc.cpp empty the queues, message by message, in order.
use mathlib.Core.Path.{subst}
use mathlib.Core.List.{flat_map, append-nil, append_assoc}
use native.Mathlib.Nat.{le_refl}
use sensor_packages.Base.{
  ℕ, zero, suc, ◌<◌, ◌≡◌, ◌≢◌, refl, sym, ap, ◌∙◌, Bool, true, false, List, [], ◌∷◌, ◌++◌, Option,
  some, length, arith, map, le→leb, ◌*◌, ◌^◌, ◌%◌,
}
use sensor_packages.Base.Fault.{Ensures, Ensures-some}
use sensor_packages.Livox.Types.{PointXyzlt, StoragePacket}
use sensor_packages.Livox.Queue.{
  LidarDataQueue, blank, queue_pop, queue_is_empty, queue_used_size, copy_points,
}
use sensor_packages.Livox.Queue.Invariant.{IsValid}
use sensor_packages.Livox.Queue.Window.{Entry, contents, length-window, slots_of, take-length}
use sensor_packages.Livox.Queue.Refine.{packet_of, Popped, queue_pop-Popped}
use sensor_packages.Livox.Lds.{LidarDevice}
use sensor_packages.Livox.Lddc.Messages.{
  Conversions, Settings, Message, cloud_message, PointCloud2, cloud_point, init_pointcloud2_msg,
  point_fields, size_of_point, k_pointcloud2_msg, k_livox_custom_msg, k_output_to_ros,
}
use sensor_packages.Livox.Lddc.{
  Run, finished, running, publish_loop, pointcloud2_messages, polling_loop, publish_queue,
  polling_lidar_point_cloud_data,
}

-- The queue is empty, as `QueueIsEmpty` tells it, exactly when it holds nothing.
is_empty-nil : {q : LidarDataQueue} → IsValid q → contents q ≡ [] → queue_is_empty q ≡ true
unfolding queue_is_empty
is_empty-nil {q} v e =
    let none_used : queue_used_size q ≡ 0 =
      sym (length-window (slots_of q.storage_packet) q.size q.rd_idx (queue_used_size q))
      ∙ ap length e in
    let same : q.rd_idx ≡ q.wr_idx = omega (arith, v.rd_word, v.wr_word) in ground arith

is_empty-cons :
    {q : LidarDataQueue} (e : Entry) (es : List Entry)
    → IsValid q
    → contents q ≡ e ∷ es
    → queue_is_empty q ≡ false
unfolding queue_is_empty
is_empty-cons {q} e es v h =
    let some_used : queue_used_size q ≡ suc (length es) =
      sym (length-window (slots_of q.storage_packet) q.size q.rd_idx (queue_used_size q))
      ∙ ap length h in
    let other : q.rd_idx ≢ q.wr_idx = λ same. omega (arith, same) in ground arith

-- A finished loop: what it has published, and the empty queue.
abbrev Drained : List Message → Run (List Message × LidarDataQueue) → Type 0
Drained log r = (q' : LidarDataQueue) × (r ≡ finished (log, q')) × IsValid q' × (contents q' ≡ [])

popped_first :
    {q : LidarDataQueue} (e : Entry) (es : List Entry)
    → IsValid q
    → contents q ≡ e ∷ es
    → (q' : LidarDataQueue) × (queue_pop q blank ≡ some (true, packet_of blank e, q'))
      × (contents q' ≡ es)
      × IsValid q'
popped_first {q} e es v h =
    let (r, eq, done) =
      Ensures-some (Popped q blank (e ∷ es)) (queue_pop q blank) (
        subst (λ l. Ensures (Popped q blank l) (queue_pop q blank)) h (queue_pop-Popped v blank)) in
    (r.2, eq ∙ (λ i. some (done.0 i, done.1 i, r.2)), done.2, done.3)

-- A loop whose messages are `emit e` for each entry publishes those of all entries, oldest first,
-- and stops at the empty queue, if it may run one round more than there are entries.
publish_loop-Drained :
    (conv : Conversions) (s : Settings) (messages : StoragePacket → Option (List Message))
    (emit : Entry → List Message)
    → ((e : Entry) → messages (packet_of blank e) ≡ some (emit e))
    → (fuel : ℕ) (es : List Entry) (q : LidarDataQueue) (log : List Message) → IsValid q
    → contents q ≡ es
    → length es < fuel
    → Drained (log ++ flat_map emit es) (publish_loop conv s fuel messages q log)
unfolding publish_loop flat_map
publish_loop-Drained conv s messages emit total zero es q log v h lt = absurd (omega arith)
publish_loop-Drained conv s messages emit total (suc fuel) [] q log v h lt =
    (q, rw (is_empty-nil v h, publish_loop, append-nil), v, h)
publish_loop-Drained conv s messages emit total (suc fuel) (e ∷ es) q log v h lt =
    let (q', popped, rest, v') = popped_first e es v h in
    let (q'', ends, v'', done) =
      publish_loop-Drained conv s messages emit total fuel es q' (log ++ emit e) v' rest
        (omega arith) in
    (
      q'',
      rw (is_empty-cons e es v h, publish_loop, popped, total e, ← append_assoc) ends,
      v'',
      done,
    )

-- The `PointCloud2` message of an entry.
abbrev pub cloud_of : Conversions → Settings → Entry → PointCloud2
cloud_of conv s e = record {
  frame_id = s.frame_id;
  stamp = e.base_time;
  height = 1;
  width = length e.points;
  fields = point_fields;
  point_step = size_of_point;
  row_step = length e.points * size_of_point % 2 ^ 32;
  is_bigendian = false;
  is_dense = true;
  points = map (cloud_point conv) e.points;
}

-- One message for each entry with points, none for an entry without.
abbrev pub clouds_of : Conversions → Settings → ℕ → Entry → List Message
clouds_of conv s index e = elim e.points [
  | [] ↦ []
  | p ∷ ps ↦ cloud_message index (cloud_of conv s e) ∷ []
]

copy_points-all : (xs : List PointXyzlt) → copy_points (length xs) xs ≡ some xs
unfolding copy_points
copy_points-all xs =
    rw (le→leb (length xs) (length xs) (le_refl (length xs)), take-length (length xs) xs refl)

init_pointcloud2_msg-cloud :
    (conv : Conversions) (s : Settings) (e : Entry) (p : PointXyzlt) (ps : List PointXyzlt)
    → e.points ≡ p ∷ ps
    → init_pointcloud2_msg conv s (packet_of blank e) ≡ some (cloud_of conv s e)
unfolding init_pointcloud2_msg
init_pointcloud2_msg-cloud conv s e p ps h = rw (copy_points-all e.points, h)

pointcloud2_messages-clouds :
    (conv : Conversions) (s : Settings) (index t : ℕ) (l : List PointXyzlt)
    → s.output_type ≡ k_output_to_ros
    → let e : Entry = record { base_time = t; points = l } in
      pointcloud2_messages conv s index (packet_of blank e) ≡ some (clouds_of conv s index e)
unfolding pointcloud2_messages
pointcloud2_messages-clouds conv s index t [] ros = refl
pointcloud2_messages-clouds conv s index t (p ∷ ps) ros =
    let e : Entry = record { base_time = t; points = p ∷ ps } in
    rw (init_pointcloud2_msg-cloud conv s e p ps refl, ros)

publish_queue-cloud :
    (conv : Conversions) (s : Settings) (fuel : ℕ) (lidar : LidarDevice) (index : ℕ)
    (q : LidarDataQueue) (log : List Message)
    → s.transfer_format ≡ k_pointcloud2_msg
    → publish_queue conv s fuel lidar index q log
      ≡ publish_loop conv s fuel (pointcloud2_messages conv s index) q log
unfolding publish_queue
publish_queue-cloud conv s fuel lidar index q log h = rw h

polling_loop-stop :
    (conv : Conversions) (s : Settings) (fuel inner : ℕ) (exits : ℕ → Bool) (lidar : LidarDevice)
    (index : ℕ) (q : LidarDataQueue) (log : List Message)
    → queue_is_empty q ≡ true
    → polling_loop conv s (suc fuel) inner exits lidar index q log ≡ finished (log, q)
unfolding polling_loop
polling_loop-stop conv s fuel inner exits lidar index q log e = ground arith

polling_loop-step :
    (conv : Conversions) (s : Settings) (fuel inner : ℕ) (exits : ℕ → Bool) (lidar : LidarDevice)
    (index : ℕ) (q q' : LidarDataQueue) (log log' : List Message)
    → exits fuel ≡ false
    → queue_is_empty q ≡ false
    → publish_queue conv s inner lidar index q log ≡ finished (log', q')
    → polling_loop conv s (suc fuel) inner exits lidar index q log
      ≡ polling_loop conv s fuel inner exits lidar index q' log'
unfolding polling_loop
polling_loop-step conv s fuel inner exits lidar index q q' log log' on e h =
    rw (on, e, polling_loop, h)

-- One round of polling empties a queue that the loop finds nonempty.
polling_loop-Drained :
    (conv : Conversions) (s : Settings) (fuel inner : ℕ) (exits : ℕ → Bool) (lidar : LidarDevice)
    (index : ℕ) (es : List Entry) (q : LidarDataQueue) (log : List Message)
    → s.transfer_format ≡ k_pointcloud2_msg
    → s.output_type ≡ k_output_to_ros
    → exits (suc fuel) ≡ false
    → IsValid q
    → contents q ≡ es
    → length es < inner
    → Drained
        (log ++ flat_map (clouds_of conv s index) es)
        (polling_loop conv s (suc (suc fuel)) inner exits lidar index q log)
unfolding polling_loop flat_map
polling_loop-Drained conv s fuel inner exits lidar index [] q log fmt ros on v h lt = (
  q,
  polling_loop-stop conv s (suc fuel) inner exits lidar index q log (is_empty-nil v h)
      ∙ ap (λ l. finished (l, q)) (sym (append-nil log)),
  v,
  h,
)
polling_loop-Drained conv s fuel inner exits lidar index (e ∷ es) q log fmt ros on v h lt =
    let (q', ends, v', done) =
      publish_loop-Drained conv s (pointcloud2_messages conv s index) (clouds_of conv s index)
        (λ x. pointcloud2_messages-clouds conv s index x.base_time x.points ros) inner (e ∷ es) q
        log v h lt in
    (
      q',
      polling_loop-step conv s (suc fuel) inner exits lidar index q q' log _ on
            (is_empty-cons e es v h) (publish_queue-cloud conv s inner lidar index q log fmt ∙ ends)
          ∙ polling_loop-stop conv s fuel inner exits lidar index q' _ (is_empty-nil v' done),
      v',
      done,
    )

-- `PollingLidarPointCloudData` in the PointCloud2 format, with output to ROS and no request to exit,
-- returns after one message for each queued entry that has points, oldest first, and leaves the
-- device's queue valid and empty; as many rounds as there are entries, and one more, are enough.
pub polling_lidar_point_cloud_data-Drained :
    (conv : Conversions) (s : Settings) (fuel inner : ℕ) (exits : ℕ → Bool) (index : ℕ)
    (lidar : LidarDevice) (log : List Message)
    → s.transfer_format ≡ k_pointcloud2_msg
    → s.output_type ≡ k_output_to_ros
    → exits (suc fuel) ≡ false
    → IsValid lidar.points
    → length (contents lidar.points) < inner
    → (q' : LidarDataQueue) × (polling_lidar_point_cloud_data conv s
          (suc (suc fuel))
          inner
          exits
          index
          lidar
          log
        ≡ finished (
          log ++ flat_map (clouds_of conv s index) (contents lidar.points),
          record lidar { points = q' },
        ))
      × IsValid q'
      × (contents q' ≡ [])
unfolding polling_lidar_point_cloud_data
polling_lidar_point_cloud_data-Drained conv s fuel inner exits index lidar log fmt ros on v lt =
    let (q', ends, v', done) =
      polling_loop-Drained conv s fuel inner exits lidar index (contents lidar.points) lidar.points
        log fmt ros on v refl lt in
    (q', ground (arith, v.storage, ends), v', done)

-- A loop whose round leaves the log and the queue as they were does not return.
endless :
    (conv : Conversions) (s : Settings) (fuel inner : ℕ) (exits : ℕ → Bool) (lidar : LidarDevice)
    (index : ℕ) (q : LidarDataQueue) (log : List Message)
    → ((round : ℕ) → exits round ≡ false)
    → queue_is_empty q ≡ false
    → publish_queue conv s inner lidar index q log ≡ finished (log, q)
    → polling_loop conv s fuel inner exits lidar index q log ≡ running
endless conv s zero inner exits lidar index q log on e idle = unfold polling_loop in refl
endless conv s (suc fuel) inner exits lidar index q log on e idle =
    polling_loop-step conv s fuel inner exits lidar index q q log log (on fuel) e idle
    ∙ endless conv s fuel inner exits lidar index q log on e idle

-- The livelock: in any other format than the two that ROS 2 supports, the PCL format among them, and
-- with an entry in the queue and no exit requested, the round of the loop of `PollingLidarPointCloudData`
-- publishes nothing and leaves the queue as it was, and the loop does not return, however many rounds it runs.
pub polling_loop-running :
    (conv : Conversions) (s : Settings) (fuel inner : ℕ) (exits : ℕ → Bool) (lidar : LidarDevice)
    (index : ℕ) (q : LidarDataQueue) (log : List Message)
    → s.transfer_format ≢ k_pointcloud2_msg
    → s.transfer_format ≢ k_livox_custom_msg
    → ((round : ℕ) → exits round ≡ false)
    → queue_is_empty q ≡ false
    → (publish_queue conv s inner lidar index q log ≡ finished (log, q))
      × (polling_loop conv s fuel inner exits lidar index q log ≡ running)
unfolding publish_queue
polling_loop-running conv s fuel inner exits lidar index q log f g on e =
    let idle : publish_queue conv s inner lidar index q log ≡ finished (log, q) = ground arith in
    (idle, endless conv s fuel inner exits lidar index q log on e idle)
