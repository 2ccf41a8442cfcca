-- ===== src/Livox/Lds/Storage.antt =====
-- What `Lds::PushLidarData` and `Lds::StoragePointData` do to the queues and to the semaphore.
use mathlib.Core.Path.{subst}
use mathlib.Core.Option.{some-injective}
use native.Mathlib.Decide.{ℕ_discrete}
use sensor_packages.Base.{
  ℕ, zero, suc, ◌^◌, ◌<◌, ◌≤◌, ◌≡◌, ◌≢◌, refl, sym, ap, ◌∙◌, ◌⊎◌, inl, inr, false, List, [], ◌∷◌,
  ◌++◌, none, some, length, get_elem?, get_elem?-set_self, get_elem?-set_ne, Option-cases, arith,
  if◌then◌else◌, Bool-cases, length-append,
}
use sensor_packages.Base.Fault.{◌>>=◌, Ensures, Ensures-bind, Ensures-mono}
use sensor_packages.Livox.Types.{PointPacket, PointFrame, state_off}
use sensor_packages.Livox.Queue.{
  LidarDataQueue, null, freed, queue_is_full, queue_is_empty, queue_push_any, queue_used_size,
  init_queue, de_init_queue,
}
use sensor_packages.Livox.Queue.Invariant.{IsValid, init_queue-IsValid}
use sensor_packages.Livox.Queue.Window.{Entry, contents, length-window, slots_of, window}
use sensor_packages.Livox.Queue.Refine.{packet_entry, queue_push_any-contents}
use sensor_packages.Livox.CacheIndex.{get_index}
use sensor_packages.Livox.Lds.{
  Lds, LidarDevice, Frequency, calculate_packet_queue_size, signal_once, ready_queue, push_packet,
  push_lidar_data, storage_point, reset_lidar, over_frame, storage_point_data,
}
use sensor_packages.Livox.ImuQueue.{signal}

-- A queue that `PushLidarData` may meet: not allocated yet, or valid.
abbrev pub Ready : LidarDataQueue → Type 0
Ready q = ((q.storage_packet ≡ null) × (q.rd_idx ≡ 0) × (q.wr_idx ≡ 0)) ⊎ IsValid q

-- A frequency whose queue size is at most 2 ^ 31.
abbrev pub Sized : Frequency → Type 0
Sized freq = freq.whole < 2 ^ 31

signal_once-pos : (count : ℕ) → 0 < signal_once count
unfolding signal
signal_once-pos count = ground arith

-- The queue after a packet is offered: behind the others, or dropped where all slots are used.
abbrev pub offered : LidarDataQueue → Entry → List Entry
offered q e = if queue_is_full q then contents q else contents q ++ e ∷ []

nonempty :
    (q : LidarDataQueue) (es : List Entry) (e : Entry)
    → contents q ≡ es ++ e ∷ []
    → queue_is_empty q ≡ false
unfolding queue_is_empty
nonempty q es e h =
    let count : queue_used_size q ≡ suc (length es) =
      sym (length-window (slots_of q.storage_packet) q.size q.rd_idx (queue_used_size q))
      ∙ ap length h
      ∙ omega (arith, length-append es (e ∷ [])) in
    ground (arith, count)

pub push_packet-offered :
    {q : LidarDataQueue} (p : PointPacket) (t semaphore : ℕ)
    → IsValid q
    → p.points_num ≤ length p.points
    → Ensures
        (λ r. IsValid r.0 × (contents r.0 ≡ offered q (packet_entry p t)) × (0 < r.1))
        (push_packet q p t semaphore)
unfolding push_packet
push_packet-offered {q} p t semaphore v h = elim (Bool-cases (queue_is_full q)) [
  | inl full ↦ rw full (v, refl, signal_once-pos semaphore)
  | inr room ↦ rw room (
      Ensures-bind _ _ (queue_push_any q p t) _ (queue_push_any-contents v p t h room) λ q' ok. (
        ok.0,
        ok.1,
        rw (nonempty q' (contents q) (packet_entry p t) ok.1) (signal_once-pos semaphore),
      ))
]

queue_size_bound : (freq : Frequency) → Sized freq → calculate_packet_queue_size freq ≤ 2 ^ 31
unfolding calculate_packet_queue_size
queue_size_bound freq h = ground arith

contents-unused : (q : LidarDataQueue) → queue_used_size q ≡ 0 → contents q ≡ []
contents-unused q e = ap (λ n. window (slots_of q.storage_packet) q.size q.rd_idx n) e

offered-unused : (q : LidarDataQueue) (e : Entry) → queue_used_size q ≡ 0 → offered q e ≡ e ∷ []
unfolding queue_is_full
offered-unused q e h = ground (arith, contents-unused q h)

-- Allocating the queue at its first packet, or finding it allocated, changes nothing that it holds.
ready_queue-offered :
    (freq : Frequency) {q : LidarDataQueue}
    → Sized freq
    → Ready q
    → Ensures
        (λ q'. IsValid q' × ((e : Entry) → offered q' e ≡ offered q e))
        (ready_queue freq q q.storage_packet)
ready_queue-offered freq {q} sized (inl (e, rd, wr)) =
    subst
      (λ s.
        Ensures (λ q'. IsValid q' × ((x : Entry) → offered q' x ≡ offered q x))
          (ready_queue freq q s))
      (sym e)
      (Ensures-mono _ _ (init_queue q (calculate_packet_queue_size freq))
        (init_queue-IsValid q (calculate_packet_queue_size freq) not_freed
          (queue_size_bound freq sized))
        λ q' ok. (ok.0, λ x. offered-unused q' x ok.1 ∙ sym (offered-unused q x (omega arith))))
  where
    not_freed : q.storage_packet ≢ freed
    not_freed f = ground arith
ready_queue-offered freq {q} sized (inr v) =
    subst
      (λ s.
        Ensures (λ q'. IsValid q' × ((x : Entry) → offered q' x ≡ offered q x))
          (ready_queue freq q s))
      (sym v.storage) (v, λ e. refl)

-- A device after a packet: its queue, and all else as it was.
abbrev pub Stored : Lds → ℕ → LidarDevice → Entry → Lds → Type 0
Stored lds index lidar e lds' =
    (lidar' : LidarDevice) × (get_elem? lds'.lidars index ≡ some lidar')
    × IsValid lidar'.points
    × (contents lidar'.points ≡ offered lidar.points e)
    × ((j : ℕ) → index ≢ j → get_elem? lds'.lidars j ≡ get_elem? lds.lidars j)
    × (0 < lds'.pcd_semaphore)
    × (lds'.cache_index ≡ lds.cache_index)
    × (lds'.publish_freq ≡ lds.publish_freq)

pub get_elem?-lt :
    (l : List LidarDevice) (i : ℕ) {d : LidarDevice} → get_elem? l i ≡ some d → i < length l
get_elem?-lt [] i e = cc
get_elem?-lt (x ∷ l) zero e = omega arith
get_elem?-lt (x ∷ l) (suc i) e = omega (arith, get_elem?-lt l i e)

-- `Lds::PushLidarData` on a device whose queue is not allocated or valid: the packet is behind the
-- queued ones, or dropped if all slots are used; the other devices, the index cache and the
-- frequency are untouched, and the point cloud semaphore is up, so that the publishing thread wakes.
pub push_lidar_data-Stored :
    (lds : Lds) (p : PointPacket) (index t : ℕ) (lidar : LidarDevice)
    → get_elem? lds.lidars index ≡ some lidar
    → Ready lidar.points
    → Sized lds.publish_freq
    → p.points_num ≤ length p.points
    → Ensures (Stored lds index lidar (packet_entry p t)) (push_lidar_data lds p index t)
unfolding push_lidar_data
push_lidar_data-Stored lds p index t lidar here ready sized h =
    rw (here, ◌>>=◌)
      (Ensures-bind _ _ (ready_queue lds.publish_freq lidar.points lidar.points.storage_packet) _
        (ready_queue-offered lds.publish_freq sized ready)
        λ q ok.
          Ensures-bind _ _ (push_packet q p t lds.pcd_semaphore) _
            (push_packet-offered p t lds.pcd_semaphore ok.0 h)
            λ r done. (
              record lidar { points = r.0 },
              get_elem?-set_self lds.lidars index (record lidar { points = r.0 })
                  (get_elem?-lt lds.lidars index here),
              done.0,
              done.1 ∙ ok.1 (packet_entry p t),
              λ j ne. get_elem?-set_ne lds.lidars (record lidar { points = r.0 }) ne,
              done.2,
              refl,
              refl,
            ))

-- What `Lds::StoragePointData` makes of one packet of a frame.
abbrev pub PointStored : Lds → PointPacket → ℕ → Lds → Type 0
PointStored lds p t lds' =
    ((get_index lds.cache_index p.lidar_type p.handle ≡ none) × (lds' ≡ lds))
    ⊎ ((index : ℕ) × (lidar : LidarDevice) × (get_index lds.cache_index p.lidar_type p.handle
          ≡ some index)
        × (get_elem? lds.lidars index ≡ some lidar)
        × Stored lds index lidar (packet_entry p t) lds')

-- The slots of the index cache name devices that a packet can be pushed to.
abbrev pub Served : Lds → Type 0
Served lds =
    (type handle index : ℕ)
    → get_index lds.cache_index type handle ≡ some index
    → (lidar : LidarDevice) × (get_elem? lds.lidars index ≡ some lidar) × Ready lidar.points

storage_point-skip :
    (lds : Lds) (p : PointPacket) (t : ℕ)
    → get_index lds.cache_index p.lidar_type p.handle ≡ none
    → storage_point lds p t ≡ some lds
unfolding storage_point
storage_point-skip lds p t e = rw (e, storage_point)

storage_point-push :
    (lds : Lds) (p : PointPacket) (t index : ℕ)
    → get_index lds.cache_index p.lidar_type p.handle ≡ some index
    → storage_point lds p t ≡ push_lidar_data lds p index t
unfolding storage_point
storage_point-push lds p t index e = rw (e, storage_point)

-- `Lds::StoragePointData` on one packet: one of a lidar without a slot is skipped, any other is stored
-- in its lidar's device.
pub storage_point-PointStored :
    (lds : Lds) (p : PointPacket) (t : ℕ)
    → Served lds
    → Sized lds.publish_freq
    → p.points_num ≤ length p.points
    → Ensures (PointStored lds p t) (storage_point lds p t)
storage_point-PointStored lds p t served sized h =
    elim (Option-cases (get_index lds.cache_index p.lidar_type p.handle)) [
      | inl unknown ↦ rw (storage_point-skip lds p t unknown) (inl (unknown, refl))
      | inr (index, known) ↦
          let dev = served p.lidar_type p.handle index known in
          rw (storage_point-push lds p t index known) (
            Ensures-mono _ _ (push_lidar_data lds p index t)
              (push_lidar_data-Stored lds p index t dev.0 dev.1 dev.2 sized h)
              λ lds' st. inr (index, dev.0, known, dev.1, st))
    ]

Stored-Served :
    (lds lds' : Lds) (index : ℕ) (lidar : LidarDevice) (e : Entry)
    → Served lds
    → Stored lds index lidar e lds'
    → Served lds'
Stored-Served lds lds' index lidar e served st type handle j found = go (ℕ_discrete index j)
  where
    before : get_index lds.cache_index type handle ≡ some j
    before = ap (λ c. get_index c type handle) (sym st.6) ∙ found

    go : Dec (index ≡ j) → (d : LidarDevice) × (get_elem? lds'.lidars j ≡ some d) × Ready d.points
    go (yes same) = (st.0, ap (get_elem? lds'.lidars) (sym same) ∙ st.1, inr st.2)
    go (no other) = let old = served type handle j before in (old.0, st.4 j other ∙ old.1, old.2)

PointStored-Served :
    (lds lds' : Lds) (p : PointPacket) (t : ℕ)
    → (Served lds × Sized lds.publish_freq)
    → PointStored lds p t lds'
    → Served lds' × Sized lds'.publish_freq
PointStored-Served lds lds' p t ok (inl (unknown, same)) = rw same ok
PointStored-Served lds lds' p t ok (inr (index, lidar, known, here, st)) =
    (Stored-Served lds lds' index lidar (packet_entry p t) ok.0 st, rw st.7 ok.1)

-- Packets whose memory holds the points that they count.
abbrev pub Backed : ℕ → List PointPacket → List ℕ → Type 0
Backed zero points times = Unit {0}
Backed (suc n) [] times = ⊥
Backed (suc n) (p ∷ points) [] = ⊥
Backed (suc n) (p ∷ points) (t ∷ times) = (p.points_num ≤ length p.points) × Backed n points times

over_frame-Served :
    (n : ℕ) (points : List PointPacket) (times : List ℕ) (lds : Lds)
    → Served lds × Sized lds.publish_freq
    → Backed n points times
    → Ensures
        (λ lds'. Served lds' × Sized lds'.publish_freq)
        (over_frame storage_point n points times lds)
unfolding over_frame
over_frame-Served zero points times lds ok b = ok
over_frame-Served (suc n) [] times lds ok b = absurd b
over_frame-Served (suc n) (p ∷ points) [] lds ok b = absurd b
over_frame-Served (suc n) (p ∷ points) (t ∷ times) lds ok b =
    Ensures-bind (PointStored lds p t) _ (storage_point lds p t)
      (λ lds'. over_frame storage_point n points times lds')
      (storage_point-PointStored lds p t ok.0 ok.1 b.0)
      λ lds' st. over_frame-Served n points times lds' (PointStored-Served lds lds' p t ok st) b.1

-- Where every slot of the index cache names a device whose queue is valid or was never allocated, so
-- that none was reset, and the publish frequency gives a queue of at most 2^31 slots:
-- `Lds::StoragePointData` of a whole frame runs without undefined behaviour, if the frame has a packet
-- and a base time for each of its `lidar_num` entries and the memory of each packet holds the points that it counts,
-- and both hold of the slots and of the frequency after it, as they must for the next frame.
pub storage_point_data-Served :
    (lds : Lds) (frame : PointFrame)
    → Served lds
    → Sized lds.publish_freq
    → Backed frame.lidar_num frame.lidar_point frame.base_time
    → Ensures (λ lds'. Served lds' × Sized lds'.publish_freq) (storage_point_data lds frame)
unfolding storage_point_data
storage_point_data-Served lds frame served sized backed =
    over_frame-Served frame.lidar_num frame.lidar_point frame.base_time lds (served, sized) backed

-- The device that `Lds::ResetLidar` leaves of one whose queue was allocated.
abbrev wiped : LidarDevice → ℕ → LidarDevice
wiped lidar src = record lidar {
  points = record { storage_packet = freed; rd_idx = 0; wr_idx = 0; mask = 0; size = 0 };
  imu_data = [];
  data_src = src;
  connect_state = state_off;
}

reset_lidar-wiped :
    (lidar : LidarDevice) (src : ℕ)
    → IsValid lidar.points
    → reset_lidar lidar src ≡ some (wiped lidar src)
unfolding reset_lidar de_init_queue
reset_lidar-wiped lidar src v = rw v.storage

push-wiped :
    (lds : Lds) (p : PointPacket) (index t src : ℕ) (lidar : LidarDevice)
    → get_elem? lds.lidars index ≡ some (wiped lidar src)
    → push_lidar_data lds p index t ≡ none
unfolding push_lidar_data push_packet queue_is_full queue_push_any
push-wiped lds p index t src lidar here = rw (here, ◌>>=◌)

-- `DeInitQueue` leaves `storage_packet` dangling: after `Lds::ResetLidar` of a device whose queue was
-- allocated, every `Lds::PushLidarData` to that device is an access to the deleted array, and so is a
-- second `Lds::ResetLidar`.
pub reset_lidar-dangling :
    (lds : Lds) (p : PointPacket) (index t src : ℕ) (lidar gone : LidarDevice)
    → IsValid lidar.points
    → reset_lidar lidar src ≡ some gone
    → get_elem? lds.lidars index ≡ some gone
    → (push_lidar_data lds p index t ≡ none) × (reset_lidar gone src ≡ none)
unfolding reset_lidar de_init_queue
reset_lidar-dangling lds p index t src lidar gone v e here = (
  push-wiped lds p index t src lidar (here ∙ sym e ∙ reset_lidar-wiped lidar src v),
  subst (λ d. reset_lidar d src ≡ none)
      (some-injective _ _ (sym (reset_lidar-wiped lidar src v) ∙ e)) refl,
)
