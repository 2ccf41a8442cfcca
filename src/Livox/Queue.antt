-- ===== src/Livox/Queue.antt =====
-- The point cloud ring of livox_ros2/livox_driver/src/comm/ldq.h and ldq.cpp (`LidarDataQueue` of
-- comm.h). The argument pointers are members of live objects in every caller, so the tests of them for
-- null have no counterpart. `new StoragePacket[n]` leaves the numbers of a slot undetermined; the
-- model puts zeros there, and no valid queue reads a slot that was not written.
pub mod Invariant
pub mod Refine
pub mod Window
pub mod Threads
use Prim.Native.Nat.{bit_and}
use sensor_packages.Base.{
  ℕ, zero, suc, ◌+◌, ◌-◌, ◌^◌, ◌%◌, Bool, true, false, not, ◌&&◌, List, Option, none, some, length,
  get_elem?, set, take, replicate, ltb, leb, ◌==◌, if◌then◌else◌,
}
use sensor_packages.Base.Fault.{◌>>=◌}
use sensor_packages.Livox.Types.{PointPacket, StoragePacket}

-- What the pointer `storage_packet` is: null, an array, or an array that was deleted.
pub data Store : Type 0 where
  null : Store
  live : List StoragePacket → Store
  freed : Store

-- `LidarDataQueue`
pub record LidarDataQueue : Type 0 where
  pub storage_packet : Store
  pub rd_idx : ℕ
  pub wr_idx : ℕ
  pub mask : ℕ
  pub size : ℕ

-- A read of `storage_packet[i]`
abbrev pub load : Store → ℕ → Option StoragePacket
load null i = none
load (live slots) i = get_elem? slots i
load freed i = none

-- A write to `storage_packet[i]`, which follows a read of it.
abbrev pub store : Store → ℕ → StoragePacket → Store
store null i p = null
store (live slots) i p = live (set slots i p)
store freed i p = freed

-- `if (storage_packet) delete[] storage_packet;`
abbrev pub release : Store → Option Store
release null = some null
release (live slots) = some freed
release freed = none

abbrev pub blank : StoragePacket
blank = record { lidar_type = 0; handle = 0; base_time = 0; points_num = 0; points = List.[] }

-- `IsPowerOf2`; `size - 1` is reached at a positive size only.
unfoldable pub is_power_of_2 : ℕ → Bool
is_power_of_2 size = not (size == 0) && (bit_and size (size - 1) == 0)

-- The loop of `RoundupPowerOf2` with its rounds left, from bit `i` on.
unfoldable pub roundup_from : ℕ → ℕ → ℕ → ℕ → ℕ
roundup_from zero i power2_val size = power2_val
roundup_from (suc rounds) i power2_val size = elim (leb size (2 ^ i)) [
  | true ↦ 2 ^ i
  | false ↦ roundup_from rounds (i + 1) (2 ^ i) size
]

-- `RoundupPowerOf2`
unfoldable pub roundup_power_of_2 : ℕ → ℕ
unfolding roundup_from
roundup_power_of_2 size = roundup_from 32 0 0 size

-- The size that `InitQueue` gives the array.
unfoldable pub queue_capacity : ℕ → ℕ
unfolding is_power_of_2 roundup_power_of_2
queue_capacity queue_size =
    if is_power_of_2 queue_size then queue_size else roundup_power_of_2 queue_size

-- `InitQueue`
unfoldable pub init_queue : LidarDataQueue → ℕ → Option LidarDataQueue
init_queue queue queue_size = do
  _ ← release queue.storage_packet
  some (record {
    storage_packet = live (replicate (queue_capacity queue_size) blank);
    rd_idx = 0;
    wr_idx = 0;
    mask = queue_capacity queue_size - 1;
    size = queue_capacity queue_size;
  })

-- `DeInitQueue`, which leaves the pointer as it is.
unfoldable pub de_init_queue : LidarDataQueue → Option LidarDataQueue
de_init_queue queue = do
  gone ← release queue.storage_packet
  some (record { storage_packet = gone; rd_idx = 0; wr_idx = 0; mask = 0; size = 0 })

-- `ResetQueue`
unfoldable pub reset_queue : LidarDataQueue → LidarDataQueue
reset_queue queue = record queue { rd_idx = 0; wr_idx = 0 }

-- `QueueUsedSize`, on 32 bits
abbrev pub queue_used_size : LidarDataQueue → ℕ
queue_used_size queue = (queue.wr_idx + 2 ^ 32 - queue.rd_idx) % 2 ^ 32

-- `QueueUnusedSize`
unfoldable pub queue_unused_size : LidarDataQueue → ℕ
queue_unused_size queue = (queue.size + 2 ^ 32 - queue_used_size queue) % 2 ^ 32

-- `QueueIsFull`
unfoldable pub queue_is_full : LidarDataQueue → Bool
queue_is_full queue = ltb queue.mask (queue_used_size queue)

-- `QueueIsEmpty`
unfoldable pub queue_is_empty : LidarDataQueue → Bool
queue_is_empty queue = queue.rd_idx == queue.wr_idx

-- The `memcpy` of `n` points: reading past the source is undefined.
unfoldable pub copy_points {ℓ} : {A : Type ℓ} → ℕ → List A → Option (List A)
copy_points n points = if leb n (length points) then some (take n points) else none

-- `QueuePrePop`: the flag, and what `*storage_packet` holds afterwards.
unfoldable pub queue_pre_pop : LidarDataQueue → StoragePacket → Option (Bool × StoragePacket)
unfolding queue_is_empty copy_points
queue_pre_pop queue out = if queue_is_empty queue then some (false, out) else do
  slot ← load queue.storage_packet (bit_and queue.rd_idx queue.mask)
  copied ← copy_points slot.points_num slot.points
  some (
    true,
    record out { base_time = slot.base_time; points_num = slot.points_num; points = copied },
  )

-- `QueuePopUpdate`
abbrev pub queue_pop_update : LidarDataQueue → LidarDataQueue
queue_pop_update queue = record queue { rd_idx = (queue.rd_idx + 1) % 2 ^ 32 }

-- `QueuePop`
unfoldable pub queue_pop :
    LidarDataQueue → StoragePacket → Option (Bool × StoragePacket × LidarDataQueue)
unfolding queue_pre_pop
queue_pop queue out = do
  (got, out') ← queue_pre_pop queue out
  some (if got then (true, out', queue_pop_update queue) else (false, out', queue))

-- `QueuePushAny`, given the packet that `data` points to; the slot keeps its other fields.
unfoldable pub queue_push_any : LidarDataQueue → PointPacket → ℕ → Option LidarDataQueue
unfolding copy_points
queue_push_any queue packet base_time = do
  slot ← load queue.storage_packet (bit_and queue.wr_idx queue.mask)
  copied ← copy_points packet.points_num packet.points
  let filled = record slot {
    base_time = base_time;
    points_num = packet.points_num;
    points = copied;
  }
  some (record queue {
    storage_packet = store queue.storage_packet (bit_and queue.wr_idx queue.mask) filled;
    wr_idx = (queue.wr_idx + 1) % 2 ^ 32;
  })
