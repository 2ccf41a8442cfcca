-- ===== src/Livox/Queue/Threads.antt =====
-- The two threads that share a point cloud ring: the thread that pushes (`Lds::PushLidarData` of
-- livox_ros2/livox_driver/src/lds.cpp, the only writer of the slots and of `wr_idx`) and the one that
-- publishes (`QueuePop` of comm/ldq.cpp, the only writer of `rd_idx`). No lock is taken, so their steps
-- interleave in any order. A step is what lies between two updates of the shared indices; the steps
-- are seen in program order, as the volatile indices are meant to give.
pub mod Ring
pub mod Fifo
use Prim.Native.Nat.{bit_and}
use sensor_packages.Base.{
  ℕ, ◌+◌, ◌^◌, ◌%◌, ◌≤◌, ◌≡◌, true, false, List, [], ◌∷◌, ◌++◌, Option, some, length,
}
use sensor_packages.Base.Fault.{◌>>=◌}
use sensor_packages.Livox.Types.{PointPacket, StoragePacket}
use sensor_packages.Livox.Queue.{
  LidarDataQueue, load, store, blank, copy_points, queue_is_full, queue_is_empty, queue_pre_pop,
  queue_pop_update,
}
use sensor_packages.Livox.Queue.Window.{Entry, entry}
use sensor_packages.Livox.Queue.Refine.{packet_entry}

-- `QueuePushAny` up to its last statement: the slot is written, the index is not advanced.
unfoldable pub fill_slot : LidarDataQueue → PointPacket → ℕ → Option LidarDataQueue
unfolding copy_points
fill_slot queue packet base_time = do
  slot ← load queue.storage_packet (bit_and queue.wr_idx queue.mask)
  copied ← copy_points packet.points_num packet.points
  let filled = record slot {
    base_time = base_time;
    points_num = packet.points_num;
    points = copied;
  }
  some (record queue {
    storage_packet = store queue.storage_packet (bit_and queue.wr_idx queue.mask) filled;
  })

-- `queue->wr_idx++`
abbrev pub advance_wr : LidarDataQueue → LidarDataQueue
advance_wr queue = record queue { wr_idx = (queue.wr_idx + 1) % 2 ^ 32 }

-- Where the pushing thread stands: outside `PushLidarData`, behind its test for a full queue, or
-- behind the write of the slot.
pub data Pusher : Type 0 where
  away : Pusher
  admitted : PointPacket → ℕ → Pusher
  written : PointPacket → ℕ → Pusher

-- What the pushing thread does to the ring next.
unfoldable pub next_write : Pusher → LidarDataQueue → Option LidarDataQueue
unfolding fill_slot
next_write away queue = some queue
next_write (admitted packet base_time) queue = fill_slot queue packet base_time
next_write (written packet base_time) queue = some (advance_wr queue)

-- Where the publishing thread stands: before `QueuePop`, or between `QueuePrePop` and
-- `QueuePopUpdate`, with the packet that it copied.
pub data Popper : Type 0 where
  idle : Popper
  copied : StoragePacket → Popper

-- The shared ring, the threads, and what each has finished: the packets pushed and the packets popped.
pub record Threads : Type 0 where
  pub ring : LidarDataQueue
  pub pusher : Pusher
  pub popper : Popper
  pub sent : List Entry
  pub received : List Entry

pub data Step (s : Threads) : Threads → Type 0 where
  admit :
      {p : PointPacket} {t : ℕ}
      → s.pusher ≡ away
      → p.points_num ≤ length p.points
      → queue_is_full s.ring ≡ false
      → Step s (record s { pusher = admitted p t })
  refuse : s.pusher ≡ away → queue_is_full s.ring ≡ true → Step s s
  write :
      {p : PointPacket} {t : ℕ} {r : LidarDataQueue}
      → s.pusher ≡ admitted p t
      → fill_slot s.ring p t ≡ some r
      → Step s (record s { ring = r; pusher = written p t })
  advance :
      {p : PointPacket} {t : ℕ}
      → s.pusher ≡ written p t
      → Step s (record s {
        ring = advance_wr s.ring;
        pusher = away;
        sent = s.sent ++ packet_entry p t ∷ [];
      })
  copy :
      {pkg : StoragePacket}
      → s.popper ≡ idle
      → queue_pre_pop s.ring blank ≡ some (true, pkg)
      → Step s (record s { popper = copied pkg })
  nothing : s.popper ≡ idle → queue_is_empty s.ring ≡ true → Step s s
  update :
      {pkg : StoragePacket}
      → s.popper ≡ copied pkg
      → Step s (record s {
        ring = queue_pop_update s.ring;
        popper = idle;
        received = s.received ++ entry pkg ∷ [];
      })

-- The threads before their first step, on a ring that `InitQueue` made.
abbrev pub start : LidarDataQueue → Threads
start q = record { ring = q; pusher = away; popper = idle; sent = []; received = [] }

pub data Reach (q : LidarDataQueue) : Threads → Type 0 where
  here : Reach q (start q)
  next : {s t : Threads} → Reach q s → Step s t → Reach q t
