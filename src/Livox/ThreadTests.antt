-- ===== src/Livox/ThreadTests.antt =====
-- Runs of the two threads that share a point cloud ring, and the theorems about them at such a run.
use Prim.Native.Nat.{bit_and}
use sensor_packages.Base.{ℕ, ◌-◌, ◌^◌, ◌≡◌, ◌≢◌, refl, false, not, [], ◌∷◌, ◌++◌, some, arith}
use sensor_packages.Base.Fault.{Ensures}
use sensor_packages.Livox.Types.{PointPacket, StoragePacket, PointXyzlt}
use sensor_packages.Livox.Queue.{
  LidarDataQueue, live, blank, queue_is_empty, queue_is_full, queue_pre_pop,
}
use sensor_packages.Livox.Queue.Invariant.{IsValid}
use sensor_packages.Livox.Queue.Window.{contents}
use sensor_packages.Livox.Queue.Refine.{packet_entry}
use sensor_packages.Livox.Queue.Threads.{
  fill_slot, next_write, Threads, away, admitted, idle, copied, admit, write, advance, copy, update,
  Reach, here, next,
}
use sensor_packages.Livox.Queue.Threads.Fifo.{Reach-received, Reach-other_slot, Reach-calls}

abbrev point : PointXyzlt
point = record { x = 1; y = 2; z = 3; intensity = 4; tag = 5; line = 6; offset_time = 7 }

abbrev packet : PointPacket
packet = record { handle = 100; lidar_type = 8; points_num = 1; points = point ∷ [] }

abbrev slot : ℕ → StoragePacket
slot t = record blank { base_time = t; points_num = 1; points = point ∷ [] }

-- Two empty slots, with the indices about to wrap.
abbrev ring : LidarDataQueue
ring = record {
  storage_packet = live (blank ∷ blank ∷ []);
  rd_idx = 2 ^ 32 - 1;
  wr_idx = 2 ^ 32 - 1;
  mask = 1;
  size = 2;
}

abbrev ring-IsValid : IsValid ring
ring-IsValid = record {
  bits = 1;
  slots = blank ∷ blank ∷ [];
  bits_le = omega arith;
  storage = refl;
  size_pow = refl;
  mask_ones = refl;
  count = refl;
  rd_word = omega arith;
  wr_word = omega arith;
  used = omega arith;
  filled = (refl, (refl, tt));
}

abbrev ring1 : LidarDataQueue
ring1 = record ring { storage_packet = live (blank ∷ slot 20 ∷ []) }

-- One packet is pushed, a second is admitted, and the first is copied but not yet released.
abbrev middle : Threads
middle = record {
  ring = record ring1 { wr_idx = 0 };
  pusher = admitted packet 30;
  popper = copied (slot 20);
  sent = packet_entry packet 20 ∷ [];
  received = [];
}

middle-Reach : Reach ring middle
unfolding queue_is_full fill_slot queue_pre_pop
middle-Reach =
    next
      (next
        (next
          (next (next here (admit refl (omega arith) refl))
            (write {p = packet} {t = 20} {r = ring1} refl refl))
          (advance refl))
        (copy refl refl))
      (admit refl (omega arith) refl)

-- The second packet is written over the wrap before the first is released.
abbrev later : Threads
later = record {
  ring = record ring { storage_packet = live (slot 30 ∷ slot 20 ∷ []); rd_idx = 0; wr_idx = 1 };
  pusher = away;
  popper = idle;
  sent = packet_entry packet 20 ∷ packet_entry packet 30 ∷ [];
  received = packet_entry packet 20 ∷ [];
}

later-Reach : Reach ring later
unfolding fill_slot
later-Reach =
    next
      (next
        (next middle-Reach (
          write {p = packet} {t = 30}
            {r = record ring { storage_packet = live (slot 30 ∷ slot 20 ∷ []); wr_idx = 0 }} refl
            refl))
        (update {pkg = slot 20} refl))
      (advance refl)

Reach-received_example : IsValid later.ring × (later.sent ≡ later.received ++ contents later.ring)
Reach-received_example = Reach-received ring-IsValid refl later-Reach

some_left : queue_is_empty middle.ring ≡ false
unfolding queue_is_empty
some_left = refl

Reach-other_slot_example :
    bit_and middle.ring.wr_idx middle.ring.mask ≢ bit_and middle.ring.rd_idx middle.ring.mask
Reach-other_slot_example = Reach-other_slot ring-IsValid refl middle-Reach refl some_left

Reach-calls_example :
    Ensures IsValid (next_write middle.pusher middle.ring)
    × ((pkg : StoragePacket) × (queue_pre_pop middle.ring blank
          ≡ some (not (queue_is_empty middle.ring), pkg)))
Reach-calls_example = Reach-calls ring-IsValid refl middle-Reach
