-- ===== src/Livox/Queue/Threads/Ring.antt =====
-- The point cloud ring between two steps of the threads that share it: a slot is written before the
-- index is advanced, and a packet is copied before it is released.
use Prim.Native.Nat.{bit_and}
use mathlib.Core.Path.{ap₂}
use native.Mathlib.Decide.{ℕ_discrete}
use native.Mathlib.Nat.{le_of_eq}
use mathlib.Core.Option.{some-injective}
use mathlib.Core.Bool.{false≢true}
use sensor_packages.Base.{
  ltb, ◌==◌, ℕ, suc, ◌+◌, ◌-◌, ◌^◌, ◌%◌, ◌≤◌, ◌<◌, ◌≡◌, ◌≢◌, refl, sym, ap, ◌∙◌, true, false, not,
  List, [], ◌∷◌, ◌++◌, some, length, length-set, set, get_or, arith,
}
use sensor_packages.Base.Fault.{◌>>=◌}
use sensor_packages.Livox.Types.{PointPacket, StoragePacket}
use sensor_packages.Livox.Queue.{
  LidarDataQueue, live, blank, queue_used_size, queue_is_full, queue_is_empty, queue_push_any,
  queue_pre_pop, queue_pop_update,
}
use sensor_packages.Livox.Queue.Invariant.{IsValid, Filled-set}
use sensor_packages.Livox.Queue.Window.{
  Entry, entry, window, slots_of, contents, window-set_outside, window-snoc, wr_slot, slot_index-lt,
  slot_index, lap_ne, get_or-set_self, length-window, loaded, pow_bound, take_all-length,
  copy_points-some, not_eq, Filled-get, contents-slots, is_full-false,
}
use sensor_packages.Livox.Queue.Refine.{
  packet_entry, filled_slot, front, front-points, popped, popped-used, contents-front,
}
use sensor_packages.Livox.Queue.Threads.{fill_slot, advance_wr}

-- `QueuePushAny` is the write of the slot and the update of the index.
pub push_any-fill_slot :
    (q : LidarDataQueue) (p : PointPacket) (t : ℕ)
    → queue_push_any q p t ≡ (fill_slot q p t >>= λ r. some (advance_wr r))
unfolding queue_push_any fill_slot
push_any-fill_slot q p t = ground arith

module _ {q : LidarDataQueue} (v : IsValid q) (p : PointPacket) (t : ℕ) where
  open v use {bits, slots}

  abbrev at : ℕ
  at = bit_and q.wr_idx q.mask

  abbrev pub filled_ring : LidarDataQueue
  filled_ring = record q {
    storage_packet = live (set slots at (filled_slot (get_or slots at blank) p t));
  }

  pub fill_slot-filled_ring : p.points_num ≤ length p.points → fill_slot q p t ≡ some filled_ring
  unfolding fill_slot
  fill_slot-filled_ring h =
      rw (loaded v q.wr_idx, ◌>>=◌, copy_points-some p.points_num p.points h, v.storage) refl

  pub filled_ring-IsValid : p.points_num ≤ length p.points → IsValid filled_ring
  filled_ring-IsValid h = record {
    bits = bits;
    slots = set slots at (filled_slot (get_or slots at blank) p t);
    bits_le = v.bits_le;
    storage = refl;
    size_pow = v.size_pow;
    mask_ones = v.mask_ones;
    count = length-set slots at _ ∙ v.count;
    rd_word = v.rd_word;
    wr_word = v.wr_word;
    used = v.used;
    filled = Filled-set slots at _ (take_all-length p.points_num p.points h) v.filled;
  }

  pub contents-filled_ring : queue_is_full q ≡ false → contents filled_ring ≡ contents q
  contents-filled_ring room =
      ap₂
        (λ m i.
          window (set slots i (filled_slot (get_or slots at blank) p t)) m q.rd_idx
            (queue_used_size q))
        v.size_pow (wr_slot v)
      ∙ window-set_outside slots (2 ^ bits) q.rd_idx (queue_used_size q) (queue_used_size q) _
          (omega arith) (is_full-false v room)
      ∙ sym (contents-slots v)

  pub filled_ring-room : queue_is_full q ≡ false → queue_is_full filled_ring ≡ false
  unfolding queue_is_full
  filled_ring-room room = room

  at-lt : at < length slots
  at-lt = slot_index-lt v q.wr_idx

-- What stands in the slot that is written next.
abbrev pub behind : LidarDataQueue → Entry
behind q = entry (get_or (slots_of q.storage_packet) (bit_and q.wr_idx q.mask) blank)

pub behind-filled_ring :
    {q : LidarDataQueue} (v : IsValid q) (p : PointPacket) (t : ℕ)
    → behind (filled_ring v p t) ≡ packet_entry p t
behind-filled_ring v p t = ap entry (get_or-set_self v.slots (at v p t) _ (at-lt v p t))

module _ {q : LidarDataQueue} (v : IsValid q) (room : queue_is_full q ≡ false) where
  open v use {bits, slots}

  used-advance_wr : queue_used_size (advance_wr q) ≡ suc (queue_used_size q)
  used-advance_wr =
      omega (arith, is_full-false v room, pow_bound bits v.bits_le, v.rd_word, v.wr_word)

  pub advance_wr-IsValid : IsValid (advance_wr q)
  advance_wr-IsValid = record {
    bits = bits;
    slots = slots;
    bits_le = v.bits_le;
    storage = v.storage;
    size_pow = v.size_pow;
    mask_ones = v.mask_ones;
    count = v.count;
    rd_word = v.rd_word;
    wr_word = omega arith;
    used = omega (arith, used-advance_wr, is_full-false v room);
    filled = v.filled;
  }

  pub contents-advance_wr : contents (advance_wr q) ≡ contents q ++ behind q ∷ []
  unfolding advance_wr-IsValid
  contents-advance_wr =
      contents-slots advance_wr-IsValid
      ∙ ap (λ n. window slots (2 ^ bits) q.rd_idx n) used-advance_wr
      ∙ window-snoc slots (2 ^ bits) q.rd_idx (queue_used_size q)
      ∙ ap₂ (λ l e. l ++ e ∷ []) (sym (contents-slots v)) last
    where
      last : entry (get_or slots ((q.rd_idx + queue_used_size q) % 2 ^ bits) blank) ≡ behind q
      last =
          ap (λ i. entry (get_or slots i blank)) (sym (wr_slot v))
          ∙ ap (λ s. entry (get_or (slots_of s) (bit_and q.wr_idx q.mask) blank)) (sym v.storage)

module _ {q : LidarDataQueue} (v : IsValid q) where
  open v use {bits, slots}

  full_used : queue_is_full q ≡ ltb (2 ^ bits - 1) (queue_used_size q)
  unfolding queue_is_full
  full_used = ap (λ m. ltb m (queue_used_size q)) v.mask_ones

  -- A queue with an entry does not have equal indices.
  pub nonempty-ne : {e : Entry} {es : List Entry} → contents q ≡ e ∷ es → q.rd_idx ≢ q.wr_idx
  nonempty-ne c eq = omega (
    arith,
    v.rd_word,
    v.wr_word,
    sym (length-window (slots_of q.storage_packet) q.size q.rd_idx (queue_used_size q))
        ∙ ap length c,
  )

  -- A pop makes no full queue.
  pub pop_update-room :
      q.rd_idx ≢ q.wr_idx → queue_is_full q ≡ false → queue_is_full (queue_pop_update q) ≡ false
  unfolding queue_is_full
  pop_update-room ne room = ground (arith, popped-used v blank ne)

  pub pre_pop-empty : q.rd_idx ≡ q.wr_idx → queue_pre_pop q blank ≡ some (false, blank)
  unfolding queue_pre_pop
  pre_pop-empty e = ground arith

  pub pre_pop-popped : q.rd_idx ≢ q.wr_idx → queue_pre_pop q blank ≡ some (true, popped v blank)
  unfolding queue_pre_pop queue_is_empty
  pre_pop-popped ne =
      rw
        (
          not_eq ne,
          loaded v q.rd_idx,
          ◌>>=◌,
          copy_points-some (front v blank).points_num (front v blank).points
              (le_of_eq (sym (Filled-get slots (bit_and q.rd_idx q.mask) v.filled))),
        )
        refl

  -- The packet that `QueuePrePop` copies is the oldest entry.
  pub pre_pop-front :
      (pkg : StoragePacket)
      → queue_pre_pop q blank ≡ some (true, pkg)
      → (q.rd_idx ≢ q.wr_idx) × (contents q ≡ entry pkg ∷ contents (queue_pop_update q))
  pre_pop-front pkg e = elim (ℕ_discrete q.rd_idx q.wr_idx) [
    | yes same ↦
        absurd (false≢true (ap (λ r. r.0) (some-injective _ _ (sym (pre_pop-empty same) ∙ e))))
    | no ne ↦ (
      ne,
      contents-front v blank ne
          ∙ ap (λ x. x ∷ contents (queue_pop_update q))
              (λ i. record {
                base_time = (front v blank).base_time;
                points = sym (front-points v blank) i;
              })
          ∙ ap (λ r. entry (r.1) ∷ contents (queue_pop_update q))
              (some-injective _ _ (sym (pre_pop-popped ne) ∙ e)),
    )
  ]

used-pos : {q : LidarDataQueue} → IsValid q → queue_is_empty q ≡ false → 0 < queue_used_size q
unfolding queue_is_empty
used-pos v h = ground (arith, v.rd_word, v.wr_word)

is_eq : {a b : ℕ} → a ≡ b → (a == b) ≡ true
is_eq e = ground arith

module _ {q : LidarDataQueue} (v : IsValid q) where
  open v use {bits}

  -- The slot that is written next is not the slot that is read next, on a ring neither full nor empty.
  pub slots-apart :
      queue_is_full q ≡ false
      → queue_is_empty q ≡ false
      → bit_and q.wr_idx q.mask ≢ bit_and q.rd_idx q.mask
  slots-apart room filled =
      rw (wr_slot v, slot_index v q.rd_idx)
        (lap_ne (2 ^ bits) q.rd_idx (queue_used_size q) (used-pos v filled) (is_full-false v room))

  -- `QueuePrePop` returns, with the flag that the ring is not empty.
  pub pre_pop-total :
      (pkg : StoragePacket) × (queue_pre_pop q blank ≡ some (not (queue_is_empty q), pkg))
  unfolding queue_is_empty
  pre_pop-total = elim (ℕ_discrete q.rd_idx q.wr_idx) [
    | yes e ↦ (blank, pre_pop-empty v e ∙ ap (λ b. some (not b, blank)) (sym (is_eq e)))
    | no ne ↦ (
      popped v blank,
      pre_pop-popped v ne ∙ ap (λ b. some (not b, popped v blank)) (sym (not_eq ne)),
    )
  ]
