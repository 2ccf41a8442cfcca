-- ===== src/Livox/Queue/Refine.antt =====
-- A valid point cloud ring behaves as the first-in first-out list of what it holds, also where the
-- 32-bit indices wrap.
use Prim.Native.Nat.{bit_and}
use mathlib.Core.Path.{ap₂}
use native.Mathlib.Nat.{le_of_eq}
use native.Mathlib.Decide.{ℕ_discrete}
use sensor_packages.Base.{
  ℕ, suc, ◌+◌, ◌^◌, ◌%◌, ◌≤◌, ◌≡◌, ◌≢◌, refl, sym, ap, ◌∙◌, Bool, true, false, List, [], ◌∷◌, ◌++◌,
  some, length, length-set, set, get_or, take, arith,
}
use sensor_packages.Base.Bits.{mod_word}
use sensor_packages.Base.Fault.{Ensures, ◌>>=◌}
use sensor_packages.Livox.Types.{PointPacket, StoragePacket}
use sensor_packages.Livox.Queue.{
  LidarDataQueue, live, blank, queue_used_size, queue_is_full, queue_is_empty, queue_push_any,
  queue_pop, queue_pop_update,
}
use sensor_packages.Livox.Queue.Invariant.{IsValid, Filled-set}
use sensor_packages.Livox.Queue.Window.{
  Entry, entry, window, contents, window_shift, window-set, slot_index, wr_slot, loaded, pow_bound,
  take_all-length, copy_points-some, not_eq, Filled-get, take-length, contents-slots, is_full-false,
}

-- The slot that `QueuePushAny` fills.
abbrev pub filled_slot : StoragePacket → PointPacket → ℕ → StoragePacket
filled_slot slot p t = record slot {
  base_time = t;
  points_num = p.points_num;
  points = take p.points_num p.points;
}

abbrev pub packet_entry : PointPacket → ℕ → Entry
packet_entry p t = record { base_time = t; points = take p.points_num p.points }

module _ {q : LidarDataQueue} (v : IsValid q) (p : PointPacket) (t : ℕ) where
  open v use {bits, slots}

  abbrev at : ℕ
  at = bit_and q.wr_idx q.mask

  abbrev new_slot : StoragePacket
  new_slot = filled_slot (get_or slots at blank) p t

  abbrev pushed : LidarDataQueue
  pushed = record q {
    storage_packet = live (set slots at new_slot);
    wr_idx = (q.wr_idx + 1) % 2 ^ 32;
  }

  push-pushed : p.points_num ≤ length p.points → queue_push_any q p t ≡ some pushed
  unfolding queue_push_any
  push-pushed h =
      rw (loaded v q.wr_idx, ◌>>=◌, copy_points-some p.points_num p.points h, v.storage) refl

  used-pushed : queue_is_full q ≡ false → queue_used_size pushed ≡ suc (queue_used_size q)
  used-pushed room =
      omega (arith, is_full-false v room, pow_bound bits v.bits_le, v.rd_word, v.wr_word)

  pushed-IsValid : p.points_num ≤ length p.points → queue_is_full q ≡ false → IsValid pushed
  pushed-IsValid h room = record {
    bits = bits;
    slots = set slots at new_slot;
    bits_le = v.bits_le;
    storage = refl;
    size_pow = v.size_pow;
    mask_ones = v.mask_ones;
    count = length-set slots at new_slot ∙ v.count;
    rd_word = v.rd_word;
    wr_word = omega arith;
    used = omega (arith, used-pushed room, is_full-false v room);
    filled = Filled-set slots at new_slot (take_all-length p.points_num p.points h) v.filled;
  }

  contents-pushed : queue_is_full q ≡ false → contents pushed ≡ contents q ++ packet_entry p t ∷ []
  contents-pushed room =
      ap₂ (λ m n. window (set slots at new_slot) m q.rd_idx n) v.size_pow (used-pushed room)
      ∙ ap (λ i. window (set slots i new_slot) (2 ^ bits) q.rd_idx (suc (queue_used_size q)))
          (wr_slot v)
      ∙ window-set slots (2 ^ bits) q.rd_idx (queue_used_size q) new_slot v.count
          (is_full-false v room)
      ∙ ap (λ l. l ++ packet_entry p t ∷ []) (sym (contents-slots v))

  -- `QueuePushAny` on a valid queue that is not full, with a packet whose memory holds the points that
  -- it counts: no undefined behaviour, a valid queue, and the packet behind all that was queued.
  pub queue_push_any-contents :
      p.points_num ≤ length p.points
      → queue_is_full q ≡ false
      → Ensures
          (λ r. IsValid r × (contents r ≡ contents q ++ packet_entry p t ∷ []))
          (queue_push_any q p t)
  queue_push_any-contents h room = rw (push-pushed h) (pushed-IsValid h room, contents-pushed room)

-- The packet that a pop makes of `out`.
abbrev pub packet_of : StoragePacket → Entry → StoragePacket
packet_of out e = record out {
  base_time = e.base_time;
  points_num = length e.points;
  points = e.points;
}

-- What `QueuePop` does for each abstract queue: the flag, the packet that it fills, and the rest.
abbrev pub Popped :
    LidarDataQueue → StoragePacket → List Entry → Bool × StoragePacket × LidarDataQueue → Type 0
Popped q out [] (got, out', q') = (got ≡ false) × (out' ≡ out) × (q' ≡ q)
Popped q out (e ∷ es) (got, out', q') =
    (got ≡ true) × (out' ≡ packet_of out e) × (contents q' ≡ es) × IsValid q'

module _ {q : LidarDataQueue} (v : IsValid q) (out : StoragePacket) where
  open v use {bits, slots}

  abbrev pub front : StoragePacket
  front = get_or slots (bit_and q.rd_idx q.mask) blank

  abbrev pub popped : StoragePacket
  popped = record out {
    base_time = front.base_time;
    points_num = front.points_num;
    points = take front.points_num front.points;
  }

  pop-empty : q.rd_idx ≡ q.wr_idx → queue_pop q out ≡ some (false, out, q)
  unfolding queue_pop
  pop-empty e = ground arith

  pop-popped : q.rd_idx ≢ q.wr_idx → queue_pop q out ≡ some (true, popped, queue_pop_update q)
  unfolding queue_pop queue_is_empty
  pop-popped ne =
      rw
        (
          not_eq ne,
          loaded v q.rd_idx,
          ◌>>=◌,
          copy_points-some front.points_num front.points
              (le_of_eq (sym (Filled-get slots (bit_and q.rd_idx q.mask) v.filled))),
        )
        refl

  pub front-points : take front.points_num front.points ≡ front.points
  front-points = take-length front.points_num front.points (Filled-get slots _ v.filled)

  popped_index : (q.rd_idx + 1) % 2 ^ 32 % 2 ^ bits ≡ (q.rd_idx + 1) % 2 ^ bits
  popped_index = mod_word bits (q.rd_idx + 1) (omega (arith, v.bits_le))

  pub popped-used :
      q.rd_idx ≢ q.wr_idx → queue_used_size q ≡ suc (queue_used_size (queue_pop_update q))
  popped-used ne = omega (arith, v.rd_word, v.wr_word)

  pub popped-IsValid : q.rd_idx ≢ q.wr_idx → IsValid (queue_pop_update q)
  popped-IsValid ne = record {
    bits = bits;
    slots = slots;
    bits_le = v.bits_le;
    storage = v.storage;
    size_pow = v.size_pow;
    mask_ones = v.mask_ones;
    count = v.count;
    rd_word = omega arith;
    wr_word = v.wr_word;
    used = omega (arith, v.used, popped-used ne);
    filled = v.filled;
  }

  pub contents-front :
      q.rd_idx ≢ q.wr_idx → contents q ≡ entry front ∷ contents (queue_pop_update q)
  unfolding popped-IsValid
  contents-front ne =
      contents-slots v
      ∙ ap (λ n. window slots (2 ^ bits) q.rd_idx n) (popped-used ne)
      ∙ ap₂ ◌∷◌ (ap (λ i. entry (get_or slots i blank)) (sym (slot_index v q.rd_idx))) (
          window_shift slots (2 ^ bits) (q.rd_idx + 1) ((q.rd_idx + 1) % 2 ^ 32) _
            (sym popped_index))
      ∙ ap (λ l. entry front ∷ l) (sym (contents-slots (popped-IsValid ne)))

  popped-Popped :
      q.rd_idx ≢ q.wr_idx
      → Popped q out
          (entry front ∷ contents (queue_pop_update q))
          (true, popped, queue_pop_update q)
  popped-Popped ne = (
    refl,
    λ i. record out {
      base_time = front.base_time;
      points_num = sym (Filled-get slots (bit_and q.rd_idx q.mask) v.filled) i;
      points = front-points i;
    },
    refl,
    popped-IsValid ne,
  )

  -- `QueuePop` on a valid queue has no undefined behaviour. On an empty queue it returns false and
  -- changes neither argument; otherwise it returns true, fills the packet with the oldest entry, and
  -- leaves a valid queue of the others.
  pub queue_pop-Popped : Ensures (Popped q out (contents q)) (queue_pop q out)
  queue_pop-Popped = elim (ℕ_discrete q.rd_idx q.wr_idx) [
    | yes e ↦
        let none_used : queue_used_size q ≡ 0 = omega (arith, v.rd_word, v.wr_word) in
        rw (pop-empty e, contents-slots v, none_used) (refl, refl, refl)
    | no ne ↦ rw (pop-popped ne, contents-front ne) (popped-Popped ne)
  ]
