-- ===== src/Livox/Queue/Threads/Fifo.antt =====
-- What the two threads of a point cloud ring do to it in every interleaving of their steps.
use Prim.Native.Nat.{bit_and}
use mathlib.Core.Path.{subst}
use mathlib.Core.List.{append_assoc, append-nil, head-eq_of_cons-eq}
use mathlib.Core.Option.{some-injective}
use sensor_packages.Base.{
  ℕ, ◌≤◌, ◌≡◌, ◌≢◌, sym, ap, ◌∙◌, true, false, not, List, [], ◌∷◌, ◌++◌, some, length, arith,
}
use sensor_packages.Base.Fault.{Ensures}
use sensor_packages.Livox.Types.{PointPacket, StoragePacket}
use sensor_packages.Livox.Queue.{
  LidarDataQueue, blank, queue_used_size, queue_is_full, queue_is_empty, queue_pre_pop,
  queue_pop_update,
}
use sensor_packages.Livox.Queue.Invariant.{IsValid}
use sensor_packages.Livox.Queue.Window.{Entry, entry, window, slots_of, contents}
use sensor_packages.Livox.Queue.Refine.{packet_entry, front, popped-IsValid, contents-front}
use sensor_packages.Livox.Queue.Threads.{
  fill_slot, advance_wr, next_write, Pusher, away, admitted, written, Popper, idle, copied, Threads,
  Step, admit, refuse, write, advance, copy, nothing, update, start, Reach, here, next,
}
use sensor_packages.Livox.Queue.Threads.Ring.{
  filled_ring, fill_slot-filled_ring, filled_ring-IsValid, contents-filled_ring, behind,
  behind-filled_ring, filled_ring-room, advance_wr-IsValid, contents-advance_wr, nonempty-ne,
  pop_update-room, slots-apart, pre_pop-total, pre_pop-front,
}

-- What each thread relies on while it stands between two of its steps.
abbrev PusherOk : LidarDataQueue → Pusher → Type 0
PusherOk q away = Unit {0}
PusherOk q (admitted p t) = (p.points_num ≤ length p.points) × (queue_is_full q ≡ false)
PusherOk q (written p t) = (behind q ≡ packet_entry p t) × (queue_is_full q ≡ false)

abbrev PopperOk : LidarDataQueue → Popper → Type 0
PopperOk q idle = Unit {0}
PopperOk q (copied pkg) = (rest : List Entry) × (contents q ≡ entry pkg ∷ rest)

-- All that was pushed is what was popped, and then what the ring holds.
pub record Inv (s : Threads) : Type 0 where
  pub valid : IsValid s.ring
  pub fifo : s.sent ≡ s.received ++ contents s.ring
  pub pusher_ok : PusherOk s.ring s.pusher
  pub popper_ok : PopperOk s.ring s.popper

PopperOk-contents :
    (q r : LidarDataQueue) (at : Popper) → contents q ≡ contents r → PopperOk q at → PopperOk r at
PopperOk-contents q r idle e ok = tt
PopperOk-contents q r (copied pkg) e ok = (ok.0, sym e ∙ ok.1)

PopperOk-longer :
    (q r : LidarDataQueue) (l : List Entry) (at : Popper)
    → contents r ≡ contents q ++ l
    → PopperOk q at
    → PopperOk r at
PopperOk-longer q r l idle e ok = tt
PopperOk-longer q r l (copied pkg) e ok = (ok.0 ++ l, e ∙ ap (λ c. c ++ l) ok.1)

PusherOk-pop_update :
    {q : LidarDataQueue}
    → IsValid q
    → q.rd_idx ≢ q.wr_idx
    → (at : Pusher) → PusherOk q at
    → PusherOk (queue_pop_update q) at
PusherOk-pop_update v ne away ok = tt
PusherOk-pop_update v ne (admitted p t) ok = (ok.0, pop_update-room v ne ok.1)
PusherOk-pop_update v ne (written p t) ok = (ok.0, pop_update-room v ne ok.1)

module _ {s : Threads} (i : Inv s) where
  open i use {valid}

  Inv-write :
      {p : PointPacket} {t : ℕ} {r : LidarDataQueue}
      → s.pusher ≡ admitted p t
      → fill_slot s.ring p t ≡ some r
      → Inv (record s { ring = r; pusher = written p t })
  Inv-write {p = p} {t = t} e w =
      subst (λ r. Inv (record s { ring = r; pusher = written p t }))
        (some-injective _ _ (sym (fill_slot-filled_ring valid p t ok.0) ∙ w))
        (record {
          valid = filled_ring-IsValid valid p t ok.0;
          fifo = i.fifo ∙ ap (λ c. s.received ++ c) (sym same);
          pusher_ok = (behind-filled_ring valid p t, filled_ring-room valid p t ok.1);
          popper_ok =
              PopperOk-contents s.ring (filled_ring valid p t) s.popper (sym same) i.popper_ok;
        })
    where
      ok : PusherOk s.ring (admitted p t)
      ok = rw e at i.pusher_ok

      same : contents (filled_ring valid p t) ≡ contents s.ring
      same = contents-filled_ring valid p t ok.1

  Inv-advance :
      {p : PointPacket} {t : ℕ}
      → s.pusher ≡ written p t
      → Inv (record s {
        ring = advance_wr s.ring;
        pusher = away;
        sent = s.sent ++ packet_entry p t ∷ [];
      })
  Inv-advance {p = p} {t = t} e = record {
    valid = advance_wr-IsValid valid ok.1;
    fifo =
        ap (λ l. l ++ packet_entry p t ∷ []) i.fifo
        ∙ append_assoc s.received (contents s.ring) _
        ∙ ap (λ c. s.received ++ c) (sym longer);
    pusher_ok = tt;
    popper_ok =
        PopperOk-longer s.ring (advance_wr s.ring) (packet_entry p t ∷ []) s.popper longer
          i.popper_ok;
  }
    where
      ok : PusherOk s.ring (written p t)
      ok = rw e at i.pusher_ok

      longer : contents (advance_wr s.ring) ≡ contents s.ring ++ packet_entry p t ∷ []
      longer = contents-advance_wr valid ok.1 ∙ ap (λ x. contents s.ring ++ x ∷ []) ok.0

  Inv-update :
      {pkg : StoragePacket}
      → s.popper ≡ copied pkg
      → Inv (record s {
        ring = queue_pop_update s.ring;
        popper = idle;
        received = s.received ++ entry pkg ∷ [];
      })
  Inv-update {pkg = pkg} e = record {
    valid = popped-IsValid valid blank ne;
    fifo =
        i.fifo
        ∙ ap (λ c. s.received ++ c) oldest
        ∙ sym (append_assoc s.received (entry pkg ∷ []) (contents (queue_pop_update s.ring)));
    pusher_ok = PusherOk-pop_update valid ne s.pusher i.pusher_ok;
    popper_ok = tt;
  }
    where
      ok : PopperOk s.ring (copied pkg)
      ok = rw e at i.popper_ok

      ne : s.ring.rd_idx ≢ s.ring.wr_idx
      ne = nonempty-ne valid ok.1

      split : contents s.ring ≡ entry (front valid blank) ∷ contents (queue_pop_update s.ring)
      split = contents-front valid blank ne

      oldest : contents s.ring ≡ entry pkg ∷ contents (queue_pop_update s.ring)
      oldest =
          split
          ∙ ap (λ x. x ∷ contents (queue_pop_update s.ring)) (head-eq_of_cons-eq (sym split ∙ ok.1))

Step-Inv : {s t : Threads} → Inv s → Step s t → Inv t
Step-Inv i (admit e h room) = record {
  valid = i.valid;
  fifo = i.fifo;
  pusher_ok = (h, room);
  popper_ok = i.popper_ok;
}
Step-Inv i (refuse e full) = i
Step-Inv i (write e w) = Inv-write i e w
Step-Inv i (advance e) = Inv-advance i e
Step-Inv i (copy {pkg = pkg} e c) = record {
  valid = i.valid;
  fifo = i.fifo;
  pusher_ok = i.pusher_ok;
  popper_ok = (_, (pre_pop-front i.valid pkg c).1);
}
Step-Inv i (nothing e empty) = i
Step-Inv i (update e) = Inv-update i e

contents-empty : (q : LidarDataQueue) → queue_used_size q ≡ 0 → contents q ≡ []
contents-empty q e = ap (λ n. window (slots_of q.storage_packet) q.size q.rd_idx n) e

start-Inv : (q : LidarDataQueue) → IsValid q → queue_used_size q ≡ 0 → Inv (start q)
start-Inv q v e = record {
  valid = v;
  fifo = sym (contents-empty q e);
  pusher_ok = tt;
  popper_ok = tt;
}

Reach-Inv :
    {q : LidarDataQueue} {s : Threads} → IsValid q → queue_used_size q ≡ 0 → Reach q s → Inv s
Reach-Inv {q = q} v e here = start-Inv q v e
Reach-Inv v e (next r st) = Step-Inv (Reach-Inv v e r) st

used-empty : {q : LidarDataQueue} → IsValid q → queue_is_empty q ≡ true → queue_used_size q ≡ 0
unfolding queue_is_empty
used-empty v h = ground (arith, v.rd_word, v.wr_word)

-- In every state that the two threads reach from a valid, empty ring, in any interleaving of their
-- steps: the ring is valid, and the packets pushed so far are those popped so far followed by
-- those in the ring, in order, none lost, none twice.
pub Reach-received :
    {q : LidarDataQueue} {s : Threads}
    → IsValid q
    → queue_used_size q ≡ 0
    → Reach q s
    → IsValid s.ring × (s.sent ≡ s.received ++ contents s.ring)
Reach-received v e r = let i = Reach-Inv v e r in (i.valid, i.fifo)

-- Once the two threads have emptied a ring that was valid and empty at first, every pushed packet was
-- popped, in order.
Reach-drained :
    {q : LidarDataQueue} {s : Threads}
    → IsValid q
    → queue_used_size q ≡ 0
    → Reach q s
    → queue_is_empty s.ring ≡ true
    → s.received ≡ s.sent
Reach-drained {s = s} v e r empty =
    let i = Reach-Inv v e r in
    sym (
      i.fifo
      ∙ ap (λ c. s.received ++ c) (contents-empty s.ring (used-empty i.valid empty))
      ∙ append-nil s.received)

-- In every state that the two threads reach from a valid, empty ring: where the pushing thread is
-- about to write a slot and the ring is not empty, the publishing thread copies from another slot. So
-- no slot is written while it is read.
pub Reach-other_slot :
    {q : LidarDataQueue} {s : Threads} {p : PointPacket} {t : ℕ}
    → IsValid q
    → queue_used_size q ≡ 0
    → Reach q s
    → s.pusher ≡ admitted p t
    → queue_is_empty s.ring ≡ false
    → bit_and s.ring.wr_idx s.ring.mask ≢ bit_and s.ring.rd_idx s.ring.mask
Reach-other_slot {s = s} {p = p} {t = t} v e r at some_left =
    let i = Reach-Inv v e r in
    let ok : PusherOk s.ring (admitted p t) = rw at at i.pusher_ok in
    slots-apart i.valid ok.1 some_left

next_write-IsValid :
    {q : LidarDataQueue} (at : Pusher)
    → IsValid q
    → PusherOk q at
    → Ensures IsValid (next_write at q)
unfolding next_write
next_write-IsValid away v ok = v
next_write-IsValid (admitted p t) v ok =
    rw (fill_slot-filled_ring v p t ok.0) (filled_ring-IsValid v p t ok.0)
next_write-IsValid (written p t) v ok = advance_wr-IsValid v ok.1

-- In every state that the two threads reach from a valid, empty ring, what either does next has no
-- undefined behaviour: the write of the pushing thread succeeds and keeps the ring valid, and
-- `QueuePrePop` returns, with the flag that the ring is not empty.
pub Reach-calls :
    {q : LidarDataQueue} {s : Threads}
    → IsValid q
    → queue_used_size q ≡ 0
    → Reach q s
    → Ensures IsValid (next_write s.pusher s.ring)
      × ((pkg : StoragePacket) × (queue_pre_pop s.ring blank
            ≡ some (not (queue_is_empty s.ring), pkg)))
Reach-calls {s = s} v e r =
    let i = Reach-Inv v e r in
    (next_write-IsValid s.pusher i.valid i.pusher_ok, pre_pop-total i.valid)
