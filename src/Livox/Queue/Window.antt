-- ===== src/Livox/Queue/Window.antt =====
-- What a valid point cloud ring holds, as a list: the window of its slots between the two running
-- indices, and how a write behind the window or a read at its front changes it.
use Prim.Native.Nat.{bit_and}
use mathlib.Core.Path.{ap₂}
use native.Mathlib.Nat.{
  mod-lt, mod-eq_of_lt, mod-add-mod, add-zero, mod-eq-sub-mod, pow-le-pow_right,
}
use native.Mathlib.Decide.{dec_lt}
use sensor_packages.Base.{
  ℕ, zero, suc, ◌+◌, ◌-◌, ◌^◌, ◌%◌, ◌≤◌, ◌<◌, ◌≡◌, ◌≢◌, refl, sym, ap, ◌∙◌, false, List, [], ◌∷◌,
  ◌++◌, some, length, set, get_elem?, get_or, take, arith, ◌==◌,
}
use sensor_packages.Base.Bits.{bit_and_mask, mod_word, pow-pos}
use sensor_packages.Livox.Types.{StoragePacket, PointXyzlt}
use sensor_packages.Livox.Queue.{
  LidarDataQueue, Store, live, null, freed, blank, load, queue_used_size, queue_is_full,
  copy_points,
}
use sensor_packages.Livox.Queue.Invariant.{IsValid, Filled}

-- What a reader learns of a packet.
pub record Entry : Type 0 where
  pub base_time : ℕ
  pub points : List PointXyzlt

abbrev pub entry : StoragePacket → Entry
entry p = record { base_time = p.base_time; points = p.points }

-- The `n` entries from the running index `h` on, in an array of `m` slots.
abbrev pub window : List StoragePacket → ℕ → ℕ → ℕ → List Entry
window slots m h zero = []
window slots m h (suc n) = entry (get_or slots (h % m) blank) ∷ window slots m (h + 1) n

abbrev pub slots_of : Store → List StoragePacket
slots_of null = []
slots_of (live slots) = slots
slots_of freed = []

-- The abstract queue, oldest entry first.
abbrev pub contents : LidarDataQueue → List Entry
contents q = window (slots_of q.storage_packet) q.size q.rd_idx (queue_used_size q)

pub window_shift :
    (slots : List StoragePacket) (m h h' n : ℕ)
    → h % m ≡ h' % m
    → window slots m h n ≡ window slots m h' n
window_shift slots m h h' zero e = refl
window_shift slots m h h' (suc n) e = ap₂ ◌∷◌ (ap (λ i. entry (get_or slots i blank)) e) (
    window_shift slots m (h + 1) (h' + 1) n
      (sym (mod-add-mod h m 1) ∙ ap (λ t. (t + 1) % m) e ∙ mod-add-mod h' m 1))

pub length-window : (slots : List StoragePacket) (m h n : ℕ) → length (window slots m h n) ≡ n
length-window slots m h zero = refl
length-window slots m h (suc n) = ap suc (length-window slots m (h + 1) n)

pub get_or-set_self :
    (ps : List StoragePacket) (i : ℕ) (p : StoragePacket)
    → i < length ps
    → get_or (set ps i p) i blank ≡ p
get_or-set_self [] i p h = absurd (omega arith)
get_or-set_self (x ∷ ps) zero p h = refl
get_or-set_self (x ∷ ps) (suc i) p h = get_or-set_self ps i p (omega arith)

pub get_or-set_ne :
    (ps : List StoragePacket) (i j : ℕ) (p : StoragePacket)
    → i ≢ j
    → get_or (set ps i p) j blank ≡ get_or ps j blank
get_or-set_ne [] i j p h = refl
get_or-set_ne (x ∷ ps) zero zero p h = absurd (h refl)
get_or-set_ne (x ∷ ps) zero (suc j) p h = refl
get_or-set_ne (x ∷ ps) (suc i) zero p h = refl
get_or-set_ne (x ∷ ps) (suc i) (suc j) p h = get_or-set_ne ps i j p (λ e. h (ap suc e))

get_elem?-get_or :
    (ps : List StoragePacket) (i : ℕ) → i < length ps → get_elem? ps i ≡ some (get_or ps i blank)
get_elem?-get_or [] i h = absurd (omega arith)
get_elem?-get_or (x ∷ ps) zero h = refl
get_elem?-get_or (x ∷ ps) (suc i) h = get_elem?-get_or ps i (omega arith)

-- Two running indices less than a lap apart name different slots.
pub lap_ne : (m h d : ℕ) → 0 < d → d < m → (h + d) % m ≢ h % m
lap_ne m h d hd hm e = go (dec_lt (h % m + d) m)
  where
    base : (h + d) % m ≡ (h % m + d) % m
    base = sym (mod-add-mod h m d)

    below : h % m < m
    below = mod-lt h (omega arith)

    go : Dec (h % m + d < m) → ⊥
    go (yes p) = omega (arith, base, mod-eq_of_lt p, e)
    go (no p) = omega (
      arith,
      base,
      e,
      mod-eq-sub-mod {n = h % m + d} {m = m} (omega arith),
      mod-eq_of_lt {n = h % m + d - m} {m = m} (omega arith),
    )

-- A write behind the window extends it by one entry.
pub window-set :
    (slots : List StoragePacket) (m h n : ℕ) (p : StoragePacket)
    → length slots ≡ m
    → n < m
    → window (set slots ((h + n) % m) p) m h (suc n) ≡ window slots m h n ++ entry p ∷ []
window-set slots m h zero p e lt =
    rw (add-zero, get_or-set_self slots (h % m) p (omega (arith, mod-lt h {m = m} (omega arith))))
window-set slots m h (suc n) p e lt =
    ap₂ ◌∷◌
      (ap entry
        (get_or-set_ne slots ((h + suc n) % m) (h % m) p (lap_ne m h (suc n) (omega arith) lt)))
      (ap (λ i. window (set slots (i % m) p) m (h + 1) (suc n)) shift
        ∙ window-set slots m (h + 1) n p e (omega arith))
  where
    shift : h + suc n ≡ h + 1 + n
    shift = omega arith

-- A write behind the window leaves it as it is.
pub window-set_outside :
    (slots : List StoragePacket) (m h d n : ℕ) (p : StoragePacket)
    → n ≤ d
    → d < m
    → window (set slots ((h + d) % m) p) m h n ≡ window slots m h n
window-set_outside slots m h d zero p le lt = refl
window-set_outside slots m h zero (suc n) p le lt = absurd (omega arith)
window-set_outside slots m h (suc d) (suc n) p le lt =
    ap₂ ◌∷◌
      (ap entry
        (get_or-set_ne slots ((h + suc d) % m) (h % m) p (lap_ne m h (suc d) (omega arith) lt)))
      (ap (λ i. window (set slots (i % m) p) m (h + 1) n) shift
        ∙ window-set_outside slots m (h + 1) d n p (omega arith) (omega arith))
  where
    shift : h + suc d ≡ h + 1 + d
    shift = omega arith

-- The window of one more entry ends with the slot behind the window.
pub window-snoc :
    (slots : List StoragePacket) (m h n : ℕ)
    → window slots m h (suc n) ≡ window slots m h n ++ entry (get_or slots ((h + n) % m) blank) ∷ []
window-snoc slots m h zero = rw (add-zero h)
window-snoc slots m h (suc n) =
    ap (λ l. entry (get_or slots (h % m) blank) ∷ l)
      (window-snoc slots m (h + 1) n
        ∙ ap (λ i. window slots m (h + 1) n ++ entry (get_or slots (i % m) blank) ∷ []) shift)
  where
    shift : h + 1 + n ≡ h + suc n
    shift = omega arith

module _ {q : LidarDataQueue} (v : IsValid q) where
  open v use {bits, slots}

  -- The masked index is the remainder by the number of slots.
  pub slot_index : (i : ℕ) → bit_and i q.mask ≡ i % 2 ^ bits
  slot_index i = rw v.mask_ones (bit_and_mask bits i)

  pub slot_index-lt : (i : ℕ) → bit_and i q.mask < length slots
  slot_index-lt i = omega (arith, slot_index i, mod-lt i (pow-pos bits), v.count)

  -- The next index to write is the read index and what is used, on 32 bits.
  wr_idx_eq : q.wr_idx ≡ (q.rd_idx + queue_used_size q) % 2 ^ 32
  wr_idx_eq = omega (arith, v.rd_word, v.wr_word)

  pub wr_slot : bit_and q.wr_idx q.mask ≡ (q.rd_idx + queue_used_size q) % 2 ^ bits
  wr_slot =
      slot_index q.wr_idx
      ∙ ap (λ i. i % 2 ^ bits) wr_idx_eq
      ∙ mod_word bits (q.rd_idx + queue_used_size q) (omega (arith, v.bits_le))

  pub contents-slots : contents q ≡ window slots (2 ^ bits) q.rd_idx (queue_used_size q)
  contents-slots = rw (v.storage, v.size_pow)

  -- `QueueIsFull` is the test that every slot is used.
  pub is_full-false : queue_is_full q ≡ false → queue_used_size q < 2 ^ bits
  unfolding queue_is_full
  is_full-false h = ground (arith, v.mask_ones, pow-pos bits)

  pub loaded :
      (i : ℕ)
      → load q.storage_packet (bit_and i q.mask) ≡ some (get_or slots (bit_and i q.mask) blank)
  loaded i = rw v.storage (get_elem?-get_or slots (bit_and i q.mask) (slot_index-lt i))

pub pow_bound : (k : ℕ) → k ≤ 31 → 2 ^ k ≤ 2 ^ 31
pow_bound k h = pow-le-pow_right {n = 2} (omega arith) h

pub take_all-length : {A : Type 0} (n : ℕ) (xs : List A) → n ≤ length xs → length (take n xs) ≡ n
take_all-length zero xs h = refl
take_all-length (suc n) [] h = absurd (omega arith)
take_all-length (suc n) (x ∷ xs) h = ap suc (take_all-length n xs (omega arith))

pub copy_points-some :
    (n : ℕ) (xs : List PointXyzlt) → n ≤ length xs → copy_points n xs ≡ some (take n xs)
unfolding copy_points
copy_points-some n xs h = ground arith

pub not_eq : {a b : ℕ} → a ≢ b → (a == b) ≡ false
not_eq ne = ground arith

pub Filled-get :
    (ps : List StoragePacket) (i : ℕ)
    → Filled ps
    → length (get_or ps i blank).points ≡ (get_or ps i blank).points_num
Filled-get [] i f = refl
Filled-get (p ∷ ps) zero f = f.0
Filled-get (p ∷ ps) (suc i) f = Filled-get ps i f.1

pub take-length : (n : ℕ) (xs : List PointXyzlt) → length xs ≡ n → take n xs ≡ xs
take-length zero [] e = refl
take-length zero (x ∷ xs) e = absurd (omega arith)
take-length (suc n) [] e = refl
take-length (suc n) (x ∷ xs) e = ap (λ l. x ∷ l) (take-length n xs (omega arith))
