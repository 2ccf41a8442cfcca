-- ===== src/Livox/Queue/Invariant.antt =====
-- The representation invariant of the point cloud ring: a power of two of slots, a mask of ones, and
-- free-running indices of 32 bits that are at most the size apart.
use native.Mathlib.Nat.{add-zero, pow-suc, pow-le-pow_right}
use native.Mathlib.Decide.{dec_le}
use sensor_packages.Base.{
  ℕ, zero, suc, ◌+◌, ◌-◌, ◌^◌, ◌≤◌, ◌<◌, ◌≡◌, refl, ◌∙◌, ◌≢◌, true, false, List, [], ◌∷◌, some,
  length, set, replicate, length-replicate, arith, leb, Bool-cases, inl, inr, ◌⊎◌, leb→le, le→leb,
  if◌then◌else◌,
}
use sensor_packages.Base.Bits.{and_pred-pow, pow-pos}
use sensor_packages.Base.Fault.{Ensures, ◌>>=◌}
use sensor_packages.Livox.Types.{StoragePacket}
use sensor_packages.Livox.Queue.{
  LidarDataQueue, Store, release, live, null, freed, blank, is_power_of_2, roundup_from,
  roundup_power_of_2, queue_capacity, init_queue, queue_used_size,
}

-- Every slot holds as many points as it says.
abbrev pub Filled : List StoragePacket → Type 0
Filled [] = Unit {0}
Filled (p ∷ ps) = (length p.points ≡ p.points_num) × Filled ps

pub record IsValid (q : LidarDataQueue) : Type 0 where
  pub bits : ℕ
  pub slots : List StoragePacket
  pub bits_le : bits ≤ 31
  pub storage : q.storage_packet ≡ live slots
  pub size_pow : q.size ≡ 2 ^ bits
  pub mask_ones : q.mask ≡ 2 ^ bits - 1
  pub count : length slots ≡ 2 ^ bits
  pub rd_word : q.rd_idx < 2 ^ 32
  pub wr_word : q.wr_idx < 2 ^ 32
  pub used : queue_used_size q ≤ 2 ^ bits
  pub filled : Filled slots

Filled-replicate : (n : ℕ) → Filled (replicate n blank)
Filled-replicate zero = tt
Filled-replicate (suc n) = (refl, Filled-replicate n)

pub Filled-set :
    (ps : List StoragePacket) (i : ℕ) (p : StoragePacket)
    → length p.points ≡ p.points_num
    → Filled ps
    → Filled (set ps i p)
Filled-set [] i p h f = tt
Filled-set (x ∷ ps) zero p h f = (h, f.1)
Filled-set (x ∷ ps) (suc i) p h f = (f.0, Filled-set ps i p h f.1)

-- `n` is rounded up to `2 ^ k`, and to no larger power of two than needed.
abbrev pub RoundsTo : ℕ → ℕ → Type 0
RoundsTo n k = (n ≤ 2 ^ k) × ((k ≡ 0) ⊎ (2 ^ (k - 1) < n))

add_one_sub : (i : ℕ) → i + 1 - 1 ≡ i
add_one_sub i = omega arith

suc_sub_one : (i : ℕ) → suc i - 1 ≡ i
suc_sub_one i = omega arith

not-leb→lt : (a b : ℕ) → leb a b ≡ false → b < a
not-leb→lt a b h = ground arith

is_power_of_2-pow : (n : ℕ) → is_power_of_2 n ≡ true → (k : ℕ) × (n ≡ 2 ^ k)
unfolding is_power_of_2
is_power_of_2-pow n h = and_pred-pow n (ground arith) (ground arith)

-- The loop with `suc rounds` rounds left, of which `top` is the last bit.
roundup_from-RoundsTo :
    (rounds i last size top : ℕ)
    → i + rounds ≡ top
    → size ≤ 2 ^ top
    → (i ≡ 0) ⊎ (2 ^ (i - 1) < size)
    → (k : ℕ) × (k ≤ top) × (roundup_from (suc rounds) i last size ≡ 2 ^ k) × RoundsTo size k
unfolding roundup_from
roundup_from-RoundsTo zero i last size top e h low =
    let fits : size ≤ 2 ^ i = rw (← e, add-zero) at h in
    (i, omega arith, rw (le→leb size (2 ^ i) fits, roundup_from), (fits, low))
roundup_from-RoundsTo (suc rounds) i last size top e h low = elim (Bool-cases (leb size (2 ^ i))) [
  | inl stop ↦ (i, omega arith, rw (stop, roundup_from), (leb→le size (2 ^ i) stop, low))
  | inr more ↦
      let later =
        roundup_from-RoundsTo rounds (i + 1) (2 ^ i) size top (omega arith) h
          (inr (rw (add_one_sub i) (not-leb→lt size (2 ^ i) more))) in
      (later.0, later.1, rw (more, roundup_from) later.2, later.3)
]

roundup_power_of_2-RoundsTo :
    (n : ℕ) → n ≤ 2 ^ 31 → (k : ℕ) × (k ≤ 31) × (roundup_power_of_2 n ≡ 2 ^ k) × RoundsTo n k
unfolding roundup_power_of_2
roundup_power_of_2-RoundsTo n h = roundup_from-RoundsTo 31 0 0 n 31 refl h (inl refl)

pow_bits : (k : ℕ) → 2 ^ k ≤ 2 ^ 31 → k ≤ 31
pow_bits k h = elim (dec_le k 31) [
  | yes p ↦ p
  | no p ↦
      absurd (omega (arith, pow-le-pow_right {n = 2} (omega arith) {i = 32} {j = k} (omega arith)))
]

pow-pred : (k : ℕ) → (k ≡ 0) ⊎ (2 ^ (k - 1) < 2 ^ k)
pow-pred zero = inl refl
pow-pred (suc k) = inr (rw (suc_sub_one k) (omega (arith, pow-suc 2 k, pow-pos k)))

RoundsTo-pow : (n k : ℕ) → n ≡ 2 ^ k → RoundsTo n k
RoundsTo-pow n k e = (omega (arith, e), rw e (pow-pred k))

-- `InitQueue` makes the array the least power of two that holds the requested size, for each
-- size up to 2 ^ 31, whether the test for a power of two passes or the size is rounded up.
pub queue_capacity-RoundsTo :
    (n : ℕ) → n ≤ 2 ^ 31 → (k : ℕ) × (k ≤ 31) × (queue_capacity n ≡ 2 ^ k) × RoundsTo n k
unfolding queue_capacity
queue_capacity-RoundsTo n h = elim (Bool-cases (is_power_of_2 n)) [
  | inl power ↦
      let exact = is_power_of_2-pow n power in
      (
        exact.0,
        pow_bits exact.0 (omega (arith, exact.1)),
        rw (power, if◌then◌else◌) exact.1,
        RoundsTo-pow n exact.0 exact.1,
      )
  | inr other ↦
      let up = roundup_power_of_2-RoundsTo n h in (up.0, up.1, rw (other, if◌then◌else◌) up.2, up.3)
]

-- `InitQueue` on a queue whose pointer is null or owns its array gives a valid, empty queue with the
-- rounded size, for every requested size up to 2 ^ 31.
pub init_queue-IsValid :
    (q : LidarDataQueue) (n : ℕ)
    → q.storage_packet ≢ freed
    → n ≤ 2 ^ 31
    → Ensures (λ r. IsValid r × (queue_used_size r ≡ 0) × (n ≤ r.size)) (init_queue q n)
unfolding init_queue
init_queue-IsValid q n h le = go q.storage_packet h
  where
    cap : (k : ℕ) × (k ≤ 31) × (queue_capacity n ≡ 2 ^ k) × RoundsTo n k
    cap = queue_capacity-RoundsTo n le

    made : LidarDataQueue
    made = record {
      storage_packet = live (replicate (queue_capacity n) blank);
      rd_idx = 0;
      wr_idx = 0;
      mask = queue_capacity n - 1;
      size = queue_capacity n;
    }

    made-IsValid : IsValid made
    made-IsValid = record {
      bits = cap.0;
      slots = replicate (queue_capacity n) blank;
      bits_le = cap.1;
      storage = refl;
      size_pow = cap.2;
      mask_ones = rw cap.2;
      count = length-replicate (queue_capacity n) blank ∙ cap.2;
      rd_word = omega arith;
      wr_word = omega arith;
      used = omega arith;
      filled = Filled-replicate (queue_capacity n);
    }

    ok : IsValid made × (queue_used_size made ≡ 0) × (n ≤ made.size)
    ok = (made-IsValid, refl, omega (arith, cap.2, cap.3))

    go :
        (s : Store)
        → s ≢ freed
        → Ensures
            (λ r. IsValid r × (queue_used_size r ≡ 0) × (n ≤ r.size))
            (release s >>= λ _. some made)
    go null ne = ok
    go (live slots) ne = ok
    go freed ne = absurd (ne refl)
