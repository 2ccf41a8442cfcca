-- ===== src/Oculus/Publishers/Window.antt =====
-- The window of the latencies.
use native.Mathlib.Nat.{mod-eq_of_lt}
use native.Mathlib.Decide.{dec_lt}
use sensor_packages.Base.{
  ℕ, zero, suc, ◌+◌, ◌*◌, ◌/◌, ◌%◌, ◌<◌, ◌≤◌, ◌≡◌, refl, sym, ◌∙◌, ap, Bool, false, List, [], ◌∷◌,
  ◌++◌, some, length, take, drop, set, length-append, length-set, length-drop, length-take,
  get_elem?-some, ltb, lt→ltb, arith, if◌then◌else◌, Bool-cases, inl, inr, ◌⊎◌,
}
use sensor_packages.Base.Fault.{Ensures}
use sensor_packages.Oculus.Publishers.{
  Latency, insert, sort, percentiles, record_latency, record_latency_and_log,
}

-- The samples of the window, the oldest first.
abbrev pub recent : Latency → List ℕ
recent s = drop s.write_idx s.window ++ take s.write_idx s.window

-- The window has at most 100 samples, and the index is a place of it once it is full.
pub record IsValid (s : Latency) : Type 0 where
  pub size : length s.window ≤ 100
  pub index : s.write_idx < 100
  pub filling : length s.window < 100 → s.write_idx ≡ 0

-- The last 100 samples after a new one.
abbrev pub push_recent : List ℕ → ℕ → List ℕ
push_recent old x = if ltb (length old) 100 then old ++ x ∷ [] else drop 1 old ++ x ∷ []

drop-set : (xs : List ℕ) (i x : ℕ) → drop (suc i) (set xs i x) ≡ drop (suc i) xs
drop-set [] i x = refl
drop-set (y ∷ ys) zero x = refl
drop-set (y ∷ ys) (suc i) x = drop-set ys i x

take-set : (xs : List ℕ) (i x : ℕ) → i < length xs → take (suc i) (set xs i x) ≡ take i xs ++ x ∷ []
take-set [] i x h = absurd (omega arith)
take-set (y ∷ ys) zero x h = refl
take-set (y ∷ ys) (suc i) x h = ap (λ t. y ∷ t) (take-set ys i x (omega arith))

drop_more :
    (xs ys : List ℕ) (i : ℕ) → i < length xs → drop 1 (drop i xs ++ ys) ≡ drop (suc i) xs ++ ys
drop_more [] ys i h = absurd (omega arith)
drop_more (x ∷ xs) ys zero h = refl
drop_more (x ∷ xs) ys (suc i) h = drop_more xs ys i (omega arith)

drop_all : (xs : List ℕ) → drop (length xs) xs ≡ []
drop_all [] = refl
drop_all (x ∷ xs) = drop_all xs

take_all : (xs : List ℕ) → take (length xs) xs ≡ xs
take_all [] = refl
take_all (x ∷ xs) = ap (λ t. x ∷ t) (take_all xs)

append_nil : (xs : List ℕ) → xs ++ [] ≡ xs
append_nil [] = refl
append_nil (x ∷ xs) = ap (λ t. x ∷ t) (append_nil xs)

append_assoc : (xs ys zs : List ℕ) → xs ++ ys ++ zs ≡ xs ++ (ys ++ zs)
append_assoc [] ys zs = refl
append_assoc (x ∷ xs) ys zs = ap (λ t. x ∷ t) (append_assoc xs ys zs)

length-insert :
    (less : ℕ → ℕ → Bool) (x : ℕ) (ys : List ℕ) → length (insert less x ys) ≡ suc (length ys)
unfolding insert
length-insert less x [] = refl
length-insert less x (y ∷ ys) = elim (Bool-cases (less x y)) [
  | inl e ↦ rw e refl
  | inr e ↦ rw e (ap suc (length-insert less x ys))
]

length-sort : (less : ℕ → ℕ → Bool) (xs : List ℕ) → length (sort less xs) ≡ length xs
unfolding sort
length-sort less [] = refl
length-sort less (x ∷ xs) = length-insert less x (sort less xs) ∙ ap suc (length-sort less xs)

-- The percentiles of a window that is not empty.
percentiles-some :
    (less : ℕ → ℕ → Bool) (xs : List ℕ)
    → 0 < length xs
    → (p : ℕ × ℕ) × (percentiles less xs ≡ some p)
unfolding percentiles
percentiles-some less xs h =
    let size = length-sort less xs in
    let (p50, e50) =
      get_elem?-some (sort less xs) (length (sort less xs) / 2) (omega (arith, size)) in
    let (p99, e99) =
      get_elem?-some (sort less xs) (length (sort less xs) * 99 / 100) (omega (arith, size)) in
    ((p50, p99), rw (e50, e99) refl)

-- While the window grows.
record_latency-growing :
    (x : ℕ) (s : Latency)
    → IsValid s
    → length s.window < 100
    → IsValid (record_latency x s) × (recent (record_latency x s) ≡ push_recent (recent s) x)
unfolding record_latency
record_latency-growing x s v h =
    rw
      (
        lt→ltb (length s.window) 100 h,
        v.filling h,
        append_nil (s.window ++ x ∷ []),
        append_nil s.window,
        lt→ltb (length s.window) 100 h,
      )
      (
        record {
          size = omega (arith, length-append s.window (x ∷ []));
          index = omega arith;
          filling = λ less. refl;
        },
        refl,
      )

-- The ring after a write at its index.
turn_ring :
    (xs : List ℕ) (i x : ℕ)
    → i < length xs
    → drop (suc i) (set xs i x) ++ take (suc i) (set xs i x)
      ≡ drop 1 (drop i xs ++ take i xs) ++ x ∷ []
turn_ring xs i x h =
    rw (drop-set xs i x, take-set xs i x h, drop_more xs (take i xs) i h)
      (sym (append_assoc (drop (suc i) xs) (take i xs) (x ∷ [])))

-- At the end of the ring the index starts again.
wrapped : (xs : List ℕ) → drop 0 xs ++ take 0 xs ≡ drop (length xs) xs ++ take (length xs) xs
wrapped xs = append_nil xs ∙ sym (rw (drop_all xs, take_all xs) refl)

length-ring : (xs : List ℕ) (i : ℕ) → i ≤ length xs → length (drop i xs ++ take i xs) ≡ length xs
length-ring xs i h =
    omega (arith, length-append (drop i xs) (take i xs), length-drop i xs, length-take i xs)

full-ltb : (n : ℕ) → n ≡ 100 → ltb n 100 ≡ false
full-ltb n e = ground arith

next_index :
    (i : ℕ)
    → i < 100
    → (((i + 1) % 100 ≡ suc i) × (suc i < 100)) ⊎ (((i + 1) % 100 ≡ 0) × (suc i ≡ 100))
next_index i h = elim (dec_lt (i + 1) 100) [
  | yes more ↦ inl (mod-eq_of_lt more ∙ omega arith, omega arith)
  | no last ↦ inr (let e : i + 1 ≡ 100 = omega arith in rw e (refl, omega arith))
]

-- Once the window is full.
record_latency-full :
    (x : ℕ) (s : Latency)
    → IsValid s
    → length s.window ≡ 100
    → IsValid (record_latency x s) × (recent (record_latency x s) ≡ push_recent (recent s) x)
unfolding record_latency
record_latency-full x s v h =
    let same = length-set s.window s.write_idx x in
    let turned = turn_ring s.window s.write_idx x (omega (arith, v.index)) in
    let ring = length-ring s.window s.write_idx (omega (arith, v.index)) in
    rw (full-ltb (length s.window) h, full-ltb (length (recent s)) (ring ∙ h))
      elim (next_index s.write_idx v.index) [
        | inl (on, below) ↦ rw on (
          record {
            size = omega (arith, same);
            index = below;
            filling = λ less. absurd (omega (arith, same));
          },
          turned,
        )
        | inr (again, last) ↦ rw again (
          record { size = omega (arith, same); index = omega arith; filling = λ less. refl },
          rw (same ∙ h ∙ sym last) at (wrapped (set s.window s.write_idx x)) ∙ turned,
        )
      ]

length-positive : (x : ℕ) (s : Latency) → IsValid s → 0 < length (record_latency x s).window
unfolding record_latency
length-positive x s v = elim (dec_lt (length s.window) 100) [
  | yes h ↦ rw (lt→ltb (length s.window) 100 h) (omega (arith, length-append s.window (x ∷ [])))
  | no h ↦
      rw (full-ltb (length s.window) (omega (arith, v.size)))
        (omega (arith, length-set s.window s.write_idx x))
]

-- What `recordLatencyAndLog` leaves, with the percentiles that it logs.
pub record Recorded (x : ℕ) (s : Latency) (r : Latency × (ℕ × ℕ)) : Type 0 where
  pub valid : IsValid r.0
  pub last_samples : recent r.0 ≡ push_recent (recent s) x

-- `recordLatencyAndLog` keeps the last 100 samples: seen from the oldest on, the ring is the former one with the
-- new sample behind it and, if there were 100, without the oldest. The ring stays valid, and the
-- places of the logged percentiles are inside the sorted window.
pub record_latency_and_log-Recorded :
    (less : ℕ → ℕ → Bool) (x : ℕ) (s : Latency)
    → IsValid s
    → Ensures (Recorded x s) (record_latency_and_log less x s)
unfolding record_latency_and_log
record_latency_and_log-Recorded less x s v =
    let (p, e) = percentiles-some less (record_latency x s).window (length-positive x s v) in
    let new : IsValid (record_latency x s)
        × (recent (record_latency x s) ≡ push_recent (recent s) x) =
      elim (dec_lt (length s.window) 100) [
        | yes h ↦ record_latency-growing x s v h
        | no h ↦ record_latency-full x s v (omega (arith, v.size))
      ] in
    rw e record { valid = new.0; last_samples = new.1 }
