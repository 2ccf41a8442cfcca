-- ===== src/Base/Bits.antt =====
-- `&` with a mask of ones is a remainder, and a number without two neighbouring borrows is a power of
-- two: the two bit facts that a ring with a mask rests on.
use Prim.Native.Nat.{digits, bit_and, bit_and-bitwise, ◌∣◌}
use native.Mathlib.Nat.{
  pow-suc, add-mul-mod_self_left, mod-eq_of_lt, mod-lt, div-add-mod, mod-mod_of_dvd, add-zero,
  add-suc, dvd_refl, dvd-mul_right_of_dvd,
}
use native.Mathlib.Decide.{dec_lt}
use sensor_packages.Base.{
  ℕ, zero, suc, ◌+◌, ◌-◌, ◌*◌, ◌/◌, ◌%◌, ◌^◌, ◌≤◌, ◌<◌, min, ◌≡◌, refl, arith, ◌∙◌, ap,
}

-- Induction on the binary digits of a number, in the form that a bound makes structural.
halves_below :
    (P : ℕ → Type 0) → P 0 → ((x : ℕ) → P (suc x / 2) → P (suc x)) → (bound x : ℕ) → x ≤ bound → P x
halves_below P base next bound zero h = base
halves_below P base next zero (suc x) h = absurd (omega arith)
halves_below P base next (suc bound) (suc x) h =
    next x (halves_below P base next bound (suc x / 2) (omega arith))

by_halves : (P : ℕ → Type 0) → P 0 → ((x : ℕ) → P (suc x / 2) → P (suc x)) → (x : ℕ) → P x
by_halves P base next x = halves_below P base next x x (omega arith)

-- `Conj x m r`: the number `r` has the binary digits that `x` and `m` share.
data Conj : ℕ → ℕ → ℕ → Type 0 where
  ended : {m : ℕ} → Conj 0 m 0
  digit :
      {x m r : ℕ} → Conj (suc x / 2) (m / 2) r → Conj (suc x) m (r * 2 + min (suc x % 2) (m % 2))

-- There is one for every two numbers, and `&` on any sufficient fuel computes it.
conj : (x m : ℕ) → (r : ℕ) × Conj x m r
conj =
    by_halves (λ x. (m : ℕ) → (r : ℕ) × Conj x m r) (λ m. (0, ended))
      λ x half m. let (r, c) = half (m / 2) in (r * 2 + min (suc x % 2) (m % 2), digit c)

digits-Conj :
    (fuel : ℕ) {x m r : ℕ} → x ≤ fuel → Conj x m r → digits (λ rest. zero) min fuel x m ≡ r
digits-Conj zero h ended = refl
digits-Conj (suc fuel) h ended = refl
digits-Conj zero h (digit c) = absurd (omega arith)
digits-Conj (suc fuel) h (digit c) = omega (arith, digits-Conj fuel (omega arith) c)

bit_and-Conj : {x m r : ℕ} → Conj x m r → bit_and x m ≡ r
bit_and-Conj {x} {m} c = bit_and-bitwise x m ∙ digits-Conj x (omega arith) c

-- One binary digit of `&`.
pub bit_and_step : (a b : ℕ) → bit_and a b ≡ bit_and (a / 2) (b / 2) * 2 + min (a % 2) (b % 2)
bit_and_step zero b =
    let left : bit_and 0 b ≡ 0 = bit_and-Conj ended in
    let half : bit_and 0 (b / 2) ≡ 0 = bit_and-Conj ended in omega (arith, left, half)
bit_and_step (suc a) b =
    let (r, c) = conj (suc a / 2) (b / 2) in
    let whole = bit_and-Conj (digit {x = a} {m = b} c) in
    let half = bit_and-Conj c in omega (arith, whole, half)

bit_and-zero : (a : ℕ) → bit_and a 0 ≡ 0
bit_and-zero =
    by_halves (λ a. bit_and a 0 ≡ 0) refl λ a half. omega (arith, bit_and_step (suc a) 0, half)

bit_and_self : (a : ℕ) → bit_and a a ≡ a
bit_and_self =
    by_halves (λ a. bit_and a a ≡ a) refl
      λ a half. omega (arith, bit_and_step (suc a) (suc a), half)

pub pow-pos : (k : ℕ) → 0 < 2 ^ k
pow-pos zero = omega arith
pow-pos (suc k) = omega (arith, pow-suc 2 k, pow-pos k)

mod_double : (x p : ℕ) → 0 < p → x % (2 * p) ≡ x / 2 % p * 2 + x % 2
mod_double x p h =
    ap (λ t. t % (2 * p)) split
    ∙ add-mul-mod_self_left (x / 2 % p * 2 + x % 2) (2 * p) (x / 2 / p)
    ∙ mod-eq_of_lt (omega (arith, mod-lt (x / 2) h))
  where
    split : x ≡ x / 2 % p * 2 + x % 2 + 2 * p * (x / 2 / p)
    split = omega (arith, div-add-mod (x / 2) p)

-- `x & (2 ^ k - 1)` is `x % 2 ^ k`.
pub bit_and_mask : (k x : ℕ) → bit_and x (2 ^ k - 1) ≡ x % 2 ^ k
bit_and_mask zero x = omega (arith, bit_and-zero x)
bit_and_mask (suc k) x =
    rw (two_pow, mod_double x (2 ^ k) (pow-pos k), ← bit_and_mask k (x / 2))
      (rw (halves, ones) at (bit_and_step x (2 * 2 ^ k - 1)))
  where
    two_pow : 2 ^ suc k ≡ 2 * 2 ^ k
    two_pow = omega (arith, pow-suc 2 k)

    halves : (2 * 2 ^ k - 1) / 2 ≡ 2 ^ k - 1
    halves = omega (arith, pow-pos k)

    ones : min (x % 2) ((2 * 2 ^ k - 1) % 2) ≡ x % 2
    ones = omega (arith, pow-pos k)

-- `n & (n - 1)` is zero at powers of two only.
and_pred_fuel : (f n : ℕ) → n ≤ f → 0 < n → bit_and n (n - 1) ≡ 0 → (k : ℕ) × (n ≡ 2 ^ k)
and_pred_fuel zero n hf hn e = absurd (omega arith)
and_pred_fuel (suc f) n hf hn e = elim (dec_lt 0 (n % 2)) [
  | yes odd ↦ (0, odd_case odd)
  | no even ↦
      let half = and_pred_fuel f (n / 2) (omega arith) (omega arith) (even_case even) in
      (suc half.0, omega (arith, half.1, pow-suc 2 half.0))
]
  where
    odd_case : 0 < n % 2 → n ≡ 1
    odd_case odd =
        let h : (n - 1) / 2 ≡ n / 2 = omega arith in
        omega
          (arith, ap (λ t. bit_and (n / 2) t) h, bit_and_step n (n - 1), bit_and_self (n / 2), e)

    even_case : ¬ (0 < n % 2) → bit_and (n / 2) (n / 2 - 1) ≡ 0
    even_case even =
        let h : (n - 1) / 2 ≡ n / 2 - 1 = omega arith in
        omega (arith, ap (λ t. bit_and (n / 2) t) h, bit_and_step n (n - 1), e)

pub and_pred-pow : (n : ℕ) → 0 < n → bit_and n (n - 1) ≡ 0 → (k : ℕ) × (n ≡ 2 ^ k)
and_pred-pow n = and_pred_fuel n n (omega arith)

pow-dvd : (k d : ℕ) → 2 ^ k ∣ 2 ^ (k + d)
pow-dvd k zero = rw add-zero (dvd_refl (2 ^ k))
pow-dvd k (suc d) =
    let step : 2 ^ (k + suc d) ≡ 2 ^ (k + d) * 2 =
      ap (λ t. 2 ^ t) (add-suc k d) ∙ pow-suc 2 (k + d) in
    rw step (dvd-mul_right_of_dvd (2 ^ k) (pow-dvd k d) 2)

-- Reading modulo 2 ^ 32 first changes nothing under a smaller power of two.
pub mod_word : (k x : ℕ) → k ≤ 32 → x % 2 ^ 32 % 2 ^ k ≡ x % 2 ^ k
mod_word k x h = mod-mod_of_dvd (2 ^ k) x divides
  where
    whole : k + (32 - k) ≡ 32
    whole = omega arith

    divides : 2 ^ k ∣ 2 ^ 32
    divides = rw (ap (λ t. 2 ^ t) whole) at (pow-dvd k (32 - k))
