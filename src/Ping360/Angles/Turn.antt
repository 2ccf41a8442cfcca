-- ===== src/Ping360/Angles/Turn.antt =====
-- The sweep of the head: `updateAngle` keeps the angle within the limits, and the place in the
-- LaserScan that `angleIndex` gives.
use mathlib.Core.Path.{subst}
use native.Mathlib.Nat.{div-lt_iff_lt-mul, mul-div_cancel_left, mul_comm}
use sensor_packages.Base.{
  ℕ, ◌+◌, ◌*◌, ◌/◌, ◌<◌, ◌≡◌, ◌≢◌, refl, ap, sym, ◌∙◌, inl, inr, true, false, ◌||◌, arith,
  Bool-cases,
}
use sensor_packages.Base.Int.{ℤ, pos, ◌+ℤ◌, ◌-ℤ◌, ltb_ℤ, pos_part, neg_part, int_laws}
use sensor_packages.Ping360.Angles.{
  Head, full_scan, update_angle, angle_count, angle_index, leb_ℤ, abs,
}

abbrev pub ◌<ℤ◌ : ℤ → ℤ → Type 0
◌<ℤ◌ a b = pos_part a + neg_part b < pos_part b + neg_part a

-- A sector scan in progress: this angle and the next one lie strictly within the limits.
pub record Inside (h : Head) : Type 0 where
  pub sector : full_scan h ≡ false
  pub above : ◌<ℤ◌ h.angle_min h.angle
  pub below : ◌<ℤ◌ h.angle h.angle_max
  pub next_above : ◌<ℤ◌ h.angle_min (h.angle +ℤ h.angle_step)
  pub next_below : ◌<ℤ◌ (h.angle +ℤ h.angle_step) h.angle_max
  pub moves : pos_part h.angle_step ≢ neg_part h.angle_step

-- The sector with the limits, the angle and the step apart.
sector_turn :
    (low high a s : ℤ)
    → ◌<ℤ◌ low (a +ℤ s)
    → ◌<ℤ◌ (a +ℤ s) high
    → (leb_ℤ high (a +ℤ s +ℤ s) || leb_ℤ (a +ℤ s +ℤ s) low) ≡ false
    → ◌<ℤ◌ low (a +ℤ s +ℤ s) × ◌<ℤ◌ (a +ℤ s +ℤ s) high
sector_turn low high a s h k t = ground arith

back : (a s : ℤ) → a +ℤ s +ℤ (pos 0 -ℤ s) ≡ a
back a s = omega int_laws

negated_moves : (s : ℤ) → pos_part s ≢ neg_part s → pos_part (pos 0 -ℤ s) ≢ neg_part (pos 0 -ℤ s)
negated_moves s h e = omega int_laws

-- In a sector scan `updateAngle` keeps the angle, and the one that the next call sets, strictly
-- within the limits, and the step different from 0: the head turns back before it leaves the sector.
pub update_angle-Inside : {h : Head} → Inside h → Inside (update_angle h).1
unfolding update_angle
update_angle-Inside {h} v =
    rw v.sector
      elim (Bool-cases (
        leb_ℤ h.angle_max (h.angle +ℤ h.angle_step +ℤ h.angle_step)
        || leb_ℤ (h.angle +ℤ h.angle_step +ℤ h.angle_step) h.angle_min)) [
          | inl e ↦ rw e record {
            sector = v.sector;
            above = v.next_above;
            below = v.next_below;
            next_above = rw (back h.angle h.angle_step) v.above;
            next_below = rw (back h.angle h.angle_step) v.below;
            moves = negated_moves h.angle_step v.moves;
          }
          | inr e ↦ rw e record {
            sector = v.sector;
            above = v.next_above;
            below = v.next_below;
            next_above = (sector_turn _ _ _ _ v.next_above v.next_below e).0;
            next_below = (sector_turn _ _ _ _ v.next_above v.next_below e).1;
            moves = v.moves;
          }
        ]

moving : (s : ℤ) → pos_part s ≢ neg_part s → 0 < abs s
moving s h = ground arith

from_low : (low high a : ℤ) → ◌<ℤ◌ low a → ◌<ℤ◌ a high → abs (a -ℤ low) < abs (high -ℤ low)
unfolding ◌-ℤ◌
from_low low high a h k = ground arith

from_high : (low high a : ℤ) → ◌<ℤ◌ low a → ◌<ℤ◌ a high → abs (a -ℤ high) < abs (high -ℤ low)
unfolding ◌-ℤ◌
from_high low high a h k = ground arith

ltb_ℤ-irrefl : (a : ℤ) → ltb_ℤ a a ≡ false
ltb_ℤ-irrefl a = ground arith

quotient-lt : (x w s n : ℕ) → 0 < s → w ≡ s * n → x < w → x / s < w / s
quotient-lt x w s n p e h =
    subst (λ v. x / s < v) (sym (mul-div_cancel_left n p) ∙ ap (λ v. v / s) (sym e))
      ((div-lt_iff_lt-mul {k = s} {x = x} {y = n} p).1 (subst (λ v. x < v) (e ∙ mul_comm s n) h))

not_below : (low a : ℤ) → ◌<ℤ◌ low a → ltb_ℤ (a -ℤ low) (pos 0) ≡ false
unfolding ◌-ℤ◌
not_below low a h = ground arith

below_zero : (high a : ℤ) → ◌<ℤ◌ a high → ltb_ℤ (a -ℤ high) (pos 0) ≡ true
unfolding ◌-ℤ◌
below_zero high a h = ground arith

forwards : (s : ℤ) → ltb_ℤ (pos 0) s ≡ true → ltb_ℤ s (pos 0) ≡ false
forwards s h = ground arith

backwards : (s : ℤ) → pos_part s ≢ neg_part s → ltb_ℤ (pos 0) s ≡ false → ltb_ℤ s (pos 0) ≡ true
backwards s h k = ground arith

-- Where the sector is a whole number of steps, an angle strictly within the limits has a place in the
-- scan below `angleCount`, whichever way the head turns.
pub angle_index-Inside :
    {h : Head} (n : ℕ)
    → Inside h
    → abs (h.angle_max -ℤ h.angle_min) ≡ abs h.angle_step * n
    → angle_index h < angle_count h
unfolding angle_index angle_count
angle_index-Inside {h} n v e = elim (Bool-cases (ltb_ℤ (pos 0) h.angle_step)) [
  | inl t ↦
      rw (t, not_below h.angle_min h.angle v.above, forwards h.angle_step t)
        (quotient-lt _ _ _ n (moving _ v.moves) e (from_low _ _ _ v.above v.below))
  | inr t ↦
      rw (t, below_zero h.angle_max h.angle v.below, backwards h.angle_step v.moves t)
        (quotient-lt _ _ _ n (moving _ v.moves) e (from_high _ _ _ v.above v.below))
]

-- When the turn of a full scan reaches `angle_max`, the place of the angle in the scan is
-- `angleCount`, one past the last place of the arrays of that size that `publishScan` writes to.
pub update_angle-overrun :
    (h : Head)
    → full_scan h ≡ true
    → ltb_ℤ (pos 0) h.angle_step ≡ true
    → h.angle +ℤ h.angle_step ≡ h.angle_max
    → ltb_ℤ (h.angle_max -ℤ h.angle_min) (pos 0) ≡ false
    → angle_index (update_angle h).1 ≡ angle_count (update_angle h).1
unfolding update_angle angle_index angle_count
update_angle-overrun h f p e le =
    rw (f, e, ltb_ℤ-irrefl h.angle_max, p, le, forwards h.angle_step p) refl
