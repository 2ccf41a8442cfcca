-- ===== src/Ping360/Angles/Aligned.antt =====
-- What `configureAngles` sets with `ensure_divisor`: limits that are a whole number of steps apart.
use native.Mathlib.Nat.{mul-add, mul-suc, div-add-mod}
use sensor_packages.Base.{
  ℕ, zero, suc, ◌+◌, ◌-◌, ◌*◌, ◌/◌, ◌≤◌, ◌<◌, ◌≡◌, sym, ◌∙◌, ap, refl, Bool, true, false, ◌&&◌,
  ◌==◌, some, inl, inr, arith, Bool-cases,
}
use sensor_packages.Base.Fault.{Ensures}
use sensor_packages.Base.Int.{pos, ◌-ℤ◌}
use sensor_packages.Ping360.Angles.{
  Head, Best, abs, negate, eqb_ℤ, minus_200, apply_best, configure_angles, configured, chosen,
  divides_by_zero, target_step_of, target_half_of, search_divisor,
}
use sensor_packages.Ping360.Angles.Divisor.{search_divisor-Nearest}

span_sector : (half : ℕ) → abs (pos half -ℤ negate half) ≡ half + half
unfolding ◌-ℤ◌
span_sector half = ground arith

span_full : (half s : ℕ) → s ≤ half → abs (pos half -ℤ pos s -ℤ negate half) ≡ half + half - s
unfolding ◌-ℤ◌
span_full half s h = ground arith

double : (s d : ℕ) → s * d + s * d ≡ s * (d + d)
double s d = sym (mul-add s d d)

less_one : (s e : ℕ) → s * suc e + s * suc e - s ≡ s * (suc e + e)
less_one s e = omega (arith, mul-add s (suc e) e, mul-suc s e)

abs_pos : (s : ℕ) → s ≡ abs (pos s)
abs_pos s = omega arith

full_half : (half : ℕ) → eqb_ℤ (negate half) minus_200 ≡ true → 0 < half
full_half zero h = ground arith
full_half (suc half) h = omega arith

full_span :
    (s d half : ℕ)
    → half ≡ s * d
    → 0 < half
    → (n : ℕ) × (abs (pos half -ℤ pos s -ℤ negate half) ≡ s * n)
full_span s zero half e h = absurd (omega (arith, e))
full_span s (suc k) half e h = (
  suc k + k,
  span_full half s (omega (arith, e, mul-suc s k)) ∙ ap (λ t. t + t - s) e ∙ less_one s k,
)

-- The limits are `n` steps apart.
abbrev pub Spans : Head → ℕ → Type 0
Spans h n = abs (h.angle_max -ℤ h.angle_min) ≡ abs h.angle_step * n

apply_best-Spans :
    (h : Head) (best : Best) (d : ℕ)
    → 0 < best.step
    → best.half ≡ best.step * d
    → (n : ℕ) × Spans (apply_best h best) n
unfolding apply_best
apply_best-Spans h best d p e = elim (Bool-cases (eqb_ℤ (negate best.half) minus_200)) [
  | inl full ↦
      let (n, span) = full_span best.step d best.half e (full_half best.half full) in
      (n, rw full (span ∙ ap (λ s. s * n) (abs_pos best.step)))
  | inr sector ↦ (
    d + d,
    rw sector (
        span_sector best.half
        ∙ ap (λ t. t + t) e
        ∙ double best.step d
        ∙ ap (λ s. s * (d + d)) (abs_pos best.step)),
  )
]

no_division : (n : ℕ) (b : Bool) → 0 < n → ((n == 0) && b) ≡ false
no_division n b h = ground arith

-- What `configureAngles` gives for a step other than 0.
pub configure_angles-configured :
    (h : Head) (aperture_deg step_deg : ℕ) (ensure_divisor : Bool)
    → 0 < target_step_of step_deg
    → configure_angles h aperture_deg step_deg ensure_divisor
      ≡ some (
          configured h
            (chosen (target_step_of step_deg) (target_half_of aperture_deg) ensure_divisor))
unfolding configure_angles divides_by_zero
configure_angles-configured h aperture_deg step_deg ensure_divisor p =
    rw (no_division (target_step_of step_deg) _ p) refl

-- With `ensure_divisor`, for a step from 1 to 1000 gradians and half an aperture of at most 200:
-- `configureAngles` runs without a division by 0, and the limits that it sets are a whole number of steps
-- apart, in a sector and in a full scan.
pub configure_angles-Spans :
    (h : Head) (aperture_deg step_deg : ℕ)
    → 0 < target_step_of step_deg
    → target_step_of step_deg ≤ 1000
    → target_half_of aperture_deg ≤ 200
    → Ensures (λ r. (n : ℕ) × Spans r.0 n) (configure_angles h aperture_deg step_deg true)
unfolding configured
configure_angles-Spans h aperture_deg step_deg p few le =
    let found =
      search_divisor-Nearest (target_step_of step_deg) (target_half_of aperture_deg) p few le in
    let best = search_divisor (target_step_of step_deg) (target_half_of aperture_deg) in
    rw (configure_angles-configured h aperture_deg step_deg true p) (
      apply_best-Spans h best (best.half / best.step) found.positive
        (omega (arith, div-add-mod best.half best.step, found.divides)))
