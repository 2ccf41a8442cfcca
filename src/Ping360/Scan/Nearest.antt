-- ===== src/Ping360/Scan/Nearest.antt =====
-- What `publishScan` writes.
use mathlib.Core.Path.{subst}
use mathlib.Core.Option.{some-injective}
use sensor_packages.Base.{
  ℕ, zero, suc, ◌+◌, ◌*◌, ◌<◌, ◌≡◌, ◌≢◌, refl, sym, ◌∙◌, ap, ◌⊎◌, Bool, true, false, List, [], ◌∷◌,
  ◌++◌, none, some, length, replicate, set, get_elem?, get_elem?-set_self, get_elem?-set_ne,
  length-set, length-take, length-append, length-replicate, lt→ltb, Bool-cases, inl, inr, arith,
  if◌then◌else◌,
}
use sensor_packages.Base.Fault.{Ensures}
use sensor_packages.Base.Int.{◌-ℤ◌}
use sensor_packages.Ping360.Angles.{Head, full_scan, angle_count, angle_index, abs}
use sensor_packages.Ping360.Angles.Turn.{Inside, angle_index-Inside}
use sensor_packages.Ping360.Scan.{
  Floats, Scan, point_or_zero, resize, is_valid, first_point, reading, turn_limits, write_reading,
  publish_scan,
}

-- The sample at `at` is the first valid one of some samples that start at `index`.
pub record FirstValid (f : Floats) (threshold : ℕ) (scan : Scan) (index : ℕ) (samples : List ℕ)
    (p : ℕ × ℕ) : Type 0 where
  pub place : ℕ
  pub sample : ℕ
  pub here : get_elem? samples place ≡ some sample
  pub valid : is_valid f threshold scan (index + place) sample ≡ true
  pub nearest :
      (i s : ℕ)
      → i < place
      → get_elem? samples i ≡ some s
      → is_valid f threshold scan (index + i) s ≡ false
  pub written : p ≡ (f.range_from (index + place), f.scaled sample)

-- No sample is valid.
abbrev pub NoneValid : Floats → ℕ → Scan → ℕ → List ℕ → Type 0
NoneValid f threshold scan index samples =
    (i s : ℕ) → get_elem? samples i ≡ some s → is_valid f threshold scan (index + i) s ≡ false

first_is :
    (f : Floats) (threshold : ℕ) (scan : Scan) (index : ℕ) (s : ℕ) (samples : List ℕ)
    → is_valid f threshold scan (index + 0) s ≡ true
    → first_point f threshold scan index (s ∷ samples) ≡ some (f.range_from (index + 0), f.scaled s)
unfolding first_point
first_is f threshold scan index s samples e =
    let same : index + 0 ≡ index = omega arith in rw same (rw (rw same at e) refl)

first_skips :
    (f : Floats) (threshold : ℕ) (scan : Scan) (index : ℕ) (s : ℕ) (samples : List ℕ)
    → is_valid f threshold scan (index + 0) s ≡ false
    → first_point f threshold scan index (s ∷ samples)
      ≡ first_point f threshold scan (index + 1) samples
unfolding first_point
first_skips f threshold scan index s samples e =
    let same : index + 0 ≡ index = omega arith in rw (rw same at e) refl

shift : (index i : ℕ) → index + suc i ≡ index + 1 + i
shift index i = omega arith

no_samples :
    (f : Floats) (threshold : ℕ) (scan : Scan) (index : ℕ)
    → first_point f threshold scan index [] ≡ none
unfolding first_point
no_samples f threshold scan index = refl

earlier :
    (f : Floats) (threshold : ℕ) (scan : Scan) (index s : ℕ) (samples : List ℕ) (limit : ℕ)
    → is_valid f threshold scan (index + 0) s ≡ false
    → ((i t : ℕ)
        → i < limit
        → get_elem? samples i ≡ some t
        → is_valid f threshold scan (index + 1 + i) t ≡ false)
    → (i t : ℕ) → i < suc limit
    → get_elem? (s ∷ samples) i ≡ some t
    → is_valid f threshold scan (index + i) t ≡ false
earlier f threshold scan index s samples limit e rest zero t h g =
    subst (λ v. is_valid f threshold scan (index + 0) v ≡ false) (some-injective s t g) e
earlier f threshold scan index s samples limit e rest (suc i) t h g =
    subst (λ v. is_valid f threshold scan v t ≡ false) (sym (shift index i))
      (rest i t (omega arith) g)

none_valid :
    (f : Floats) (threshold : ℕ) (scan : Scan) (index s : ℕ) (samples : List ℕ)
    → is_valid f threshold scan (index + 0) s ≡ false
    → NoneValid f threshold scan (index + 1) samples
    → NoneValid f threshold scan index (s ∷ samples)
none_valid f threshold scan index s samples e rest i t g =
    earlier f threshold scan index s samples i e (λ j u _ k. rest j u k) i t (omega arith) g

-- The search finds the first valid sample, or there is none.
first_point-FirstValid :
    (f : Floats) (threshold : ℕ) (scan : Scan) (index : ℕ) (samples : List ℕ)
    → ((p : ℕ × ℕ) × (first_point f threshold scan index samples ≡ some p)
        × FirstValid f threshold scan index samples p)
      ⊎ ((first_point f threshold scan index samples ≡ none)
          × NoneValid f threshold scan index samples)
first_point-FirstValid f threshold scan index [] =
    inr (no_samples f threshold scan index, λ i s e. cc)
first_point-FirstValid f threshold scan index (s ∷ samples) =
    elim (Bool-cases (is_valid f threshold scan (index + 0) s)) [
      | inl e ↦ inl (
        (f.range_from (index + 0), f.scaled s),
        first_is f threshold scan index s samples e,
        record {
          place = 0;
          sample = s;
          here = refl;
          valid = e;
          nearest = λ i t h. absurd (omega arith);
          written = refl;
        },
      )
      | inr e ↦ elim (first_point-FirstValid f threshold scan (index + 1) samples) [
        | inl (p, found, w) ↦ inl (
          p,
          first_skips f threshold scan index s samples e ∙ found,
          record {
            place = suc w.place;
            sample = w.sample;
            here = w.here;
            valid = rw (shift index w.place) w.valid;
            nearest = earlier f threshold scan index s samples w.place e w.nearest;
            written = rw (shift index w.place) w.written;
          },
        )
        | inr (gone, all) ↦ inr (
          first_skips f threshold scan index s samples e ∙ gone,
          none_valid f threshold scan index s samples e all,
        )
      ]
    ]

-- What `publishScan` publishes and leaves, for the readings of a head.
pub record Scanned (f : Floats) (threshold : ℕ) (head : Head) (samples : List ℕ) (end_turn : Bool)
    (before : Scan) (r : List Scan × Scan) : Type 0 where
  pub point : ℕ × ℕ
  pub is_nearest :
      FirstValid f threshold before 0 samples point
      ⊎ ((point ≡ (0, 0)) × NoneValid f threshold before 0 samples)
  pub size : length r.1.ranges ≡ angle_count head
  pub range_here : get_elem? r.1.ranges (angle_index head) ≡ some point.0
  pub intensity_here : get_elem? r.1.intensities (angle_index head) ≡ some point.1
  pub others :
      (j : ℕ)
      → angle_index head ≢ j
      → get_elem? r.1.ranges j ≡ get_elem? (resize (angle_count head) before.ranges) j
  pub published : r.0 ≡ (if end_turn then r.1 ∷ [] else [])

length-resize : (n : ℕ) (xs : List ℕ) → length (resize n xs) ≡ n
length-resize n xs = omega (
  arith,
  length-take n (xs ++ replicate n 0),
  length-append xs (replicate n 0),
  length-replicate {A = ℕ} n 0,
)

turn_limits-lists :
    (f : Floats) (head : Head) (scan : Scan)
    → ((turn_limits f head scan).ranges ≡ scan.ranges)
      × ((turn_limits f head scan).intensities ≡ scan.intensities)
unfolding turn_limits
turn_limits-lists f head scan = elim (Bool-cases (full_scan head)) [
  | inl e ↦ rw e (refl, refl)
  | inr e ↦ rw e (refl, refl)
]

reading-some :
    (f : Floats) (threshold : ℕ) (scan : Scan) (samples : List ℕ) (p : ℕ × ℕ)
    → first_point f threshold scan 0 samples ≡ some p
    → reading f threshold scan samples ≡ p
unfolding reading
reading-some f threshold scan samples p e = ap point_or_zero e

reading-none :
    (f : Floats) (threshold : ℕ) (scan : Scan) (samples : List ℕ)
    → first_point f threshold scan 0 samples ≡ none
    → reading f threshold scan samples ≡ (0, 0)
unfolding reading
reading-none f threshold scan samples e = ap point_or_zero e

reading-nearest :
    (f : Floats) (threshold : ℕ) (scan : Scan) (samples : List ℕ)
    → FirstValid f threshold scan 0 samples (reading f threshold scan samples)
      ⊎ ((reading f threshold scan samples ≡ (0, 0)) × NoneValid f threshold scan 0 samples)
reading-nearest f threshold scan samples =
    elim (first_point-FirstValid f threshold scan 0 samples) [
      | inl (p, found, w) ↦ inl (
          subst (FirstValid f threshold scan 0 samples)
            (sym (reading-some f threshold scan samples p found)) w)
      | inr (gone, all) ↦ inr (reading-none f threshold scan samples gone, all)
    ]

-- The scan after the reading.
abbrev with_reading : Head → ℕ × ℕ → Scan → Scan
with_reading head p scan = record scan {
  ranges = set (resize (angle_count head) scan.ranges) (angle_index head) p.0;
  intensities = set (resize (angle_count head) scan.intensities) (angle_index head) p.1;
}

write_reading-inside :
    (head : Head) (p : ℕ × ℕ) (scan : Scan)
    → angle_index head < angle_count head
    → write_reading head p scan ≡ some (with_reading head p scan)
unfolding write_reading
write_reading-inside head p scan h = rw (lt→ltb (angle_index head) (angle_count head) h) refl

scanned :
    (f : Floats) (threshold : ℕ) (head : Head) (samples : List ℕ) (end_turn : Bool)
    (scan after : Scan) (out : List Scan)
    → angle_index head < angle_count head
    → after.ranges ≡ (with_reading head (reading f threshold scan samples) scan).ranges
    → after.intensities ≡ (with_reading head (reading f threshold scan samples) scan).intensities
    → out ≡ (if end_turn then after ∷ [] else [])
    → Scanned f threshold head samples end_turn scan (out, after)
scanned f threshold head samples end_turn scan after out h e d o =
    let p = reading f threshold scan samples in
    let count = angle_count head in
    let fits : angle_index head < length (resize count scan.ranges) =
      omega (arith, h, length-resize count scan.ranges) in
    let fits_too : angle_index head < length (resize count scan.intensities) =
      omega (arith, h, length-resize count scan.intensities) in
    record {
      point = p;
      is_nearest = reading-nearest f threshold scan samples;
      size =
          ap length e
          ∙ length-set (resize count scan.ranges) (angle_index head) p.0
          ∙ length-resize count scan.ranges;
      range_here = rw e (get_elem?-set_self (resize count scan.ranges) (angle_index head) p.0 fits);
      intensity_here =
          rw d (get_elem?-set_self (resize count scan.intensities) (angle_index head) p.1 fits_too);
      others = λ j other. rw e (get_elem?-set_ne (resize count scan.ranges) p.0 other);
      published = o;
    }

-- In a sector scan over a whole number of steps, with the angle and the next one strictly within the
-- limits, as `updateAngle` keeps them, and a step other than 0: `publishScan` writes inside the arrays of the scan, with a place for
-- each angle: the place of the current angle gets the range and the intensity of the first sample
-- that reaches the threshold in a range from `range_min` to below `range_max`, and 0 if there is none. The other
-- places keep their ranges, and the scan is published exactly at the end of a turn.
pub publish_scan-Scanned :
    (f : Floats) (threshold : ℕ) (head : Head) (samples : List ℕ) (end_turn : Bool) (scan : Scan)
    (n : ℕ)
    → Inside head
    → abs (head.angle_max -ℤ head.angle_min) ≡ abs head.angle_step * n
    → Ensures
        (Scanned f threshold head samples end_turn scan)
        (publish_scan f threshold head samples end_turn scan)
unfolding publish_scan
publish_scan-Scanned f threshold head samples true scan n v e =
    let h = angle_index-Inside n v e in
    let lists =
      turn_limits-lists f head (with_reading head (reading f threshold scan samples) scan) in
    rw (write_reading-inside head (reading f threshold scan samples) scan h)
      (scanned f threshold head samples true scan _ _ h lists.0 lists.1 refl)
publish_scan-Scanned f threshold head samples false scan n v e =
    let h = angle_index-Inside n v e in
    rw (write_reading-inside head (reading f threshold scan samples) scan h)
      (scanned f threshold head samples false scan _ _ h refl refl refl)
