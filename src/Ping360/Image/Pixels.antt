-- ===== src/Ping360/Image/Pixels.antt =====
-- The pixels that `refreshImage` writes.
use mathlib.Core.Path.{ap₂}
use native.Mathlib.Nat.{mod-eq_of_lt, add-mul-mod_self_left, add-mul-div_left, div-eq_of_lt}
use native.Mathlib.Decide.{ℕ_discrete}
use sensor_packages.Base.{
  ℕ, ◌+◌, ◌*◌, ◌/◌, ◌%◌, ◌^◌, ◌<◌, ◌≤◌, ◌≡◌, ◌≢◌, refl, sym, ◌∙◌, ap, false, List, [], ◌∷◌, Option,
  some, length, get_elem?, set, length-set, get_elem?-set_self, get_elem?-set_ne, get_elem?-some,
  Each, arith, ltb, lt→ltb, Bool-cases, inl, inr, ltb→lt,
}
use sensor_packages.Base.Int.{ℤ, pos, ◌+ℤ◌, ◌-ℤ◌, ◌*ℤ◌, pos_part, neg_part, -ℤ_parts, eq_of_parts}
use sensor_packages.Ping360.Sector.{Floats, bounds_of}
use sensor_packages.Ping360.Image.{refresh_image, pixel, paint_point}
use sensor_packages.Ping360.Image.Loop.{paint_points, points, refresh_image-paint_points}

-- A point of an image of `step` by `step` pixels: it lies `row` below the top and `column` beside the left edge.
pub record Inside (step : ℕ) (p : ℤ × ℤ) : Type 0 where
  pub row : ℕ
  pub column : ℕ
  pub below : pos (step / 2) -ℤ p.0 ≡ pos row
  pub beside : pos (step / 2) -ℤ p.1 ≡ pos column
  pub row_lt : row < step
  pub column_lt : column < step

place-lt : (step row column : ℕ) → row < step → column < step → column + step * row < step * step
place-lt step row column h k = grind arith

times_pos : (a b : ℕ) → pos a *ℤ pos b ≡ pos (a * b)
unfolding ◌*ℤ◌
times_pos a b = ground arith

plus_pos : (a b : ℕ) → pos a +ℤ pos b ≡ pos (a + b)
unfolding ◌+ℤ◌
plus_pos a b = ground arith

pixel_inside :
    (step : ℕ) (p : ℤ × ℤ) (i : Inside step p)
    → step * step ≤ 2 ^ 32
    → pixel step p.0 p.1 ≡ i.column + step * i.row
unfolding pixel
pixel_inside step p i h =
    rw (i.below, i.beside, times_pos step i.row, plus_pos i.column (step * i.row))
      (mod-eq_of_lt (omega (arith, place-lt step i.row i.column i.row_lt i.column_lt)))

same_part : (h a b : ℤ) (n : ℕ) → h -ℤ a ≡ pos n → h -ℤ b ≡ pos n → a ≡ b
same_part h a b n e f = eq_of_parts a b (
    omega (
      arith,
      -ℤ_parts h a,
      -ℤ_parts h b,
      ap pos_part e,
      ap neg_part e,
      ap pos_part f,
      ap neg_part f,
    ))

-- Two points of the image have two pixels.
pixel-inj :
    (step : ℕ) (p q : ℤ × ℤ)
    → step * step ≤ 2 ^ 32
    → Inside step p
    → Inside step q
    → pixel step p.0 p.1 ≡ pixel step q.0 q.1
    → (p.0 ≡ q.0) × (p.1 ≡ q.1)
pixel-inj step p q h i j e =
    let places : i.column + step * i.row ≡ j.column + step * j.row =
      sym (pixel_inside step p i h) ∙ e ∙ pixel_inside step q j h in
    let columns : i.column ≡ j.column =
      sym (mod-eq_of_lt i.column_lt)
      ∙ sym (add-mul-mod_self_left i.column step i.row)
      ∙ ap (λ t. t % step) places
      ∙ add-mul-mod_self_left j.column step j.row
      ∙ mod-eq_of_lt j.column_lt in
    let rows : i.row ≡ j.row =
      sym (column_less i.column i.row i.column_lt)
      ∙ ap (λ t. t / step) places
      ∙ column_less j.column j.row j.column_lt in
    (
      same_part (pos (step / 2)) p.0 q.0 i.row i.below (j.below ∙ ap pos (sym rows)),
      same_part (pos (step / 2)) p.1 q.1 i.column i.beside (j.beside ∙ ap pos (sym columns)),
    )
  where
    column_less : (c r : ℕ) → c < step → (c + step * r) / step ≡ r
    column_less c r k =
        let less : c / step ≡ 0 = div-eq_of_lt k in
        let positive : 0 < step = omega arith in
        let split = add-mul-div_left c r {y = step} positive in omega (arith, split, less)

abbrev pub place : ℕ → ℤ × ℤ → ℕ
place step p = pixel step p.0 p.1

module _ (sample_of : ℤ → ℤ → ℕ) (intensities : List ℕ) where
  abbrev pub sample : ℤ × ℤ → Option ℕ
  sample p = get_elem? intensities (sample_of p.0 p.1)

  abbrev pub Heard : ℤ × ℤ → Type 0
  Heard p = sample_of p.0 p.1 < length intensities

module _ (sample_of : ℤ → ℤ → ℕ) (intensities : List ℕ) (step : ℕ) where
  paint_point-Heard :
      (p : ℤ × ℤ) (v : ℕ) (image : List ℕ)
      → Heard sample_of intensities p
      → sample sample_of intensities p ≡ some v
      → place step p < length image
      → paint_point sample_of intensities step p.0 p.1 image ≡ some (set image (place step p) v)
  unfolding paint_point
  paint_point-Heard p v image h e k =
      rw
        (
          lt→ltb (sample_of p.0 p.1) (length intensities) h,
          e,
          lt→ltb (place step p) (length image) k,
        )
        refl

  paint_point-missed :
      (p : ℤ × ℤ) (image : List ℕ)
      → ltb (sample_of p.0 p.1) (length intensities) ≡ false
      → paint_point sample_of intensities step p.0 p.1 image ≡ some image
  unfolding paint_point
  paint_point-missed p image h = rw h refl

  -- What the painting of some points leaves of an image.
  pub record Painted (ps : List (ℤ × ℤ)) (before : List ℕ) : Type 0 where
    pub after : List ℕ
    pub run : paint_points sample_of intensities step ps before ≡ some after
    pub size : length after ≡ length before
    pub shown :
        Each
          (λ p.
            Heard sample_of intensities p
            → get_elem? after (place step p) ≡ sample sample_of intensities p)
          ps
    pub kept : (j : ℕ) → Each (λ p. place step p ≢ j) ps → get_elem? after j ≡ get_elem? before j
    pub stays :
        (p : ℤ × ℤ)
        → Inside step p
        → get_elem? before (place step p) ≡ sample sample_of intensities p
        → get_elem? after (place step p) ≡ sample sample_of intensities p

  -- Painting a point first.
  shown_first :
      (p : ℤ × ℤ) (ps : List (ℤ × ℤ)) (before : List ℕ) (v : ℕ)
      → step * step ≤ 2 ^ 32
      → Inside step p
      → Heard sample_of intensities p
      → sample sample_of intensities p ≡ some v
      → place step p < length before
      → Painted ps (set before (place step p) v)
      → Painted (p ∷ ps) before
  unfolding paint_points
  shown_first p ps before v small i h e k w = record {
    after = w.after;
    run = rw (paint_point-Heard p v before h e k) w.run;
    size = w.size ∙ length-set before (place step p) v;
    shown =
        ((λ again. w.stays p i (get_elem?-set_self before (place step p) v k ∙ sym e)), w.shown);
    kept = λ j others. w.kept j others.1 ∙ get_elem?-set_ne before v others.0;
    stays = λ q iq same. w.stays q iq (elim (ℕ_discrete (place step p) (place step q)) [
      | yes here ↦
          let equal = pixel-inj step p q small i iq here in
          rw (← here) (get_elem?-set_self before (place step p) v k)
          ∙ sym e
          ∙ ap₂ (λ x y. get_elem? intensities (sample_of x y)) equal.0 equal.1
      | no other ↦ get_elem?-set_ne before v other ∙ same
    ]);
  }

  missed_first :
      (p : ℤ × ℤ) (ps : List (ℤ × ℤ)) (before : List ℕ)
      → ltb (sample_of p.0 p.1) (length intensities) ≡ false
      → Painted ps before
      → Painted (p ∷ ps) before
  unfolding paint_points
  missed_first p ps before h w = record {
    after = w.after;
    run = rw (paint_point-missed p before h) w.run;
    size = w.size;
    shown = ((λ heard. absurd (ground arith)), w.shown);
    kept = λ j others. w.kept j others.1;
    stays = w.stays;
  }

  pub paint_points-Painted :
      (ps : List (ℤ × ℤ)) (image : List ℕ)
      → step * step ≤ 2 ^ 32
      → Each (Inside step) ps
      → length image ≡ step * step
      → Painted ps image
  unfolding paint_points
  paint_points-Painted [] image small i e = record {
    after = image;
    run = refl;
    size = refl;
    shown = tt;
    kept = λ j others. refl;
    stays = λ p ip same. same;
  }
  paint_points-Painted (p ∷ ps) image small i e =
      elim (Bool-cases (ltb (sample_of p.0 p.1) (length intensities))) [
        | inl t ↦
            let h : Heard sample_of intensities p =
              ltb→lt (sample_of p.0 p.1) (length intensities) t in
            let (v, ev) = get_elem?-some intensities (sample_of p.0 p.1) h in
            let inside : place step p < length image = omega (
              arith,
              e,
              pixel_inside step p i.0 small,
              place-lt step i.0.row i.0.column i.0.row_lt i.0.column_lt,
            ) in
            shown_first p ps image v small i.0 h ev inside (
              paint_points-Painted ps (set image (place step p) v) small i.1
                (length-set image (place step p) v ∙ e))
        | inr t ↦ missed_first p ps image t (paint_points-Painted ps image small i.1 e)
      ]

-- Where all points of the columns that `init` has made lie in the image, of `step` by `step` pixels with
-- `step * step` at most 2^32, `refreshImage` never leaves the data or the image. Afterwards every
-- point that has a sample shows it, and the pixels of no point are unchanged. There are
-- intensities and at least one column, and the fuel exceeds the number of points.
pub refresh_image-Painted :
    (f : Floats) (sample_of : ℤ → ℤ → ℕ) (intensities : List ℕ)
    (step fuel radius angle angle_step : ℕ) (image : List ℕ)
    → intensities ≢ []
    → bounds_of f radius angle angle_step ≢ []
    → length (points (bounds_of f radius angle angle_step)) < fuel
    → Each (Inside step) (points (bounds_of f radius angle angle_step))
    → step * step ≤ 2 ^ 32
    → length image ≡ step * step
    → (w : Painted sample_of intensities step (points (bounds_of f radius angle angle_step)) image)
      × (refresh_image sample_of intensities step fuel (bounds_of f radius angle angle_step) image
          ≡ some w.after)
refresh_image-Painted f sample_of intensities step fuel radius angle angle_step image n some_bound h
      i small e =
    let w =
      paint_points-Painted sample_of intensities step (points (bounds_of f radius angle angle_step))
        image small i e in
    (
      w,
      refresh_image-paint_points f sample_of intensities step fuel radius angle angle_step image n
            some_bound h
          ∙ w.run,
    )
