-- ===== src/Oculus/Converter/Mapped.antt =====
-- The mapping that `updateMapping` leaves.
use sensor_packages.Base.{
  ℕ, zero, suc, ◌+◌, ◌*◌, ◌<◌, ◌≤◌, ◌≡◌, refl, ap, Bool, true, not, ◌&&◌, ◌||◌, List, [], ◌∷◌,
  Option, some, length, get_elem?-some, length-append, ◌==◌, arith, Bool-cases, inl, inr,
}
use sensor_packages.Base.Fault.{Ensures, Runs, Ensures-bind}
use sensor_packages.Oculus.SonarImage.Rows.{suc_times}
use sensor_packages.Oculus.Converter.{
  Floats, Converter, lower_bound, interpolate_at, last, interpolate_bearing, row_of, matrix_of,
  columns_of, generate_cartesian_mapping, default_bearings, bearings_for, unchanged, update_mapping,
}

lower_bound-length : (less : ℕ → ℕ → Bool) (xs : List ℕ) (b : ℕ) → lower_bound less xs b ≤ length xs
unfolding lower_bound
lower_bound-length less [] b = omega arith
lower_bound-length less (x ∷ xs) b = elim (Bool-cases (less x b)) [
  | inl e ↦ rw e (omega (arith, lower_bound-length less xs b))
  | inr e ↦ rw e (omega arith)
]

pub last-Runs : (xs : List ℕ) → 0 < length xs → Runs (last xs)
unfolding last
last-Runs [] h = absurd (omega arith)
last-Runs (x ∷ []) h = tt
last-Runs (x ∷ y ∷ ys) h = last-Runs (y ∷ ys) (omega arith)

interpolate_at-Runs :
    (f : Floats) (xs : List ℕ) (b idx : ℕ) → idx ≤ length xs → Runs (interpolate_at f xs b idx)
unfolding interpolate_at
interpolate_at-Runs f xs b zero h = tt
interpolate_at-Runs f xs b (suc before) h = elim (Bool-cases (suc before == length xs)) [
  | inl e ↦ rw e tt
  | inr e ↦
      let inside : suc before < length xs = ground arith in
      let high = get_elem?-some xs (suc before) inside in
      let low = get_elem?-some xs before (omega arith) in rw (e, high.1, low.1) tt
]

interpolate_bearing-Runs : (f : Floats) (xs : List ℕ) (b : ℕ) → Runs (interpolate_bearing f xs b)
unfolding interpolate_bearing
interpolate_bearing-Runs f [] b = tt
interpolate_bearing-Runs f (x ∷ xs) b =
    Ensures-bind (λ a. Unit {0}) (λ a. Unit {0}) (last (x ∷ xs)) _
      (last-Runs (x ∷ xs) (omega arith))
      λ back _. elim (Bool-cases (f.less b x || f.less back b)) [
        | inl e ↦ rw e tt
        | inr e ↦ rw e (
            interpolate_at-Runs f (x ∷ xs) b (lower_bound f.less (x ∷ xs) b)
              (lower_bound-length f.less (x ∷ xs) b))
      ]

row_of-length :
    (element : ℕ → Option ℕ) (n col : ℕ)
    → ((i : ℕ) → Runs (element i))
    → Ensures (λ xs. length xs ≡ n) (row_of element n col)
unfolding row_of
row_of-length element zero col h = refl
row_of-length element (suc n) col h =
    Ensures-bind (λ a. Unit {0}) (λ xs. length xs ≡ suc n) (element col) _ (h col)
      λ x _.
        Ensures-bind (λ xs. length xs ≡ n) (λ xs. length xs ≡ suc n) (row_of element n (col + 1)) _
          (row_of-length element n (col + 1) h) λ rest e. ap suc e

matrix_of-length :
    (element : ℕ → ℕ → Option ℕ) (cols n row : ℕ)
    → ((i j : ℕ) → Runs (element i j))
    → Ensures (λ xs. length xs ≡ n * cols) (matrix_of element cols n row)
unfolding matrix_of
matrix_of-length element cols zero row h = omega arith
matrix_of-length element cols (suc n) row h =
    Ensures-bind (λ xs. length xs ≡ cols) (λ xs. length xs ≡ suc n * cols)
      (row_of (element row) cols 0) _ (row_of-length (element row) cols 0 (h row))
      λ elements e.
        Ensures-bind (λ xs. length xs ≡ n * cols) (λ xs. length xs ≡ suc n * cols)
          (matrix_of element cols n (row + 1)) _ (matrix_of-length element cols n (row + 1) h)
          λ rest d. omega (arith, e, d, length-append elements rest, suc_times n cols)

-- The matrices have a row for each range and at least one column.
pub record Mapped (c : Converter) : Type 0 where
  pub initialized : c.initialized ≡ true
  pub height : c.rows ≡ c.num_ranges
  pub width : 1 ≤ c.cols
  pub size_x : length c.map_x ≡ c.rows * c.cols
  pub size_y : length c.map_y ≡ c.rows * c.cols

-- What `updateMapping` leaves for a number of ranges and of beams.
pub record Fitting (num_ranges num_beams : ℕ) (c : Converter) : Type 0 where
  pub mapped : Mapped c
  pub ranges : c.num_ranges ≡ num_ranges
  pub beams : c.num_beams ≡ num_beams

columns_of-positive : (f : Floats) (rows first back : ℕ) → 1 ≤ columns_of f rows first back
unfolding columns_of
columns_of-positive f rows first back = ground arith

generate-Fitting :
    (f : Floats) (c : Converter)
    → 0 < length c.bearings
    → Ensures (Fitting c.num_ranges c.num_beams) (generate_cartesian_mapping f c)
unfolding generate_cartesian_mapping
generate-Fitting f c h =
    let first = get_elem?-some c.bearings 0 h in
    rw first.1 (
      Ensures-bind (λ a. Unit {0}) (Fitting c.num_ranges c.num_beams) (last c.bearings) _
        (last-Runs c.bearings h)
        λ back _.
          let cols = columns_of f c.num_ranges first.0 back in
          Ensures-bind (λ xs. length xs ≡ c.num_ranges * cols) (Fitting c.num_ranges c.num_beams)
            (matrix_of
              (λ row col.
                interpolate_bearing f c.bearings
                  (f.bearing_at c.max_range c.num_ranges cols row col))
              cols c.num_ranges 0)
            _
            (matrix_of-length
              (λ row col.
                interpolate_bearing f c.bearings
                  (f.bearing_at c.max_range c.num_ranges cols row col))
              cols c.num_ranges 0 (λ i j. interpolate_bearing-Runs f c.bearings _))
            λ map_x e.
              Ensures-bind (λ xs. length xs ≡ c.num_ranges * cols)
                (Fitting c.num_ranges c.num_beams)
                (matrix_of
                  (λ row col.
                    some
                      (f.range_index_at c.max_range c.range_resolution c.num_ranges cols row col))
                  cols c.num_ranges 0)
                _
                (matrix_of-length
                  (λ row col.
                    some
                      (f.range_index_at c.max_range c.range_resolution c.num_ranges cols row col))
                  cols c.num_ranges 0 (λ i j. tt))
                λ map_y d. record {
                  mapped = record {
                    initialized = refl;
                    height = refl;
                    width = columns_of-positive f c.num_ranges first.0 back;
                    size_x = e;
                    size_y = d;
                  };
                  ranges = refl;
                  beams = refl;
                })

length-default : (f : Floats) (fov beams n i : ℕ) → length (default_bearings f fov beams n i) ≡ n
unfolding default_bearings
length-default f fov beams zero i = refl
length-default f fov beams (suc n) i = ap suc (length-default f fov beams n (i + 1))

some_angles : (n beams : ℕ) → (not (n == 0) && n == beams) ≡ true → n ≡ beams
some_angles n beams e = ground arith

length-bearings :
    (f : Floats) (c : Converter) (num_beams : ℕ) (angles : List ℕ)
    → length (bearings_for f c num_beams angles) ≡ num_beams
unfolding bearings_for
length-bearings f c num_beams angles =
    elim (Bool-cases (not (length angles == 0) && length angles == num_beams)) [
      | inl e ↦ rw e (some_angles (length angles) num_beams e)
      | inr e ↦ rw e (length-default f c.current_specs.horizontal_fov_deg num_beams num_beams 0)
    ]

unchanged-sizes :
    (f : Floats) (c : Converter) (num_ranges num_beams max_range : ℕ)
    → unchanged f c num_ranges num_beams max_range ≡ true
    → (c.initialized ≡ true) × (c.num_ranges ≡ num_ranges) × (c.num_beams ≡ num_beams)
unchanged-sizes f c num_ranges num_beams max_range e = ground arith

-- `updateMapping` for at least one beam runs through, whatever the angles are, and leaves a mapping for the
-- given numbers of ranges and beams: with a row for each range and at least one column, both matrices
-- having an element for each pixel. A mapping that it keeps is one that it has made before.
pub update_mapping-Fitting :
    (f : Floats) (c : Converter) (num_ranges num_beams max_range : ℕ) (azimuth_angles : List ℕ)
    → 0 < num_beams
    → (c.initialized ≡ true → Mapped c)
    → Ensures
        (Fitting num_ranges num_beams)
        (update_mapping f c num_ranges num_beams max_range azimuth_angles)
unfolding update_mapping
update_mapping-Fitting f c num_ranges num_beams max_range azimuth_angles h kept =
    elim (Bool-cases (unchanged f c num_ranges num_beams max_range)) [
      | inl e ↦
          let (set_up, ranges, beams) = unchanged-sizes f c num_ranges num_beams max_range e in
          rw e record { mapped = kept set_up; ranges = ranges; beams = beams }
      | inr e ↦ rw e (
          generate-Fitting f
            (record c {
              num_beams = num_beams;
              num_ranges = num_ranges;
              max_range = max_range;
              range_resolution = f.per_range max_range num_ranges;
              bearings = bearings_for f c num_beams azimuth_angles;
            })
            (omega (arith, length-bearings f c num_beams azimuth_angles)))
    ]
