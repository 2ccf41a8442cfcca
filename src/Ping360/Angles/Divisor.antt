-- ===== src/Ping360/Angles/Divisor.antt =====
-- The search of `configureAngles` for a step that divides half of the aperture.
use sensor_packages.Base.{
  ℕ, zero, suc, ◌+◌, ◌-◌, ◌*◌, ◌%◌, ◌≤◌, ◌<◌, ◌≡◌, refl, inl, inr, min, ltb, ◌==◌, arith,
  Bool-cases,
}
use sensor_packages.Ping360.Angles.{
  Best, compute_cost, try_pair, try_halves, try_steps, half_count, first_try, search_divisor, dist,
}

module _ (ts th : ℕ) where
  -- A best choice so far: its cost is that of its pair, and its step is positive.
  pub record Choice (b : Best) : Type 0 where
    pub priced : b.cost ≡ compute_cost ts th b.step b.half
    pub positive : 0 < b.step
    pub low : th ≤ b.half
    pub high : b.half ≤ min (th + 10) 200

  -- No worse than the choice before.
  pub record Better (b r : Best) : Type 0 where
    pub choice : Choice r
    pub below : r.cost ≤ b.cost

  try_pair-Better :
      (step half : ℕ) (b : Best)
      → 0 < step
      → th ≤ half
      → half ≤ min (th + 10) 200
      → Choice b
      → Better b (try_pair ts th step half b)
        × ((try_pair ts th step half b).cost ≤ compute_cost ts th step half)
  try_pair-Better step half b pos lo hi c =
      elim (Bool-cases (ltb (compute_cost ts th step half) b.cost)) [
        | inl e ↦ rw e (
          record {
            choice = record { priced = refl; positive = pos; low = lo; high = hi };
            below = ground arith;
          },
          ground arith,
        )
        | inr e ↦ rw e (record { choice = c; below = omega arith }, ground arith)
      ]

  try_halves-Better :
      (n step half : ℕ) (b : Best)
      → 0 < step
      → th ≤ half
      → half + n ≤ min (th + 10) 200 + 1
      → Choice b
      → Better b (try_halves ts th step n half b)
        × ((j : ℕ)
            → j < n
            → (try_halves ts th step n half b).cost ≤ compute_cost ts th step (half + j))
  unfolding try_halves
  try_halves-Better zero step half b pos lo hi c =
      (record { choice = c; below = omega arith }, λ j lt. absurd (omega arith))
  try_halves-Better (suc n) step half b pos lo hi c =
      let (one, here) = try_pair-Better step half b pos lo (omega arith) c in
      let (more, rest) =
        try_halves-Better n step (half + 1) (try_pair ts th step half b) pos (omega arith)
          (omega arith) one.choice in
      (
        record { choice = more.choice; below = omega (arith, more.below, one.below) },
        λ j lt. at_index j lt (omega (arith, more.below, here)) rest,
      )
    where
      at_index :
          {r : ℕ} (j : ℕ)
          → j < suc n
          → r ≤ compute_cost ts th step half
          → ((i : ℕ) → i < n → r ≤ compute_cost ts th step (half + 1 + i))
          → r ≤ compute_cost ts th step (half + j)
      at_index zero lt h k = let same : half + 0 ≡ half = omega arith in rw same h
      at_index (suc i) lt h k =
          let same : half + suc i ≡ half + 1 + i = omega arith in rw same (k i (omega arith))

  try_steps-Better :
      (n step : ℕ) (b : Best)
      → th ≤ 200
      → 0 < step
      → Choice b
      → Better b (try_steps ts th n step b)
        × ((i j : ℕ)
            → i < n
            → j < half_count th
            → (try_steps ts th n step b).cost ≤ compute_cost ts th (step + i) (th + j))
  unfolding try_steps
  try_steps-Better zero step b le pos c =
      (record { choice = c; below = omega arith }, λ i j lt lt'. absurd (omega arith))
  try_steps-Better (suc n) step b le pos c =
      let (one, here) =
        try_halves-Better (half_count th) step th b pos (omega arith) (omega arith) c in
      let (more, rest) =
        try_steps-Better n (step + 1) (try_halves ts th step (half_count th) th b) le (omega arith)
          one.choice in
      (
        record { choice = more.choice; below = omega (arith, more.below, one.below) },
        λ i j lt lt'.
            at_index i j lt (omega (arith, more.below, here j lt')) (λ k lt''. rest k j lt'' lt'),
      )
    where
      at_index :
          {r : ℕ} (i j : ℕ)
          → i < suc n
          → r ≤ compute_cost ts th step (th + j)
          → ((k : ℕ) → k < n → r ≤ compute_cost ts th (step + 1 + k) (th + j))
          → r ≤ compute_cost ts th (step + i) (th + j)
      at_index zero j lt h k = let same : step + 0 ≡ step = omega arith in rw same h
      at_index (suc i) j lt h k =
          let same : step + suc i ≡ step + 1 + i = omega arith in rw same (k i (omega arith))

-- The pair that the search returns: near enough to what was asked for, and no other is nearer.
pub record Nearest (ts th : ℕ) (r : Best) : Type 0 where
  pub positive : 0 < r.step
  pub divides : r.half % r.step ≡ 0
  pub low : th ≤ r.half
  pub high : r.half ≤ min (th + 10) 200
  pub nearest :
      (step half : ℕ)
      → 0 < step
      → step < ts * 2
      → th ≤ half
      → half ≤ min (th + 10) 200
      → half % step ≡ 0
      → dist r.step ts + dist r.half th ≤ dist step ts + dist half th

cost-divides : (ts th step half : ℕ) → compute_cost ts th step half < 1000 → half % step ≡ 0
unfolding compute_cost
cost-divides ts th step half h = ground arith

cost-dist :
    (ts th step half : ℕ)
    → half % step ≡ 0
    → compute_cost ts th step half ≡ dist step ts + dist half th
unfolding compute_cost
cost-dist ts th step half h = ground arith

-- A choice whose cost is minimal.
minimal-Nearest :
    (ts th : ℕ) (r : Best)
    → 0 < ts
    → ts ≤ 1000
    → th ≤ 200
    → Choice ts th r
    → ((step half : ℕ)
        → 0 < step
        → step < ts * 2
        → th ≤ half
        → half ≤ min (th + 10) 200
        → r.cost ≤ compute_cost ts th step half)
    → Nearest ts th r
minimal-Nearest ts th r pos few le c best =
    let one = best 1 th (omega arith) (omega arith) (omega arith) (omega arith) in
    let unit = cost-dist ts th 1 th (omega arith) in
    let exact = cost-divides ts th r.step r.half (omega (arith, one, unit, c.priced)) in
    record {
      positive = c.positive;
      divides = exact;
      low = c.low;
      high = c.high;
      nearest = λ step half p q lo hi d. omega (
        arith,
        best step half p q lo hi,
        cost-dist ts th step half d,
        cost-dist ts th r.step r.half exact,
        c.priced,
      );
    }

-- The search of `configureAngles`, for a step from 1 to 1000 gradians and half an aperture of at most
-- 200: it returns a positive step that divides half of the new aperture, which is no smaller than what
-- was asked for and at most 10 gradians larger, and of all such pairs with a step below twice the one
-- asked for it is one that is nearest to the request.
pub search_divisor-Nearest :
    (ts th : ℕ) → 0 < ts → ts ≤ 1000 → th ≤ 200 → Nearest ts th (search_divisor ts th)
unfolding search_divisor
search_divisor-Nearest ts th pos few le =
    let start : Choice ts th (first_try ts th) = record {
      priced = refl;
      positive = pos;
      low = omega arith;
      high = omega arith;
    } in
    elim (Bool-cases ((first_try ts th).cost == 0)) [
      | inl e ↦ rw e (
          minimal-Nearest ts th (first_try ts th) pos few le start
            λ step half p q lo hi. ground arith)
      | inr e ↦
          let (better, all) =
            try_steps-Better ts th (ts * 2 - 1) 1 (first_try ts th) le (omega arith) start in
          rw e (
            minimal-Nearest ts th (try_steps ts th (ts * 2 - 1) 1 (first_try ts th)) pos few le
              better.choice
              λ step half p q lo hi.
                let a : 1 + (step - 1) ≡ step = omega arith in
                let b : th + (half - th) ≡ half = omega arith in
                rw (a, b) at (all (step - 1) (half - th) (omega arith) (omega arith)))
    ]
