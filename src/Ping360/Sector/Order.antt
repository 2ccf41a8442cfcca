-- ===== src/Ping360/Sector/Order.antt =====
-- The columns that `init` makes.
use sensor_packages.Base.{
  ℕ, Bool, List, [], ◌∷◌, ◌++◌, map, true, false, Each, Bool-cases, inl, inr, arith, if◌then◌else◌,
}
use sensor_packages.Base.Int.{ℤ, pos, negsuc, ◌≤ℤ◌, ltb_ℤ, ◌*ℤ◌, ◌-ℤ◌}
use sensor_packages.Ping360.Sector.{
  Bound, Floats, up_end, ordered, between, from_tangent, bounds_of, side_bounds, split_bounds,
  range, clamp, radius_sq, x_limits,
}

-- A column whose `low` is not above its `up`.
abbrev pub Ordered : Bound → Type 0
Ordered b = b.low ≤ℤ b.up

ordered-Ordered : (x low up : ℤ) → Ordered (ordered x low up)
unfolding ordered
ordered-Ordered x low up = elim (Bool-cases (ltb_ℤ up low)) [
  | inl e ↦ rw e (ground arith)
  | inr e ↦ rw e (ground arith)
]

between-Ordered : (f : Floats) (radius : ℕ) (x : ℤ) (t u : ℕ) → Ordered (between f radius x t u)
unfolding between
between-Ordered f radius x t u =
    ordered-Ordered x (clamp f radius (f.times x t)) (up_end f radius x u)

from_tangent-Ordered :
    (f : Floats) (radius : ℕ) (x : ℤ) (t : ℕ) (d : ℤ) → Ordered (from_tangent f radius x t d)
unfolding from_tangent
from_tangent-Ordered f radius x t d =
    ordered-Ordered x (clamp f radius (f.times x t))
      (clamp f radius (f.times d (f.root (radius_sq radius -ℤ x *ℤ x))))

Each-map :
    (make : ℤ → Bound) (xs : List ℤ) → ((x : ℤ) → Ordered (make x)) → Each Ordered (map make xs)
Each-map make [] h = tt
Each-map make (x ∷ xs) h = (h x, Each-map make xs h)

Each-append : (bs cs : List Bound) → Each Ordered bs → Each Ordered cs → Each Ordered (bs ++ cs)
Each-append [] cs h k = k
Each-append (b ∷ bs) cs h k = (h.0, Each-append bs cs h.1 k)

either :
    (c : Bool) (bs cs : List Bound)
    → Each Ordered bs
    → Each Ordered cs
    → Each Ordered (if c then bs else cs)
either true bs cs h k = h
either false bs cs h k = k

split-Ordered :
    (f : Floats) (radius : ℕ) (d xmin xmax : ℤ) (t u : ℕ)
    → Each Ordered (split_bounds f radius d xmin xmax t u)
unfolding split_bounds
split-Ordered f radius d xmin xmax t u =
    Each-append (map (λ x. from_tangent f radius x t d) (range xmin (negsuc 0)))
      (map (λ x. from_tangent f radius x u d) (range (pos 0) xmax))
      (Each-map (λ x. from_tangent f radius x t d) (range xmin (negsuc 0))
        λ x. from_tangent-Ordered f radius x t d)
      (Each-map (λ x. from_tangent f radius x u d) (range (pos 0) xmax)
        λ x. from_tangent-Ordered f radius x u d)

side-Ordered :
    (f : Floats) (radius : ℕ) (xmin xmax : ℤ) (t u : ℕ)
    → Each Ordered (side_bounds f radius xmin xmax t u)
unfolding side_bounds
side-Ordered f radius xmin xmax t u =
    either (f.steeper t u) (map (λ x. between f radius x u t) (range xmin xmax))
      (map (λ x. between f radius x t u) (range xmin xmax))
      (Each-map (λ x. between f radius x u t) (range xmin xmax) λ x. between-Ordered f radius x u t)
      (Each-map (λ x. between f radius x t u) (range xmin xmax) λ x. between-Ordered f radius x t u)

pub bounds_of-Ordered :
    (f : Floats) (radius angle angle_step : ℕ) → Each Ordered (bounds_of f radius angle angle_step)
unfolding bounds_of
bounds_of-Ordered f radius angle angle_step =
    let limits : ℤ × ℤ × Bool =
      x_limits f radius (f.lower angle angle_step) (f.upper angle angle_step) in
    elim (Bool-cases limits.2) [
      | inl e ↦ rw e (side-Ordered f radius _ _ _ _)
      | inr e ↦ rw e elim (Bool-cases (f.forward angle)) [
        | inl d ↦ rw d (split-Ordered f radius _ _ _ _ _)
        | inr d ↦ rw d (split-Ordered f radius _ _ _ _ _)
      ]
    ]
