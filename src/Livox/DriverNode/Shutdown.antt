-- ===== src/Livox/DriverNode/Shutdown.antt =====
-- The end of the Livox node: when its destructor returns, and when it does not.
use sensor_packages.Base.{
  ℕ, ◌≡◌, ◌≢◌, refl, sym, ◌∙◌, Bool, true, false, Option, none, some, ◌==◌, if◌then◌else◌,
  Bool-cases, inl, inr,
}
use sensor_packages.Livox.Lds.{Lds}
use sensor_packages.Livox.DriverNode.{
  k_source_raw_lidar, registered_source, request_source_exit, Poll, waiting, left, turn, Closer,
  not_begun, requested, signalled, joined_points, joined, Driver, Step, poll_points, poll_imus,
  request, set_value, join_points, join_imus, Quiet, stay, more,
}

-- What holds at each place of the destructor.
abbrev Closing : Closer → Driver → Type 0
Closing not_begun s = s.signal ≡ false
Closing requested s = s.exit ≡ true
Closing signalled s = (s.exit ≡ true) × (s.signal ≡ true)
Closing joined_points s = (s.exit ≡ true) × (s.signal ≡ true) × (s.points ≡ left)
Closing joined s = (s.exit ≡ true) × (s.signal ≡ true) × (s.points ≡ left) × (s.imus ≡ left)

record Inv (s : Driver) : Type 0 where
  points_left : s.points ≡ left → s.signal ≡ true
  imus_left : s.imus ≡ left → s.signal ≡ true
  closing : Closing s.closer s

-- The thread of the points is in `Wait` with its semaphore down, and is not joined.
abbrev Hung : Driver → Type 0
Hung s = (s.points ≡ waiting) × (s.pcd_count ≡ 0) × (s.closer ≢ joined_points) × (s.closer ≢ joined)

turn-blocked :
    (exit signal : Bool) (r : Option (Poll × ℕ)) → turn exit signal waiting 0 ≡ r → r ≡ none
unfolding turn
turn-blocked exit signal r e = sym e

Step-Hung : {s t : Driver} → Hung s → Step s t → Hung t
Step-Hung {s = s} h (poll_points {p = p} {n = n} e) =
    let e' : turn s.exit s.signal waiting 0 ≡ some (p, n) = rw (h.0, h.1) at e in
    cc (turn-blocked s.exit s.signal (some (p, n)) e')
Step-Hung h (poll_imus e) = h
Step-Hung h (request e) = (h.0, h.1, λ c. cc, λ c. cc)
Step-Hung h (set_value e) = (h.0, h.1, λ c. cc, λ c. cc)
Step-Hung h (join_points e l) = cc (sym h.0 ∙ l)
Step-Hung h (join_imus e l) = absurd (h.2 e)

Quiet-Hung : {s t : Driver} → Hung s → Quiet s t → Hung t
Quiet-Hung h stay = h
Quiet-Hung h (more r st) = Step-Hung (Quiet-Hung h r) st

-- The destructor does not end the wait of a thread: from a state in which the polling thread of the
-- points is in `Wait` with its semaphore down and is not yet joined, as long as no data arrive, the
-- thread stays there and the destructor does not return, also when it has requested the exit.
pub Quiet-hangs :
    {s t : Driver}
    → s.points ≡ waiting
    → s.pcd_count ≡ 0
    → s.closer ≢ joined_points
    → s.closer ≢ joined
    → Quiet s t
    → (t.points ≡ waiting) × (t.closer ≢ joined)
Quiet-hangs w c ne ne' r = let h = Quiet-Hung (w, c, ne, ne') r in (h.0, h.3)

-- The first statement of the destructor, for every data source that the node can be started with: on
-- the raw lidar it requests the exit of the registered source, on any other, which the constructor
-- reports as invalid but accepts, it calls a member of a null pointer.
pub request_source_exit-registered_source :
    (data_src : ℕ) (lidar : Lds)
    → request_source_exit (registered_source data_src lidar) ≡ (
        if data_src == k_source_raw_lidar
        then some (record lidar { request_exit = true })
        else none)
unfolding request_source_exit registered_source
request_source_exit-registered_source data_src lidar =
    elim (Bool-cases (data_src == k_source_raw_lidar)) [
      | inl e ↦ rw (e, if◌then◌else◌) refl
      | inr e ↦ rw (e, if◌then◌else◌) refl
    ]
