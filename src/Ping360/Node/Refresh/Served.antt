-- ===== src/Ping360/Node/Refresh/Served.antt =====
-- A round of the node with an emulated sonar.
use mathlib.Core.Path.{subst}
use sensor_packages.Base.{
  ℕ, zero, suc, ◌*◌, ◌^◌, ◌<◌, ◌≤◌, ◌≡◌, ◌≢◌, refl, sym, ◌∙◌, ap, Bool, true, false, List, [], ◌∷◌,
  ◌++◌, some, length, take, le→leb, Each, Bool-cases, inl, inr, arith,
}
use sensor_packages.Base.Fault.{Ensures, Runs, Ensures-bind}
use sensor_packages.Base.Int.{ℤ, ◌-ℤ◌, pos_part}
use sensor_packages.Ping360.Angles.{Head, update_angle, abs}
use sensor_packages.Ping360.Angles.Turn.{Inside}
use sensor_packages.Ping360.Transducer.{Device, TransducerRequest, Reading, read_sonar}
use sensor_packages.Ping360.Transducer.Emulated.{Backed, Echoed, read_sonar-Echoed}
use sensor_packages.Ping360.Sector.{Bound, bounds_of}
use sensor_packages.Ping360.Image.Loop.{points}
use sensor_packages.Ping360.Image.Pixels
use sensor_packages.Ping360.Image.Pixels.{Painted, refresh_image-Painted}
use sensor_packages.Ping360.Scan.{publish_scan}
use sensor_packages.Ping360.Scan.Nearest.{Scanned, publish_scan-Scanned}
use sensor_packages.Ping360.Node.{Picture, Node, IntParams}
use sensor_packages.Ping360.Node.Configured.{Reachable, Square}
use sensor_packages.Ping360.Node.Refresh.{
  Floats, Output, param_messages, bytes_of, intensities, through, echo_part, image_part, scan_part,
  after_reading, refresh,
}

-- The columns for a head.
abbrev pub columns : Floats → Node → Head → List Bound
columns f node head =
    bounds_of f.sector node.sector_radius (f.scan.radians head.angle) (f.step_size head.angle_step)

-- All points of the sector lie in the image, which is small enough for 32-bit places, and the fuel exceeds their number.
pub record Visible (f : Floats) (fuel : ℕ) (node : Node) (head : Head) : Type 0 where
  pub some_column : columns f node head ≢ []
  pub fuelled : length (points (columns f node head)) < fuel
  pub inside : Each (Pixels.Inside node.image.step) (points (columns f node head))
  pub small : node.image.step * node.image.step ≤ 2 ^ 32

-- The head is within a sector of a whole number of steps.
pub record Aligned (head : Head) : Type 0 where
  pub inside : Inside head
  pub steps : ℕ
  pub whole : abs (head.angle_max -ℤ head.angle_min) ≡ abs head.angle_step * steps

take-all : (n : ℕ) (xs : List ℕ) → length xs ≡ n → take n xs ≡ xs
take-all zero [] e = refl
take-all zero (x ∷ xs) e = absurd (omega (arith, e))
take-all (suc n) [] e = refl
take-all (suc n) (x ∷ xs) e = ap (λ t. x ∷ t) (take-all n xs (omega (arith, e)))

intensities-Backed : (d : Device) (b : Backed d) → intensities d ≡ some b.bytes
unfolding intensities bytes_of
intensities-Backed d b =
    let same : length b.bytes ≡ d.data_length = b.size ∙ sym b.announced in
    rw
      (
        b.is_live,
        le→leb d.data_length (length b.bytes) (omega (arith, same)),
        take-all d.data_length b.bytes same,
      )
      refl

through-true : {A : Type 0} (p : Bool) (a : A) → p ≡ true → through p a ≡ some a
through-true true a e = refl
through-true false a e = cc

echo_part-Runs :
    (f : Floats) (subscribed : Bool) (node : Node)
    → Reachable node.publishers
    → Backed node.device
    → Runs (echo_part f subscribed node)
unfolding echo_part
echo_part-Runs f subscribed node p b = elim (Bool-cases node.publishers.publish_echo) [
  | inl e ↦
      rw
        (
          e,
          through-true node.publishers.echo_pub subscribed (p.echo e),
          intensities-Backed node.device b,
        )
        tt
  | inr e ↦ rw e tt
]

not_empty : (xs : List ℕ) → 0 < length xs → xs ≢ []
not_empty [] h = absurd (omega arith)
not_empty (x ∷ xs) h = λ e. cc

-- The image keeps its sizes.
abbrev pub SameSize : Picture → Picture → Type 0
SameSize before after = (after.step ≡ before.step) × (length after.bytes ≡ length before.bytes)

image_part-SameSize :
    (f : Floats) (fuel : ℕ) (node : Node)
    → Backed node.device
    → 0 < node.device.number_of_samples
    → Square node.image
    → (node.publishers.publish_image ≡ true → Visible f fuel node node.head)
    → Ensures (SameSize node.image) (image_part f fuel node)
unfolding image_part
image_part-SameSize f fuel node b some_sample q v =
    elim (Bool-cases node.publishers.publish_image) [
      | inr e ↦ rw e (refl, refl)
      | inl e ↦
          let (w, run) =
            refresh_image-Painted f.sector (f.sample_of node.sector_radius node.sector_samples)
              b.bytes node.image.step fuel node.sector_radius (f.scan.radians node.head.angle)
              (f.step_size node.head.angle_step) node.image.bytes
              (not_empty b.bytes (omega (arith, b.size))) (v e).some_column (v e).fuelled
              (v e).inside (v e).small q.size in
          rw (e, intensities-Backed node.device b, run) (refl, w.size)
    ]

scan_part-Runs :
    (f : Floats) (subscribed end_turn : Bool) (node : Node)
    → Reachable node.publishers
    → Backed node.device
    → (node.publishers.publish_scan ≡ true → Aligned node.head)
    → Runs (scan_part f subscribed end_turn node)
unfolding scan_part
scan_part-Runs f subscribed end_turn node p b a = elim (Bool-cases node.publishers.publish_scan) [
  | inr e ↦ rw e tt
  | inl e ↦ elim (Bool-cases subscribed) [
    | inr s ↦ rw (e, through-true node.publishers.scan_pub subscribed (p.scan e), s) tt
    | inl s ↦
        rw
          (
            e,
            through-true node.publishers.scan_pub subscribed (p.scan e),
            s,
            intensities-Backed node.device b,
          )
          (Ensures-bind
            (Scanned f.scan (pos_part node.scan_threshold) node.head b.bytes end_turn node.scan)
            (λ r. Unit {0})
            (publish_scan f.scan (pos_part node.scan_threshold) node.head b.bytes end_turn
              node.scan)
            _
            (publish_scan-Scanned f.scan (pos_part node.scan_threshold) node.head b.bytes end_turn
              node.scan (a e).steps (a e).inside (a e).whole)
            λ r _. tt)
  ]
]

-- What a round leaves.
pub record Served (params : IntParams) (before : Node) (r : List Output × Node) : Type 0 where
  pub backed : Backed r.1.device
  pub image : SameSize before.image r.1.image
  pub publishers : r.1.publishers ≡ before.publishers
  pub front : List Output
  pub messages : r.0 ≡ front ++ param_messages params ∷ []

after_reading-Served :
    (f : Floats) (fuel : ℕ) (echo_subscribed scan_subscribed : Bool) (params : IntParams)
    (node : Node) (r : Reading)
    → r.valid ≡ true
    → Backed r.device
    → 0 < r.device.number_of_samples
    → Reachable node.publishers
    → Square node.image
    → (node.publishers.publish_image ≡ true → Visible f fuel node r.head)
    → (node.publishers.publish_scan ≡ true → Aligned r.head)
    → Ensures
        (Served params node)
        (after_reading f fuel echo_subscribed scan_subscribed params node r)
unfolding after_reading
after_reading-Served f fuel echo_subscribed scan_subscribed params node r valid b some_sample p q v
      a =
    let turned : Node = record node { head = r.head; device = r.device } in
    rw valid (
      Ensures-bind (λ e. Unit {0}) (Served params node) (echo_part f echo_subscribed turned) _
        (echo_part-Runs f echo_subscribed turned p b)
        λ echoes _.
          Ensures-bind (SameSize node.image) (Served params node) (image_part f fuel turned) _
            (image_part-SameSize f fuel turned b some_sample q (λ e. record {
              some_column = (v e).some_column;
              fuelled = (v e).fuelled;
              inside = (v e).inside;
              small = (v e).small;
            }))
            λ image same.
              Ensures-bind (λ s. Unit {0}) (Served params node)
                (scan_part f scan_subscribed r.end_turn (record turned { image = image })) _
                (scan_part-Runs f scan_subscribed r.end_turn (record turned { image = image }) p b
                  a)
                λ scanned _.
                  rw (through-true node.publishers.param_pubs (param_messages params) p.params)
                    record {
                      backed = b;
                      image = same;
                      publishers = refl;
                      front = echoes ++ scanned.0;
                      messages = refl;
                    })

-- A round of the node with an emulated sonar, `refresh`, runs through, whoever listens: it reads the sonar, uses no
-- publisher that is missing and writes inside the image and the scan, and it ends with the echoes of the parameters. The
-- data of the sonar stay an array of the announced size, not 0, and the image keeps its sizes. There is
-- a publisher for all that is to be published; if the image is, the sector for the new angle has
-- columns and lies in it, with less points than the fuel; if the scan is, the head is within a
-- sector of a whole number of steps.
pub refresh-Served :
    (f : Floats) (receive : TransducerRequest → Bool × Device) (hit : ℤ → ℕ → Bool) (random : ℕ → ℕ)
    (fuel : ℕ) (echo_subscribed scan_subscribed : Bool) (params : IntParams) (node : Node)
    → Backed node.device
    → 0 < node.device.number_of_samples
    → Reachable node.publishers
    → Square node.image
    → (node.publishers.publish_image ≡ true → Visible f fuel node (update_angle node.head).1)
    → (node.publishers.publish_scan ≡ true → Aligned (update_angle node.head).1)
    → Ensures
        (Served params node)
        (refresh f receive hit random false fuel echo_subscribed scan_subscribed params node)
unfolding refresh
refresh-Served f receive hit random fuel echo_subscribed scan_subscribed params node b some_sample p
      q v a =
    Ensures-bind (Echoed hit random node.head node.device) (Served params node)
      (read_sonar receive hit random false node.head node.device) _
      (read_sonar-Echoed receive hit random node.head node.device b)
      λ r w.
        after_reading-Served f fuel echo_subscribed scan_subscribed params node r w.answered
          w.backed (omega (arith, w.same_samples)) p q
          (λ e. subst (Visible f fuel node) (sym w.turned) (v e))
          (λ e. subst Aligned (sym w.turned) (a e))
