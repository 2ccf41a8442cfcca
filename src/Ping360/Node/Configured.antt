-- ===== src/Ping360/Node/Configured.antt =====
-- What a configuration leaves of the node.
use sensor_packages.Base.{
  ℕ, ◌<◌, ◌≤◌, Option, none, ◌*◌, ◌/◌, ◌≡◌, refl, sym, ap, Bool, true, false, not, ◌||◌, List, [],
  ◌∷◌, some, length, length-replicate, ◌==◌, Each, Bool-cases, inl, inr, arith,
}
use sensor_packages.Base.Fault.{Ensures, Runs, Ensures-bind, Ensures-mono}
use sensor_packages.Base.Int.{ℤ, pos, negsuc}
use sensor_packages.Base.Text.{String, find_text}
use sensor_packages.Ping360.Angles.{Head, configure_angles, target_step_of, target_half_of}
use sensor_packages.Ping360.Angles.Aligned.{
  Spans, configure_angles-configured, configure_angles-Spans,
}
use sensor_packages.Ping360.Transducer.{Device, Formulas, configure_transducer}
use sensor_packages.Ping360.Scan
use sensor_packages.Ping360.Node.{
  Setting, IntParams, updated_params, Publishers, init_publishers, Picture, Node, has_sector,
  sized_image, is_set, configured_device, configured_head, declared_ranges, natural,
  configure_from_params,
}

-- There is a publisher for all that is to be published.
pub record Reachable (p : Publishers) : Type 0 where
  pub image : p.publish_image ≡ true → p.image_pub ≡ true
  pub scan : p.publish_scan ≡ true → p.scan_pub ≡ true
  pub echo : p.publish_echo ≡ true → p.echo_pub ≡ true
  pub params : p.param_pubs ≡ true

-- The image is a square, of the size that the step says.
pub record Square (image : Picture) : Type 0 where
  pub height : image.height ≡ image.step
  pub width : image.width ≡ image.step
  pub size : length image.bytes ≡ image.step * image.step

-- The parameters that `configureFromParams` reads.
abbrev pub required : List String
required =
    "angle_sector" ∷ "angle_step" ∷ "publish_scan" ∷ "publish_image" ∷ "publish_echo" ∷ "gain"
    ∷ "frequency" ∷ "speed_of_sound" ∷ "range_max" ∷ "sonar_timeout" ∷ "image_size"
    ∷ "scan_threshold" ∷ []

-- A value lies in the range that the node declares for its name, if it declares one.
abbrev pub Declared : Option (ℕ × ℕ) → ℤ → Type 0
Declared none v = Unit {0}
Declared (some (low, high)) (pos n) = (low ≤ n) × (n ≤ high)
Declared (some (low, high)) (negsuc n) = ⊥

-- Each of these parameters is there, with a value that ROS accepts.
abbrev pub Present : IntParams → Type 0
Present m =
    Each
      (λ name.
        (v : ℤ) × (find_text name m ≡ some v)
        × Declared (find_text {A = ℕ × ℕ} name declared_ranges) v)
      required

-- What `configureFromParams` leaves.
pub record Ready (node : Node) : Type 0 where
  pub publishers : Reachable node.publishers
  pub image : Square node.image
  pub radius : node.sector_radius ≡ node.image.step / 2
  pub samples : node.sector_samples ≡ node.device.number_of_samples
  pub steps : ℕ
  pub aligned : node.publishers.publish_scan ≡ true → Spans node.head steps

or_right : (a b : Bool) → b ≡ true → (a || b) ≡ true
or_right a b e = ground arith

init_publishers-Reachable :
    (image scan echo : Bool) (p : Publishers) → Reachable (init_publishers image scan echo p)
unfolding init_publishers
init_publishers-Reachable image scan echo p = record {
  image = λ e. or_right p.image_pub image e;
  scan = λ e. or_right p.scan_pub scan e;
  echo = λ e. or_right p.echo_pub echo e;
  params = refl;
}

same_size : (size step : ℕ) (b : Bool) → (not (size == step) || b) ≡ false → step ≡ size
same_size size step b e = ground arith

sized_image-Square :
    (size : ℕ) (changed : Bool) (image : Picture)
    → Square image
    → Square (sized_image size changed image) × ((sized_image size changed image).step ≡ size)
unfolding sized_image
sized_image-Square size changed image q = elim (Bool-cases (not (size == image.step) || changed)) [
  | inl e ↦ rw e (
    record { height = refl; width = refl; size = length-replicate {A = ℕ} (size * size) 0 },
    refl,
  )
  | inr e ↦ rw e (q, same_size size image.step changed e)
]

configured_device-Runs :
    (formulas : Formulas) (of_int : ℤ → ℕ) (gain frequency speed_of_sound range_max : ℤ)
    (device : Device)
    → Runs (configured_device formulas of_int true gain frequency speed_of_sound range_max device)
unfolding configured_device configure_transducer
configured_device-Runs formulas of_int gain frequency speed_of_sound range_max device = tt

-- The steps and the sectors that are declared, in gradians.
declared_step : (n : ℕ) → 1 ≤ n → n ≤ 20 → (0 < target_step_of n) × (target_step_of n ≤ 1000)
declared_step n h k = omega arith

declared_half : (n : ℕ) → n ≤ 360 → target_half_of n ≤ 200
declared_half n h = omega arith

-- A head whose limits are a whole number of steps apart, where the scan is published.
abbrev Aligned : Bool → Head → Type 0
Aligned publish_scan head = (n : ℕ) × (publish_scan ≡ true → Spans head n)

configure_angles-Aligned :
    (h : Head) (sector step : ℕ) (ensure_divisor : Bool)
    → 0 < target_step_of step
    → target_step_of step ≤ 1000
    → target_half_of sector ≤ 200
    → Ensures (λ r. Aligned ensure_divisor r.0) (configure_angles h sector step ensure_divisor)
configure_angles-Aligned h sector step true p few le =
    Ensures-mono _ _ (configure_angles h sector step true)
      (configure_angles-Spans h sector step p few le) λ r spans. (spans.0, λ e. spans.1)
configure_angles-Aligned h sector step false p few le =
    rw (configure_angles-configured h sector step false p) (0, λ e. cc)

configured_head-Aligned :
    (h : Head) (sector step scan : ℤ)
    → Declared (some (60, 360)) sector
    → Declared (some (1, 20)) step
    → Ensures (Aligned (is_set scan)) (configured_head h sector step scan)
unfolding configured_head
configured_head-Aligned h (pos sector) (pos step) scan within within' =
    let steps = declared_step step within'.0 within'.1 in
    Ensures-bind (λ r. Aligned (is_set scan) r.0) (Aligned (is_set scan))
      (configure_angles h sector step (is_set scan)) _
      (configure_angles-Aligned h sector step (is_set scan) steps.0 steps.1
        (declared_half sector within.1))
      λ r aligned. aligned
configured_head-Aligned h (pos sector) (negsuc step) scan within within' = absurd within'
configured_head-Aligned h (negsuc sector) step scan within within' = absurd within

natural-Runs : (low high : ℕ) (v : ℤ) → Declared (some (low, high)) v → Runs (natural v)
natural-Runs low high (pos n) within = tt
natural-Runs low high (negsuc n) within = absurd within

-- With a real sonar, on a node whose image is a square, and with all parameters present and those integers for which
-- the node declares a range within it, `configureFromParams` runs through, without a division by 0. Then
-- there is a publisher for all that is to be published; the image is a square again,
-- with `step * step` bytes, and the sector has half of the step as its radius and the samples of the device. If
-- the scan is to be published, the limits of the head are a whole number of steps apart, as
-- `publishScan` needs it.
pub configure_from_params-Ready :
    (f : Scan.Floats) (formulas : Formulas) (of_int : ℤ → ℕ) (seconds : ℕ → ℕ)
    (new_params : List (String × Setting)) (current : IntParams) (node : Node)
    → Present (updated_params new_params current)
    → Square node.image
    → Ensures Ready (configure_from_params f formulas of_int seconds true new_params current node)
unfolding configure_from_params find_text init_publishers
configure_from_params-Ready f formulas of_int seconds new_params current node
      (
        sector,
        (
          step,
          (
            scan,
            (
              image,
              (echo, (gain, (frequency, (speed, (range, (timeout, (size, (threshold, _)))))))),
            ),
          ),
        ),
      )
      q =
    rw (sector.1, step.1, scan.1)
      (Ensures-bind (Aligned (is_set scan.0)) Ready
        (configured_head node.head sector.0 step.0 scan.0) _
        (configured_head-Aligned node.head sector.0 step.0 scan.0 sector.2 step.2)
        λ head aligned.
          rw (image.1, echo.1, gain.1, frequency.1, speed.1, range.1)
            (Ensures-bind (λ d. Unit {0}) Ready
              (configured_device formulas of_int true gain.0 frequency.0 speed.0 range.0
                node.device)
              _
              (configured_device-Runs formulas of_int gain.0 frequency.0 speed.0 range.0
                node.device)
              λ device _.
                rw (timeout.1, size.1)
                  (Ensures-bind (λ n. Unit {0}) Ready (natural size.0) _
                    (natural-Runs 100 1000 size.0 size.2)
                    λ width _.
                      let square = sized_image-Square width (has_sector new_params) node.image q in
                      rw threshold.1 record {
                        publishers =
                            init_publishers-Reachable (is_set image.0) (is_set scan.0)
                              (is_set echo.0) node.publishers;
                        image = square.0;
                        radius = ap (λ n. n / 2) (sym square.1);
                        samples = refl;
                        steps = aligned.0;
                        aligned = aligned.1;
                      })))
