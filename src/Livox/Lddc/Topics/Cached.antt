-- ===== src/Livox/Lddc/Topics/Cached.antt =====
-- The publishers of the driver: each is created once, has the type of the messages that it is given,
-- and no call goes to a null pointer.
use mathlib.Core.Path.{subst}
use mathlib.Core.Option.{some-injective}
use sensor_packages.Base.{
  ltb, ℕ, zero, suc, ◌<◌, ◌≡◌, refl, ◌∙◌, ◌⊎◌, inl, inr, Bool, true, false, List, [], ◌∷◌, Option,
  none, some, get_elem?, set, length, length-set, get_elem?-some, get_elem?-set_self, ◌==◌, arith,
  if◌then◌else◌, ◌++◌, Bool-cases,
}
use sensor_packages.Base.Fault.{Ensures, Runs, Ensures-bind, ◌>>=◌}
use sensor_packages.Livox.Comm.{codes}
use sensor_packages.Livox.Comm.Underlined.{replace_period_by_underline-underline}
use sensor_packages.Livox.Lds.{Lds}
use sensor_packages.Livox.Lddc.Messages.{k_pointcloud2_msg, k_livox_custom_msg, k_output_to_ros}
use sensor_packages.Livox.Lddc.Topics.{
  k_livox_imu_msg, Publisher, Publishers, create_publisher, sensor_of, sensor_or_default,
  global_sensor, topic_of_lidar, get_current_publisher, get_current_imu_publisher, publish_on,
  publish_points, publish_imu, printed,
}

-- A place for a publisher holds none, or one for messages of this type.
abbrev pub HasType : ℕ → Option Publisher → Type 0
HasType msg_type none = Unit {0}
HasType msg_type (some publisher) = publisher.msg_type ≡ msg_type

abbrev pub AllHaveType : ℕ → List (Option Publisher) → Type 0
AllHaveType msg_type [] = Unit {0}
AllHaveType msg_type (p ∷ ps) = HasType msg_type p × AllHaveType msg_type ps

-- A format that ROS 2 publishes
abbrev pub IsSupported : ℕ → Type 0
IsSupported format = (format ≡ k_pointcloud2_msg) ⊎ (format ≡ k_livox_custom_msg)

-- The publishers of points are for messages of the chosen format, those of IMU data for theirs, and
-- there is a place for each of the 32 lidars.
pub record Typed (format : ℕ) (pubs : Publishers) : Type 0 where
  pub points : AllHaveType format pubs.private_pub
  pub points_count : length pubs.private_pub ≡ 32
  pub all_points : HasType format pubs.global_pub
  pub imus : AllHaveType k_livox_imu_msg pubs.private_imu_pub
  pub imus_count : length pubs.private_imu_pub ≡ 32
  pub all_imus : HasType k_livox_imu_msg pubs.global_imu_pub

AllHaveType-set :
    (t : ℕ) (ps : List (Option Publisher)) (i : ℕ) (p : Option Publisher)
    → AllHaveType t ps
    → HasType t p
    → AllHaveType t (set ps i p)
AllHaveType-set t [] i p all h = tt
AllHaveType-set t (x ∷ ps) zero p all h = (h, all.1)
AllHaveType-set t (x ∷ ps) (suc i) p all h = (all.0, AllHaveType-set t ps i p all.1 h)

AllHaveType-get :
    (t : ℕ) (ps : List (Option Publisher)) (i : ℕ) (p : Option Publisher)
    → AllHaveType t ps
    → get_elem? ps i ≡ some p
    → HasType t p
AllHaveType-get t [] i p all e = cc
AllHaveType-get t (x ∷ ps) zero p all e = subst (HasType t) (some-injective x p e) all.0
AllHaveType-get t (x ∷ ps) (suc i) p all e = AllHaveType-get t ps i p all.1 e

-- There is a publisher, of this type.
abbrev pub IsFor : ℕ → Option Publisher → Type 0
IsFor msg_type ptr = Ensures (λ p. p.msg_type ≡ msg_type) ptr

create_publisher-IsFor :
    (format : ℕ) (topic : List ℕ)
    → IsSupported format
    → IsFor format (create_publisher format topic)
unfolding create_publisher
create_publisher-IsFor format topic (inl h) = rw h refl
create_publisher-IsFor format topic (inr h) = rw h refl

create_publisher-imu :
    (topic : List ℕ) → IsFor k_livox_imu_msg (create_publisher k_livox_imu_msg topic)
unfolding create_publisher
create_publisher-imu topic = refl

IsFor-HasType : (t : ℕ) (p : Option Publisher) → IsFor t p → HasType t p
IsFor-HasType t none h = absurd h
IsFor-HasType t (some p) h = h

-- A data source with all its places, as `Lds` declares them
abbrev pub HasPlaces : Lds → Type 0
HasPlaces lds = length lds.lidars ≡ 32

global_sensor-Runs : (lds : Lds) → HasPlaces lds → Runs (global_sensor (some lds))
unfolding global_sensor
global_sensor-Runs lds h =
    let first = get_elem?-some lds.lidars 0 (omega (arith, h)) in
    elim (Bool-cases (ltb 0 lds.lidar_count)) [
      | inl e ↦ rw (e, if◌then◌else◌, first.1) tt
      | inr e ↦ rw (e, if◌then◌else◌) tt
    ]

-- A publisher that is there is returned, and one that is not is made.
old_or_new :
    (Q : Option Publisher × Publishers → Type 0) (pubs : Publishers) (t : ℕ)
    (old : Option Publisher) (make : Option (Option Publisher × Publishers))
    → HasType t old
    → ((p : Publisher) → p.msg_type ≡ t → Q (some p, pubs))
    → Ensures Q make
    → Ensures Q (elim old [ none ↦ make | some publisher ↦ some (some publisher, pubs) ])
old_or_new Q pubs t none make h found made = made
old_or_new Q pubs t (some p) make h found made = found p h

module _ (inet_ntoa : ℕ → List ℕ) where
  topic_of_lidar-Runs :
      (root : List ℕ) (name : ℕ → List ℕ) (leaf : List ℕ) (lds : Lds) (handle : ℕ)
      → HasPlaces lds
      → handle < 32
      → Runs (topic_of_lidar inet_ntoa root name leaf (some lds) handle)
  unfolding topic_of_lidar
  topic_of_lidar-Runs root name leaf lds handle h lt =
      let at = get_elem?-some lds.lidars handle (omega (arith, h)) in
      rw (at.1, ◌>>=◌, replace_period_by_underline-underline (inet_ntoa at.0.handle)) tt

  module _ (format : ℕ) (lds : Lds) (handle : ℕ) (pubs : Publishers) (places : HasPlaces lds)
      (lt : handle < 32) (typed : Typed format pubs) where
    get_current_publisher-IsFor :
        (multi : Bool)
        → IsSupported format
        → Ensures
            (λ r. IsFor format r.0 × Typed format r.1)
            (get_current_publisher inet_ntoa multi format (some lds) handle pubs)
    unfolding get_current_publisher
    get_current_publisher-IsFor true h =
        let at = get_elem?-some pubs.private_pub handle (omega (arith, lt, typed.points_count)) in
        rw (at.1, ◌>>=◌)
          (old_or_new _ pubs format at.0 _
            (AllHaveType-get format pubs.private_pub handle at.0 typed.points at.1)
            (λ p e. (e, typed))
            (Ensures-bind (λ topic. Unit {0}) _ _ _
              (topic_of_lidar-Runs (codes "/sensor/lidar/") sensor_or_default (codes "/points") lds
                handle places lt)
              (λ topic u.
                let made = create_publisher-IsFor format topic h in
                (
                  made,
                  record {
                    all_points = typed.all_points;
                    imus = typed.imus;
                    imus_count = typed.imus_count;
                    all_imus = typed.all_imus;
                    points =
                        AllHaveType-set format pubs.private_pub handle _ typed.points
                          (IsFor-HasType format _ made);
                    points_count = length-set pubs.private_pub handle _ ∙ typed.points_count;
                  },
                ))))
    get_current_publisher-IsFor false h =
        old_or_new _ pubs format pubs.global_pub _ typed.all_points (λ p e. (e, typed))
          (Ensures-bind (λ sensor. Unit {0}) _ _ _ (global_sensor-Runs lds places)
            (λ sensor u.
              let made =
                create_publisher-IsFor format
                  (printed (codes "/sensor/lidar/" ++ sensor ++ codes "/points")) h in
              (
                made,
                record {
                  points = typed.points;
                  points_count = typed.points_count;
                  all_points = IsFor-HasType format _ made;
                  imus = typed.imus;
                  imus_count = typed.imus_count;
                  all_imus = typed.all_imus;
                },
              )))

    get_current_imu_publisher-IsFor :
        (multi : Bool)
        → Ensures
            (λ r. IsFor k_livox_imu_msg r.0 × Typed format r.1)
            (get_current_imu_publisher inet_ntoa multi (some lds) handle pubs)
    unfolding get_current_imu_publisher
    get_current_imu_publisher-IsFor true =
        let at = get_elem?-some pubs.private_imu_pub handle (omega (arith, lt, typed.imus_count)) in
        rw (at.1, ◌>>=◌)
          (old_or_new _ pubs k_livox_imu_msg at.0 _
            (AllHaveType-get k_livox_imu_msg pubs.private_imu_pub handle at.0 typed.imus at.1)
            (λ p e. (e, typed))
            (Ensures-bind (λ topic. Unit {0}) _ _ _
              (topic_of_lidar-Runs (codes "/sensor/ins/") sensor_of (codes "/imu") lds handle places
                lt)
              (λ topic u.
                let made = create_publisher-imu topic in
                (
                  made,
                  record {
                    all_points = typed.all_points;
                    points = typed.points;
                    points_count = typed.points_count;
                    all_imus = typed.all_imus;
                    imus =
                        AllHaveType-set k_livox_imu_msg pubs.private_imu_pub handle _ typed.imus (
                          IsFor-HasType k_livox_imu_msg (create_publisher k_livox_imu_msg topic)
                            made);
                    imus_count = length-set pubs.private_imu_pub handle _ ∙ typed.imus_count;
                  },
                ))))
    get_current_imu_publisher-IsFor false =
        old_or_new _ pubs k_livox_imu_msg pubs.global_imu_pub _ typed.all_imus (λ p e. (e, typed))
          (Ensures-bind (λ sensor. Unit {0}) _ _ _ (global_sensor-Runs lds places)
            (λ sensor u.
              let made =
                create_publisher-imu (printed (codes "/sensor/ins/" ++ sensor ++ codes "/imu")) in
              (
                made,
                record {
                  points = typed.points;
                  points_count = typed.points_count;
                  all_points = typed.all_points;
                  imus = typed.imus;
                  imus_count = typed.imus_count;
                  all_imus =
                      IsFor-HasType k_livox_imu_msg
                        (create_publisher k_livox_imu_msg
                          (printed (codes "/sensor/ins/" ++ sensor ++ codes "/imu")))
                        made;
                },
              )))

eq_self : (n : ℕ) → (n == n) ≡ true
eq_self n = ground arith

-- On a publisher of the right type the message is published, or nothing is to be published.
publish_on-IsFor :
    (output msg_type : ℕ) (ptr : Option Publisher)
    → IsFor msg_type ptr
    → Runs (publish_on output msg_type ptr)
unfolding publish_on
publish_on-IsFor output msg_type none h = absurd h
publish_on-IsFor output msg_type (some p) h = elim (Bool-cases (output == k_output_to_ros)) [
  | inl e ↦ rw (e, if◌then◌else◌, h, eq_self msg_type) tt
  | inr e ↦ rw (e, if◌then◌else◌) tt
]

-- With a format that ROS 2 publishes, on a data source with all its places and publishers of the right
-- types, the publication of a point cloud and of IMU data of any of the 32 lidars runs through: a
-- publisher is found or created, the cast of its pointer gives no null pointer, and the publishers have
-- the right types afterwards.
pub publish-Typed :
    (inet_ntoa : ℕ → List ℕ) (multi : Bool) (format output : ℕ) (lds : Lds) (index : ℕ)
    (pubs : Publishers)
    → IsSupported format
    → HasPlaces lds
    → index < 32
    → Typed format pubs
    → Ensures
        (λ r. Typed format r.1)
        (publish_points inet_ntoa multi format output (some lds) index pubs)
      × Ensures (λ r. Typed format r.1) (publish_imu inet_ntoa multi output (some lds) index pubs)
unfolding publish_points publish_imu
publish-Typed inet_ntoa multi format output lds index pubs h places lt typed = (
  Ensures-bind {A = Option Publisher × Publishers} (λ r. IsFor format r.0 × Typed format r.1) _ _ _
      (get_current_publisher-IsFor inet_ntoa format lds index pubs places lt typed multi h)
      (λ r ok.
        Ensures-bind (λ t. Unit {0}) _ _ _ (publish_on-IsFor output format r.0 ok.0) (λ t u. ok.1)),
  Ensures-bind {A = Option Publisher × Publishers}
      (λ r. IsFor k_livox_imu_msg r.0 × Typed format r.1) _ _ _
      (get_current_imu_publisher-IsFor inet_ntoa format lds index pubs places lt typed multi)
      (λ r ok.
        Ensures-bind (λ t. Unit {0}) _ _ _ (publish_on-IsFor output k_livox_imu_msg r.0 ok.0)
          (λ t u. ok.1)),
)

get_elem?-lt : {A : Type 0} (xs : List A) (i : ℕ) (v : A) → get_elem? xs i ≡ some v → i < length xs
get_elem?-lt [] i v e = cc
get_elem?-lt (x ∷ xs) zero v e = omega arith
get_elem?-lt (x ∷ xs) (suc i) v e = omega (arith, get_elem?-lt xs i v e)

-- Once it is returned, a publisher stands in the place of its lidar.
kept :
    (format : ℕ) (old : Option Publisher) (topic : Option (List ℕ)) (handle : ℕ)
    (pubs pubs' : Publishers) (p : Publisher)
    → get_elem? pubs.private_pub handle ≡ some old
    → ◌≡◌ {A = Option (Option Publisher × Publishers)}
        (elim old [
          | some q ↦ some (some q, pubs)
          | none ↦ topic >>= λ t. some (
            create_publisher format t,
            record pubs { private_pub = set pubs.private_pub handle (create_publisher format t) },
          )
        ])
        (some (some p, pubs'))
    → get_elem? pubs'.private_pub handle ≡ some (some p)
kept format (some q) topic handle pubs pubs' p g e =
    subst (λ r. get_elem? r.1.private_pub handle ≡ some r.0) (some-injective _ _ e) g
kept format none none handle pubs pubs' p g e = cc
kept format none (some t) handle pubs pubs' p g e =
    subst (λ r. get_elem? r.1.private_pub handle ≡ some r.0) (some-injective _ _ e)
      (get_elem?-set_self pubs.private_pub handle _ (get_elem?-lt pubs.private_pub handle none g))

kept_global :
    (format : ℕ) (old : Option Publisher) (sensor : Option (List ℕ)) (pubs pubs' : Publishers)
    (p : Publisher)
    → pubs.global_pub ≡ old
    → ◌≡◌ {A = Option (Option Publisher × Publishers)}
        (elim old [
          | some q ↦ some (some q, pubs)
          | none ↦ sensor >>= λ t.
              (let made =
                  create_publisher format
                    (printed (codes "/sensor/lidar/" ++ t ++ codes "/points")) in
                some (made, record pubs { global_pub = made }))
        ])
        (some (some p, pubs'))
    → pubs'.global_pub ≡ some p
kept_global format (some q) sensor pubs pubs' p g e =
    subst (λ r. r.1.global_pub ≡ r.0) (some-injective _ _ e) g
kept_global format none none pubs pubs' p g e = cc
kept_global format none (some t) pubs pubs' p g e =
    subst (λ r. r.1.global_pub ≡ r.0) (some-injective _ _ e) refl

module _ (inet_ntoa : ℕ → List ℕ) (format : ℕ) (handle : ℕ) (p : Publisher) where
  held :
      (lds : Option Lds) (pubs : Publishers)
      → get_elem? pubs.private_pub handle ≡ some (some p)
      → get_current_publisher inet_ntoa true format lds handle pubs ≡ some (some p, pubs)
  unfolding get_current_publisher
  held lds pubs g = rw g refl

  held_global :
      (lds : Option Lds) (pubs : Publishers)
      → pubs.global_pub ≡ some p
      → get_current_publisher inet_ntoa false format lds handle pubs ≡ some (some p, pubs)
  unfolding get_current_publisher
  held_global lds pubs g = rw g refl

  -- The place of the lidar, which is there since the call has returned.
  private_kept :
      (lds : Option Lds) (pubs pubs' : Publishers) (place : Option (Option Publisher))
      → get_elem? pubs.private_pub handle ≡ place
      → get_current_publisher inet_ntoa true format lds handle pubs ≡ some (some p, pubs')
      → get_elem? pubs'.private_pub handle ≡ some (some p)
  unfolding get_current_publisher
  private_kept lds pubs pubs' none g e = cc (rw g at e)
  private_kept lds pubs pubs' (some old) g e = kept format old _ handle pubs pubs' p g (rw g at e)

-- A publisher of points is created once: what `GetCurrentPublisher` has returned for a lidar, it
-- returns for it again, and creates nothing, whatever the data source has become by then, the type of
-- the device included.
pub get_current_publisher-again :
    (inet_ntoa : ℕ → List ℕ) (multi : Bool) (format handle : ℕ) (p : Publisher)
    (before later : Option Lds) (pubs pubs' : Publishers)
    → get_current_publisher inet_ntoa multi format before handle pubs ≡ some (some p, pubs')
    → get_current_publisher inet_ntoa multi format later handle pubs' ≡ some (some p, pubs')
unfolding get_current_publisher
get_current_publisher-again inet_ntoa true format handle p before later pubs pubs' e =
    held inet_ntoa format handle p later pubs'
      (private_kept inet_ntoa format handle p before pubs pubs' _ refl e)
get_current_publisher-again inet_ntoa false format handle p before later pubs pubs' e =
    held_global inet_ntoa format handle p later pubs'
      (kept_global format pubs.global_pub (global_sensor before) pubs pubs' p refl e)
