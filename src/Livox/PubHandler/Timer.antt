-- ===== src/Livox/PubHandler/Timer.antt =====
-- The frames that CheckTimer makes without time synchronisation.
use mathlib.Core.List.{append-nil, append_assoc}
use sensor_packages.Base.{
  ℕ, zero, suc, ◌+◌, ◌<◌, ◌≤◌, ◌≡◌, refl, sym, ◌∙◌, ap, false, List, [], ◌∷◌, ◌++◌, some, length,
  set, take, length-set, length-append, arith, Bool-cases, inl, inr, lt→ltb, ◌==◌, if◌then◌else◌,
}
use sensor_packages.Base.Fault.{◌>>=◌, Ensures, Ensures-bind}
use sensor_packages.Livox.Types.{PointPacket, PointFrame, k_livox_lidar_type, k_max_source_lidar}
use sensor_packages.Livox.LidarPubHandler.{
  LidarPubHandler, get_lidar_base_time, get_lidar_point_clouds,
}
use sensor_packages.Livox.PubHandler.{
  PubHandler, take_lidar, take_lidars, check_timer_free, check_timer,
}

-- Both arrays of a frame have `kMaxSourceLidar` elements.
abbrev pub Framed : PointFrame → Type 0
Framed frame =
    (length frame.base_time ≡ k_max_source_lidar) × (length frame.lidar_point ≡ k_max_source_lidar)

abbrev pub packet_of : ℕ → LidarPubHandler → List PointPacket
packet_of id h =
    if length h.points_clouds == 0
    then []
    else record {
      handle = id;
      lidar_type = k_livox_lidar_type;
      points_num = length h.points_clouds;
      points = h.points_clouds;
    }
      ∷ []

-- A packet with all the points of each lidar that has any, in the order of the lidars' numbers.
abbrev pub packets_of : List (ℕ × LidarPubHandler) → List PointPacket
packets_of [] = []
packets_of ((id, h) ∷ rest) = packet_of id h ++ packets_of rest

abbrev pub Emptied : List (ℕ × LidarPubHandler) → Type 0
Emptied [] = Unit {0}
Emptied ((id, h) ∷ rest) = (h.points_clouds ≡ []) × Emptied rest

abbrev pub packets_in : PointFrame → List PointPacket
packets_in frame = take frame.lidar_num frame.lidar_point

-- The frame after lidars with these packets.
pub record Grown (frame : PointFrame) (packets : List PointPacket) (after : PointFrame)
    : Type 0 where
  pub framed : Framed after
  pub count : after.lidar_num ≡ frame.lidar_num + length packets
  pub content : packets_in after ≡ packets_in frame ++ packets

take-set :
    (xs : List PointPacket) (n : ℕ) (v : PointPacket)
    → n < length xs
    → take (suc n) (set xs n v) ≡ take n xs ++ v ∷ []
take-set [] n v h = absurd (omega arith)
take-set (x ∷ xs) zero v h = refl
take-set (x ∷ xs) (suc n) v h = ap (λ t. x ∷ t) (take-set xs n v (omega arith))

next : (n : ℕ) → n + 1 ≡ suc n
next n = omega arith

pub take_lidar-Grown :
    (id : ℕ) (h : LidarPubHandler) (frame : PointFrame)
    → Framed frame
    → frame.lidar_num < k_max_source_lidar
    → Ensures
        (λ r. Grown frame (packet_of id h) r.0 × (r.1.points_clouds ≡ []))
        (take_lidar id h frame)
unfolding take_lidar get_lidar_point_clouds get_lidar_base_time
take_lidar-Grown id h frame framed lt =
    let in_times = lt→ltb frame.lidar_num (length frame.base_time) (omega (arith, framed.0, lt)) in
    let in_points =
      lt→ltb frame.lidar_num (length frame.lidar_point) (omega (arith, framed.1, lt)) in
    elim (Bool-cases (length h.points_clouds == 0)) [
      | inl e ↦
          rw (in_times, e)
            (
              record {
                framed = (length-set frame.base_time _ _ ∙ framed.0, framed.1);
                count = omega arith;
                content = sym (append-nil (packets_in frame));
              },
              refl,
            )
      | inr e ↦
          let whole : PointPacket = record {
            handle = id;
            lidar_type = k_livox_lidar_type;
            points_num = length h.points_clouds;
            points = h.points_clouds;
          } in
          rw (in_times, e, in_points)
            (
              record {
                framed = (
                  length-set frame.base_time _ _ ∙ framed.0,
                  length-set frame.lidar_point _ _ ∙ framed.1,
                );
                count = refl;
                content =
                    ap (λ n. take n (set frame.lidar_point frame.lidar_num whole))
                      (next frame.lidar_num)
                    ∙ take-set frame.lidar_point frame.lidar_num whole
                        (omega (arith, framed.1, lt));
              },
              refl,
            )
    ]

packet_of-length : (id : ℕ) (h : LidarPubHandler) → length (packet_of id h) ≤ 1
packet_of-length id h = ground arith

take_lidars-Grown :
    (hs : List (ℕ × LidarPubHandler)) (frame : PointFrame)
    → Framed frame
    → frame.lidar_num + length hs ≤ k_max_source_lidar
    → Ensures (λ r. Grown frame (packets_of hs) r.0 × Emptied r.1) (take_lidars hs frame)
unfolding take_lidars
take_lidars-Grown [] frame framed le = (
  record { framed = framed; count = omega arith; content = sym (append-nil (packets_in frame)) },
  tt,
)
take_lidars-Grown ((id, h) ∷ rest) frame framed le =
    Ensures-bind (λ r. Grown frame (packet_of id h) r.0 × (r.1.points_clouds ≡ [])) _
      (take_lidar id h frame) _ (take_lidar-Grown id h frame framed (omega arith))
      λ (frame', h') (g, e).
        Ensures-bind (λ r. Grown frame' (packets_of rest) r.0 × Emptied r.1) _
          (take_lidars rest frame') _
          (take_lidars-Grown rest frame' g.framed
            (omega (arith, g.count, packet_of-length id h, le)))
          λ (frame'', rest') (g', es). (
            record {
              framed = g'.framed;
              count =
                  omega
                    (arith, g.count, g'.count, length-append (packet_of id h) (packets_of rest));
              content =
                  g'.content
                  ∙ ap (λ t. t ++ packets_of rest) g.content
                  ∙ append_assoc (packets_in frame) (packet_of id h) (packets_of rest);
            },
            (e, es),
          )

-- The state and the output of a publication.
abbrev finish : PubHandler → PointFrame × List (ℕ × LidarPubHandler) → PubHandler × List PointFrame
finish s (frame, handlers) = (
  record s {
    last_pub_time = s.last_pub_time + s.publish_interval;
    lidar_process_handlers = handlers;
    frame = record frame { lidar_num = 0 };
  },
  frame ∷ [],
)

check_timer-finish :
    (now id : ℕ) (s : PubHandler)
    → s.is_timestamp_sync ≡ false
    → s.first ≡ false
    → s.last_pub_time + s.publish_interval ≤ now
    → check_timer now id s
      ≡ (take_lidars s.lidar_process_handlers s.frame >>= λ r. some (finish s r))
unfolding check_timer check_timer_free
check_timer-finish now id s free later passed = ground arith

-- `CheckTimer` without time synchronisation, when the interval has passed since the last frame: with at
-- most 32 lidars no array is written out of bounds, and one frame is published, with a packet of all
-- the points of each lidar that has any; no lidar keeps a point, the frame is cleared, and the time of
-- the last frame grows by exactly the interval.
pub check_timer-Published :
    (now id : ℕ) (s : PubHandler)
    → s.is_timestamp_sync ≡ false
    → s.first ≡ false
    → s.last_pub_time + s.publish_interval ≤ now
    → Framed s.frame
    → s.frame.lidar_num ≡ 0
    → length s.lidar_process_handlers ≤ k_max_source_lidar
    → Ensures
        (λ r.
          (frame : PointFrame) × (r.1 ≡ frame ∷ [])
          × (packets_in frame ≡ packets_of s.lidar_process_handlers)
          × Emptied r.0.lidar_process_handlers
          × Framed r.0.frame
          × (r.0.frame.lidar_num ≡ 0)
          × (r.0.last_pub_time ≡ s.last_pub_time + s.publish_interval))
        (check_timer now id s)
check_timer-Published now id s free later passed framed cleared few =
    rw (check_timer-finish now id s free later passed) (
      Ensures-bind (λ r. Grown s.frame (packets_of s.lidar_process_handlers) r.0 × Emptied r.1) _
        (take_lidars s.lidar_process_handlers s.frame) (λ r. some (finish s r))
        (take_lidars-Grown s.lidar_process_handlers s.frame framed (omega (arith, few, cleared)))
        λ (frame, handlers) (g, e). (
          frame,
          refl,
          g.content
              ∙ ap (λ n. take n s.frame.lidar_point ++ packets_of s.lidar_process_handlers) cleared,
          e,
          g.framed,
          refl,
          refl,
        ))
