-- ===== src/Livox/LidarPubHandler/Points.antt =====
-- The points that PointCloudProcess adds to a lidar's cloud, for each of the three kinds of packet.
use mathlib.Core.List.{append_assoc, append-nil}
use native.Mathlib.Nat.{mod-lt}
use sensor_packages.Base.{
  ℕ, zero, suc, ◌+◌, ◌*◌, ◌%◌, ◌^◌, ◌<◌, ◌≡◌, refl, sym, ◌∙◌, ap, List, [], ◌∷◌, ◌++◌, Option, some,
  length, arith,
}
use sensor_packages.Base.Fault.{◌>>=◌, Ensures, Ensures-bind, Ensures-mono}
use sensor_packages.Livox.Types.{PointXyzlt, k_livox_lidar_type}
use sensor_packages.Livox.LidarPubHandler.{
  RawPacket, Floats, Layout, LidarPubHandler, process_points, point_cloud_process, RawPoint,
  SpherPoint, livox_lidar_point_cloud_process, cartesian_point, spherical_point,
}

-- Points of a packet from index `i` on: their lines take turns, and their times are evenly spaced.
abbrev pub Stamped : RawPacket → ℕ → List PointXyzlt → Type 0
Stamped pkt i [] = Unit
Stamped pkt i (p ∷ ps) =
    (p.line ≡ i % pkt.line_num)
    × (p.line < pkt.line_num)
    × (p.offset_time ≡ (pkt.time_stamp + i * pkt.point_interval) % 2 ^ 64)
    × Stamped pkt (suc i) ps

abbrev Point : RawPacket → ℕ → PointXyzlt → Type 0
Point pkt i p =
    (p.line ≡ i % pkt.line_num)
    × (p.line < pkt.line_num)
    × (p.offset_time ≡ (pkt.time_stamp + i * pkt.point_interval) % 2 ^ 64)

-- The new points behind the old ones.
pub record Appended (pkt : RawPacket) (i n : ℕ) (old after : List PointXyzlt) : Type 0 where
  pub added : List PointXyzlt
  pub order : after ≡ old ++ added
  pub count : length added ≡ n
  pub stamps : Stamped pkt i added

process_points-Appended :
    (pkt : RawPacket) (point : ℕ → Option PointXyzlt) (n i : ℕ) (old : List PointXyzlt)
    → ((j : ℕ) → j < i + n → Ensures (Point pkt j) (point j))
    → Ensures (Appended pkt i n old) (process_points point n i old)
unfolding process_points
process_points-Appended pkt point zero i old h = record {
  added = [];
  order = sym (append-nil old);
  count = refl;
  stamps = tt;
}
process_points-Appended pkt point (suc n) i old h =
    Ensures-bind (Point pkt i) (Appended pkt i (suc n) old) (point i) _ (h i (omega arith)) λ p ok.
      Ensures-mono (Appended pkt (suc i) n (old ++ p ∷ [])) (Appended pkt i (suc n) old) _
        (process_points-Appended pkt point n (suc i) (old ++ p ∷ []) λ j lt. h j (omega arith))
        λ after rest. record {
          added = p ∷ rest.added;
          order = rest.order ∙ append_assoc old (p ∷ []) rest.added;
          count = ap suc rest.count;
          stamps = (ok.0, ok.1, ok.2, rest.stamps);
        }

-- The bytes of the packet hold a point of its kind at each of its indices.
pub data Readable (layout : Layout) (pkt : RawPacket) : Type 0 where
  high :
      pkt.data_type ≡ 1
      → ((j : ℕ)
          → j < pkt.point_num
          → (raw : RawPoint) × (layout.high_point pkt.raw_data j ≡ some raw))
      → Readable layout pkt
  low :
      pkt.data_type ≡ 2
      → ((j : ℕ)
          → j < pkt.point_num
          → (raw : RawPoint) × (layout.low_point pkt.raw_data j ≡ some raw))
      → Readable layout pkt
  spherical :
      pkt.data_type ≡ 3
      → ((j : ℕ)
          → j < pkt.point_num
          → (raw : SpherPoint) × (layout.spher_point pkt.raw_data j ≡ some raw))
      → Readable layout pkt

module _ (fl : Floats) (layout : Layout) (h : LidarPubHandler) (pkt : RawPacket) where
  abbrev processed : (ℕ → Option PointXyzlt) → Option LidarPubHandler
  processed point = process_points point pkt.point_num 0 h.points_clouds >>= λ cloud.
      some (record h { points_clouds = cloud })

  process-high :
      pkt.lidar_type ≡ k_livox_lidar_type
      → 0 < pkt.line_num
      → pkt.data_type ≡ 1
      → point_cloud_process fl layout h pkt
        ≡ processed (cartesian_point fl 1000 layout.high_point h pkt)
  unfolding point_cloud_process livox_lidar_point_cloud_process
  process-high livox lines e = ground arith

  process-low :
      pkt.lidar_type ≡ k_livox_lidar_type
      → 0 < pkt.line_num
      → pkt.data_type ≡ 2
      → point_cloud_process fl layout h pkt
        ≡ processed (cartesian_point fl 100 layout.low_point h pkt)
  unfolding point_cloud_process livox_lidar_point_cloud_process
  process-low livox lines e = ground arith

  process-spherical :
      pkt.lidar_type ≡ k_livox_lidar_type
      → 0 < pkt.line_num
      → pkt.data_type ≡ 3
      → point_cloud_process fl layout h pkt
        ≡ processed (spherical_point fl layout.spher_point h pkt)
  unfolding point_cloud_process livox_lidar_point_cloud_process
  process-spherical livox lines e = ground arith

  known_kind :
      0 < pkt.line_num
      → (point : ℕ → Option PointXyzlt)
      → ((j : ℕ) → j < pkt.point_num → Ensures (Point pkt j) (point j))
      → Ensures
          (λ h'. Appended pkt 0 pkt.point_num h.points_clouds h'.points_clouds)
          (process_points point pkt.point_num 0 h.points_clouds >>= λ cloud.
            some (record h { points_clouds = cloud }))
  known_kind lines point ok =
      Ensures-bind (Appended pkt 0 pkt.point_num h.points_clouds) _
        (process_points point pkt.point_num 0 h.points_clouds)
        (λ cloud. some (record h { points_clouds = cloud }))
        (process_points-Appended pkt point pkt.point_num 0 h.points_clouds
          λ j lt. ok j (omega arith))
        λ cloud a. a

  -- `PointCloudProcess` of a packet with at least one line, whose bytes hold the points that it counts:
  -- the lidar's cloud grows by exactly `point_num` points, behind the old ones, and the point at index
  -- `i` has the line `i % line_num`, below `line_num`, and the time `time_stamp + i * point_interval` on
  -- 64 bits.
  pub point_cloud_process-Appended :
      pkt.lidar_type ≡ k_livox_lidar_type
      → 0 < pkt.line_num
      → Readable layout pkt
      → Ensures
          (λ h'. Appended pkt 0 pkt.point_num h.points_clouds h'.points_clouds)
          (point_cloud_process fl layout h pkt)
  point_cloud_process-Appended livox lines (high e ok) = rw (process-high livox lines e) (
      known_kind lines (cartesian_point fl 1000 layout.high_point h pkt)
        λ j lt. let (raw, g) = ok j lt in rw g (refl, mod-lt j lines, refl))
  point_cloud_process-Appended livox lines (low e ok) = rw (process-low livox lines e) (
      known_kind lines (cartesian_point fl 100 layout.low_point h pkt)
        λ j lt. let (raw, g) = ok j lt in rw g (refl, mod-lt j lines, refl))
  point_cloud_process-Appended livox lines (spherical e ok) = rw (process-spherical livox lines e) (
      known_kind lines (spherical_point fl layout.spher_point h pkt)
        λ j lt. let (raw, g) = ok j lt in rw g (refl, mod-lt j lines, refl))
