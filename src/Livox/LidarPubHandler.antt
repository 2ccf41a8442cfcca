-- ===== src/Livox/LidarPubHandler.antt =====
-- `LidarPubHandler` of livox_ros2/livox_driver/src/comm/pub_handler.h and pub_handler.cpp: the points of
-- one lidar, moved into the frame of the vehicle. The raw points in a packet's bytes are structures of
-- the SDK, so reading the one at an index is a parameter, as is the arithmetic of floating point, on
-- bit patterns.
pub mod Points
use sensor_packages.Base.{
  ℕ, zero, suc, ◌+◌, ◌*◌, ◌%◌, ◌^◌, Bool, true, false, List, [], ◌∷◌, ◌++◌, Option, none, some,
  ◌==◌, if◌then◌else◌,
}
use sensor_packages.Base.Int.{ℤ, pos}
use sensor_packages.Base.Fault.{◌>>=◌}
use sensor_packages.Livox.Types.{PointXyzlt, ExtParameter, LidarExtParameter, k_livox_lidar_type}

-- `RawPacket`
pub record RawPacket : Type 0 where
  pub lidar_type : ℕ
  pub handle : ℕ
  pub extrinsic_enable : Bool
  pub point_num : ℕ
  pub data_type : ℕ
  pub line_num : ℕ
  pub time_stamp : ℕ
  pub point_interval : ℕ
  pub raw_data : List ℕ

-- `LivoxLidarCartesianHighRawPoint` and `LivoxLidarCartesianLowRawPoint`
pub record RawPoint : Type 0 where
  pub x : ℤ
  pub y : ℤ
  pub z : ℤ
  pub reflectivity : ℕ
  pub tag : ℕ

-- `LivoxLidarSpherPoint`
pub record SpherPoint : Type 0 where
  pub depth : ℕ
  pub theta : ℕ
  pub phi : ℕ
  pub reflectivity : ℕ
  pub tag : ℕ

-- The structure of each kind at an index of the bytes, or `none` past their end.
pub record Layout : Type 0 where
  pub high_point : List ℕ → ℕ → Option RawPoint
  pub low_point : List ℕ → ℕ → Option RawPoint
  pub spher_point : List ℕ → ℕ → Option SpherPoint

-- The operations of `float` (f) and `double` (d) that the code uses.
pub record Floats : Type 0 where
  pub f_of_int : ℤ → ℕ
  pub f_add : ℕ → ℕ → ℕ
  pub f_mul : ℕ → ℕ → ℕ
  pub f_of_d : ℕ → ℕ
  pub d_of_f : ℕ → ℕ
  pub d_of_int : ℤ → ℕ
  pub d_add : ℕ → ℕ → ℕ
  pub d_sub : ℕ → ℕ → ℕ
  pub d_mul : ℕ → ℕ → ℕ
  pub d_div : ℕ → ℕ → ℕ
  pub d_neg : ℕ → ℕ
  pub sin : ℕ → ℕ
  pub cos : ℕ → ℕ
  pub pi : ℕ

-- A row of `ExtParameterDetailed`: the row of the rotation, and the component of the translation.
pub record Row : Type 0 where
  pub a : ℕ
  pub b : ℕ
  pub c : ℕ
  pub trans : ℕ

-- `LidarPubHandler`; the three rows are `extrinsic_`.
pub record LidarPubHandler : Type 0 where
  pub points_clouds : List PointXyzlt
  pub row_x : Row
  pub row_y : Row
  pub row_z : Row
  pub is_set_extrinsic_params : Bool

-- `GetLidarBaseTime`
unfoldable pub get_lidar_base_time : LidarPubHandler → ℕ
get_lidar_base_time h = elim h.points_clouds [ [] ↦ 0 | point ∷ rest ↦ point.offset_time ]

abbrev pub last_time : List PointXyzlt → ℕ
last_time [] = 0
last_time (point ∷ []) = point.offset_time
last_time (point ∷ next ∷ rest) = last_time (next ∷ rest)

-- `GetRecentTimeStamp`
unfoldable pub get_recent_time_stamp : LidarPubHandler → ℕ
get_recent_time_stamp h = last_time h.points_clouds

-- `GetLidarPointClouds`, into a vector that was cleared: its new contents, and the handler.
unfoldable pub get_lidar_point_clouds : LidarPubHandler → List PointXyzlt × LidarPubHandler
get_lidar_point_clouds h = (h.points_clouds, record h { points_clouds = [] })

module _ (fl : Floats) where
  -- The default of `extrinsic_`.
  abbrev pub new_handler : LidarPubHandler
  new_handler =
      let zero_f = fl.f_of_int (pos 0) in
      let one_f = fl.f_of_int (pos 1) in
      record {
        points_clouds = [];
        row_x = record { a = one_f; b = zero_f; c = zero_f; trans = zero_f };
        row_y = record { a = zero_f; b = one_f; c = one_f; trans = zero_f };
        row_z = record { a = zero_f; b = zero_f; c = one_f; trans = zero_f };
        is_set_extrinsic_params = false;
      }

  abbrev radians : ℕ → ℕ
  radians angle = fl.d_div (fl.d_mul (fl.d_of_f angle) fl.pi) (fl.d_of_int (pos 180))

  abbrev product3 : ℕ → ℕ → ℕ → ℕ
  product3 a b c = fl.d_mul (fl.d_mul a b) c

  -- `SetLidarsExtParam`
  unfoldable pub set_lidars_ext_param : LidarPubHandler → LidarExtParameter → LidarPubHandler
  set_lidars_ext_param h lidar_param =
      if h.is_set_extrinsic_params
      then h
      else let cos_roll = fl.cos (radians lidar_param.param.roll) in
        let cos_pitch = fl.cos (radians lidar_param.param.pitch) in
        let cos_yaw = fl.cos (radians lidar_param.param.yaw) in
        let sin_roll = fl.sin (radians lidar_param.param.roll) in
        let sin_pitch = fl.sin (radians lidar_param.param.pitch) in
        let sin_yaw = fl.sin (radians lidar_param.param.yaw) in
        record {
          points_clouds = h.points_clouds;
          row_x = record {
            a = fl.f_of_d (fl.d_mul cos_pitch cos_yaw);
            b =
                fl.f_of_d
                  (fl.d_sub (product3 sin_roll sin_pitch cos_yaw) (fl.d_mul cos_roll sin_yaw));
            c =
                fl.f_of_d
                  (fl.d_add (product3 cos_roll sin_pitch cos_yaw) (fl.d_mul sin_roll sin_yaw));
            trans = fl.f_of_int lidar_param.param.x;
          };
          row_y = record {
            a = fl.f_of_d (fl.d_mul cos_pitch sin_yaw);
            b =
                fl.f_of_d
                  (fl.d_add (product3 sin_roll sin_pitch sin_yaw) (fl.d_mul cos_roll cos_yaw));
            c =
                fl.f_of_d
                  (fl.d_sub (product3 cos_roll sin_pitch sin_yaw) (fl.d_mul sin_roll cos_yaw));
            trans = fl.f_of_int lidar_param.param.y;
          };
          row_z = record {
            a = fl.f_of_d (fl.d_neg sin_pitch);
            b = fl.f_of_d (fl.d_mul sin_roll cos_pitch);
            c = fl.f_of_d (fl.d_mul cos_roll cos_pitch);
            trans = fl.f_of_int lidar_param.param.z;
          };
          is_set_extrinsic_params = true;
        }

  -- A coordinate of a Cartesian point, in `scale` units to the metre.
  abbrev moved : ℕ → Row → RawPoint → ℕ
  moved scale row raw =
      let x = fl.f_mul (fl.f_of_int raw.x) row.a in
      let y = fl.f_mul (fl.f_of_int raw.y) row.b in
      let z = fl.f_mul (fl.f_of_int raw.z) row.c in
      let sum = fl.f_add (fl.f_add (fl.f_add x y) z) row.trans in
      fl.f_of_d (fl.d_div (fl.d_of_f sum) (fl.d_of_int (pos scale)))

  abbrev scaled : ℕ → ℤ → ℕ
  scaled scale x = fl.f_of_d (fl.d_div (fl.d_of_int x) (fl.d_of_int (pos scale)))

  -- The fields of point `i` that do not depend on the kind of point.
  abbrev stamped : RawPacket → ℕ → ℕ × ℕ × ℕ → ℕ → ℕ → PointXyzlt
  stamped pkt i (x, y, z) reflectivity tag = record {
    x = x;
    y = y;
    z = z;
    intensity = fl.f_of_int (pos reflectivity);
    tag = tag;
    line = i % pkt.line_num;
    offset_time = (pkt.time_stamp + i * pkt.point_interval) % 2 ^ 64;
  }

  -- Point `i` in `ProcessCartesianHighPoint` and in `ProcessCartesianLowPoint`.
  abbrev pub cartesian_point :
      ℕ → (List ℕ → ℕ → Option RawPoint) → LidarPubHandler → RawPacket → ℕ → Option PointXyzlt
  cartesian_point scale read h pkt i = do
    raw ← read pkt.raw_data i
    let place =
        if pkt.extrinsic_enable
        then (scaled scale raw.x, scaled scale raw.y, scaled scale raw.z)
        else (moved scale h.row_x raw, moved scale h.row_y raw, moved scale h.row_z raw)
    some (stamped pkt i place raw.reflectivity raw.tag)

  abbrev spher_angle : ℕ → ℕ
  spher_angle angle =
      let degrees = fl.d_div (fl.d_of_int (pos angle)) (fl.d_of_int (pos 100)) in
      fl.d_mul (fl.d_div degrees (fl.d_of_int (pos 180))) fl.pi

  abbrev spher_moved : Row → ℕ × ℕ × ℕ → ℕ
  spher_moved row (x, y, z) =
      let sum =
        fl.d_add (fl.d_add (fl.d_mul x (fl.d_of_f row.a)) (fl.d_mul y (fl.d_of_f row.b)))
          (fl.d_mul z (fl.d_of_f row.c)) in
      fl.f_of_d (fl.d_add sum (fl.d_div (fl.d_of_f row.trans) (fl.d_of_int (pos 1000))))

  -- Point `i` in `ProcessSphericalPoint`.
  abbrev pub spherical_point :
      (List ℕ → ℕ → Option SpherPoint) → LidarPubHandler → RawPacket → ℕ → Option PointXyzlt
  spherical_point read h pkt i = do
    raw ← read pkt.raw_data i
    let radius = fl.d_div (fl.d_of_int (pos raw.depth)) (fl.d_of_int (pos 1000))
    let theta = spher_angle raw.theta
    let phi = spher_angle raw.phi
    let src_x = product3 radius (fl.sin theta) (fl.cos phi)
    let src_y = product3 radius (fl.sin theta) (fl.sin phi)
    let src_z = fl.d_mul radius (fl.cos theta)
    let src : ℕ × ℕ × ℕ = (src_x, src_y, src_z)
    let place =
        if pkt.extrinsic_enable
        then (fl.f_of_d src_x, fl.f_of_d src_y, fl.f_of_d src_z)
        else (spher_moved h.row_x src, spher_moved h.row_y src, spher_moved h.row_z src)
    some (stamped pkt i place raw.reflectivity raw.tag)

-- The loop of the three functions, from index `i` on with `n` rounds left.
unfoldable pub process_points :
    (ℕ → Option PointXyzlt) → ℕ → ℕ → List PointXyzlt → Option (List PointXyzlt)
process_points point zero i cloud = some cloud
process_points point (suc n) i cloud = do
  p ← point i
  process_points point n (suc i) (cloud ++ p ∷ [])

module _ (fl : Floats) (layout : Layout) where
  -- `LivoxLidarPointCloudProcess`; with no lines, `i % line_num` divides by zero.
  unfoldable pub livox_lidar_point_cloud_process :
      LidarPubHandler → RawPacket → Option LidarPubHandler
  unfolding process_points
  livox_lidar_point_cloud_process h pkt =
      let point =
        if pkt.data_type == 1
        then some (cartesian_point fl 1000 layout.high_point h pkt)
        else if pkt.data_type == 2
        then some (cartesian_point fl 100 layout.low_point h pkt)
        else if pkt.data_type == 3
        then some (spherical_point fl layout.spher_point h pkt)
        else none in
      elim point [
        | none ↦ some h
        | some f ↦ if pkt.line_num == 0 then (if pkt.point_num == 0 then some h else none) else (do
          cloud ← process_points f pkt.point_num 0 h.points_clouds
          some (record h { points_clouds = cloud }))
      ]

  -- `PointCloudProcess`
  unfoldable pub point_cloud_process : LidarPubHandler → RawPacket → Option LidarPubHandler
  unfolding livox_lidar_point_cloud_process
  point_cloud_process h pkt =
      if pkt.lidar_type == k_livox_lidar_type then livox_lidar_point_cloud_process h pkt else some h
