-- ===== src/Livox/Callback/Configure.antt =====
-- What LidarInfoChangeCallback asks of a lidar that the configuration names, and when it will be
-- published.
use mathlib.Core.Path.{ap₂}
use mathlib.Core.List.{append-nil}
use sensor_packages.Base.{
  sym, Bool, Bool-cases, inl, inr, ◌∙◌, ℕ, ◌≡◌, refl, List, [], ◌∷◌, ◌++◌, Option, some,
  if◌then◌else◌, arith, get_elem?, set, ap, get_elem?-set_self,
}
use sensor_packages.Livox.Types.{k_livox_lidar_type, UserLivoxLidarConfig}
use sensor_packages.Base.Fault.{◌>>=◌, Ensures}
use sensor_packages.Livox.CacheIndex.{get_index}
use sensor_packages.Livox.Lds.{Lds, LidarDevice}
use sensor_packages.Livox.Lds.Storage.{get_elem?-lt}
use sensor_packages.Livox.Callback.{
  with_bit, Setting, data_type, scan_pattern, blind_spot, dual_emit, bit_of, has_bit,
  configure_device, ask, configured, value_of, request_of, Request, set_install_attitude,
  start_requests, lidar_info_change_callback, get_lidar_device,
}
use sensor_packages.Livox.Callback.Answers.{bits_of}

abbrev pub asked : Setting → ℕ → UserLivoxLidarConfig → List Request
asked t handle config =
    if configured (value_of t config) then request_of t handle config ∷ [] else []

abbrev with_bits : LidarDevice → ℕ → LidarDevice
with_bits lidar bits = record lidar { livox_config = record lidar.livox_config { set_bits = bits } }

-- A round, on the bits alone.
abbrev step : Bool → ℕ → ℕ → ℕ
step asks bit bits = if asks then with_bit bits bit else bits

ask-bits :
    (t : Setting) (handle : ℕ) (p : LidarDevice × List Request)
    → bits_of (ask t handle p).0
      ≡ step (configured (value_of t p.0.livox_config)) (bit_of t) (bits_of p.0)
unfolding ask
ask-bits t handle (lidar, requests) =
    elim (Bool-cases (configured (value_of t lidar.livox_config))) [
      | inl e ↦ rw e refl
      | inr e ↦ rw e refl
    ]

ask-value :
    (t u : Setting) (handle : ℕ) (p : LidarDevice × List Request)
    → value_of u (ask t handle p).0.livox_config ≡ value_of u p.0.livox_config
unfolding ask
ask-value t data_type handle (lidar, requests) = ground arith
ask-value t scan_pattern handle (lidar, requests) = ground arith
ask-value t blind_spot handle (lidar, requests) = ground arith
ask-value t dual_emit handle (lidar, requests) = ground arith

-- The four rounds, from no bits.
abbrev four : Bool → Bool → Bool → Bool → ℕ
four a b c d = step d 8 (step c 4 (step b 2 (step a 1 0)))

has_bit-four :
    (t : Setting) (f : Setting → Bool)
    → has_bit (four (f data_type) (f scan_pattern) (f blind_spot) (f dual_emit)) (bit_of t) ≡ f t
has_bit-four data_type f = ground arith
has_bit-four scan_pattern f = ground arith
has_bit-four blind_spot f = ground arith
has_bit-four dual_emit f = ground arith

configure_device-four :
    (lidar : LidarDevice) (handle dev_type : ℕ)
    → bits_of lidar ≡ 0
    → let asks : Setting → Bool = λ t. configured (value_of t lidar.livox_config) in
      bits_of (configure_device lidar handle dev_type).0
      ≡ four (asks data_type) (asks scan_pattern) (asks blind_spot) (asks dual_emit)
unfolding configure_device
configure_device-four lidar handle dev_type e =
    let start : LidarDevice × List Request = (record lidar { device_type = dev_type }, []) in
    let p1 = ask data_type handle start in
    let p2 = ask scan_pattern handle p1 in
    let p3 = ask blind_spot handle p2 in
    let v2 = ask-value data_type scan_pattern handle start in
    let v3 =
      ask-value scan_pattern blind_spot handle p1 ∙ ask-value data_type blind_spot handle start in
    let v4 =
      ask-value blind_spot dual_emit handle p2
      ∙ ask-value scan_pattern dual_emit handle p1
      ∙ ask-value data_type dual_emit handle start in
    let b1 =
      ask-bits data_type handle start
      ∙ ap (λ n. step (configured (value_of data_type lidar.livox_config)) 1 n) e in
    let b2 = ask-bits scan_pattern handle p1 ∙ ap₂ (λ v n. step (configured v) 2 n) v2 b1 in
    let b3 = ask-bits blind_spot handle p2 ∙ ap₂ (λ v n. step (configured v) 4 n) v3 b2 in
    ask-bits dual_emit handle p3 ∙ ap₂ (λ v n. step (configured v) 8 n) v4 b3

configure_device-bits :
    (t : Setting) (lidar : LidarDevice) (handle dev_type : ℕ)
    → bits_of lidar ≡ 0
    → has_bit (bits_of (configure_device lidar handle dev_type).0) (bit_of t)
      ≡ configured (value_of t lidar.livox_config)
configure_device-bits t lidar handle dev_type e =
    ap (λ n. has_bit n (bit_of t)) (configure_device-four lidar handle dev_type e)
    ∙ has_bit-four t (λ u. configured (value_of u lidar.livox_config))

-- A round keeps all of the device but the bits.
ask-kept :
    (t : Setting) (handle : ℕ) (p : LidarDevice × List Request)
    → (ask t handle p).0 ≡ with_bits p.0 (bits_of (ask t handle p).0)
unfolding ask
ask-kept t handle (lidar, requests) =
    elim (Bool-cases (configured (value_of t lidar.livox_config))) [
      | inl e ↦ rw e refl
      | inr e ↦ rw e refl
    ]

asked-with_bits :
    (u : Setting) (handle : ℕ) (lidar : LidarDevice) (bits : ℕ)
    → asked u handle (with_bits lidar bits).livox_config ≡ asked u handle lidar.livox_config
unfolding request_of
asked-with_bits data_type handle lidar bits = refl
asked-with_bits scan_pattern handle lidar bits = refl
asked-with_bits blind_spot handle lidar bits = refl
asked-with_bits dual_emit handle lidar bits = refl

ask-asked :
    (t u : Setting) (handle : ℕ) (p : LidarDevice × List Request)
    → asked u handle (ask t handle p).0.livox_config ≡ asked u handle p.0.livox_config
ask-asked t u handle p =
    ap (λ d. asked u handle d.livox_config) (ask-kept t handle p)
    ∙ asked-with_bits u handle p.0 (bits_of (ask t handle p).0)

ask-requests :
    (t : Setting) (handle : ℕ) (p : LidarDevice × List Request)
    → (ask t handle p).1 ≡ p.1 ++ asked t handle p.0.livox_config
unfolding ask
ask-requests t handle (lidar, requests) =
    elim (Bool-cases (configured (value_of t lidar.livox_config))) [
      | inl e ↦ rw e refl
      | inr e ↦ rw e (sym (append-nil requests))
    ]

abbrev attitude : LidarDevice → Request
attitude lidar = set_install_attitude lidar.livox_config.handle lidar.livox_config.extrinsic_param

configure_device-requests :
    (lidar : LidarDevice) (handle dev_type : ℕ)
    → let config = lidar.livox_config in
      (configure_device lidar handle dev_type).1
      ≡ (((asked data_type handle config ++ asked scan_pattern handle config)
            ++ asked blind_spot handle config)
          ++ asked dual_emit handle config)
        ++ set_install_attitude config.handle config.extrinsic_param ∷ []
unfolding configure_device
configure_device-requests lidar handle dev_type =
    let start : LidarDevice × List Request = (record lidar { device_type = dev_type }, []) in
    let p1 = ask data_type handle start in
    let p2 = ask scan_pattern handle p1 in
    let p3 = ask blind_spot handle p2 in
    let r1 = ask-requests data_type handle start in
    let r2 =
      ask-requests scan_pattern handle p1
      ∙ ap₂ ◌++◌ r1 (ask-asked data_type scan_pattern handle start) in
    let r3 =
      ask-requests blind_spot handle p2
      ∙ ap₂ ◌++◌ r2 (
          ask-asked scan_pattern blind_spot handle p1
          ∙ ask-asked data_type blind_spot handle start) in
    let r4 =
      ask-requests dual_emit handle p3
      ∙ ap₂ ◌++◌ r3 (
          ask-asked blind_spot dual_emit handle p2
          ∙ ask-asked scan_pattern dual_emit handle p1
          ∙ ask-asked data_type dual_emit handle start) in
    let end =
      ap attitude (ask-kept dual_emit handle p3)
      ∙ ap attitude (ask-kept blind_spot handle p2)
      ∙ ap attitude (ask-kept scan_pattern handle p1)
      ∙ ap attitude (ask-kept data_type handle start) in
    ap₂ (λ rs a. rs ++ a ∷ []) r4 end

configure_device-state :
    (lidar : LidarDevice) (handle dev_type : ℕ)
    → (configure_device lidar handle dev_type).0.connect_state ≡ lidar.connect_state
unfolding configure_device
configure_device-state lidar handle dev_type =
    let start : LidarDevice × List Request = (record lidar { device_type = dev_type }, []) in
    let p1 = ask data_type handle start in
    let p2 = ask scan_pattern handle p1 in
    let p3 = ask blind_spot handle p2 in
    ap (λ d. d.connect_state) (ask-kept dual_emit handle p3)
    ∙ ap (λ d. d.connect_state) (ask-kept blind_spot handle p2)
    ∙ ap (λ d. d.connect_state) (ask-kept scan_pattern handle p1)
    ∙ ap (λ d. d.connect_state) (ask-kept data_type handle start)

-- The requests of `LidarInfoChangeCallback` for a device of that configuration.
abbrev pub all_asked : ℕ → UserLivoxLidarConfig → List Request
all_asked handle config =
    ((((asked data_type handle config ++ asked scan_pattern handle config)
          ++ asked blind_spot handle config)
        ++ asked dual_emit handle config)
      ++ set_install_attitude config.handle config.extrinsic_param ∷ [])
    ++ start_requests handle

-- What the callback leaves of the device and asks of the SDK.
pub record Configured (handle i : ℕ) (lidar : LidarDevice) (r : Option Lds × List Request)
    : Type 0 where
  pub lds : Lds
  pub after : LidarDevice
  pub client : r.0 ≡ some lds
  pub stored : get_elem? lds.lidars i ≡ some after
  pub state : after.connect_state ≡ lidar.connect_state
  pub pending :
      (t : Setting)
      → has_bit (bits_of after) (bit_of t) ≡ configured (value_of t lidar.livox_config)
  pub requests : r.1 ≡ all_asked handle lidar.livox_config

info_change-configure :
    (lds : Lds) (handle i dev_type : ℕ) (lidar : LidarDevice)
    → get_index lds.cache_index k_livox_lidar_type handle ≡ some i
    → get_elem? lds.lidars i ≡ some lidar
    → let r = configure_device lidar handle dev_type in
      lidar_info_change_callback (some lds) handle dev_type
      ≡ some (some (record lds { lidars = set lds.lidars i r.0 }), r.1 ++ start_requests handle)
unfolding lidar_info_change_callback get_lidar_device
info_change-configure lds handle i dev_type lidar e f =
    rw (e, lidar_info_change_callback, get_lidar_device) (rw (f, ◌>>=◌) refl)

-- `LidarInfoChangeCallback` for a lidar of the configuration with no request pending: it asks for each
-- setting that is configured, and for no other, then for the attitude, the normal work mode and the
-- IMU data; `set_bits` has the bits of the settings that were asked for, and the connect state is as
-- it was.
pub lidar_info_change_callback-Configured :
    (lds : Lds) (handle i dev_type : ℕ) (lidar : LidarDevice)
    → get_index lds.cache_index k_livox_lidar_type handle ≡ some i
    → get_elem? lds.lidars i ≡ some lidar
    → bits_of lidar ≡ 0
    → Ensures (Configured handle i lidar) (lidar_info_change_callback (some lds) handle dev_type)
lidar_info_change_callback-Configured lds handle i dev_type lidar e f z =
    rw (info_change-configure lds handle i dev_type lidar e f) record {
      lds = record lds { lidars = set lds.lidars i (configure_device lidar handle dev_type).0 };
      after = (configure_device lidar handle dev_type).0;
      client = refl;
      stored = get_elem?-set_self lds.lidars i _ (get_elem?-lt lds.lidars i f);
      state = configure_device-state lidar handle dev_type;
      pending = λ t. configure_device-bits t lidar handle dev_type z;
      requests =
          ap (λ r. r ++ start_requests handle) (configure_device-requests lidar handle dev_type);
    }
