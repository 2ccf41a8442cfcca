-- ===== src/Livox/Lddc/Topics.antt =====
-- The publishers of livox_ros2/livox_driver/src/lddc.cpp, as built for ROS 2: `CreatePublisher`,
-- `GetCurrentPublisher`, `GetCurrentImuPublisher`, and the functions that publish through them. A topic
-- is created at the first message that needs it. `inet_ntoa` is a parameter. The queue size, which
-- `CreatePublisher` does not use, is left out.
pub mod Cached
pub mod Distinct
use sensor_packages.Base.{
  ℕ, ◌-◌, ◌+◌, Bool, true, false, List, [], ◌∷◌, ◌++◌, Option, none, some, get_elem?, set, take,
  ltb, ◌==◌, if◌then◌else◌,
}
use sensor_packages.Base.Fault.{◌>>=◌}
use sensor_packages.Livox.Comm.{codes, replace_period_by_underline}
use sensor_packages.Livox.Lds.{Lds, LidarDevice}
use sensor_packages.Livox.Lddc.Messages.{k_pointcloud2_msg, k_livox_custom_msg, k_output_to_ros}

abbrev pub k_livox_imu_msg : ℕ
k_livox_imu_msg = 3

-- A publisher of ROS: the type of its messages, and its topic.
pub record Publisher : Type 0 where
  pub msg_type : ℕ
  pub topic : List ℕ

-- The fields of `Lddc` that hold publishers; `none` is a null pointer.
pub record Publishers : Type 0 where
  pub private_pub : List (Option Publisher)
  pub global_pub : Option Publisher
  pub private_imu_pub : List (Option Publisher)
  pub global_imu_pub : Option Publisher

-- `CreatePublisher`
unfoldable pub create_publisher : ℕ → List ℕ → Option Publisher
create_publisher msg_type topic_name =
    if msg_type == k_pointcloud2_msg
    then some (record { msg_type = msg_type; topic = topic_name })
    else if msg_type == k_livox_custom_msg
    then some (record { msg_type = msg_type; topic = topic_name })
    else if msg_type == k_livox_imu_msg
    then some (record { msg_type = msg_type; topic = topic_name })
    else none

-- The switch over the device type
unfoldable pub sensor_of : ℕ → List ℕ
sensor_of dev_type =
    if dev_type == 7
    then codes "livox_avia"
    else if dev_type == 9
    then codes "livox_mid360"
    else if dev_type == 15
    then codes "livox_hap"
    else if dev_type == 10
    then codes "livox_hap"
    else if dev_type == 3
    then codes "livox_horizon"
    else if dev_type == 6
    then codes "livox_mid70"
    else if dev_type == 1
    then codes "livox_mid40"
    else codes "livox"

-- The switch behind the test for a device whose type is not known yet
unfoldable pub sensor_or_default : ℕ → List ℕ
unfolding sensor_of
sensor_or_default dev_type = if dev_type == 0 then codes "livox_mid360" else sensor_of dev_type

-- What `snprintf` leaves of a text in an array of 128 characters
abbrev pub printed : List ℕ → List ℕ
printed text = take 127 text

abbrev pub private_topic : List ℕ → List ℕ → List ℕ → List ℕ → List ℕ
private_topic root sensor_name ip leaf = printed (root ++ sensor_name ++ codes "_" ++ ip ++ leaf)

-- The sensor name of the topic that all lidars share, from the first device.
unfoldable pub global_sensor : Option Lds → Option (List ℕ)
unfolding sensor_or_default
global_sensor none = some (codes "livox")
global_sensor (some lds) =
    if ltb 0 lds.lidar_count
    then (do lidar ← get_elem? lds.lidars 0; some (sensor_or_default lidar.device_type))
    else some (codes "livox")

module _ (inet_ntoa : ℕ → List ℕ) where
  -- The topic of one lidar: `lds_->lidars_[handle]`, on the registered data source.
  unfoldable pub topic_of_lidar : List ℕ → (ℕ → List ℕ) → List ℕ → Option Lds → ℕ → Option (List ℕ)
  topic_of_lidar root name leaf none handle = none
  topic_of_lidar root name leaf (some lds) handle = do
    lidar ← get_elem? lds.lidars handle
    ip ← replace_period_by_underline (inet_ntoa lidar.handle)
    some (private_topic root (name lidar.device_type) ip leaf)

  -- `GetCurrentPublisher`, with `use_multi_topic_` and `transfer_format_`
  unfoldable pub get_current_publisher :
      Bool → ℕ → Option Lds → ℕ → Publishers → Option (Option Publisher × Publishers)
  unfolding create_publisher topic_of_lidar global_sensor sensor_or_default
  get_current_publisher true transfer_format lds handle pubs = do
    old ← get_elem? pubs.private_pub handle
    elim old [
      | some publisher ↦ some (some publisher, pubs)
      | none ↦ (do
        topic ←
            topic_of_lidar (codes "/sensor/lidar/") sensor_or_default (codes "/points") lds handle
        let made = create_publisher transfer_format topic
        some (made, record pubs { private_pub = set pubs.private_pub handle made }))
    ]
  get_current_publisher false transfer_format lds handle pubs = elim pubs.global_pub [
    | some publisher ↦ some (some publisher, pubs)
    | none ↦ (do
      sensor_name ← global_sensor lds
      let made =
          create_publisher transfer_format
            (printed (codes "/sensor/lidar/" ++ sensor_name ++ codes "/points"))
      some (made, record pubs { global_pub = made }))
  ]

  -- `GetCurrentImuPublisher`; with a topic for each lidar its switch has no default for a device whose
  -- type is not known yet.
  unfoldable pub get_current_imu_publisher :
      Bool → Option Lds → ℕ → Publishers → Option (Option Publisher × Publishers)
  unfolding create_publisher topic_of_lidar global_sensor sensor_of
  get_current_imu_publisher true lds handle pubs = do
    old ← get_elem? pubs.private_imu_pub handle
    elim old [
      | some publisher ↦ some (some publisher, pubs)
      | none ↦ (do
        topic ← topic_of_lidar (codes "/sensor/ins/") sensor_of (codes "/imu") lds handle
        let made = create_publisher k_livox_imu_msg topic
        some (made, record pubs { private_imu_pub = set pubs.private_imu_pub handle made }))
    ]
  get_current_imu_publisher false lds handle pubs = elim pubs.global_imu_pub [
    | some publisher ↦ some (some publisher, pubs)
    | none ↦ (do
      sensor_name ← global_sensor lds
      let made =
          create_publisher k_livox_imu_msg
            (printed (codes "/sensor/ins/" ++ sensor_name ++ codes "/imu"))
      some (made, record pubs { global_imu_pub = made }))
  ]

-- `dynamic_pointer_cast` to a publisher of messages of one type
abbrev pub pointer_cast : ℕ → Option Publisher → Option Publisher
pointer_cast msg_type none = none
pointer_cast msg_type (some publisher) =
    if publisher.msg_type == msg_type then some publisher else none

-- The end of `PublishPointcloud2Data`, `PublishCustomPointData` and `PublishImuData`: the topic of the
-- message, if it is published. The call on a null pointer is undefined.
unfoldable pub publish_on : ℕ → ℕ → Option Publisher → Option (Option (List ℕ))
publish_on output_type msg_type publisher_ptr =
    if output_type == k_output_to_ros
    then elim (pointer_cast msg_type publisher_ptr) [
      | none ↦ none
      | some publisher ↦ some (some publisher.topic)
    ]
    else some none

module _ (inet_ntoa : ℕ → List ℕ) where
  -- What `PublishPointcloud2Data` and `PublishCustomPointData` do for a message of the format that was
  -- chosen: the topic of the message, if it is published, and the publishers.
  unfoldable pub publish_points :
      Bool → ℕ → ℕ → Option Lds → ℕ → Publishers → Option (Option (List ℕ) × Publishers)
  unfolding get_current_publisher publish_on
  publish_points multi_topic transfer_format output_type lds index pubs = do
    (publisher_ptr, pubs') ←
        get_current_publisher inet_ntoa multi_topic transfer_format lds index pubs
    topic ← publish_on output_type transfer_format publisher_ptr
    some (topic, pubs')

  -- The same of `PublishImuData`
  unfoldable pub publish_imu :
      Bool → ℕ → Option Lds → ℕ → Publishers → Option (Option (List ℕ) × Publishers)
  unfolding get_current_imu_publisher publish_on
  publish_imu multi_topic output_type lds index pubs = do
    (publisher_ptr, pubs') ← get_current_imu_publisher inet_ntoa multi_topic lds index pubs
    topic ← publish_on output_type k_livox_imu_msg publisher_ptr
    some (topic, pubs')
