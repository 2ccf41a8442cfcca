-- ===== src/Ping360/Node/Refresh.antt =====
-- One round of the Ping360 node: `publishEcho` and `refresh` of ping360_ros2/ping360_sonar/src/ping360_node.cpp. What the
-- parameters of the node hold for their echoes is an argument. `none` is an access outside an object, a
-- publisher that does not exist, or the end of the fuel of Ping360/Image.
pub mod Served
use sensor_packages.Base.{
  ℕ, ◌+◌, ◌*◌, Bool, true, false, not, ◌&&◌, List, [], ◌∷◌, ◌++◌, map, Option, none, some, length,
  take, leb, if◌then◌else◌,
}
use sensor_packages.Base.Fault.{◌>>=◌}
use sensor_packages.Base.Int.{ℤ, pos_part}
use sensor_packages.Ping360.Angles.{Head}
use sensor_packages.Ping360.Transducer.{
  Buffer, null, live, deleted, Device, TransducerRequest, Reading, read_sonar,
}
use sensor_packages.Ping360.Sector
use sensor_packages.Ping360.Sector.{bounds_of}
use sensor_packages.Ping360.Image.{refresh_image}
use sensor_packages.Ping360.Scan
use sensor_packages.Ping360.Scan.{Scan, publish_scan}
use sensor_packages.Ping360.Node.{Publishers, Picture, EchoFields, Node, IntParams}

-- What a round publishes: an echo at an angle, scans, and the echoes of the parameters.
pub data Output : Type 0 where
  echo_message : EchoFields → ℕ → List ℕ → Output
  scan_message : Scan → Output
  param_messages : IntParams → Output

-- The `length` bytes behind a pointer.
unfoldable pub bytes_of : Buffer → ℕ → Option (List ℕ)
bytes_of null count = if leb count 0 then some [] else none
bytes_of (live bytes) count = if leb count (length bytes) then some (take count bytes) else none
bytes_of deleted count = none

-- `intensities`, read to its end.
abbrev pub intensities : Device → Option (List ℕ)
unfolding bytes_of
intensities device = bytes_of device.content device.data_length

-- What the floating-point parts of a round need: those of the sector and of the scan, the size of a step, and the
-- index of a point, for a radius and a number of samples.
pub record Floats : Type 0 where
  pub sector : Sector.Floats
  pub scan : Scan.Floats
  pub step_size : ℤ → ℕ
  pub sample_of : ℕ → ℕ → ℤ → ℤ → ℕ

-- A publisher behind a pointer.
abbrev pub through {ℓ} : {A : Type ℓ} → Bool → A → Option A
through true a = some a
through false a = none

-- `publishEcho`, under its condition in `refresh`.
unfoldable pub echo_part : Floats → Bool → Node → Option (List Output)
unfolding intensities
echo_part f subscribed node = if not node.publishers.publish_echo then some [] else do
  wanted ← through node.publishers.echo_pub subscribed
  heard ← intensities node.device
  some (if wanted then echo_message node.echo (f.scan.radians node.head.angle) heard ∷ [] else [])

-- `refreshImage`, under its condition.
unfoldable pub image_part : Floats → ℕ → Node → Option Picture
unfolding intensities bounds_of refresh_image
image_part f fuel node = if not node.publishers.publish_image then some node.image else do
  heard ← intensities node.device
  bytes ←
      refresh_image (f.sample_of node.sector_radius node.sector_samples) heard node.image.step fuel
        (bounds_of f.sector node.sector_radius (f.scan.radians node.head.angle)
          (f.step_size node.head.angle_step))
        node.image.bytes
  some (record node.image { bytes = bytes })

-- `publishScan`, under its condition.
unfoldable pub scan_part : Floats → Bool → Bool → Node → Option (List Output × Scan)
unfolding intensities publish_scan
scan_part f subscribed end_turn node =
    if not node.publishers.publish_scan
    then some ([], node.scan)
    else (through node.publishers.scan_pub subscribed >>= λ wanted.
        if not wanted
        then some ([], node.scan)
        else (intensities node.device >>= λ heard.
            publish_scan f.scan (pos_part node.scan_threshold) node.head heard end_turn node.scan
            >>= λ r. some (map scan_message r.0, r.1)))

-- `refresh`, from a reading on; the two Booleans tell whether the echo and the scan have subscribers.
unfoldable pub after_reading :
    Floats → ℕ → Bool → Bool → IntParams → Node → Reading → Option (List Output × Node)
unfolding echo_part image_part scan_part
after_reading f fuel echo_subscribed scan_subscribed params before r =
    let node : Node = record before { head = r.head; device = r.device } in
    if not r.valid
    then some ([], node)
    else (echo_part f echo_subscribed node >>= λ echoes. image_part f fuel node >>= λ image.
        scan_part f scan_subscribed r.end_turn (record node { image = image }) >>= λ scanned.
        through node.publishers.param_pubs (param_messages params) >>= λ last.
        some (echoes ++ scanned.0 ++ last ∷ [], record node { image = image; scan = scanned.1 }))

-- `refresh`
unfoldable pub refresh :
    Floats
    → (TransducerRequest → Bool × Device)
    → (ℤ → ℕ → Bool)
    → (ℕ → ℕ)
    → Bool
    → ℕ
    → Bool
    → Bool
    → IntParams
    → Node
    → Option (List Output × Node)
unfolding after_reading
refresh f receive hit random real_sonar fuel echo_subscribed scan_subscribed params node =
    (read_sonar receive hit random real_sonar node.head node.device
      >>= after_reading f fuel echo_subscribed scan_subscribed params node)
