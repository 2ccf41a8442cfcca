-- ===== src/Oculus/Connection.antt =====
-- The wiring of oculus_ros2/oculus_sonar/src/oculus_driver_component.cpp, the connection manager of
-- src/oculus_connection_manager.cpp and the raw data of src/publishing_data_rx.cpp. The receivers are
-- those of liboculus: what they report comes as events, with what `isConnected` answers at the time, and
-- what the driver asks of them is a list of calls.
pub mod Runs
use sensor_packages.Base.{
  ℕ, Bool, true, false, not, ◌&&◌, ◌||◌, List, [], ◌∷◌, ◌++◌, Option, none, some, ◌==◌,
  if◌then◌else◌,
}
use sensor_packages.Base.Text.{String, eq_text}

-- The models that a part number tells, in the order in which they are tried
pub data Model : Type 0 where
  variant_m750d : Model
  variant_m1200d : Model
  variant_m370s : Model
  variant_m3000d : Model

abbrev pub part_numbers : Model → List ℕ
part_numbers variant_m750d = 1032 ∷ 2419 ∷ 1434 ∷ 1921 ∷ 1244 ∷ []
part_numbers variant_m1200d = 1042 ∷ 2420 ∷ 1435 ∷ 2086 ∷ 1219 ∷ []
part_numbers variant_m370s = 1041 ∷ 2418 ∷ 1433 ∷ 2294 ∷ 1217 ∷ []
part_numbers variant_m3000d = 2203 ∷ 2599 ∷ 2659 ∷ 2658 ∷ []

-- The lambda `matches` of the status callback
abbrev pub matches : ℕ → List ℕ → Bool
matches part_num [] = false
matches part_num (n ∷ list) = n == part_num || matches part_num list

-- `detected_model`; `none` is "Unknown".
unfoldable pub detected_model : ℕ → Option Model
detected_model part_num =
    if matches part_num (part_numbers variant_m750d)
    then some variant_m750d
    else if matches part_num (part_numbers variant_m1200d)
    then some variant_m1200d
    else if matches part_num (part_numbers variant_m370s)
    then some variant_m370s
    else if matches part_num (part_numbers variant_m3000d)
    then some variant_m3000d
    else none

-- `detected_model.find("M370")`
abbrev pub is_m370s : Option Model → Bool
is_m370s none = false
is_m370s (some variant_m750d) = false
is_m370s (some variant_m1200d) = false
is_m370s (some variant_m370s) = true
is_m370s (some variant_m3000d) = false

-- What the driver does: it logs the hardware, with the warning about the field of view or without, asks
-- for a connection, sends a fire message, or republishes the parameters.
pub data Call (S : Type 0) : Type 0 where
  detected : ℕ → Option Model → Bool → Call S
  connect : String → Call S
  fire : S → Call S
  republish : Call S

-- The driver: its configuration, its `ip_address`, and the static flag `logged`.
pub record Driver (S : Type 0) : Type 0 where
  pub config : S
  pub ip_address : String
  pub logged : Bool

-- What happens to it: a status message, the connection is made, or the configuration is changed. A
-- status and a change come with the answer of `isConnected`.
pub data Event (S : Type 0) : Type 0 where
  status : Bool → ℕ → String → Bool → Event S
  connected : Event S
  changed : S → Bool → Event S

module _ {S : Type 0} where
  abbrev pub is_auto : Driver S → Bool
  is_auto d = eq_text d.ip_address "auto"

  -- `OculusConnectionManager::start`
  unfoldable pub start : Driver S → List (Call S)
  start d = if is_auto d then [] else connect d.ip_address ∷ []

  -- The log of the first valid status
  unfoldable pub detection : Driver S → ℕ → List (Call S)
  detection d part_num =
      let model = detected_model part_num in
      if d.logged then [] else detected part_num model (is_m370s model) ∷ []

  -- The connection that the status callback asks for
  unfoldable pub offer : Driver S → String → Bool → List (Call S)
  offer d address is_connected = if is_auto d && not is_connected then connect address ∷ [] else []

  -- The status callback behind its test for a valid status
  unfoldable pub valid_status : Driver S → ℕ → String → Bool → Driver S × List (Call S)
  unfolding detection offer
  valid_status d part_num address is_connected =
      (record d { logged = true }, detection d part_num ++ offer d address is_connected)

  -- The callbacks that `init` sets.
  unfoldable pub handle_event : Driver S → Event S → Driver S × List (Call S)
  unfolding valid_status
  handle_event d (status false part_num address is_connected) = (d, [])
  handle_event d (status true part_num address is_connected) =
      valid_status d part_num address is_connected
  handle_event d connected = (d, fire d.config ∷ [])
  handle_event d (changed config is_connected) = (
    record d { config = config },
    if is_connected then fire config ∷ republish ∷ [] else republish ∷ [],
  )

  -- A run of callbacks
  unfoldable pub run : Driver S → List (Event S) → Driver S × List (Call S)
  unfolding handle_event
  run d [] = (d, [])
  run d (e ∷ events) =
      let (d', calls) = handle_event d e in let (d'', rest) = run d' events in (d'', calls ++ rest)

-- `RawData` without its header
pub record RawData : Type 0 where
  pub bytes : List ℕ
  pub direction : ℕ

-- `doPublish`: the message, if there is a publisher.
unfoldable pub do_publish : Bool → List ℕ → ℕ → Option RawData
do_publish has_publisher bytes direction =
    if has_publisher then some (record { bytes = bytes; direction = direction }) else none

-- `haveWritten`
unfoldable pub have_written : Bool → List ℕ → Option RawData
unfolding do_publish
have_written has_publisher bytes = do_publish has_publisher bytes 0

-- `haveRead`
unfoldable pub have_read : Bool → List ℕ → Option RawData
unfolding do_publish
have_read has_publisher bytes = do_publish has_publisher bytes 1
