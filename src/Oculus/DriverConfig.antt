-- ===== src/Oculus/DriverConfig.antt =====
-- `OculusDriverConfig` of oculus_ros2/oculus_sonar/src/oculus_driver_config.cpp, the listener of
-- src/oculus_driver_component.cpp and the parameter echoes of src/oculus_driver_publishers.cpp. The
-- configuration of liboculus is a type with its setters as parameters. A real number is its bit
-- pattern, an integer the `int` that it is converted to. `none` is an exception: a parameter that is not
-- declared, or a value of another type.
pub mod Listener
use sensor_packages.Base.{
  ℕ, ◌==◌, Bool, true, false, List, [], ◌∷◌, ◌++◌, Option, none, some, if◌then◌else◌,
}
use sensor_packages.Base.Fault.{◌>>=◌}
use sensor_packages.Base.Int.{ℤ, pos, negsuc}
use sensor_packages.Base.Text.{String, find_text, eq_text}

-- The value of a parameter.
pub data Value : Type 0 where
  real : ℕ → Value
  whole : ℤ → Value
  flag : Bool → Value
  text : String → Value

abbrev pub as_double : Value → Option ℕ
as_double (real r) = some r
as_double (whole n) = none
as_double (flag b) = none
as_double (text s) = none

abbrev pub as_int : Value → Option ℤ
as_int (real r) = none
as_int (whole n) = some n
as_int (flag b) = none
as_int (text s) = none

abbrev pub as_bool : Value → Option Bool
as_bool (real r) = none
as_bool (whole n) = none
as_bool (flag b) = some b
as_bool (text s) = none

abbrev pub as_string : Value → Option String
as_string (real r) = none
as_string (whole n) = none
as_string (flag b) = none
as_string (text s) = some s

-- The enumerators of the ping rate, the frequency mode and the data size.
pub data PingRateType : Type 0 where
  ping_rate_normal : PingRateType
  ping_rate_high : PingRateType
  ping_rate_highest : PingRateType
  ping_rate_low : PingRateType
  ping_rate_lowest : PingRateType
  ping_rate_standby : PingRateType

pub data FreqMode : Type 0 where
  oculus_low_freq : FreqMode
  oculus_high_freq : FreqMode

pub data DataSizeType : Type 0 where
  data_size_8_bit : DataSizeType
  data_size_16_bit : DataSizeType
  data_size_32_bit : DataSizeType

-- The setters of `liboculus::SonarConfiguration`.
pub record Setters (S : Type 0) : Type 0 where
  pub set_range : ℕ → S → S
  pub set_gain_percent : ℤ → S → S
  pub set_gamma : ℤ → S → S
  pub set_ping_rate : PingRateType → S → S
  pub set_freq_mode : FreqMode → S → S
  pub set_data_size : DataSizeType → S → S
  pub send_range_as_meters : Bool → S → S
  pub set_send_gain : Bool → S → S
  pub set_simple_return : Bool → S → S
  pub set_gain_assistance : Bool → S → S
  pub use_512_beams : S → S

-- The parameters of the node.
abbrev pub Store : Type 0
Store = List (String × Value)

-- `get_parameter` with a conversion.
unfoldable pub double_of : Store → String → Option ℕ
unfolding find_text
double_of store name = find_text name store >>= as_double

unfoldable pub int_of : Store → String → Option ℤ
unfolding find_text
int_of store name = find_text name store >>= as_int

unfoldable pub bool_of : Store → String → Option Bool
unfolding find_text
bool_of store name = find_text name store >>= as_bool

unfoldable pub string_of : Store → String → Option String
unfolding find_text
string_of store name = find_text name store >>= as_string

abbrev pub is : ℤ → ℕ → Bool
is (pos n) k = n == k
is (negsuc n) k = false

-- `convertDataSizeString`
unfoldable pub convert_data_size_string : String → ℕ
convert_data_size_string s =
    if eq_text s "8bit"
    then 1
    else if eq_text s "16bit"
    then 2
    else if eq_text s "32bit"
    then 4
    else 1

module _ {S : Type 0} (setters : Setters S) where
  -- `setPingRate`
  unfoldable pub change_ping_rate : ℤ → S → S
  change_ping_rate ping_rate c =
      if is ping_rate 0
      then setters.set_ping_rate ping_rate_normal c
      else if is ping_rate 1
      then setters.set_ping_rate ping_rate_high c
      else if is ping_rate 2
      then setters.set_ping_rate ping_rate_highest c
      else if is ping_rate 3
      then setters.set_ping_rate ping_rate_low c
      else if is ping_rate 4
      then setters.set_ping_rate ping_rate_lowest c
      else if is ping_rate 5
      then setters.set_ping_rate ping_rate_standby c
      else c

  -- `setFreqMode`
  unfoldable pub change_freq_mode : ℤ → S → S
  change_freq_mode freq_mode c =
      if is freq_mode 1
      then setters.set_freq_mode oculus_low_freq c
      else if is freq_mode 2
      then setters.set_freq_mode oculus_high_freq c
      else c

  -- `setDataSize`
  unfoldable pub change_data_size : ℕ → S → S
  change_data_size data_size c =
      if data_size == 1
      then setters.set_data_size data_size_8_bit c
      else if data_size == 2
      then setters.set_data_size data_size_16_bit c
      else if data_size == 4
      then setters.set_data_size data_size_32_bit c
      else c

  -- The body of the loop of `parameterCallback`.
  unfoldable pub apply_parameter : String → Value → S → Option S
  unfolding change_ping_rate change_freq_mode change_data_size convert_data_size_string
  apply_parameter name value c =
      if eq_text name "range"
      then (as_double value >>= λ r. some (setters.set_range r c))
      else if eq_text name "gain"
      then (as_int value >>= λ n. some (setters.set_gain_percent n c))
      else if eq_text name "gamma"
      then (as_int value >>= λ n. some (setters.set_gamma n c))
      else if eq_text name "ping_rate"
      then (as_int value >>= λ n. some (change_ping_rate n c))
      else if eq_text name "freq_mode"
      then (as_int value >>= λ n. some (change_freq_mode n c))
      else if eq_text name "data_size"
      then (as_string value >>= λ s. some (change_data_size (convert_data_size_string s) c))
      else if eq_text name "send_range_as_meters"
      then (as_bool value >>= λ b. some (setters.send_range_as_meters b c))
      else if eq_text name "send_gain"
      then (as_bool value >>= λ b. some (setters.set_send_gain b c))
      else if eq_text name "send_simple_return"
      then (as_bool value >>= λ b. some (setters.set_simple_return b c))
      else if eq_text name "gain_assistance"
      then (as_bool value >>= λ b. some (setters.set_gain_assistance b c))
      else some c

  -- The loop.
  unfoldable pub apply_parameters : Store → S → Option S
  unfolding apply_parameter
  apply_parameters [] c = some c
  apply_parameters ((name, value) ∷ rest) c = apply_parameter name value c >>= apply_parameters rest

  -- `updateSonarConfig`
  unfoldable pub update_sonar_config : Store → S → Option S
  unfolding change_ping_rate change_freq_mode change_data_size convert_data_size_string
  update_sonar_config store c = do
    range ← double_of store "range"
    gain ← int_of store "gain"
    gamma ← int_of store "gamma"
    ping_rate ← int_of store "ping_rate"
    freq_mode ← int_of store "freq_mode"
    data_size ← string_of store "data_size"
    range_as_meters ← bool_of store "send_range_as_meters"
    send_gain ← bool_of store "send_gain"
    simple_return ← bool_of store "send_simple_return"
    gain_assistance ← bool_of store "gain_assistance"
    let measured =
          setters.set_gamma gamma (setters.set_gain_percent gain (setters.set_range range c)) in
        let timed = change_freq_mode freq_mode (change_ping_rate ping_rate measured) in
        let sized = change_data_size (convert_data_size_string data_size) timed in
        let sent =
          setters.set_send_gain send_gain (setters.send_range_as_meters range_as_meters sized) in
        some (
          setters.use_512_beams (
            setters.set_gain_assistance gain_assistance
              (setters.set_simple_return simple_return sent)))

-- The nine echoes.
pub record Echoes : Type 0 where
  pub ping_rate : ℤ
  pub freq_mode : ℤ
  pub data_size : String
  pub range : ℕ
  pub gain : ℤ
  pub gamma : ℤ
  pub ip_address : String
  pub frame_id : String
  pub sonar_model : String

-- `publishParameters`; `narrow` is the conversion of a double to a float.
unfoldable pub publish_parameters : (ℕ → ℕ) → Store → Option Echoes
publish_parameters narrow store = do
  ping_rate ← int_of store "ping_rate"
  freq_mode ← int_of store "freq_mode"
  data_size ← string_of store "data_size"
  range ← double_of store "range"
  gain ← int_of store "gain"
  gamma ← int_of store "gamma"
  ip_address ← string_of store "ip_address"
  frame_id ← string_of store "frame_id"
  sonar_model ← string_of store "sonar_model"
  some (record {
    ping_rate = ping_rate;
    freq_mode = freq_mode;
    data_size = data_size;
    range = narrow range;
    gain = gain;
    gamma = gamma;
    ip_address = ip_address;
    frame_id = frame_id;
    sonar_model = sonar_model;
  })

-- What the driver sends and publishes: a fire message to the sonar, and the echoes.
pub data Output (S : Type 0) : Type 0 where
  fire : S → Output S
  echoes : Echoes → Output S

-- The listener of the component.
unfoldable pub on_change : {S : Type 0} → (ℕ → ℕ) → Bool → Store → S → Option (List (Output S))
unfolding publish_parameters
on_change narrow connected store c = do
  published ← publish_parameters narrow store
  some (if connected then fire c ∷ echoes published ∷ [] else echoes published ∷ [])

-- What `parameterCallback` leaves.
pub record Answer (S : Type 0) : Type 0 where
  pub successful : Bool
  pub config : S
  pub outputs : List (Output S)

-- `parameterCallback`, with the listener of the component; `store` has the parameters of the node, which
-- do not have the new values yet.
unfoldable pub parameter_callback :
    {S : Type 0} → Setters S → (ℕ → ℕ) → Bool → Store → Store → S → Option (Answer S)
unfolding apply_parameters on_change
parameter_callback setters narrow connected store parameters c = do
  config ← apply_parameters setters parameters c
  outputs ← on_change narrow connected store config
  some (record { successful = true; config = config; outputs = outputs })
