-- ===== src/Oculus/DriverConfig/Listener.antt =====
-- The two ways in which parameters reach the configuration, and what the listener publishes.
use sensor_packages.Base.{ℕ, Bool, true, [], ◌∷◌, some, ◌≡◌, refl}
use sensor_packages.Base.Int.{ℤ}
use sensor_packages.Base.Text.{String, find_text}
use sensor_packages.Oculus.DriverConfig.{
  real, whole, flag, text, Setters, Store, apply_parameter, apply_parameters, update_sonar_config,
  publish_parameters, on_change, fire, echoes, Echoes, parameter_callback, double_of, int_of,
  bool_of, string_of,
}

-- The values of the ten parameters that the configuration takes from the node.
pub record Stored (store : Store) : Type 0 where
  pub range : ℕ
  pub gain : ℤ
  pub gamma : ℤ
  pub ping_rate : ℤ
  pub freq_mode : ℤ
  pub data_size : String
  pub range_as_meters : Bool
  pub send_gain : Bool
  pub simple_return : Bool
  pub gain_assistance : Bool
  pub has_range : find_text "range" store ≡ some (real range)
  pub has_gain : find_text "gain" store ≡ some (whole gain)
  pub has_gamma : find_text "gamma" store ≡ some (whole gamma)
  pub has_ping_rate : find_text "ping_rate" store ≡ some (whole ping_rate)
  pub has_freq_mode : find_text "freq_mode" store ≡ some (whole freq_mode)
  pub has_data_size : find_text "data_size" store ≡ some (text data_size)
  pub has_range_as_meters : find_text "send_range_as_meters" store ≡ some (flag range_as_meters)
  pub has_send_gain : find_text "send_gain" store ≡ some (flag send_gain)
  pub has_simple_return : find_text "send_simple_return" store ≡ some (flag simple_return)
  pub has_gain_assistance : find_text "gain_assistance" store ≡ some (flag gain_assistance)

-- The ten parameters with these values, in the order of `updateSonarConfig`.
abbrev pub listed : (store : Store) → Stored store → Store
listed store v =
    ("range", real v.range)
    ∷ ("gain", whole v.gain)
    ∷ ("gamma", whole v.gamma)
    ∷ ("ping_rate", whole v.ping_rate)
    ∷ ("freq_mode", whole v.freq_mode)
    ∷ ("data_size", text v.data_size)
    ∷ ("send_range_as_meters", flag v.range_as_meters)
    ∷ ("send_gain", flag v.send_gain)
    ∷ ("send_simple_return", flag v.simple_return)
    ∷ ("gain_assistance", flag v.gain_assistance)
    ∷ []

-- The configuration that `updateSonarConfig` takes from the node is the one that the loop of
-- `parameterCallback` leaves when the ten parameters are set to the node's values in the order of
-- `updateSonarConfig`, with 512 beams switched on at the end; both run through, whatever the values are.
pub update_sonar_config-apply_parameters :
    {S : Type 0} (setters : Setters S) (store : Store) (c : S) (v : Stored store)
    → (d : S) × (apply_parameters setters (listed store v) c ≡ some d)
      × (update_sonar_config setters store c ≡ some (setters.use_512_beams d))
unfolding apply_parameters apply_parameter update_sonar_config double_of int_of bool_of string_of
update_sonar_config-apply_parameters setters store c v = (
  _,
  refl,
  rw
      (
        v.has_range, v.has_gain, v.has_gamma, v.has_ping_rate, v.has_freq_mode, v.has_data_size,
        v.has_range_as_meters, v.has_send_gain, v.has_simple_return, v.has_gain_assistance,
      )
      refl,
)

-- Setting a gain on a connected sonar succeeds and sends the sonar the new configuration, but the echoes
-- published with it are those of the parameters from before, whatever the new gain is.
pub parameter_callback-stale :
    {S : Type 0} (setters : Setters S) (narrow : ℕ → ℕ) (store : Store) (gain : ℤ) (c : S)
    (old : Echoes)
    → publish_parameters narrow store ≡ some old
    → parameter_callback setters narrow true store (("gain", whole gain) ∷ []) c
      ≡ some (record {
        successful = true;
        config = setters.set_gain_percent gain c;
        outputs = fire (setters.set_gain_percent gain c) ∷ echoes old ∷ [];
      })
unfolding parameter_callback apply_parameters apply_parameter on_change
parameter_callback-stale setters narrow store gain c old e = rw e refl
