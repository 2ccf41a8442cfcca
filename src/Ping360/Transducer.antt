-- ===== src/Ping360/Transducer.antt =====
-- The transducer of the Ping360 in ping360_ros2/ping360_sonar/src/sonar_interface.cpp:
-- `configureTransducer` and `read`, with the device data of the real and of the emulated sonar. What the
-- floating-point formulas give after the conversion to a 16-bit number is a parameter, and so are the
-- answer of the device and the values of `rand`. `none` is an access outside an object, or a second
-- `delete[]`.
pub mod Emulated
pub mod Angle
mod Tests
use sensor_packages.Base.{
  ℕ, zero, suc, ◌+◌, ◌*◌, ◌%◌, Bool, true, false, not, ◌&&◌, List, [], ◌∷◌, Option, none, some, min,
  length, set, replicate, ltb, leb, ◌==◌, if◌then◌else◌,
}
use sensor_packages.Base.Fault.{◌>>=◌}
use sensor_packages.Base.Int.{ℤ, pos, ◌+ℤ◌, ltb_ℤ, pos_part}
use sensor_packages.Ping360.Angles.{Head, update_angle}

-- What `device.data` points to.
pub data Buffer : Type 0 where
  null : Buffer
  live : List ℕ → Buffer
  deleted : Buffer

-- `device_data_data`
pub record Device : Type 0 where
  pub mode : ℕ
  pub gain_setting : ℕ
  pub transmit_frequency : ℕ
  pub number_of_samples : ℕ
  pub sample_period : ℕ
  pub transmit_duration : ℕ
  pub data_length : ℕ
  pub content : Buffer

-- The formulas: the samples that a range and a speed of sound allow, the sample period for them, the two
-- durations of a pulse, and the longest one.
pub record Formulas : Type 0 where
  pub possible_samples : ℕ → ℕ → ℕ
  pub period : ℕ → ℕ → ℕ → ℕ
  pub widened : ℕ → ℕ
  pub one_way : ℕ → ℕ → ℕ
  pub longest : ℕ → ℕ

abbrev firmware_max_samples : ℕ
firmware_max_samples = 1200

abbrev firmware_min_transmit_duration : ℕ
firmware_min_transmit_duration = 5

abbrev firmware_max_transmit_duration : ℕ
firmware_max_transmit_duration = 500

abbrev max : ℕ → ℕ → ℕ
max a b = if ltb a b then b else a

-- The transmit duration, for a sample period.
unfoldable pub transmit_duration_of : Formulas → ℕ → ℕ → ℕ → ℕ
transmit_duration_of f period range speed_of_sound =
    let wanted = max (f.widened period) (f.one_way range speed_of_sound) in
    let max_duration = min firmware_max_transmit_duration (f.longest period) in
    if ltb wanted firmware_min_transmit_duration
    then firmware_min_transmit_duration
    else if ltb max_duration wanted
    then max_duration
    else wanted

-- What `delete[] device.data` leaves, under its condition.
unfoldable pub release_data : ℕ → ℕ → Buffer → Option Buffer
release_data data_length samples null = some null
release_data data_length samples (live bytes) =
    some (if not (data_length == samples) then deleted else live bytes)
release_data data_length samples deleted =
    if not (data_length == samples) then none else some deleted

-- What `new` leaves, where there is no array; its bytes are not initialised, and 0 here.
unfoldable pub allocate : ℕ → Buffer → Buffer
allocate samples null = live (replicate samples 0)
allocate samples (live bytes) = live bytes
allocate samples deleted = deleted

-- `configureTransducer`, without `max_range`.
unfoldable pub configure_transducer : Formulas → Bool → ℕ → ℕ → ℕ → ℕ → Device → Option Device
unfolding release_data allocate transmit_duration_of
configure_transducer f real_sonar gain frequency speed_of_sound range device =
    let samples = min firmware_max_samples (f.possible_samples range speed_of_sound) in
    let period = f.period range samples speed_of_sound in
    let configured : Device = record device {
      mode = 1;
      gain_setting = gain;
      transmit_frequency = frequency;
      number_of_samples = samples;
      sample_period = period;
      transmit_duration = transmit_duration_of f period range speed_of_sound;
    } in
    if real_sonar
    then some configured
    else (release_data device.data_length samples device.content >>= λ rest.
        some (record configured { data_length = samples; content = allocate samples rest }))

-- The arguments of `set_transducer`; the last two are always 1 and 0.
pub record TransducerRequest : Type 0 where
  pub mode : ℕ
  pub gain_setting : ℕ
  pub angle : ℤ
  pub transmit_duration : ℕ
  pub sample_period : ℕ
  pub transmit_frequency : ℕ
  pub number_of_samples : ℕ

-- The angle that the device gets for the head's.
unfoldable pub transducer_angle : ℤ → ℤ
transducer_angle angle = if ltb_ℤ (pos 0) angle then angle else angle +ℤ pos 400

abbrev pub request_at : Device → ℤ → TransducerRequest
unfolding transducer_angle
request_at device angle = record {
  mode = device.mode;
  gain_setting = device.gain_setting;
  angle = transducer_angle angle;
  transmit_duration = device.transmit_duration;
  sample_period = device.sample_period;
  transmit_frequency = device.transmit_frequency;
  number_of_samples = device.number_of_samples;
}

-- A write through `device.data`.
unfoldable pub write_data : Buffer → ℕ → ℕ → Option Buffer
write_data null i value = none
write_data (live bytes) i value =
    if ltb i (length bytes) then some (live (set bytes i value)) else none
write_data deleted i value = none

-- The loop of the emulation with its rounds left, from sample `i` on; `noise i` is the value there.
unfoldable pub emulate : (ℕ → ℕ) → ℕ → ℕ → Buffer → Option Buffer
unfolding write_data
emulate noise zero i buffer = some buffer
emulate noise (suc n) i buffer = do
  written ← write_data buffer i (noise i)
  emulate noise n (i + 1) written

-- The emulated echo: `hit angle i` tells whether there is one at sample `i`, and `random i` is what `rand`
-- returns then.
abbrev pub echo : (ℤ → ℕ → Bool) → (ℕ → ℕ) → ℤ → ℕ → ℕ
echo hit random angle i = if hit angle i then 120 + random i % 120 else 0

-- What `read` leaves: whether there is an answer, whether the turn ends, the head, the device and the
-- request that was sent, if any.
pub record Reading : Type 0 where
  pub valid : Bool
  pub end_turn : Bool
  pub head : Head
  pub device : Device
  pub sent : Option TransducerRequest

-- `read`; `receive` is what `waitMessage` leaves: whether there is a message, and the device data with it.
unfoldable pub read_sonar :
    (TransducerRequest → Bool × Device)
    → (ℤ → ℕ → Bool)
    → (ℕ → ℕ)
    → Bool
    → Head
    → Device
    → Option Reading
unfolding update_angle emulate
read_sonar receive hit random real_sonar head device =
    let turned : Bool × Head = update_angle head in
    let request = request_at device turned.1.angle in
    if real_sonar
    then some (record {
      valid = (receive request).0;
      end_turn = turned.0;
      head = turned.1;
      device = (receive request).1;
      sent = some request;
    })
    else (emulate (echo hit random turned.1.angle) device.number_of_samples 0 device.content
        >>= λ buffer. some (record {
          valid = true;
          end_turn = turned.0;
          head = turned.1;
          device = record device { content = buffer };
          sent = none;
        }))
