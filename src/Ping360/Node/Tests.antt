-- ===== src/Ping360/Node/Tests.antt =====
-- The theorem on the configuration of the node at a concrete input.
use sensor_packages.Base.{refl, true, false, List, [], ◌∷◌, ltb, ◌*◌, ◌+◌, arith}
use sensor_packages.Base.Fault.{Ensures}
use sensor_packages.Base.Int.{pos, negsuc, pos_part}
use sensor_packages.Base.Text.{String, find_text}
use sensor_packages.Ping360.Transducer.{Formulas, null}
use sensor_packages.Ping360.Scan
use sensor_packages.Ping360.Node.{
  Setting, integer, boolean, IntParams, updated_params, Node, configure_from_params,
}
use sensor_packages.Ping360.Node.Configured.{Present, Ready, configure_from_params-Ready}

abbrev floats : Scan.Floats
floats = record {
  range_from = λ i. i + 1;
  less = ltb;
  scaled = λ sample. sample;
  radians = pos_part;
  negative = λ a. a;
  minus = λ a b. a;
}

abbrev formulas : Formulas
formulas = record {
  possible_samples = λ range speed. 3 * range;
  period = λ range samples speed. 80;
  widened = λ period. 0;
  one_way = λ range speed. 5 * range;
  longest = λ period. 128;
}

-- The parameters as they are declared.
abbrev defaults : IntParams
defaults =
    ("gain", pos 0)
    ∷ ("frequency", pos 740)
    ∷ ("range_max", pos 2)
    ∷ ("angle_sector", pos 360)
    ∷ ("angle_step", pos 1)
    ∷ ("image_size", pos 300)
    ∷ ("scan_threshold", pos 200)
    ∷ ("speed_of_sound", pos 1500)
    ∷ ("sonar_timeout", pos 8000)
    ∷ ("publish_image", pos 1)
    ∷ ("publish_scan", pos 0)
    ∷ ("publish_echo", pos 0)
    ∷ []

abbrev new_params : List (String × Setting)
new_params = ("gain", integer (pos 1)) ∷ ("publish_echo", boolean true) ∷ []

present : Present (updated_params new_params defaults)
unfolding updated_params find_text
present = (
  (pos 360, refl, omega arith),
  (
    (pos 1, refl, omega arith),
    (
      (pos 0, refl, tt),
      (
        (pos 1, refl, tt),
        (
          (pos 1, refl, tt),
          (
            (pos 1, refl, omega arith),
            (
              (pos 740, refl, omega arith),
              (
                (pos 1500, refl, omega arith),
                (
                  (pos 2, refl, omega arith),
                  (
                    (pos 8000, refl, omega arith),
                    ((pos 300, refl, omega arith), ((pos 200, refl, omega arith), tt)),
                  ),
                ),
              ),
            ),
          ),
        ),
      ),
    ),
  ),
)

abbrev node : Node
node = record {
  head = record { angle_min = negsuc 199; angle_max = pos 199; angle_step = pos 1; angle = pos 0 };
  device = record {
    mode = 0;
    gain_setting = 0;
    transmit_frequency = 0;
    number_of_samples = 0;
    sample_period = 0;
    transmit_duration = 0;
    data_length = 0;
    content = null;
  };
  publishers = record {
    publish_image = false;
    publish_scan = false;
    publish_echo = false;
    image_pub = false;
    scan_pub = false;
    echo_pub = false;
    param_pubs = false;
  };
  echo = record {
    gain = pos 0;
    range = pos 0;
    speed_of_sound = pos 0;
    number_of_samples = 0;
    transmit_frequency = pos 0;
  };
  scan = record {
    angle_min = 0;
    angle_max = 0;
    angle_increment = 0;
    range_min = 1;
    range_max = 0;
    ranges = [];
    intensities = [];
  };
  time_increment = 0;
  image = record { height = 2; width = 2; step = 2; bytes = 1 ∷ 2 ∷ 3 ∷ 4 ∷ [] };
  sector_radius = 0;
  sector_samples = 0;
  scan_threshold = pos 0;
  timeout = pos 0;
}

configure_from_params-Ready_example :
    Ensures Ready
      (configure_from_params floats formulas pos_part (λ n. n) true new_params defaults node)
configure_from_params-Ready_example =
    configure_from_params-Ready floats formulas pos_part (λ n. n) new_params defaults node present
      (record { height = refl; width = refl; size = refl })
