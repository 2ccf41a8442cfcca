-- ===== src/Ping360/Node/RefreshTests.antt =====
-- The theorem on a round of the node at a concrete input: a sector scan with an emulated sonar.
use sensor_packages.Base.{◌+◌, refl, Bool, true, false, [], ◌∷◌, replicate, ltb, arith}
use sensor_packages.Base.Fault.{Ensures}
use sensor_packages.Base.Int.{pos, negsuc, pos_part, ◌+ℤ◌, ◌-ℤ◌}
use sensor_packages.Ping360.Angles.{Head, update_angle}
use sensor_packages.Ping360.Transducer.{Device, TransducerRequest, live}
use sensor_packages.Ping360.Image.Tests.{floats, some_columns, few_points, points-Inside}
use sensor_packages.Ping360.Node.{Node}
use sensor_packages.Ping360.Node.Refresh
use sensor_packages.Ping360.Node.Refresh.{refresh}
use sensor_packages.Ping360.Node.Refresh.Served.{Aligned, Served, refresh-Served}

abbrev parts : Refresh.Floats
parts = record {
  sector = floats;
  scan = record {
    range_from = λ i. i + 1;
    less = ltb;
    scaled = λ sample. sample;
    radians = pos_part;
    negative = λ a. a;
    minus = λ a b. a;
  };
  step_size = pos_part;
  sample_of = λ radius samples x y. pos_part x + pos_part y;
}

-- A sector of 40 gradians each side in steps of 4.
abbrev head : Head
head = record { angle_min = negsuc 39; angle_max = pos 40; angle_step = pos 4; angle = pos 8 }

abbrev device : Device
device = record {
  mode = 1;
  gain_setting = 1;
  transmit_frequency = 740;
  number_of_samples = 2;
  sample_period = 80;
  transmit_duration = 10;
  data_length = 2;
  content = live (0 ∷ 0 ∷ []);
}

abbrev node : Node
node = record {
  head = head;
  device = device;
  publishers = record {
    publish_image = true;
    publish_scan = true;
    publish_echo = true;
    image_pub = true;
    scan_pub = true;
    echo_pub = true;
    param_pubs = true;
  };
  echo = record {
    gain = pos 1;
    range = pos 2;
    speed_of_sound = pos 1500;
    number_of_samples = 2;
    transmit_frequency = pos 740;
  };
  scan = record {
    angle_min = 0;
    angle_max = 0;
    angle_increment = 0;
    range_min = 1;
    range_max = 9;
    ranges = [];
    intensities = [];
  };
  time_increment = 0;
  image = record { height = 6; width = 6; step = 6; bytes = replicate 36 0 };
  sector_radius = 2;
  sector_samples = 2;
  scan_threshold = pos 200;
  timeout = pos 0;
}

turned : Aligned (update_angle head).1
unfolding update_angle ◌+ℤ◌ ◌-ℤ◌
turned = record {
  inside = record {
    sector = refl;
    above = omega arith;
    below = omega arith;
    next_above = omega arith;
    next_below = omega arith;
    moves = λ e. omega arith;
  };
  steps = 20;
  whole = refl;
}

abbrev receive : TransducerRequest → Bool × Device
receive request = (false, device)

refresh-Served_example :
    Ensures
      (Served [] node)
      (refresh parts receive (λ angle i. true) (λ i. 90) false 5 true true [] node)
refresh-Served_example =
    refresh-Served parts receive (λ angle i. true) (λ i. 90) 5 true true [] node
      (record { bytes = 0 ∷ 0 ∷ []; is_live = refl; size = refl; announced = refl }) (omega arith)
      (record { image = λ e. refl; scan = λ e. refl; echo = λ e. refl; params = refl })
      (record { height = refl; width = refl; size = refl })
      (λ e. record {
        some_column = some_columns _ _;
        fuelled = few_points _ _;
        inside = points-Inside _ _;
        small = omega arith;
      })
      (λ e. turned)
