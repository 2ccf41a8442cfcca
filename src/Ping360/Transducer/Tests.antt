-- ===== src/Ping360/Transducer/Tests.antt =====
-- The theorems on the transducer at concrete inputs.
use sensor_packages.Base.{◌*◌, refl, Bool, false, replicate}
use sensor_packages.Base.Int.{pos, negsuc}
use sensor_packages.Ping360.Angles.{Head}
use sensor_packages.Ping360.Transducer.{null, live, Device, Formulas, TransducerRequest}
use sensor_packages.Ping360.Transducer.Emulated.{Backed}

-- Three samples a metre.
abbrev formulas : Formulas
formulas = record {
  possible_samples = λ range speed. 3 * range;
  period = λ range samples speed. 80;
  widened = λ period. 0;
  one_way = λ range speed. 5 * range;
  longest = λ period. 128;
}

abbrev fresh : Device
fresh = record {
  mode = 0;
  gain_setting = 0;
  transmit_frequency = 0;
  number_of_samples = 0;
  sample_period = 0;
  transmit_duration = 0;
  data_length = 0;
  content = null;
}

-- The device after a configuration with a range of 2.
abbrev configured : Device
configured = record {
  mode = 1;
  gain_setting = 1;
  transmit_frequency = 740;
  number_of_samples = 6;
  sample_period = 80;
  transmit_duration = 10;
  data_length = 6;
  content = live (replicate 6 0);
}

configured-Backed : Backed configured
configured-Backed = record { bytes = replicate 6 0; is_live = refl; size = refl; announced = refl }

abbrev head : Head
head = record { angle_min = negsuc 59; angle_max = pos 60; angle_step = pos 2; angle = pos 10 }

abbrev receive : TransducerRequest → Bool × Device
receive request = (false, fresh)
