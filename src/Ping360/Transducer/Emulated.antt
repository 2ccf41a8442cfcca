-- ===== src/Ping360/Transducer/Emulated.antt =====
-- The array of the emulated sonar, from `configureTransducer` to `read`.
use native.Mathlib.Decide.{dec_lt}
use sensor_packages.Base.{
  ℕ, zero, suc, ◌+◌, ◌≤◌, ◌<◌, ◌≡◌, ◌≢◌, refl, ◌∙◌, Bool, true, false, List, none, some, min,
  length, set, replicate, get_elem?, ◌==◌, arith, ◌⊎◌, inl, inr, length-set, length-replicate,
  get_elem?-set_self, get_elem?-set_ne, lt→ltb,
}
use sensor_packages.Base.Fault.{◌>>=◌, Ensures}
use sensor_packages.Base.Int.{ℤ}
use sensor_packages.Ping360.Angles.{Head, update_angle}
use sensor_packages.Ping360.Transducer.{
  null, live, deleted, Device, Formulas, configure_transducer, release_data, allocate, write_data,
  emulate, echo, TransducerRequest, Reading, read_sonar, transmit_duration_of,
}

-- The data are an array of as many bytes as `number_of_samples` and `data_length` say.
pub record Backed (d : Device) : Type 0 where
  pub bytes : List ℕ
  pub is_live : d.content ≡ live bytes
  pub size : length bytes ≡ d.number_of_samples
  pub announced : d.data_length ≡ d.number_of_samples

-- What a loop over `n` samples from `i` on leaves of an array.
record Written (noise : ℕ → ℕ) (n i : ℕ) (before : List ℕ) : Type 0 where
  bytes : List ℕ
  run : emulate noise n i (live before) ≡ some (live bytes)
  size : length bytes ≡ length before
  new : (j : ℕ) → i ≤ j → j < i + n → get_elem? bytes j ≡ some (noise j)
  old : (j : ℕ) → j < i → get_elem? bytes j ≡ get_elem? before j

emulate-zero :
    (noise : ℕ → ℕ) (i : ℕ) (bytes : List ℕ) → emulate noise zero i (live bytes) ≡ some (live bytes)
unfolding emulate
emulate-zero noise i bytes = refl

emulate-suc :
    (noise : ℕ → ℕ) (n i : ℕ) (bytes : List ℕ)
    → i < length bytes
    → emulate noise (suc n) i (live bytes) ≡ emulate noise n (i + 1) (live (set bytes i (noise i)))
unfolding emulate write_data
emulate-suc noise n i bytes h = rw (lt→ltb i (length bytes) h) refl

emulate-Written :
    (noise : ℕ → ℕ) (n i : ℕ) (bytes : List ℕ) → i + n ≤ length bytes → Written noise n i bytes
emulate-Written noise zero i bytes h = record {
  bytes = bytes;
  run = emulate-zero noise i bytes;
  size = refl;
  new = λ j low high. absurd (omega arith);
  old = λ j low. refl;
}
emulate-Written noise (suc n) i bytes h =
    let inside : i < length bytes = omega arith in
    let same = length-set bytes i (noise i) in
    let w = emulate-Written noise n (i + 1) (set bytes i (noise i)) (omega (arith, same)) in
    record {
      bytes = w.bytes;
      run = emulate-suc noise n i bytes inside ∙ w.run;
      size = w.size ∙ same;
      new = λ j low high. elim (dec_lt i j) [
        | yes later ↦ w.new j (omega arith) (omega arith)
        | no first ↦
            let here : i ≡ j = omega arith in
            rw (← here) (w.old i (omega arith) ∙ get_elem?-set_self bytes i (noise i) inside)
      ];
      old = λ j low.
          w.old j (omega arith) ∙ get_elem?-set_ne bytes (noise i) (λ e. absurd (omega (arith, e)));
    }

-- What `read` leaves of an emulated sonar.
pub record Echoed (hit : ℤ → ℕ → Bool) (random : ℕ → ℕ) (head : Head) (before : Device)
    (r : Reading) : Type 0 where
  pub turned : r.head ≡ (update_angle head).1
  pub same_samples : r.device.number_of_samples ≡ before.number_of_samples
  pub answered : r.valid ≡ true
  pub quiet : r.sent ≡ none
  pub backed : Backed r.device
  pub samples :
      (i : ℕ)
      → i < before.number_of_samples
      → get_elem? backed.bytes i ≡ some (echo hit random r.head.angle i)

-- On an emulated sonar whose data are an array of the announced size, `read` writes inside the array,
-- reports an answer, sends no request, and leaves at each sample the echo at the angle
-- that the head has turned to. The number of samples stays.
pub read_sonar-Echoed :
    (receive : TransducerRequest → Bool × Device) (hit : ℤ → ℕ → Bool) (random : ℕ → ℕ)
    (head : Head) (d : Device)
    → Backed d
    → Ensures (Echoed hit random head d) (read_sonar receive hit random false head d)
unfolding read_sonar
read_sonar-Echoed receive hit random head d b =
    let noise = echo hit random (update_angle head).1.angle in
    let w = emulate-Written noise d.number_of_samples 0 b.bytes (omega (arith, b.size)) in
    rw (b.is_live, w.run)
      record {
        turned = refl;
        same_samples = refl;
        answered = refl;
        quiet = refl;
        backed = record {
          bytes = w.bytes;
          is_live = refl;
          size = w.size ∙ b.size;
          announced = b.announced;
        };
        samples = λ i h. w.new i (omega arith) (omega arith);
      }

-- The samples that a configuration asks for.
abbrev pub samples_for : Formulas → ℕ → ℕ → ℕ
samples_for f speed_of_sound range = min 1200 (f.possible_samples range speed_of_sound)

-- What `configureTransducer` leaves of an emulated sonar.
pub record Configured (f : Formulas) (speed_of_sound range : ℕ) (d : Device) : Type 0 where
  pub backed : Backed d
  pub samples : d.number_of_samples ≡ samples_for f speed_of_sound range
  pub longest : d.transmit_duration ≤ 500
  pub shortest : 5 ≤ f.longest d.sample_period → 5 ≤ d.transmit_duration

transmit_duration_of-limits :
    (f : Formulas) (period range speed_of_sound : ℕ)
    → (transmit_duration_of f period range speed_of_sound ≤ 500)
      × (5 ≤ f.longest period → 5 ≤ transmit_duration_of f period range speed_of_sound)
unfolding transmit_duration_of
transmit_duration_of-limits f period range speed_of_sound = (ground arith, λ h. ground arith)

-- A sonar before its first configuration, or one that is asked for as many samples as before.
abbrev pub Ready : Formulas → ℕ → ℕ → Device → Type 0
Ready f speed_of_sound range d =
    (d.content ≡ null) ⊎ (Backed d × (d.number_of_samples ≡ samples_for f speed_of_sound range))

==-refl : (n : ℕ) → (n == n) ≡ true
==-refl n = ground arith

-- The first configuration of an emulated sonar, and every later one with the same number of
-- samples, leaves an array of that size and announces it; the transmit duration is at most
-- 500, and at least 5 if the longest one for the sample period is.
pub configure_transducer-Configured :
    (f : Formulas) (gain frequency speed_of_sound range : ℕ) (d : Device)
    → Ready f speed_of_sound range d
    → Ensures
        (Configured f speed_of_sound range)
        (configure_transducer f false gain frequency speed_of_sound range d)
unfolding configure_transducer release_data allocate
configure_transducer-Configured f gain frequency speed_of_sound range d (inl fresh) =
    let limits =
      transmit_duration_of-limits f
        (f.period range (samples_for f speed_of_sound range) speed_of_sound) range speed_of_sound in
    rw fresh record {
      backed = record {
        bytes = replicate (samples_for f speed_of_sound range) 0;
        is_live = refl;
        size = length-replicate (samples_for f speed_of_sound range) 0;
        announced = refl;
      };
      samples = refl;
      longest = limits.0;
      shortest = limits.1;
    }
configure_transducer-Configured f gain frequency speed_of_sound range d (inr (b, same)) =
    let limits =
      transmit_duration_of-limits f
        (f.period range (samples_for f speed_of_sound range) speed_of_sound) range speed_of_sound in
    rw (b.is_live, b.announced, same, ==-refl (samples_for f speed_of_sound range))
      record {
        backed = record { bytes = b.bytes; is_live = refl; size = b.size ∙ same; announced = refl };
        samples = refl;
        longest = limits.0;
        shortest = limits.1;
      }

==-ne : (a b : ℕ) → a ≢ b → (a == b) ≡ false
==-ne a b h = ground arith

emulate-deleted : (noise : ℕ → ℕ) (n i : ℕ) → 0 < n → emulate noise n i deleted ≡ none
unfolding emulate write_data
emulate-deleted noise zero i h = absurd (omega arith)
emulate-deleted noise (suc n) i h = refl

-- A configuration of an emulated sonar with another number of samples, not 0, deletes the array and keeps the
-- pointer: the next `read` writes through it.
pub read_sonar-deleted :
    (receive : TransducerRequest → Bool × Device) (hit : ℤ → ℕ → Bool) (random : ℕ → ℕ)
    (head : Head) (f : Formulas) (gain frequency speed_of_sound range : ℕ) (d : Device)
    → Backed d
    → d.number_of_samples ≢ samples_for f speed_of_sound range
    → 0 < samples_for f speed_of_sound range
    → (configure_transducer f false gain frequency speed_of_sound range d >>= λ e.
        read_sonar receive hit random false head e)
      ≡ none
unfolding configure_transducer read_sonar release_data allocate
read_sonar-deleted receive hit random head f gain frequency speed_of_sound range d b other
      some_samples =
    let noise = echo hit random (update_angle head).1.angle in
    rw
      (
        b.is_live,
        b.announced,
        ==-ne d.number_of_samples (samples_for f speed_of_sound range) other,
        emulate-deleted noise (samples_for f speed_of_sound range) 0 some_samples,
      )
      refl
