-- ===== src/Livox/Callback/Answers.antt =====
-- The settings of a lidar as the SDK answers: which are asked, and when the device starts to be
-- published, for SetDataTypeCallback, SetPatternModeCallback, SetBlindSpotCallback and
-- SetDualEmitCallback in any order.
use sensor_packages.Base.{
  ℕ, ◌<◌, ◌≡◌, ◌≢◌, refl, Bool, false, not, ◌&&◌, ◌||◌, List, [], ◌∷◌, Option, none, some,
  get_elem?, set, ◌==◌, arith, ◌∙◌, ap, get_elem?-set_self,
}
use sensor_packages.Base.Fault.{◌>>=◌, Ensures, Ensures-mono}
use sensor_packages.Livox.Types.{state_sampling, k_livox_lidar_type}
use sensor_packages.Livox.CacheIndex.{get_index}
use sensor_packages.Livox.Lds.Storage.{get_elem?-lt}
use sensor_packages.Livox.Lds.{Lds, LidarDevice}
use sensor_packages.Livox.Callback.{
  Setting, data_type, scan_pattern, blind_spot, dual_emit, bit_of, has_bit, without_bit, accepted,
  setting_callback, answer, get_lidar_device, success,
}

abbrev pub same : Setting → Setting → Bool
same s t = bit_of s == bit_of t

-- The bit of a setting is cleared, and no other.
has_bit-without_bit :
    (s t : Setting) (n : ℕ)
    → n < 16
    → has_bit (without_bit n (bit_of s)) (bit_of t) ≡ (not (same s t) && has_bit n (bit_of t))
has_bit-without_bit data_type data_type n h = ground arith
has_bit-without_bit data_type scan_pattern n h = ground arith
has_bit-without_bit data_type blind_spot n h = ground arith
has_bit-without_bit data_type dual_emit n h = ground arith
has_bit-without_bit scan_pattern data_type n h = ground arith
has_bit-without_bit scan_pattern scan_pattern n h = ground arith
has_bit-without_bit scan_pattern blind_spot n h = ground arith
has_bit-without_bit scan_pattern dual_emit n h = ground arith
has_bit-without_bit blind_spot data_type n h = ground arith
has_bit-without_bit blind_spot scan_pattern n h = ground arith
has_bit-without_bit blind_spot blind_spot n h = ground arith
has_bit-without_bit blind_spot dual_emit n h = ground arith
has_bit-without_bit dual_emit data_type n h = ground arith
has_bit-without_bit dual_emit scan_pattern n h = ground arith
has_bit-without_bit dual_emit blind_spot n h = ground arith
has_bit-without_bit dual_emit dual_emit n h = ground arith

without_bit-lt : (n b : ℕ) → n < 16 → without_bit n b < 16
without_bit-lt n b h = ground arith

no_bits : (n : ℕ) → n < 16 → ((t : Setting) → has_bit n (bit_of t) ≡ false) → n ≡ 0
no_bits n h z =
    let z1 = z data_type in
    let z2 = z scan_pattern in let z3 = z blind_spot in let z4 = z dual_emit in ground arith

abbrev pub bits_of : LidarDevice → ℕ
bits_of lidar = lidar.livox_config.set_bits

abbrev pub mem : Setting → List Setting → Bool
mem t [] = false
mem t (s ∷ ss) = same s t || mem t ss

-- The device after its settings `ss` are accepted, the first one first.
abbrev pub accept_all : List Setting → LidarDevice → LidarDevice
accept_all [] lidar = lidar
accept_all (s ∷ ss) lidar = accept_all ss (accepted s lidar)

-- What the device is after the answers: no bit but those of other settings, and published from the
-- moment that there is none.
pub record Outcome (ss : List Setting) (lidar after : LidarDevice) : Type 0 where
  pub pending :
      (t : Setting)
      → has_bit (bits_of after) (bit_of t) ≡ (not (mem t ss) && has_bit (bits_of lidar) (bit_of t))
  pub published : bits_of after ≡ 0 → after.connect_state ≡ state_sampling
  pub waiting : bits_of after ≢ 0 → after.connect_state ≡ lidar.connect_state

accepted-bits :
    (s : Setting) (lidar : LidarDevice)
    → bits_of (accepted s lidar) ≡ without_bit (bits_of lidar) (bit_of s)
unfolding accepted
accepted-bits s lidar = refl

accept_all-pending :
    (ss : List Setting) (lidar : LidarDevice) (t : Setting)
    → bits_of lidar < 16
    → has_bit (bits_of (accept_all ss lidar)) (bit_of t)
      ≡ (not (mem t ss) && has_bit (bits_of lidar) (bit_of t))
accept_all-pending [] lidar t h = refl
accept_all-pending (s ∷ ss) lidar t h =
    accept_all-pending ss (accepted s lidar) t
      (rw (accepted-bits s lidar) (without_bit-lt (bits_of lidar) (bit_of s) h))
    ∙ ap (λ n. not (mem t ss) && has_bit n (bit_of t)) (accepted-bits s lidar)
    ∙ ap (λ b. not (mem t ss) && b) (has_bit-without_bit s t (bits_of lidar) h)
    ∙ shuffle (mem t ss) (same s t) (has_bit (bits_of lidar) (bit_of t))
  where
    shuffle : (a b c : Bool) → (not a && (not b && c)) ≡ (not (b || a) && c)
    shuffle a b c = ground arith

accept_all-published :
    (s : Setting) (ss : List Setting) (lidar : LidarDevice)
    → bits_of (accept_all (s ∷ ss) lidar) ≡ 0
    → (accept_all (s ∷ ss) lidar).connect_state ≡ state_sampling
unfolding accepted
accept_all-published s [] lidar e = rw e refl
accept_all-published s (s' ∷ ss) lidar e = accept_all-published s' ss (accepted s lidar) e

accept_all-zero :
    (ss : List Setting) (lidar : LidarDevice)
    → bits_of lidar ≡ 0
    → bits_of (accept_all ss lidar) ≡ 0
unfolding accepted
accept_all-zero [] lidar e = e
accept_all-zero (s ∷ ss) lidar e = accept_all-zero ss (accepted s lidar) (ground arith)

kept :
    (s : Setting) (lidar : LidarDevice)
    → bits_of (accepted s lidar) ≢ 0
    → (accepted s lidar).connect_state ≡ lidar.connect_state
unfolding accepted
kept s lidar h = ground arith

accept_all-waiting :
    (ss : List Setting) (lidar : LidarDevice)
    → bits_of (accept_all ss lidar) ≢ 0
    → (accept_all ss lidar).connect_state ≡ lidar.connect_state
accept_all-waiting [] lidar h = refl
accept_all-waiting (s ∷ ss) lidar h =
    accept_all-waiting ss (accepted s lidar) h
    ∙ kept s lidar (λ e. h (accept_all-zero ss (accepted s lidar) e))

-- The callbacks with the status of success, for the lidar of `handle`.
abbrev pub answers : List Setting → ℕ → Lds → Option Lds
answers [] handle lds = some lds
answers (s ∷ ss) handle lds = do
  (client, requests) ← setting_callback s success handle (some lds)
  elim client [ none ↦ none | some lds' ↦ answers ss handle lds' ]

setting_callback-accepted :
    (s : Setting) (handle i : ℕ) (lds : Lds) (lidar : LidarDevice)
    → get_index lds.cache_index k_livox_lidar_type handle ≡ some i
    → get_elem? lds.lidars i ≡ some lidar
    → setting_callback s success handle (some lds)
      ≡ some (some (record lds { lidars = set lds.lidars i (accepted s lidar) }), [])
unfolding setting_callback answer get_lidar_device
setting_callback-accepted s handle i lds lidar e f =
    rw (e, setting_callback, get_lidar_device) (rw (f, ◌>>=◌) refl)

answers-accepted :
    (ss : List Setting) (handle i : ℕ) (lds : Lds) (lidar : LidarDevice)
    → get_index lds.cache_index k_livox_lidar_type handle ≡ some i
    → get_elem? lds.lidars i ≡ some lidar
    → Ensures (λ lds'. get_elem? lds'.lidars i ≡ some (accept_all ss lidar)) (answers ss handle lds)
answers-accepted [] handle i lds lidar e f = f
answers-accepted (s ∷ ss) handle i lds lidar e f =
    rw (setting_callback-accepted s handle i lds lidar e f) (
      answers-accepted ss handle i (record lds { lidars = set lds.lidars i (accepted s lidar) })
        (accepted s lidar) e
        (get_elem?-set_self lds.lidars i (accepted s lidar) (get_elem?-lt lds.lidars i f)))

-- The callbacks of the settings `s` and `ss`, in any order, all with success, of a lidar that has a
-- device with no bits in `set_bits` but the four: each clears its own bit of `set_bits` and no other, and the device is in the state Sampling,
-- so that it is published, as soon as no bit is left; before that its state is as it was.
pub answers-Outcome :
    (s : Setting) (ss : List Setting) (handle i : ℕ) (lds : Lds) (lidar : LidarDevice)
    → get_index lds.cache_index k_livox_lidar_type handle ≡ some i
    → get_elem? lds.lidars i ≡ some lidar
    → bits_of lidar < 16
    → Ensures
        (λ lds'.
          (after : LidarDevice) × (get_elem? lds'.lidars i ≡ some after)
          × Outcome (s ∷ ss) lidar after)
        (answers (s ∷ ss) handle lds)
answers-Outcome s ss handle i lds lidar e f h =
    Ensures-mono _ _ (answers (s ∷ ss) handle lds)
      (answers-accepted (s ∷ ss) handle i lds lidar e f)
      λ lds' g. (
        accept_all (s ∷ ss) lidar,
        g,
        record {
          pending = λ t. accept_all-pending (s ∷ ss) lidar t h;
          published = accept_all-published s ss lidar;
          waiting = accept_all-waiting (s ∷ ss) lidar;
        },
      )
