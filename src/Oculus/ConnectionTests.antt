-- ===== src/Oculus/ConnectionTests.antt =====
-- Runs of the Oculus driver's callbacks at concrete inputs; a configuration is a number.
use sensor_packages.Base.{ℕ, ◌≡◌, refl, true, false, [], ◌∷◌, some, if◌then◌else◌, List}
use sensor_packages.Oculus.Connection.{
  variant_m1200d, variant_m370s, detected_model, detected, connect, fire, republish, Driver, Event,
  status, connected, changed, is_auto, run, start, have_read,
}
use sensor_packages.Oculus.Connection.Runs.{last_fire, connects, offers, run-current, run-connects}

abbrev automatic : Driver ℕ
automatic = record { config = 7; ip_address = "auto"; logged = false }

-- Two status messages before the connection, and one after it; then a change.
abbrev messages : List (Event ℕ)
messages =
    status true 1042 "192.168.0.200" false
    ∷ status false 1042 "192.168.0.201" false
    ∷ connected
    ∷ status true 1042 "192.168.0.200" true
    ∷ changed 8 true
    ∷ []

ran :
    (run automatic messages).1
    ≡ detected 1042 (some variant_m1200d) false
      ∷ connect "192.168.0.200"
      ∷ fire 7
      ∷ fire 8
      ∷ republish
      ∷ []
unfolding run detected_model
ran = refl

model_370 : detected_model 2418 ≡ some variant_m370s
unfolding detected_model
model_370 = refl

received : have_read true (1 ∷ 2 ∷ []) ≡ some (record { bytes = 1 ∷ 2 ∷ []; direction = 1 })
unfolding have_read
received = refl

waits_for_status : start automatic ≡ []
unfolding start
waits_for_status = refl

run-connects_example :
    connects (run automatic messages).1 ≡ (if is_auto automatic then offers messages else [])
run-connects_example = run-connects automatic messages

run-current_example :
    last_fire 0 (run automatic (connected ∷ changed 8 true ∷ changed 9 true ∷ [])).1
    ≡ (run automatic (connected ∷ changed 8 true ∷ changed 9 true ∷ [])).0.config
run-current_example =
    run-current automatic 0 (changed 8 true ∷ changed 9 true ∷ []) (refl, (refl, tt))
