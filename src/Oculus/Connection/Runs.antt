-- ===== src/Oculus/Connection/Runs.antt =====
-- What the Oculus driver asks of the sonar over whole runs of its callbacks.
use mathlib.Core.Path.{ap₂}
use mathlib.Core.List.{append-nil}
use sensor_packages.Base.{
  ℕ, Bool, true, false, not, ◌&&◌, ◌≡◌, refl, sym, ap, ◌∙◌, List, [], ◌∷◌, ◌++◌, some, arith,
  if◌then◌else◌,
}
use sensor_packages.Base.Text.{String, eq_text}
use sensor_packages.Oculus.Connection.{
  Model, variant_m750d, variant_m1200d, variant_m370s, variant_m3000d, part_numbers, matches,
  detected_model, is_m370s, Call, detected, connect, fire, republish, Driver, Event, status,
  connected, changed, is_auto, detection, offer, valid_status, handle_event, run,
}

-- Every part number of a model is recognised as that model's: no list hides an entry of a later one.
pub detected_model-part_numbers :
    (m : Model) (part_num : ℕ)
    → matches part_num (part_numbers m) ≡ true
    → detected_model part_num ≡ some m
unfolding detected_model
detected_model-part_numbers variant_m750d part_num h = ground (arith, h)
detected_model-part_numbers variant_m1200d part_num h = ground (arith, h)
detected_model-part_numbers variant_m370s part_num h = ground (arith, h)
detected_model-part_numbers variant_m3000d part_num h = ground (arith, h)

if-nil : {A : Type 0} (b : Bool) → ◌≡◌ {A = List A} [] (if b then [] else [])
if-nil true = refl
if-nil false = refl

if-append :
    (b : Bool) (xs ys : List String)
    → (if b then xs else []) ++ (if b then ys else []) ≡ (if b then xs ++ ys else [])
if-append true xs ys = refl
if-append false xs ys = refl

module _ {S : Type 0} where
  -- The configuration of the last fire message, if there is one, else `c`
  abbrev pub last_fire : S → List (Call S) → S
  last_fire c [] = c
  last_fire c (detected part_num model warning ∷ calls) = last_fire c calls
  last_fire c (connect address ∷ calls) = last_fire c calls
  last_fire c (fire config ∷ calls) = last_fire config calls
  last_fire c (republish ∷ calls) = last_fire c calls

  -- The addresses that were connected to
  abbrev pub connects : List (Call S) → List String
  connects [] = []
  connects (detected part_num model warning ∷ calls) = connects calls
  connects (connect address ∷ calls) = address ∷ connects calls
  connects (fire config ∷ calls) = connects calls
  connects (republish ∷ calls) = connects calls

  -- The part numbers that were logged
  abbrev pub logs : List (Call S) → List ℕ
  logs [] = []
  logs (detected part_num model warning ∷ calls) = part_num ∷ logs calls
  logs (connect address ∷ calls) = logs calls
  logs (fire config ∷ calls) = logs calls
  logs (republish ∷ calls) = logs calls

  last_fire-append :
      (c : S) (xs ys : List (Call S)) → last_fire c (xs ++ ys) ≡ last_fire (last_fire c xs) ys
  last_fire-append c [] ys = refl
  last_fire-append c (detected part_num model warning ∷ xs) ys = last_fire-append c xs ys
  last_fire-append c (connect address ∷ xs) ys = last_fire-append c xs ys
  last_fire-append c (fire config ∷ xs) ys = last_fire-append config xs ys
  last_fire-append c (republish ∷ xs) ys = last_fire-append c xs ys

  connects-append : (xs ys : List (Call S)) → connects (xs ++ ys) ≡ connects xs ++ connects ys
  connects-append [] ys = refl
  connects-append (detected part_num model warning ∷ xs) ys = connects-append xs ys
  connects-append (connect address ∷ xs) ys = ap (λ l. address ∷ l) (connects-append xs ys)
  connects-append (fire config ∷ xs) ys = connects-append xs ys
  connects-append (republish ∷ xs) ys = connects-append xs ys

  logs-append : (xs ys : List (Call S)) → logs (xs ++ ys) ≡ logs xs ++ logs ys
  logs-append [] ys = refl
  logs-append (detected part_num model warning ∷ xs) ys = ap (λ l. part_num ∷ l) (logs-append xs ys)
  logs-append (connect address ∷ xs) ys = logs-append xs ys
  logs-append (fire config ∷ xs) ys = logs-append xs ys
  logs-append (republish ∷ xs) ys = logs-append xs ys

  -- Every change of the configuration meets a connected sonar.
  abbrev pub Linked : List (Event S) → Type 0
  Linked [] = Unit {0}
  Linked (status is_valid part_num address is_connected ∷ events) = Linked events
  Linked (connected ∷ events) = Linked events
  Linked (changed config is_connected ∷ events) = (is_connected ≡ true) × Linked events

  -- The addresses of the valid status messages that find no connection
  abbrev pub offers : List (Event S) → List String
  offers [] = []
  offers (status true part_num address false ∷ events) = address ∷ offers events
  offers (status true part_num address true ∷ events) = offers events
  offers (status false part_num address is_connected ∷ events) = offers events
  offers (connected ∷ events) = offers events
  offers (changed config is_connected ∷ events) = offers events

  -- The part number of the first valid status message
  abbrev pub first_part : List (Event S) → List ℕ
  first_part [] = []
  first_part (status true part_num address is_connected ∷ events) = part_num ∷ []
  first_part (status false part_num address is_connected ∷ events) = first_part events
  first_part (connected ∷ events) = first_part events
  first_part (changed config is_connected ∷ events) = first_part events

  -- A status message logs at most once, and connects at most once.
  valid_status-last_fire :
      (c : S) (d : Driver S) (part_num : ℕ) (address : String) (is_connected : Bool)
      → last_fire c (valid_status d part_num address is_connected).1 ≡ c
  unfolding valid_status detection offer
  valid_status-last_fire c d part_num address is_connected =
      last_fire-append c (detection d part_num) (offer d address is_connected)
      ∙ ap (λ x. last_fire x (offer d address is_connected)) (detection-last_fire d.logged)
      ∙ connect-last_fire (is_auto d && not is_connected)
    where
      detection-last_fire :
          (b : Bool)
          → last_fire c (
              if b
              then []
              else detected part_num (detected_model part_num) (is_m370s (detected_model part_num))
                ∷ [])
            ≡ c
      detection-last_fire true = refl
      detection-last_fire false = refl

      connect-last_fire : (b : Bool) → last_fire c (if b then connect address ∷ [] else []) ≡ c
      connect-last_fire true = refl
      connect-last_fire false = refl

  handle_event-last_fire :
      (d : Driver S) (e : Event S)
      → Linked (e ∷ [])
      → last_fire d.config (handle_event d e).1 ≡ (handle_event d e).0.config
  unfolding handle_event
  handle_event-last_fire d (status false part_num address is_connected) l = refl
  handle_event-last_fire d (status true part_num address is_connected) l =
      valid_status-last_fire d.config d part_num address is_connected
  handle_event-last_fire d connected l = refl
  handle_event-last_fire d (changed config is_connected) l = rw (l.0, if◌then◌else◌) refl

  Linked-head : (e : Event S) (events : List (Event S)) → Linked (e ∷ events) → Linked (e ∷ [])
  Linked-head (status is_valid part_num address is_connected) events l = tt
  Linked-head connected events l = tt
  Linked-head (changed config is_connected) events l = (l.0, tt)

  Linked-tail : (e : Event S) (events : List (Event S)) → Linked (e ∷ events) → Linked events
  Linked-tail (status is_valid part_num address is_connected) events l = l
  Linked-tail connected events l = l
  Linked-tail (changed config is_connected) events l = l.1

  run-last_fire :
      (d : Driver S) (events : List (Event S))
      → Linked events
      → last_fire d.config (run d events).1 ≡ (run d events).0.config
  unfolding run
  run-last_fire d [] l = refl
  run-last_fire d (e ∷ events) l =
      last_fire-append d.config (handle_event d e).1 (run (handle_event d e).0 events).1
      ∙ ap (λ c. last_fire c (run (handle_event d e).0 events).1)
          (handle_event-last_fire d e (Linked-head e events l))
      ∙ run-last_fire (handle_event d e).0 events (Linked-tail e events l)

  valid_status-connects :
      (d : Driver S) (part_num : ℕ) (address : String) (is_connected : Bool)
      → connects (valid_status d part_num address is_connected).1
        ≡ (if is_auto d then offers (status true part_num address is_connected ∷ []) else [])
  unfolding valid_status detection offer
  valid_status-connects d part_num address is_connected =
      connects-append (detection d part_num) (offer d address is_connected)
      ∙ ap (λ l. l ++ connects (offer d address is_connected)) (detection-connects d.logged)
      ∙ connect-connects (is_auto d) is_connected
    where
      detection-connects :
          (b : Bool)
          → connects (
              if b
              then []
              else detected part_num (detected_model part_num) (is_m370s (detected_model part_num))
                ∷ [])
            ≡ []
      detection-connects true = refl
      detection-connects false = refl

      connect-connects :
          (b c : Bool)
          → connects (if b && not c then connect address ∷ [] else [])
            ≡ (if b then offers (status true part_num address c ∷ []) else [])
      connect-connects true true = refl
      connect-connects true false = refl
      connect-connects false c = refl

  handle_event-connects :
      (d : Driver S) (e : Event S)
      → connects (handle_event d e).1 ≡ (if is_auto d then offers (e ∷ []) else [])
  unfolding handle_event
  handle_event-connects d (status false part_num address is_connected) = if-nil (is_auto d)
  handle_event-connects d (status true part_num address is_connected) =
      valid_status-connects d part_num address is_connected
  handle_event-connects d connected = if-nil (is_auto d)
  handle_event-connects d (changed config true) = if-nil (is_auto d)
  handle_event-connects d (changed config false) = if-nil (is_auto d)

  handle_event-ip_address :
      (d : Driver S) (e : Event S) → (handle_event d e).0.ip_address ≡ d.ip_address
  unfolding handle_event valid_status
  handle_event-ip_address d (status false part_num address is_connected) = refl
  handle_event-ip_address d (status true part_num address is_connected) = refl
  handle_event-ip_address d connected = refl
  handle_event-ip_address d (changed config is_connected) = refl

  offers-cons :
      (e : Event S) (events : List (Event S))
      → offers (e ∷ events) ≡ offers (e ∷ []) ++ offers events
  offers-cons (status true part_num address true) events = refl
  offers-cons (status true part_num address false) events = refl
  offers-cons (status false part_num address is_connected) events = refl
  offers-cons connected events = refl
  offers-cons (changed config is_connected) events = refl

  -- Over every run of its callbacks, the driver connects to the addresses of the valid status messages
  -- that find no connection, in their order, if its `ip_address` is `auto`; with any other address no
  -- callback connects to anything.
  pub run-connects :
      (d : Driver S) (events : List (Event S))
      → connects (run d events).1 ≡ (if is_auto d then offers events else [])
  unfolding run
  run-connects d [] = if-nil (is_auto d)
  run-connects d (e ∷ events) =
      connects-append (handle_event d e).1 (run (handle_event d e).0 events).1
      ∙ ap₂ ◌++◌ (handle_event-connects d e) (run-connects (handle_event d e).0 events)
      ∙ ap
          (λ a.
            (if is_auto d then offers (e ∷ []) else [])
            ++ (if eq_text a "auto" then offers events else []))
          (handle_event-ip_address d e)
      ∙ if-append (is_auto d) (offers (e ∷ [])) (offers events)
      ∙ ap (λ l. if is_auto d then l else []) (sym (offers-cons e events))

  valid_status-logs :
      (d : Driver S) (part_num : ℕ) (address : String) (is_connected : Bool)
      → logs (valid_status d part_num address is_connected).1
        ≡ (if d.logged then [] else part_num ∷ [])
  unfolding valid_status detection offer
  valid_status-logs d part_num address is_connected =
      logs-append (detection d part_num) (offer d address is_connected)
      ∙ ap (λ l. l ++ logs (offer d address is_connected)) (detection-logs d.logged)
      ∙ ap (λ l. (if d.logged then [] else part_num ∷ []) ++ l)
          (connect-logs (is_auto d && not is_connected))
      ∙ append-nil (if d.logged then [] else part_num ∷ [])
    where
      detection-logs :
          (b : Bool)
          → logs (
              if b
              then []
              else detected part_num (detected_model part_num) (is_m370s (detected_model part_num))
                ∷ [])
            ≡ (if b then [] else part_num ∷ [])
      detection-logs true = refl
      detection-logs false = refl

      connect-logs : (b : Bool) → logs (if b then connect address ∷ [] else []) ≡ []
      connect-logs true = refl
      connect-logs false = refl

  -- Over every run of its callbacks, the driver logs the hardware of the first valid status message and
  -- of no other, and nothing if it had logged before.
  pub run-logs :
      (d : Driver S) (events : List (Event S))
      → logs (run d events).1 ≡ (if d.logged then [] else first_part events)
  unfolding run handle_event valid_status
  run-logs d [] = if-nil d.logged
  run-logs d (status false part_num address is_connected ∷ events) = run-logs d events
  run-logs d (status true part_num address is_connected ∷ events) =
      logs-append (valid_status d part_num address is_connected).1
        (run (valid_status d part_num address is_connected).0 events).1
      ∙ ap₂ ◌++◌ (valid_status-logs d part_num address is_connected)
          (run-logs (valid_status d part_num address is_connected).0 events)
      ∙ append-nil (if d.logged then [] else part_num ∷ [])
  run-logs d (connected ∷ events) = run-logs d events
  run-logs d (changed config true ∷ events) = run-logs (record d { config = config }) events
  run-logs d (changed config false ∷ events) = run-logs (record d { config = config }) events

-- From the moment when the connection is made, and as long as every change of the configuration finds
-- the sonar connected, the last configuration that the driver has sent to the sonar is its current one,
-- after every run of callbacks.
pub run-current :
    {S : Type 0} (d : Driver S) (before : S) (events : List (Event S))
    → Linked events
    → last_fire before (run d (connected ∷ events)).1 ≡ (run d (connected ∷ events)).0.config
unfolding run handle_event
run-current d before events l = run-last_fire d events l
