-- ===== src/Livox/Config/Users.antt =====
-- The configurations that ParseUserConfigs makes.
use mathlib.Core.Path.{subst}
use mathlib.Core.List.{append-nil, append_assoc}
use sensor_packages.Base.{
  ℕ, ◌-◌, ◌≤◌, ◌<◌, ◌≡◌, refl, sym, ◌∙◌, List, [], ◌∷◌, ◌++◌, none, some, length, Option-cases, inl,
  inr, arith, true, false, ◌==◌, ◌↔◌, if◌then◌else◌,
}
use sensor_packages.Base.Int.{pos, negsuc}
use sensor_packages.Base.Fault.{◌>>=◌, Ensures, Ensures-bind, Ensures-mono}
use sensor_packages.Livox.Types.{UserLivoxLidarConfig}
use sensor_packages.Livox.Config.{Json, parse_configs, parse_user_configs, parse_user_config}

-- Every lidar of the file with an address has members of the right types.
abbrev pub WellTyped : (json : Json) → List json.Value → Type 0
WellTyped json [] = Unit {0}
WellTyped json (config ∷ rest) =
    ((ip : json.Value)
      → json.find_member config "ip" ≡ some ip
      → (c : UserLivoxLidarConfig) × (parse_user_config json config ip ≡ some c))
    × WellTyped json rest

-- One configuration for each item with an address, in the order of the file.
pub data Parsed (json : Json) : List json.Value → List UserLivoxLidarConfig → Type 0 where
  ended : Parsed json [] []
  skipped :
      {config : json.Value} {rest : List json.Value} {cs : List UserLivoxLidarConfig}
      → json.find_member config "ip" ≡ none
      → Parsed json rest cs
      → Parsed json (config ∷ rest) cs
  taken :
      {config ip : json.Value} {rest : List json.Value} {c : UserLivoxLidarConfig}
      {cs : List UserLivoxLidarConfig}
      → json.find_member config "ip" ≡ some ip
      → parse_user_config json config ip ≡ some c
      → Parsed json rest cs
      → Parsed json (config ∷ rest) (c ∷ cs)

-- What the loop appends.
abbrev Added :
    (json : Json) → List json.Value → List UserLivoxLidarConfig → List UserLivoxLidarConfig → Type 0
Added json items old after =
    (cs : List UserLivoxLidarConfig) × (after ≡ old ++ cs) × Parsed json items cs

parse_configs-skipped :
    (json : Json) (config : json.Value) (rest : List json.Value) (old : List UserLivoxLidarConfig)
    → json.find_member config "ip" ≡ none
    → parse_configs json (config ∷ rest) old ≡ parse_configs json rest old
unfolding parse_configs
parse_configs-skipped json config rest old e = rw (e, parse_configs) refl

parse_configs-taken :
    (json : Json) (config ip : json.Value) (rest : List json.Value)
    (old : List UserLivoxLidarConfig) (c : UserLivoxLidarConfig)
    → json.find_member config "ip" ≡ some ip
    → parse_user_config json config ip ≡ some c
    → parse_configs json (config ∷ rest) old ≡ parse_configs json rest (old ++ c ∷ [])
unfolding parse_configs
parse_configs-taken json config ip rest old c e f = rw (e, parse_configs) (rw (f, ◌>>=◌) refl)

parse_configs-Added :
    (json : Json) (items : List json.Value) (old : List UserLivoxLidarConfig)
    → WellTyped json items
    → Ensures (Added json items old) (parse_configs json items old)
unfolding parse_configs
parse_configs-Added json [] old typed = ([], sym (append-nil old), ended)
parse_configs-Added json (config ∷ rest) old typed =
    elim (Option-cases (json.find_member config "ip")) [
      | inl e ↦ rw (parse_configs-skipped json config rest old e) (
          Ensures-mono (Added json rest old) (Added json (config ∷ rest) old) _
            (parse_configs-Added json rest old typed.1)
            λ after (cs, order, p). (cs, order, skipped e p))
      | inr (ip, e) ↦
          let (c, f) = typed.0 ip e in
          rw (parse_configs-taken json config ip rest old c e f) (
            Ensures-mono (Added json rest (old ++ c ∷ [])) (Added json (config ∷ rest) old) _
              (parse_configs-Added json rest (old ++ c ∷ []) typed.1)
              λ after (cs, order, p). (c ∷ cs, order ∙ append_assoc old (c ∷ []) cs, taken e f p))
    ]

-- `ParseUserConfigs` of items whose members have the right types: it makes one configuration for each
-- item that has the member `ip`, in their order, and returns false exactly when there is none.
pub parse_user_configs-Parsed :
    (json : Json) (items : List json.Value)
    → WellTyped json items
    → Ensures
        (λ r. Parsed json items r.1 × ((r.0 ≡ false) ↔ (r.1 ≡ [])))
        (parse_user_configs json items [])
unfolding parse_user_configs
parse_user_configs-Parsed json items typed =
    Ensures-bind (Added json items []) _ (parse_configs json items []) _
      (parse_configs-Added json items [] typed)
      λ after (cs, order, p). (subst (Parsed json items) (sym order) p, answer after)
  where
    answer :
        (cs : List UserLivoxLidarConfig)
        → ((if length cs == 0 then false else true) ≡ false) ↔ (cs ≡ [])
    answer [] = (λ e. refl, λ e. refl)
    answer (c ∷ cs) = (λ e. ground arith, λ e. cc)

-- A blind spot from 128 to 255 in the file becomes a negative number, 255 the one that stands for a
-- setting that is not made.
pub parse_user_config-blind_spot :
    (json : Json) (config ip member : json.Value) (n : ℕ) (c : UserLivoxLidarConfig)
    → json.find_member config "blind_spot_set" ≡ some member
    → json.get_int member ≡ some (pos n)
    → 128 ≤ n
    → n < 256
    → parse_user_config json config ip ≡ some c
    → c.blind_spot_set ≡ negsuc (255 - n)
unfolding parse_user_config
parse_user_config-blind_spot json config ip member n c e f low high done = ground arith
