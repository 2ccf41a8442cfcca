-- ===== src/Livox/Lddc/Topics/Distinct.antt =====
-- Lidars of one type do not share a topic.
use mathlib.Core.Option.{some-injective}
use mathlib.Core.List.{
  append_cancel_left, append_cancel_right, head-eq_of_cons-eq, tail-eq_of_cons-eq,
}
use sensor_packages.Base.{
  ℕ, zero, suc, ◌≤◌, ◌≡◌, ◌≢◌, refl, sym, ap, ◌∙◌, List, [], ◌∷◌, ◌++◌, Option, some, get_elem?,
  length, length-append, length-map, map, take, arith,
}
use sensor_packages.Base.Fault.{◌>>=◌}
use sensor_packages.Livox.Comm.{codes}
use sensor_packages.Livox.Comm.Underlined.{replace_period_by_underline-underline, underline}
use sensor_packages.Livox.Lds.{Lds, LidarDevice}
use sensor_packages.Livox.Lddc.Topics.{sensor_or_default, topic_of_lidar, printed}

-- A text of at most 15 characters without an underline, as `inet_ntoa` gives it.
abbrev pub Plain : List ℕ → Type 0
Plain [] = Unit {0}
Plain (c ∷ s) = (c ≢ b'_') × Plain s

abbrev pub IsAddress : List ℕ → Type 0
IsAddress s = (length s ≤ 15) × Plain s

length-sensor_or_default : (d : ℕ) → length (sensor_or_default d) ≤ 13
unfolding sensor_or_default
length-sensor_or_default d = ground arith

underline_injective : (c d : ℕ) → c ≢ b'_' → d ≢ b'_' → underline c ≡ underline d → c ≡ d
underline_injective c d hc hd e = ground arith

map-underline_injective :
    (s t : List ℕ) → Plain s → Plain t → map underline s ≡ map underline t → s ≡ t
map-underline_injective [] [] p q e = refl
map-underline_injective [] (d ∷ t) p q e = cc
map-underline_injective (c ∷ s) [] p q e = cc
map-underline_injective (c ∷ s) (d ∷ t) p q e = cc (
  underline_injective c d p.0 q.0 (head-eq_of_cons-eq e),
  map-underline_injective s t p.1 q.1 (tail-eq_of_cons-eq e),
)

take-short : {A : Type 0} (n : ℕ) (xs : List A) → length xs ≤ n → take n xs ≡ xs
take-short zero [] h = refl
take-short zero (x ∷ xs) h = absurd (omega arith)
take-short (suc n) [] h = refl
take-short (suc n) (x ∷ xs) h = ap (λ l. x ∷ l) (take-short n xs (omega arith))

-- The topic of a lidar of type `d` up to its address
abbrev front : ℕ → List ℕ
front d = codes "/sensor/lidar/" ++ sensor_or_default d ++ codes "_"

length-front : (d : ℕ) → length (front d) ≤ 28
length-front d =
    omega (arith, length-sensor_or_default d, length-append (sensor_or_default d) (codes "_"))

-- The text of the topic of a lidar of type `d` at the address `ip`
abbrev whole : ℕ → List ℕ → List ℕ
whole d ip = front d ++ map underline ip ++ codes "/points"

-- It is printed whole.
whole-printed : (d : ℕ) (ip : List ℕ) → length ip ≤ 15 → printed (whole d ip) ≡ whole d ip
whole-printed d ip h = take-short 127 (whole d ip) (
    omega (
      arith,
      h,
      length-append (front d ++ map underline ip) (codes "/points"),
      length-append (front d) (map underline ip),
      length-map ip underline,
      length-front d,
    ))

-- The address can be read off the topic.
whole-injective :
    (d : ℕ) (ip ip' : List ℕ) → Plain ip → Plain ip' → whole d ip ≡ whole d ip' → ip ≡ ip'
whole-injective d ip ip' p p' e = map-underline_injective ip ip' p p' (
    append_cancel_left (front d) (map underline ip) (map underline ip') (
      append_cancel_right (front d ++ map underline ip) (front d ++ map underline ip')
        (codes "/points") e))

module _ (inet_ntoa : ℕ → List ℕ) where
  abbrev points_topic : Option Lds → ℕ → Option (List ℕ)
  points_topic =
      topic_of_lidar inet_ntoa (codes "/sensor/lidar/") sensor_or_default (codes "/points")

  points_topic-whole :
      (lds : Lds) (i : ℕ) (a : LidarDevice)
      → get_elem? lds.lidars i ≡ some a
      → IsAddress (inet_ntoa a.handle)
      → points_topic (some lds) i ≡ some (whole a.device_type (inet_ntoa a.handle))
  unfolding topic_of_lidar
  points_topic-whole lds i a e address =
      rw (e, ◌>>=◌, replace_period_by_underline-underline (inet_ntoa a.handle))
        (ap some (whole-printed a.device_type (inet_ntoa a.handle) address.0))

-- Two lidars of one type do not share a topic, where each lidar has its own: for two devices of the
-- same type whose addresses `inet_ntoa` prints differently, as texts of at most 15 characters without
-- underlines, the topics of the points differ.
pub topic_of_lidar-distinct :
    (inet_ntoa : ℕ → List ℕ) (lds : Lds) (i j : ℕ) (a b : LidarDevice)
    → IsAddress (inet_ntoa a.handle)
    → IsAddress (inet_ntoa b.handle)
    → inet_ntoa a.handle ≢ inet_ntoa b.handle
    → get_elem? lds.lidars i ≡ some a
    → get_elem? lds.lidars j ≡ some b
    → a.device_type ≡ b.device_type
    → topic_of_lidar inet_ntoa
        (codes "/sensor/lidar/")
        sensor_or_default
        (codes "/points")
        (some lds)
        i
      ≢ topic_of_lidar inet_ntoa
          (codes "/sensor/lidar/")
          sensor_or_default
          (codes "/points")
          (some lds)
          j
topic_of_lidar-distinct inet_ntoa lds i j a b pa pb ne ea eb same shared = ne (
    whole-injective a.device_type (inet_ntoa a.handle) (inet_ntoa b.handle) pa.1 pb.1 (
      some-injective _ _ (
        sym (points_topic-whole inet_ntoa lds i a ea pa)
        ∙ shared
        ∙ points_topic-whole inet_ntoa lds j b eb pb
        ∙ ap (λ d. some (whole d (inet_ntoa b.handle))) (sym same))))
