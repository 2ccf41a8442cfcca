-- ===== src/Base/Text.antt =====
-- Whole texts: the native `String`, its equality as a Boolean, and tables with texts for keys.
pub use Prim.Native.String.{String}
use mathlib.Core.Path.{◌≡◌, subst}
use mathlib.Core.Bool.{Bool, true, false}
use mathlib.Core.Option.{Option, none, some, some-injective}
use mathlib.Core.List.{List, [], ◌∷◌}
use text.Mathlib.Text
use text.Mathlib.TextEquality.{eq_iff}
use text.Mathlib.TextPositions.{eq_refl}
use sensor_packages.Base.{if◌then◌else◌}

abbrev pub eq_text : String → String → Bool
eq_text = Text.◌==◌

pub eq_text_self : (s : String) → eq_text s s ≡ true
eq_text_self s = eq_refl s

pub eq_text→≡ : (s t : String) → eq_text s t ≡ true → s ≡ t
eq_text→≡ s t e = (eq_iff s t).0 e

-- An `unordered_map` with texts for keys, each key once.
unfoldable pub find_text {ℓ} : {A : Type ℓ} → String → List (String × A) → Option A
find_text key [] = none
find_text key ((k, v) ∷ m) = let rest = find_text key m in if eq_text k key then some v else rest

-- A property of every entry.
abbrev pub Every {ℓ} : {A : Type ℓ} → (A → Type 0) → List (String × A) → Type 0
Every P [] = Unit {0}
Every P ((k, v) ∷ m) = P v × Every P m

chosen {ℓ} :
    {A : Type ℓ} (P : A → Type 0) {w v : A} {rest : Option A} (b : Bool)
    → P w
    → (rest ≡ some v → P v)
    → (if b then some w else rest) ≡ some v
    → P v
chosen P {w = w} {v = v} true p later e = subst P (some-injective w v e) p
chosen P false p later e = later e

-- What is found has it.
pub find_text-Every {ℓ} :
    {A : Type ℓ} (P : A → Type 0) (key : String) (m : List (String × A)) (v : A)
    → Every P m
    → find_text key m ≡ some v
    → P v
unfolding find_text
find_text-Every P key [] v all e = cc
find_text-Every P key ((k, w) ∷ m) v all e =
    chosen P (eq_text k key) all.0 (find_text-Every P key m v all.1) e
