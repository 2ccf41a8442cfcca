-- ===== src/Livox/Comm.antt =====
-- The text functions of livox_ros2/livox_driver/src/comm/comm.cpp. A text is the list of the codes of
-- its characters; `inet_ntoa` is the C library's, and a parameter of what uses it.
pub mod Underlined
use Prim.Native.Char.{code}
use Prim.Native.String.{String}
use sensor_packages.Base.{
  ℕ, zero, suc, Bool, ◌&&◌, List, Option, none, some, length, set, ltb, ◌==◌, if◌then◌else◌,
}

-- The codes of a literal
abbrev pub codes : String → List ℕ
codes String.[] = List.[]
codes (String.◌∷◌ c s) = List.◌∷◌ (code c) (codes s)

-- `IsFilePathValid`, for a text without the character 0
unfoldable pub is_file_path_valid : List ℕ → Bool
is_file_path_valid path = ltb 4 (length path) && ltb (length path) 256

abbrev pub period : ℕ
period = b'.'

-- `str.find(".")`
unfoldable pub find_period : List ℕ → Option ℕ
find_period List.[] = none
find_period (List.◌∷◌ c str) =
    let rest = find_period str in
    if c == period then some 0 else elim rest [ none ↦ none | some pos ↦ some (suc pos) ]

-- The loop of `ReplacePeriodByUnderline`, which has not ended when its fuel is used up.
unfoldable pub replace_loop : ℕ → List ℕ → Option (List ℕ)
unfolding find_period
replace_loop zero str = none
replace_loop (suc fuel) str = elim (find_period str) [
  | none ↦ some str
  | some pos ↦ replace_loop fuel (set str pos b'_')
]

-- `ReplacePeriodByUnderline`
unfoldable pub replace_period_by_underline : List ℕ → Option (List ℕ)
unfolding replace_loop
replace_period_by_underline str = replace_loop (suc (length str)) str
