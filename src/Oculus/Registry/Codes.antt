-- ===== src/Oculus/Registry/Codes.antt =====
-- The two tables of colormaps agree, where the constants of OpenCV are distinct.
use sensor_packages.Base.{
  ℕ, ◌≡◌, refl, Bool, true, false, not, ◌||◌, ◌&&◌, List, [], ◌∷◌, some, ◌==◌, arith, Each,
}
use sensor_packages.Base.Text.{String, Every, find_text, find_text-Every}
use sensor_packages.Oculus.Registry.{
  ColormapTypes, ColormapConfig, colormaps, colormap_code_to_name, find_code, get_colormap_config,
  get_colormap_by_code,
}

abbrev is_key : ℕ → List (ℕ × String) → Bool
is_key code [] = false
is_key code ((c, name) ∷ m) = code == c || is_key code m

abbrev distinct_keys : List (ℕ × String) → Bool
distinct_keys [] = true
distinct_keys ((c, name) ∷ m) = not (is_key c m) && distinct_keys m

-- No two of the constants are the same number.
abbrev pub Distinct : ColormapTypes → Type 0
Distinct cv = distinct_keys (colormap_code_to_name cv) ≡ true

abbrev Found : List (ℕ × String) → ℕ × String → Type 0
Found m entry = find_code entry.0 m ≡ some entry.1

same_key : (c : ℕ) → (c == c) ≡ true
same_key c = ground arith

other_key : (b : Bool) (c : Bool) → (b || c) ≡ false → (b ≡ false) × (c ≡ false)
other_key b c e = ground arith

first_other : (b c : Bool) → (not b && c) ≡ true → (b ≡ false) × (c ≡ true)
first_other b c e = ground arith

-- What is found is found behind an entry with another key.
Found-behind :
    (c : ℕ) (name : String) (m l : List (ℕ × String))
    → is_key c l ≡ false
    → Each (Found m) l
    → Each (Found ((c, name) ∷ m)) l
unfolding find_code
Found-behind c name m [] other all = tt
Found-behind c name m ((k, n) ∷ l) other all =
    let keys = other_key (c == k) (is_key c l) other in
    (rw keys.0 all.0, Found-behind c name m l keys.1 all.1)

Found-all : (m : List (ℕ × String)) → distinct_keys m ≡ true → Each (Found m) m
unfolding find_code
Found-all [] e = tt
Found-all ((c, name) ∷ m) e =
    let keys = first_other (is_key c m) (distinct_keys m) e in
    (rw (same_key c) refl, Found-behind c name m m keys.0 (Found-all m keys.1))

abbrev Configured : ColormapTypes → ℕ × String → Type 0
Configured cv entry =
    get_colormap_config cv entry.1 ≡ some (record { name = entry.1; opencv_code = entry.0 })

abbrev RoundTrip : ColormapTypes → ColormapConfig → Type 0
RoundTrip cv c = get_colormap_by_code cv c.opencv_code ≡ some c

round_trips :
    (cv : ColormapTypes) (l : List (ℕ × String))
    → Each (Found (colormap_code_to_name cv)) l
    → Each (Configured cv) l
    → Each (λ entry. RoundTrip cv (record { name = entry.1; opencv_code = entry.0 })) l
unfolding get_colormap_by_code
round_trips cv [] found configured = tt
round_trips cv (entry ∷ l) found configured =
    (rw (found.0, configured.0) refl, round_trips cv l found.1 configured.1)

-- Every name of the second table is one of the first, with its code.
configured : (cv : ColormapTypes) → Each (Configured cv) (colormap_code_to_name cv)
unfolding get_colormap_config find_text
configured cv = (
  refl,
  (
    refl,
    (
      refl,
      (
        refl,
        (
          refl,
          (
            refl,
            (
              refl,
              (
                refl,
                (
                  refl,
                  (
                    refl,
                    (
                      refl,
                      (
                        refl,
                        (refl, (refl, (refl, (refl, (refl, (refl, (refl, (refl, (refl, tt))))))))),
                      ),
                    ),
                  ),
                ),
              ),
            ),
          ),
        ),
      ),
    ),
  ),
)

every : (cv : ColormapTypes) → Distinct cv → Every (RoundTrip cv) (colormaps cv)
every cv distinct =
    round_trips cv (colormap_code_to_name cv) (Found-all (colormap_code_to_name cv) distinct)
      (configured cv)

-- Where the constants that OpenCV gives the colormaps are distinct, the code of every colormap that
-- `getColormapConfig` knows leads `getColormapByCode` back to it.
pub get_colormap_by_code-get_colormap_config :
    (cv : ColormapTypes) (name : String) (c : ColormapConfig)
    → Distinct cv
    → get_colormap_config cv name ≡ some c
    → get_colormap_by_code cv c.opencv_code ≡ some c
unfolding get_colormap_config
get_colormap_by_code-get_colormap_config cv name c distinct e =
    find_text-Every (RoundTrip cv) name (colormaps cv) c (every cv distinct) e
