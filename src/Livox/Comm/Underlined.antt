-- ===== src/Livox/Comm/Underlined.antt =====
-- The loop of `ReplacePeriodByUnderline` ends, and replaces every period at once.
use sensor_packages.Base.{
  ℕ, zero, suc, ◌≤◌, ◌<◌, ◌≡◌, refl, sym, ap, ◌∙◌, true, false, List, [], ◌∷◌, Option, none, some,
  length, set, map, arith, ◌==◌, if◌then◌else◌, Bool-cases, inl, inr,
}
use sensor_packages.Livox.Comm.{period, find_period, replace_loop, replace_period_by_underline}

-- A period becomes an underline, any other character stays.
abbrev pub underline : ℕ → ℕ
underline c = if c == period then b'_' else c

abbrev periods : List ℕ → ℕ
periods [] = 0
periods (c ∷ str) = let rest = periods str in if c == period then suc rest else rest

-- What `find` returns: nowhere if there is no period, else a place with one period less after it is
-- replaced.
abbrev Found : List ℕ → Option ℕ → Type 0
Found str none = map underline str ≡ str
Found str (some pos) =
    (map underline (set str pos b'_') ≡ map underline str)
    × (suc (periods (set str pos b'_')) ≡ periods str)

-- Behind a character that is no period, a place is one further on.
Found-cons :
    (c : ℕ) (str : List ℕ) (r : Option ℕ)
    → (c == period) ≡ false
    → Found str r
    → Found (c ∷ str) (elim r [ none ↦ none | some pos ↦ some (suc pos) ])
Found-cons c str none e f = rw (e, if◌then◌else◌, f) refl
Found-cons c str (some pos) e f = (ap (λ l. underline c ∷ l) f.0, rw (e, if◌then◌else◌) f.1)

Found-here : (c : ℕ) (str : List ℕ) → (c == period) ≡ true → Found (c ∷ str) (some 0)
Found-here c str e = (rw (e, if◌then◌else◌) refl, rw (e, if◌then◌else◌) refl)

find_period-Found : (str : List ℕ) → Found str (find_period str)
unfolding find_period
find_period-Found [] = refl
find_period-Found (c ∷ str) = elim (Bool-cases (c == period)) [
  | inl e ↦ rw e (Found-here c str e)
  | inr e ↦ rw e (Found-cons c str (find_period str) e (find_period-Found str))
]

periods-length : (str : List ℕ) → periods str ≤ length str
periods-length [] = omega arith
periods-length (c ∷ str) = ground (arith, periods-length str)

replace_loop-underline :
    (fuel : ℕ) (str : List ℕ)
    → periods str < fuel
    → replace_loop fuel str ≡ some (map underline str)
unfolding replace_loop
replace_loop-underline zero str h = absurd (omega arith)
replace_loop-underline (suc fuel) str h =
    go (find_period str) refl (find_period-Found str) (replace_loop-underline fuel)
  where
    go :
        (r : Option ℕ)
        → find_period str ≡ r
        → Found str r
        → ((l : List ℕ) → periods l < fuel → replace_loop fuel l ≡ some (map underline l))
        → replace_loop (suc fuel) str ≡ some (map underline str)
    go none e f later = rw (replace_loop, e) (ap some (sym f))
    go (some pos) e f later =
        rw (replace_loop, e) (later (set str pos b'_') (omega (arith, f.1)) ∙ ap some f.0)

-- `ReplacePeriodByUnderline` returns for every text: with each period replaced by an underline, and
-- nothing else changed.
pub replace_period_by_underline-underline :
    (str : List ℕ) → replace_period_by_underline str ≡ some (map underline str)
unfolding replace_period_by_underline
replace_period_by_underline-underline str =
    replace_loop-underline (suc (length str)) str (omega (arith, periods-length str))
