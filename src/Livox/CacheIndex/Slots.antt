-- ===== src/Livox/CacheIndex/Slots.antt =====
-- The slots of `CacheIndex`: no two lidars share one, and a slot is given out while one is free.
use sensor_packages.Base.{
  ℕ, zero, suc, ◌+◌, ◌<◌, ◌≡◌, ◌≢◌, refl, sym, ap, ◌∙◌, ◌⊎◌, ◌↔◌, inl, inr, Bool, true, false, List,
  [], ◌∷◌, Option, none, some, length, length-set, get_elem?, get_elem?-set_self, set, arith, ◌==◌,
  if◌then◌else◌, Option-cases,
}
use native.Mathlib.Decide.{ℕ_discrete}
use sensor_packages.Livox.Types.{k_max_source_lidar, k_livox_lidar_type}
use sensor_packages.Livox.CacheIndex.{
  CacheIndex, IndexMap, find, erase, generate_index_key, first_free, take_free, get_index,
  get_free_index, reset_index, new_cache,
}

-- Thirty-two slots; a mapped lidar's slot is marked as taken; no slot has two lidars.
pub record Inv (c : CacheIndex) : Type 0 where
  pub slots : length c.index_cache ≡ k_max_source_lidar
  pub marked : (h i : ℕ) → find h c.map_index ≡ some i → get_elem? c.index_cache i ≡ some true
  pub single : (h h' i : ℕ) → find h c.map_index ≡ some i → find h' c.map_index ≡ some i → h ≡ h'

pub find-erase : (h k : ℕ) (m : IndexMap) → find h (erase k m) ≡ (if k == h then none else find h m)
unfolding find erase
find-erase h k [] = ground arith
find-erase h k ((j, i) ∷ m) = ground (arith, find-erase h k m)

find-cons : (h k i : ℕ) (m : IndexMap) → find h ((k, i) ∷ m) ≡ (if k == h then some i else find h m)
unfolding find
find-cons h k i m = refl

-- The loop finds a slot that is not taken, or all are.
abbrev pub AllTaken : List Bool → Type 0
AllTaken [] = Unit {0}
AllTaken (t ∷ ts) = (t ≡ true) × AllTaken ts

pub first_free-some :
    (ts : List Bool) (base i : ℕ)
    → first_free ts base ≡ some i
    → (d : ℕ) × (i ≡ base + d) × (get_elem? ts d ≡ some false)
unfolding first_free
first_free-some [] base i e = cc
first_free-some (false ∷ ts) base i e = (0, ground arith, refl)
first_free-some (true ∷ ts) base i e =
    let later = first_free-some ts (suc base) i e in (suc later.0, omega (arith, later.1), later.2)

first_free-none : (ts : List Bool) (base : ℕ) → first_free ts base ≡ none → AllTaken ts
unfolding first_free
first_free-none [] base e = tt
first_free-none (false ∷ ts) base e = cc
first_free-none (true ∷ ts) base e = (refl, first_free-none ts (suc base) e)

get_elem?-lt : (ts : List Bool) (i : ℕ) {b : Bool} → get_elem? ts i ≡ some b → i < length ts
get_elem?-lt [] i e = cc
get_elem?-lt (t ∷ ts) zero e = omega arith
get_elem?-lt (t ∷ ts) (suc i) e = omega (arith, get_elem?-lt ts i e)

set-get_elem? :
    (ts : List Bool) (i j : ℕ) (b : Bool)
    → i < length ts
    → get_elem? (set ts i b) j ≡ (if i == j then some b else get_elem? ts j)
set-get_elem? [] i j b h = absurd (omega arith)
set-get_elem? (t ∷ ts) zero zero b h = refl
set-get_elem? (t ∷ ts) zero (suc j) b h = ground arith
set-get_elem? (t ∷ ts) (suc i) zero b h = ground arith
set-get_elem? (t ∷ ts) (suc i) (suc j) b h = ground (arith, set-get_elem? ts i j b)

pub new_cache-Inv : Inv new_cache
unfolding find
new_cache-Inv = record { slots = refl; marked = λ h i e. cc; single = λ h h' i e e'. cc }

module _ {c : CacheIndex} (v : Inv c) (key i : ℕ) where
  -- What `GetFreeIndex` stores for a new key and a free slot.
  abbrev with_new : CacheIndex
  with_new = record { map_index = (key, i) ∷ c.map_index; index_cache = set c.index_cache i true }

  with_new-Inv : find key c.map_index ≡ none → get_elem? c.index_cache i ≡ some false → Inv with_new
  unfolding find
  with_new-Inv fresh free = record {
    slots = length-set c.index_cache i true ∙ v.slots;
    marked = λ h j e. ground (
      arith,
      set-get_elem? c.index_cache i j true (get_elem?-lt c.index_cache i free),
      v.marked h j,
    );
    single = λ h h' j e e'. ground (arith, v.single h h' j, v.marked h j, v.marked h' j, free);
  }

  abbrev without : CacheIndex
  without = record { map_index = erase key c.map_index; index_cache = set c.index_cache i false }

  without-Inv : find key c.map_index ≡ some i → Inv without
  without-Inv here = record {
    slots = length-set c.index_cache i false ∙ v.slots;
    marked = λ h j e. ground (
      arith,
      set-get_elem? c.index_cache i j false (get_elem?-lt c.index_cache i (v.marked key i here)),
      find-erase h key c.map_index,
      v.marked h j,
      v.single h key j,
    );
    single = λ h h' j e e'.
        ground
          (arith, find-erase h key c.map_index, find-erase h' key c.map_index, v.single h h' j);
  }

abbrev added : CacheIndex → ℕ → ℕ → CacheIndex
added c key i = record {
  map_index = (key, i) ∷ c.map_index;
  index_cache = set c.index_cache i true;
}

-- The ways that `GetFreeIndex` can end.
data FreeOutcome (c : CacheIndex) (type handle : ℕ) (r : CacheIndex × Option ℕ) : Type 0 where
  wrong_type : type ≢ k_livox_lidar_type → r ≡ (c, none) → FreeOutcome c type handle r
  known :
      (i : ℕ)
      → type ≡ k_livox_lidar_type
      → find handle c.map_index ≡ some i
      → r ≡ (c, some i)
      → FreeOutcome c type handle r
  given :
      (i : ℕ)
      → type ≡ k_livox_lidar_type
      → find handle c.map_index ≡ none
      → get_elem? c.index_cache i ≡ some false
      → r ≡ (added c handle i, some i)
      → FreeOutcome c type handle r
  exhausted :
      type ≡ k_livox_lidar_type
      → find handle c.map_index ≡ none
      → AllTaken c.index_cache
      → r ≡ (c, none)
      → FreeOutcome c type handle r

key_of_livox :
    (type handle : ℕ) → type ≡ k_livox_lidar_type → generate_index_key type handle ≡ some handle
unfolding generate_index_key
key_of_livox type handle e = ground arith

key_of_other : (type handle : ℕ) → type ≢ k_livox_lidar_type → generate_index_key type handle ≡ none
unfolding generate_index_key
key_of_other type handle e = ground arith

take-FreeOutcome :
    (c : CacheIndex) (type handle : ℕ) (o : Option ℕ)
    → first_free c.index_cache 0 ≡ o
    → type ≡ k_livox_lidar_type
    → find handle c.map_index ≡ none
    → FreeOutcome c type handle (take_free c handle o)
unfolding take_free
take-FreeOutcome c type handle none e t f = exhausted t f (first_free-none c.index_cache 0 e) refl
take-FreeOutcome c type handle (some i) e t f =
    let spot = first_free-some c.index_cache 0 i e in
    let same : i ≡ spot.0 = omega (arith, spot.1) in
    given i t f (ap (get_elem? c.index_cache) same ∙ spot.2) refl

get_free_index-FreeOutcome :
    (c : CacheIndex) (type handle : ℕ) → FreeOutcome c type handle (get_free_index c type handle)
unfolding get_free_index take_free
get_free_index-FreeOutcome c type handle = elim (ℕ_discrete type k_livox_lidar_type) [
  | no other ↦ wrong_type other (rw (key_of_other type handle other, get_free_index))
  | yes livox ↦ elim (Option-cases (find handle c.map_index)) [
    | inr (i, old) ↦ known i livox old (rw (key_of_livox type handle livox, old, get_free_index))
    | inl new ↦
        rw (free_new c type handle livox new)
          (take-FreeOutcome c type handle (first_free c.index_cache 0) refl livox new)
  ]
]
  where
    free_new :
        (c : CacheIndex) (type handle : ℕ)
        → type ≡ k_livox_lidar_type
        → find handle c.map_index ≡ none
        → get_free_index c type handle ≡ take_free c handle (first_free c.index_cache 0)
    free_new c type handle livox new = rw (key_of_livox type handle livox, new, get_free_index)

-- `GetFreeIndex` keeps the 32 slots marked and one lidar to a slot, whatever it returns.
pub get_free_index-Inv :
    {c : CacheIndex} (type handle : ℕ) → Inv c → Inv (get_free_index c type handle).0
get_free_index-Inv {c} type handle v = elim (get_free_index-FreeOutcome c type handle) [
  | wrong_type t e ↦ rw e v
  | known i t f e ↦ rw e v
  | given i t f free e ↦ rw e (with_new-Inv v handle i f free)
  | exhausted t f full e ↦ rw e v
]

reset-unknown :
    (c : CacheIndex) (type handle : ℕ)
    → (type ≢ k_livox_lidar_type) ⊎ (find handle c.map_index ≡ none)
    → reset_index c type handle ≡ c
unfolding reset_index generate_index_key
reset-unknown c type handle h = ground arith

reset-known :
    (c : CacheIndex) (type handle i : ℕ)
    → type ≡ k_livox_lidar_type
    → find handle c.map_index ≡ some i
    → reset_index c type handle
      ≡ record { map_index = erase handle c.map_index; index_cache = set c.index_cache i false }
unfolding reset_index generate_index_key
reset-known c type handle i t f = ground arith

-- `ResetIndex` keeps the 32 slots marked and one lidar to a slot, whatever it resets.
pub reset_index-Inv : {c : CacheIndex} (type handle : ℕ) → Inv c → Inv (reset_index c type handle)
reset_index-Inv {c} type handle v = elim (ℕ_discrete type k_livox_lidar_type) [
  | no other ↦ rw (reset-unknown c type handle (inl other)) v
  | yes livox ↦ elim (Option-cases (find handle c.map_index)) [
    | inl new ↦ rw (reset-unknown c type handle (inr new)) v
    | inr (i, old) ↦ rw (reset-known c type handle i livox old) (without-Inv v handle i old)
  ]
]

pub get_index-find :
    (c : CacheIndex) (handle : ℕ) → get_index c k_livox_lidar_type handle ≡ find handle c.map_index
unfolding get_index generate_index_key
get_index-find c handle = refl

-- `handle` has slot `i`, and the other lidars have theirs.
abbrev Placed : CacheIndex → ℕ → ℕ → CacheIndex → Type 0
Placed c handle i c' =
    (find handle c'.map_index ≡ some i)
    × (i < k_max_source_lidar)
    × ((other : ℕ)
        → other ≢ handle
        → (find other c'.map_index ≡ find other c.map_index) × (find other c'.map_index ≢ some i))

FreeOutcome-Placed :
    {c : CacheIndex} (handle i : ℕ) (r : CacheIndex × Option ℕ)
    → Inv c
    → FreeOutcome c k_livox_lidar_type handle r
    → r.1 ≡ some i
    → Placed c handle i r.0
unfolding find
FreeOutcome-Placed handle i r v (wrong_type t e) p = absurd (t refl)
FreeOutcome-Placed {c} handle i r v (known j t f e) p =
    let same : find handle c.map_index ≡ some i = ground arith in
    rw e (
      same,
      omega (arith, get_elem?-lt c.index_cache i (v.marked handle i same), v.slots),
      λ other ne. (refl, λ clash. ne (v.single other handle i clash same)),
    )
FreeOutcome-Placed {c} handle i r v (given j t f free e) p =
    let same : j ≡ i = ground arith in
    rw e (
      ground arith,
      omega (arith, get_elem?-lt c.index_cache j free, v.slots, same),
      λ other ne. (ground arith, λ clash. ground (arith, v.marked other i)),
    )
FreeOutcome-Placed handle i r v (exhausted t f full e) p = ground arith

-- After `GetFreeIndex` has returned a slot for a handle, `GetIndex` returns that slot, which is one of
-- the 32; every other handle keeps the slot that it had, and it is another one.
pub get_index-get_free_index :
    {c : CacheIndex} (handle i : ℕ)
    → Inv c
    → (get_free_index c k_livox_lidar_type handle).1 ≡ some i
    → let c' = (get_free_index c k_livox_lidar_type handle).0 in
      (get_index c' k_livox_lidar_type handle ≡ some i)
      × (i < k_max_source_lidar)
      × ((other : ℕ)
          → other ≢ handle
          → (get_index c' k_livox_lidar_type other ≡ get_index c k_livox_lidar_type other)
            × (get_index c' k_livox_lidar_type other ≢ some i))
unfolding get_index generate_index_key
get_index-get_free_index {c} handle i v e =
    FreeOutcome-Placed handle i (get_free_index c k_livox_lidar_type handle) v
      (get_free_index-FreeOutcome c k_livox_lidar_type handle) e

not-AllTaken : (ts : List Bool) (i : ℕ) → AllTaken ts → get_elem? ts i ≢ some false
not-AllTaken [] i a e = cc
not-AllTaken (t ∷ ts) zero a e = ground arith
not-AllTaken (t ∷ ts) (suc i) a e = not-AllTaken ts i a.1 e

FreeOutcome-none :
    {c : CacheIndex} (handle : ℕ) (r : CacheIndex × Option ℕ)
    → FreeOutcome c k_livox_lidar_type handle r
    → find handle c.map_index ≡ none
    → (r.1 ≡ none) ↔ AllTaken c.index_cache
FreeOutcome-none handle r (wrong_type t e) new = absurd (t refl)
FreeOutcome-none handle r (known j t f e) new = ground arith
FreeOutcome-none {c} handle r (given j t f free e) new =
    (λ p. ground arith, λ full. absurd (not-AllTaken c.index_cache j full free))
FreeOutcome-none handle r (exhausted t f full e) new = (λ p. full, λ a. ap (λ s. s.1) e)

-- For a lidar with no slot yet, `GetFreeIndex` fails exactly when all 32 slots are taken.
pub get_free_index-none :
    (c : CacheIndex) (handle : ℕ)
    → get_index c k_livox_lidar_type handle ≡ none
    → ((get_free_index c k_livox_lidar_type handle).1 ≡ none) ↔ AllTaken c.index_cache
unfolding get_index generate_index_key
get_free_index-none c handle new =
    FreeOutcome-none handle (get_free_index c k_livox_lidar_type handle)
      (get_free_index-FreeOutcome c k_livox_lidar_type handle) new

-- After `ResetIndex` the lidar has no slot, its slot is free again, and no other lidar is affected.
pub get_index-reset_index :
    {c : CacheIndex} (handle i : ℕ)
    → Inv c
    → get_index c k_livox_lidar_type handle ≡ some i
    → let c' = reset_index c k_livox_lidar_type handle in
      (get_index c' k_livox_lidar_type handle ≡ none)
      × (get_elem? c'.index_cache i ≡ some false)
      × ((other : ℕ)
          → other ≢ handle
          → get_index c' k_livox_lidar_type other ≡ get_index c k_livox_lidar_type other)
get_index-reset_index {c} handle i v e =
    let here : find handle c.map_index ≡ some i = sym (get_index-find c handle) ∙ e in
    rw (reset-known c k_livox_lidar_type handle i refl here, get_index-find)
      (
        ground (arith, find-erase handle handle c.map_index),
        get_elem?-set_self c.index_cache i false
            (get_elem?-lt c.index_cache i (v.marked handle i here)),
        λ other ne.
            get_index-find _ other
            ∙ ground (arith, find-erase other handle c.map_index)
            ∙ sym (get_index-find c other),
      )
