-- ===== src/Livox/CacheIndex.antt =====
-- `CacheIndex` of livox_ros2/livox_driver/src/comm/cache_index.h and cache_index.cpp: which of the 32
-- device slots a lidar has. A key is the text `livox_lidar_` and the decimal digits of the handle, so
-- a handle stands for its key. The returned index is `none` where the code returns -1.
pub mod Slots
use sensor_packages.Base.{
  ℕ, suc, ◌+◌, Bool, true, false, List, [], ◌∷◌, Option, none, some, replicate, set, ◌==◌,
  if◌then◌else◌,
}
use sensor_packages.Livox.Types.{k_max_source_lidar, k_livox_lidar_type}

-- `std::map<std::string, uint8_t>` as an association list.
abbrev pub IndexMap : Type 0
IndexMap = List (ℕ × ℕ)

pub record CacheIndex : Type 0 where
  pub map_index : IndexMap
  pub index_cache : List Bool

unfoldable pub find : ℕ → IndexMap → Option ℕ
find key [] = none
find key ((k, i) ∷ m) = if k == key then some i else find key m

unfoldable pub erase : ℕ → IndexMap → IndexMap
erase key [] = []
erase key ((k, i) ∷ m) = let rest = erase key m in if k == key then rest else (k, i) ∷ rest

-- `CacheIndex::CacheIndex`
abbrev pub new_cache : CacheIndex
new_cache = record { map_index = []; index_cache = replicate k_max_source_lidar false }

-- `GenerateIndexKey`
unfoldable pub generate_index_key : ℕ → ℕ → Option ℕ
generate_index_key livox_lidar_type handle =
    if livox_lidar_type == k_livox_lidar_type then some handle else none

-- The loop of `GetFreeIndex`: the first slot from `i` on that is not taken.
unfoldable pub first_free : List Bool → ℕ → Option ℕ
first_free [] i = none
first_free (taken ∷ rest) i = let later = first_free rest (suc i) in if taken then later else some i

-- `GetIndex`
unfoldable pub get_index : CacheIndex → ℕ → ℕ → Option ℕ
unfolding generate_index_key find
get_index c livox_lidar_type handle = elim (generate_index_key livox_lidar_type handle) [
  | none ↦ none
  | some key ↦ find key c.map_index
]

-- The second half of `GetFreeIndex`, where the key is not in the map.
unfoldable pub take_free : CacheIndex → ℕ → Option ℕ → CacheIndex × Option ℕ
take_free c key none = (c, none)
take_free c key (some i) =
    (record { map_index = (key, i) ∷ c.map_index; index_cache = set c.index_cache i true }, some i)

-- `GetFreeIndex`
unfoldable pub get_free_index : CacheIndex → ℕ → ℕ → CacheIndex × Option ℕ
unfolding generate_index_key find first_free take_free
get_free_index c livox_lidar_type handle = elim (generate_index_key livox_lidar_type handle) [
  | none ↦ (c, none)
  | some key ↦ elim (find key c.map_index) [
    | some i ↦ (c, some i)
    | none ↦ take_free c key (first_free c.index_cache 0)
  ]
]

-- `LvxGetIndex`
unfoldable pub lvx_get_index : CacheIndex → ℕ → ℕ → CacheIndex × Option ℕ
unfolding generate_index_key find get_free_index
lvx_get_index c livox_lidar_type handle = elim (generate_index_key livox_lidar_type handle) [
  | none ↦ (c, none)
  | some key ↦ elim (find key c.map_index) [
    | some i ↦ (c, some i)
    | none ↦ get_free_index c livox_lidar_type handle
  ]
]

-- `ResetIndex`, of the lidar's type and handle.
unfoldable pub reset_index : CacheIndex → ℕ → ℕ → CacheIndex
unfolding generate_index_key find erase
reset_index c lidar_type handle = elim (generate_index_key lidar_type handle) [
  | none ↦ c
  | some key ↦ elim (find key c.map_index) [
    | none ↦ c
    | some i ↦ record { map_index = erase key c.map_index; index_cache = set c.index_cache i false }
  ]
]
