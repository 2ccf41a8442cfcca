-- ===== src/Livox/LdsLidar/Devices.antt =====
-- The devices of the configured lidars after InitLivoxLidar.
use mathlib.Core.Path.{subst}
use sensor_packages.Base.{
  ℕ, zero, suc, ◌<◌, ◌≡◌, ◌≢◌, refl, sym, ◌∙◌, ap, List, [], ◌∷◌, some, length, length-set,
  get_elem?, set, get_elem?-set_self, get_elem?-set_ne, arith,
}
use sensor_packages.Base.Fault.{◌>>=◌, Ensures, Ensures-mono}
use sensor_packages.Livox.Types.{UserLivoxLidarConfig, k_livox_lidar_type, k_max_source_lidar}
use sensor_packages.Livox.CacheIndex.{CacheIndex, get_index, get_free_index}
use sensor_packages.Livox.CacheIndex.Slots.{Inv, get_free_index-Inv, get_index-get_free_index}
use sensor_packages.Livox.Lds.{Lds, LidarDevice}
use sensor_packages.Livox.PubHandler.{PubHandler}
use sensor_packages.Livox.LdsLidar.{add_device, with_config}

-- The index cache is well formed, and there is a device for each of its slots.
pub record Source (lds : Lds) : Type 0 where
  pub cache : Inv lds.cache_index
  pub devices : length lds.lidars ≡ k_max_source_lidar

-- The lidar of the configuration has a device with it, and the other lidars keep theirs.
pub record Registered (lds : Lds) (config : UserLivoxLidarConfig) (lds' : Lds) : Type 0 where
  pub source : Source lds'
  pub index : ℕ
  pub device : LidarDevice
  pub found : get_index lds'.cache_index k_livox_lidar_type config.handle ≡ some index
  pub stored : get_elem? lds'.lidars index ≡ some device
  pub configured : device.livox_config ≡ config
  pub named : device.handle ≡ config.handle
  pub others :
      (other i : ℕ)
      → other ≢ config.handle
      → get_index lds.cache_index k_livox_lidar_type other ≡ some i
      → (get_index lds'.cache_index k_livox_lidar_type other ≡ some i)
        × (get_elem? lds'.lidars i ≡ get_elem? lds.lidars i)

in_range :
    (xs : List LidarDevice) (i : ℕ) → i < length xs → (d : LidarDevice) × (get_elem? xs i ≡ some d)
in_range [] i h = absurd (omega arith)
in_range (x ∷ xs) zero h = (x, refl)
in_range (x ∷ xs) (suc i) h = in_range xs i (omega arith)

add_device-stored :
    (lds : Lds) (handler : PubHandler) (config : UserLivoxLidarConfig) (i : ℕ) (lidar : LidarDevice)
    → (get_free_index lds.cache_index k_livox_lidar_type config.handle).1 ≡ some i
    → get_elem? lds.lidars i ≡ some lidar
    → Ensures
        (λ r. r.0 ≡ record lds {
          cache_index = (get_free_index lds.cache_index k_livox_lidar_type config.handle).0;
          lidars = set lds.lidars i (with_config lidar config);
        })
        (add_device lds handler config)
unfolding add_device
add_device-stored lds handler config i lidar e f = rw (e, add_device) (rw (f, ◌>>=◌) refl)

module _ (lds : Lds) (config : UserLivoxLidarConfig) (i : ℕ) (lidar : LidarDevice) where
  abbrev cache' : CacheIndex
  cache' = (get_free_index lds.cache_index k_livox_lidar_type config.handle).0

  abbrev added : Lds
  added = record lds { cache_index = cache'; lidars = set lds.lidars i (with_config lidar config) }

  added-Registered :
      Source lds
      → (get_free_index lds.cache_index k_livox_lidar_type config.handle).1 ≡ some i
      → Registered lds config added
  added-Registered source e =
      let (here, below, rest) = get_index-get_free_index config.handle i source.cache e in
      record {
        source = record {
          cache = get_free_index-Inv k_livox_lidar_type config.handle source.cache;
          devices = length-set lds.lidars i (with_config lidar config) ∙ source.devices;
        };
        index = i;
        device = with_config lidar config;
        found = here;
        stored =
            get_elem?-set_self lds.lidars i (with_config lidar config)
              (omega (arith, below, source.devices));
        configured = refl;
        named = refl;
        others = λ other j ne old.
            let (same, apart) = rest other ne in
            (
              same ∙ old,
              get_elem?-set_ne lds.lidars (with_config lidar config)
                  λ clash. apart (same ∙ old ∙ ap some (sym clash)),
            );
      }

-- The round of `InitLivoxLidar` for a configuration, when its lidar has a slot or one is free: the
-- lidar has a device with that configuration and handle, every other lidar keeps its slot and its
-- device as it was, and the cache and the devices stay well formed.
pub add_device-Registered :
    (lds : Lds) (handler : PubHandler) (config : UserLivoxLidarConfig) (i : ℕ)
    → Source lds
    → (get_free_index lds.cache_index k_livox_lidar_type config.handle).1 ≡ some i
    → Ensures (λ r. Registered lds config r.0) (add_device lds handler config)
add_device-Registered lds handler config i source e =
    let (here, below, rest) = get_index-get_free_index config.handle i source.cache e in
    let (lidar, f) = in_range lds.lidars i (omega (arith, below, source.devices)) in
    Ensures-mono _ (λ r. Registered lds config r.0) (add_device lds handler config)
      (add_device-stored lds handler config i lidar e f)
      λ r same.
        subst (Registered lds config) (sym same) (added-Registered lds config i lidar source e)
