-- ===== src/Startup.antt =====
-- zn_init_cache of src/cache.c: it starts the parts of the cache. What `malloc` leaves in the
-- readers' counters and in the pool of the chunk policy is an argument, and so is whether
-- zn_profiler_init opens the metrics file.
pub mod Parts
mod Tests
use znworkload.Prelude.{ℕ, ◌/◌, Bool, true, false, Option, some, none, ◌==◌, if◌then◌else◌, u32}
use znworkload.Run.{Run, ok, crash, ◌>>=◌, ◌>>◌, assert}
use znworkload.Backend.{Backend, Pair}
use znworkload.Zsm.{Zsm, init}
use znworkload.Cachemap.{Cachemap, cachemap_init}
use znworkload.ChunkPolicy.{PoolZone}
use znworkload.EvictPolicy.{EvictPolicy, PolicyType, evict_policy_init}
use znworkload.Get.{Ratio}
use znworkload.Workload.{Reader}

-- What the code reads of struct zbd_info
pub record DeviceInfo : Type 0 where
  pub nr_zones : ℕ
  pub max_nr_active_zones : ℕ
  pub zone_size : ℕ

-- struct zn_cache; `active_readers` lies in the cache map, and the workload itself is left out
pub record ZnCache : Type 0 where
  pub backend : Backend
  pub fd : ℕ
  pub max_nr_active_zones : ℕ
  pub nr_zones : ℕ
  pub max_zone_chunks : ℕ
  pub chunk_sz : ℕ
  pub zone_cap : ℕ
  pub zone_size : ℕ
  pub cache_map : Cachemap
  pub eviction_policy : EvictPolicy
  pub zone_state : Zsm
  pub reader : Reader
  pub ratio : Ratio
  pub profiling : Bool

-- What lies in the memory that is allocated.
pub record Memory : Type 0 where
  pub readers : ℕ → ℕ
  pub pool : ℕ → PoolZone
  pub chunks : ℕ → ℕ → Pair

-- The end of zn_init_cache: whether there is a profiler.
abbrev pub open_profiler : Option Bool → Run Bool
open_profiler none = ok false
open_profiler (some opened) = assert opened >> ok true

-- `info->max_nr_active_zones == 0 ? MAX_OPEN_ZONES : info->max_nr_active_zones`
abbrev pub active_limit : DeviceInfo → ℕ
active_limit info = if info.max_nr_active_zones == 0 then 14 else info.max_nr_active_zones

-- zn_init_cache
unfoldable pub init_cache :
    Memory → DeviceInfo → ℕ → ℕ → ℕ → PolicyType → Backend → ℕ → Option Bool → Run ZnCache
init_cache memory info chunk_sz zone_cap fd policy backend workload_max metrics_file =
    if chunk_sz == 0 then crash else (do
      let max_zone_chunks = zone_cap / chunk_sz
      cache_map ← cachemap_init info.nr_zones memory.readers
      eviction_policy ←
          evict_policy_init memory.pool memory.chunks info.nr_zones max_zone_chunks policy
      zone_state ←
          init info.nr_zones fd zone_cap info.zone_size chunk_sz (active_limit info) backend
      profiling ← open_profiler metrics_file
      ok (record {
        backend = backend;
        fd = fd;
        max_nr_active_zones = active_limit info;
        nr_zones = info.nr_zones;
        max_zone_chunks = max_zone_chunks;
        chunk_sz = chunk_sz;
        zone_cap = zone_cap;
        zone_size = info.zone_size;
        cache_map = cache_map;
        eviction_policy = eviction_policy;
        zone_state = zone_state;
        reader = record { workload_index = 0; workload_max = workload_max; thresh_perc = 10 };
        ratio = record { hits = 0; misses = 0 };
        profiling = profiling;
      }))
