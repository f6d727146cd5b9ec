-- ===== src/Startup/Tests.antt =====
-- A cache with the chunk policy, on a device of three zones of two chunks.
use znworkload.Prelude.{◌≡◌, ◌≢◌, refl, true, false, some, none, [], arith}
use znworkload.Run.{abort, Returns}
use znworkload.Backend.{zns}
use znworkload.EvictPolicy.{zone, promote_zone, chunk, evict_policy_init}
use znworkload.Zsm.{init}
use znworkload.Cachemap.{cachemap_init}
use znworkload.Startup.{DeviceInfo, Memory, init_cache}
use znworkload.Startup.Parts.{Started, Fits, init_cache-Started}

abbrev device : DeviceInfo
device = record { nr_zones = 3; max_nr_active_zones = 0; zone_size = 16384 }

abbrev memory : Memory
memory = record {
  readers = λ z. 0;
  pool = λ z. record {
    zone_id = 7;
    chunks = [];
    chunks_in_use = 7;
    filled = true;
    pqueue_entry = none;
  };
  chunks = λ z c. record { zone = 9; chunk_offset = 9; id = 9; in_use = true };
}

device-Fits : Fits device 4096 8192
device-Fits = record {
  some_zone = omega arith;
  few_zones = omega arith;
  few_active = omega arith;
  some_bytes = omega arith;
  chunk_fits = omega arith;
  few_chunks = omega arith;
}

no_zone : chunk ≢ zone
no_zone e = cc

no_metrics : none ≢ some false
no_metrics e = cc

init_cache-Started_example :
    Returns (Started 3 100) (init_cache memory device 4096 8192 3 chunk zns 100 none)
init_cache-Started_example =
    init_cache-Started memory device 4096 8192 device-Fits (λ z. refl) 3 chunk zns 100 none no_zone
      no_metrics

no_profiler : init_cache memory device 4096 8192 3 promote_zone zns 100 (some false) ≡ abort
unfolding init_cache cachemap_init evict_policy_init init
no_profiler = refl

too_many_zones :
    init_cache memory
      (record device { nr_zones = 2147483648 })
      4096
      8192
      3
      promote_zone
      zns
      100
      none
    ≡ abort
unfolding init_cache cachemap_init
too_many_zones = refl
