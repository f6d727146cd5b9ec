-- ===== src/Startup/Parts.antt =====
-- zn_init_cache gives parts that are ready for the evictions.
use znworkload.Prelude.{
  ℕ, ◌/◌, ◌<◌, ◌≤◌, ◌≡◌, ◌≢◌, ◌^◌, refl, Bool, true, false, Option, some, none, [], arith, length,
  ◌==◌,
}
use native.Mathlib.Nat.{le-div_iff_mul-le}
use znworkload.Run.{ok, Returns, Returns-bind}
use znworkload.Backend.{Backend}
use znworkload.Zsm.{Zsm, init}
use znworkload.Zsm.Invariant
use znworkload.Zsm.Init.{init-Inv}
use znworkload.Cachemap.{Cachemap, empty_map, cachemap_init}
use znworkload.Cachemap.View
use znworkload.Cachemap.Write.{empty_map-Inv}
use znworkload.Promotional.{promotional_init}
use znworkload.EvictPolicy.{
  EvictPolicy, promotional, by_chunk, PolicyType, zone, promote_zone, chunk, evict_policy_init,
  chunk_init,
}
use znworkload.EvictPolicy.Start.{chunk_init-Inv}
use znworkload.Promotional.Refines.{promotional_init-Inv}
use znworkload.Eviction.Foreground
use znworkload.ChunkEviction.Evicted
use znworkload.Startup.{DeviceInfo, ZnCache, Memory, active_limit, open_profiler, init_cache}

-- The parts are ready for the evictions of the policy.
abbrev pub PartsReady : Cachemap → Zsm → EvictPolicy → Type 0
PartsReady m s (promotional p) =
    Foreground.Ready [] (record { cache_map = m; eviction_policy = p; zone_state = s })
PartsReady m s (by_chunk p) =
    Evicted.Ready [] (record { policy = p; cache_map = m; zone_state = s })

pub record Started (nr_zones workload_max : ℕ) (c : ZnCache) : Type 0 where
  pub ready : PartsReady c.cache_map c.zone_state c.eviction_policy
  pub all_free : length c.zone_state.free_queue ≡ nr_zones
  pub unknown : (id : ℕ) → View.view c.cache_map id ≡ View.absent
  pub unread : (c.reader.workload_index ≡ 0) × (c.reader.workload_max ≡ workload_max)

-- A device and a chunk size that the sizes of the code's counters allow.
pub record Fits (info : DeviceInfo) (chunk_sz zone_cap : ℕ) : Type 0 where
  pub some_zone : 0 < info.nr_zones
  pub few_zones : info.nr_zones < 2 ^ 31
  pub few_active : info.max_nr_active_zones < 2 ^ 31
  pub some_bytes : 0 < chunk_sz
  pub chunk_fits : chunk_sz ≤ zone_cap
  pub few_chunks : zone_cap / chunk_sz < 2 ^ 32

module _ (memory : Memory) (info : DeviceInfo) (chunk_sz zone_cap : ℕ)
    (f : Fits info chunk_sz zone_cap) (zeroed : (z : ℕ) → (memory.pool z).pqueue_entry ≡ none) where
  abbrev max : ℕ
  max = zone_cap / chunk_sz

  chunks_pos : 0 < max
  chunks_pos = let l = f.chunk_fits in (le-div_iff_mul-le f.some_bytes).1 (omega (arith, l))

  abbrev map_start : Cachemap
  map_start = empty_map info.nr_zones memory.readers

  -- A policy that goes with the other parts as they start.
  abbrev FitsStart : EvictPolicy → Type 0
  FitsStart p = (s : Zsm) → Invariant.Inv s [] → PartsReady map_start s p

  map_start-Inv : View.Inv map_start
  map_start-Inv = empty_map-Inv info.nr_zones memory.readers

  evict_policy_init-FitsStart :
      (policy : PolicyType)
      → policy ≢ zone
      → Returns FitsStart (evict_policy_init memory.pool memory.chunks info.nr_zones max policy)
  unfolding evict_policy_init promotional_init chunk_init
  evict_policy_init-FitsStart promote_zone d = λ s v. record {
    zones_ok = v;
    map_ok = map_start-Inv;
    policy_ok = promotional_init-Inv max;
    candidate = λ z o. absurd (omega (arith, o));
    small = omega arith;
  }
  evict_policy_init-FitsStart chunk d = λ s v. record {
    policy_ok =
        chunk_init-Inv memory.pool memory.chunks max info.nr_zones zeroed chunks_pos f.few_chunks
          f.some_zone;
    zones_ok = v;
    map_ok = map_start-Inv;
    known = λ ptr o. absurd (omega (arith, o));
  }
  evict_policy_init-FitsStart zone d = absurd (d refl)

  open_profiler-Returns :
      (metrics_file : Option Bool)
      → metrics_file ≢ some false
      → Returns (λ _. Unit {0}) (open_profiler metrics_file)
  open_profiler-Returns none m = tt
  open_profiler-Returns (some true) m = tt
  open_profiler-Returns (some false) m = absurd (m refl)

  -- If there is a zone and there are fewer than 2^31, a zone has at least one chunk and fewer than
  -- 2^32, the limit of active zones is below 2^31, and a chunk is not empty and fits in a zone, if
  -- the memory of the pool has NULL for the entries of the heap, the policy is one of the two that
  -- are implemented, and the metrics file, if there is one, opens, then zn_init_cache returns a
  -- cache whose parts have their invariants and are ready for the evictions of the policy, with
  -- every zone free, no ID known, and the workload at its start.
  pub init_cache-Started :
      (fd : ℕ) (policy : PolicyType) (backend : Backend) (workload_max : ℕ)
      (metrics_file : Option Bool)
      → policy ≢ zone
      → metrics_file ≢ some false
      → Returns
          (Started info.nr_zones workload_max)
          (init_cache memory info chunk_sz zone_cap fd policy backend workload_max metrics_file)
  unfolding init_cache
  init_cache-Started fd policy backend workload_max metrics_file d m =
      let positive : (chunk_sz == 0) ≡ false = ground (arith, f.some_bytes) in
      let n = info.nr_zones in
      let counted : cachemap_init n memory.readers ≡ ok map_start =
        (unfold cachemap_init in (ground (arith, f.few_zones))) in
      rw (positive, counted)
        (Returns-bind FitsStart (Started n workload_max) _
          (evict_policy_init memory.pool memory.chunks n max policy)
          (evict_policy_init-FitsStart policy d)
          λ p ready.
            Returns-bind (λ s. Invariant.Inv s [] × (length s.free_queue ≡ n))
              (Started n workload_max) _
              (init n fd zone_cap info.zone_size chunk_sz (active_limit info) backend)
              (init-Inv n fd zone_cap info.zone_size chunk_sz (active_limit info) backend
                (omega (arith, f.few_zones)) (ground arith) (ground (arith, f.few_active))
                f.some_bytes f.chunk_fits f.few_chunks)
              λ s v.
                Returns-bind (λ _. Unit {0}) (Started n workload_max) _ (open_profiler metrics_file)
                  (open_profiler-Returns metrics_file m)
                  λ profiling _. record {
                    ready = ready s v.0;
                    all_free = v.1;
                    unknown = λ id. (unfold empty_map in refl);
                    unread = (refl, refl);
                  })
