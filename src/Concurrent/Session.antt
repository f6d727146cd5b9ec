-- ===== src/Concurrent/Session.antt =====
-- The threads of src/cache.c on a cache that zn_init_cache has made with the promotional policy.
use znworkload.Prelude.{
  ℕ, ap, ◌∙◌, ◌*◌, ◌%◌, ◌/◌, ◌≤◌, ◌<◌, ◌≡◌, ◌^◌, refl, Bool, true, false, Option, some, none, List,
  [], arith, ◌==◌, get_elem?, length, ◌⊎◌, inl, inr,
}
use znworkload.Run.{Run, ok, abort, Returns, Returns-ok}
use znworkload.Backend.{Backend}
use znworkload.Zsm.{Zsm, Zbd, init}
use znworkload.Zsm.Invariant
use znworkload.Zsm.Init.{init-Inv}
use znworkload.Cachemap.{cachemap_init}
use znworkload.Promotional.{Policy}
use znworkload.EvictPolicy.{promotional, promote_zone, evict_policy_init}
use znworkload.Startup.{DeviceInfo, ZnCache, Memory, active_limit, open_profiler, init_cache}
use znworkload.Startup.Parts.{Fits}
use znworkload.Chunks.{Layout, lays_apart}
use znworkload.Concurrent.{System, Pc, Event, run}
use znworkload.Concurrent.Invariant.{Inv}
use znworkload.Concurrent.Give.{Obeys}
use znworkload.Concurrent.Intact.{AllWhole}
use znworkload.Concurrent.Safe.{AllAllowed, undisturbed, Protected, run-Protected}
use znworkload.Concurrent.Progress.{in_call}
use znworkload.Concurrent.Live.{GoesOn, run-GoesOn}
use znworkload.Concurrent.Start.{idles, initial, initial-Inv}

-- `n` threads without a call on a cache with a promotional policy
abbrev pub session : ZnCache → Policy → ℕ → System
session c p n = record {
  layout = record {
    chunk_sz = c.chunk_sz;
    zone_cap = c.zone_cap;
    zone_size = c.zone_size;
    nr_zones = c.nr_zones;
  };
  cache_map = c.cache_map;
  eviction_policy = p;
  zone_state = c.zone_state;
  contents = record { written = λ _ _. none; intact = true };
  threads = idles n;
}

opened-cases :
    (m : Option Bool) → ((b : Bool) × (open_profiler m ≡ ok b)) ⊎ (open_profiler m ≡ abort)
opened-cases none = inl (false, refl)
opened-cases (some true) = inl (true, refl)
opened-cases (some false) = inr refl

module _ (memory : Memory) (info : DeviceInfo) (chunk_sz zone_cap fd workload_max : ℕ)
    (backend : Backend) (metrics_file : Option Bool) (f : Fits info chunk_sz zone_cap)
    (unread : (z : ℕ) → memory.readers z ≡ 0) (c : ZnCache) (p : Policy)
    (made : init_cache memory info chunk_sz zone_cap fd promote_zone backend workload_max
        metrics_file
      ≡ ok c)
    (policy : c.eviction_policy ≡ promotional p) (n : ℕ) (few : n < 2 ^ 31) where
  abbrev max : ℕ
  max = zone_cap / chunk_sz

  abbrev layout : Layout
  layout = record {
    chunk_sz = chunk_sz;
    zone_cap = zone_cap;
    zone_size = info.zone_size;
    nr_zones = info.nr_zones;
  }

  abbrev zsm_made : Run Zsm
  zsm_made = init info.nr_zones fd zone_cap info.zone_size chunk_sz (active_limit info) backend

  positive_size : (chunk_sz == 0) ≡ false
  positive_size = ground (arith, f.some_bytes)

  -- What zsm_init makes, with the sizes that the other parts are given as well.
  zones_made :
      (zs : Zsm) × (zsm_made ≡ ok zs)
      × Invariant.Inv zs []
      × (zs.num_zones ≡ info.nr_zones)
      × (zs.max_zone_chunks ≡ max)
  unfolding init
  zones_made =
      let (zs, e, v) =
        Returns-ok (λ s. Invariant.Inv s [] × (length s.free_queue ≡ info.nr_zones)) zsm_made
          (init-Inv info.nr_zones fd zone_cap info.zone_size chunk_sz (active_limit info) backend
            (omega (arith, f.few_zones)) (ground arith) (ground (arith, f.few_active)) f.some_bytes
            f.chunk_fits f.few_chunks) in
      (zs, e, v.0, ground (arith, e, positive_size), ground (arith, e, positive_size))

  -- The new cache has these parts.
  session-initial :
      (zs : Zsm)
      → zsm_made ≡ ok zs
      → zs.num_zones ≡ info.nr_zones
      → zs.max_zone_chunks ≡ max
      → session c p n ≡ initial layout zs memory.readers n
  unfolding init_cache evict_policy_init cachemap_init
  session-initial zs e num chunks =
      let few_zones = f.few_zones in
      elim (opened-cases metrics_file) [
        | inl (b, opened) ↦
            ground (arith, made, e, num, chunks, positive_size, opened, policy, few_zones)
        | inr failed ↦ absurd (ground (arith, made, e, positive_size, failed, few_zones))
      ]

  session-layout : (session c p n).layout ≡ layout
  session-layout =
      let (zs, e, v, num, chunks) = zones_made in
      ap (λ (s : System). s.layout) (session-initial zs e num chunks)

  pub session-Inv : Inv (session c p n)
  session-Inv =
      let (zs, e, v, num, chunks) = zones_made in
      rw (session-initial zs e num chunks) (initial-Inv layout zs memory.readers n v unread few)

  module _ (es : List Event) (allowed : AllAllowed es)
      (calm : undisturbed (session c p n) es ≡ true) where
    -- If zn_init_cache has made a cache with the promotional policy from sizes that its counters
    -- can hold, with all the counters of readers 0, and fewer than 2^31 threads use it, the chunk
    -- size is a multiple of 4096, a zone has room for its capacity and 64 bits address all zones,
    -- no pwrite that succeeds is short, the IDs that are asked for are below 2^31, the device
    -- finishes and resets every zone that it is asked to, and no zone is cleared from the map
    -- while a thread has looked up a result there and not yet copied it, or has written a chunk
    -- there and not yet inserted it, then a schedule of any length, with any interleaving of the
    -- threads' steps, any results of reads and writes and any refusals to open a zone, returns
    -- without a failed assertion or a crash. After it, a call that has ended gave NULL or the
    -- chunk of the ID that it asked for; no two threads fetch the same ID; no two threads hold
    -- locations in the same zone; and no thread counts as a reader of a zone that an evictor is
    -- about to reset.
    pub session-Protected :
        chunk_sz % 4096 ≡ 0
        → zone_cap ≤ info.zone_size
        → info.nr_zones * info.zone_size < 2 ^ 64
        → AllWhole es
        → Returns Protected (run (session c p n) es)
    session-Protected blocks room addressed whole =
        let same : lays_apart layout ≡ true = ground (arith, blocks, room, addressed) in
        let apart : lays_apart (session c p n).layout ≡ true =
          ap lays_apart session-layout ∙ same in
        run-Protected (session c p n) es allowed calm session-Inv apart whole refl

    -- If zn_init_cache has made a cache with the promotional policy from sizes that its counters
    -- can hold, with all the counters of readers 0, and fewer than 2^31 threads use it, the IDs
    -- that are asked for are below 2^31, the device finishes and resets every zone that it is
    -- asked to, and no zone is cleared from the map while a thread has looked up a result there
    -- and not yet copied it, or has written a chunk there and not yet inserted it, then a schedule
    -- of any length returns, and after one in which some thread has not ended its call, some
    -- thread that has not ended its call takes a step that returns and brings it to another place,
    -- if it goes next, whatever its read or write gives: not all of them wait for a writer of
    -- their ID, for an active zone, or for the readers of a zone.
    pub session-GoesOn :
        (zbd : Zbd)
        → Obeys zbd
        → Returns
            (λ t.
              (i : ℕ) (u : Pc) → get_elem? t.threads i ≡ some u → in_call u ≡ true → GoesOn zbd t)
            (run (session c p n) es)
    session-GoesOn zbd obeys = run-GoesOn (session c p n) es zbd allowed calm obeys session-Inv
