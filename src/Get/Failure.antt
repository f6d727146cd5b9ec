-- ===== src/Get/Failure.antt =====
-- zn_cache_get of an unknown ID whose write fails: UNDO_ZONE_GET and UNDO_MAP.
use znworkload.Prelude.{ℕ, suc, ◌≡◌, ◌≢◌, refl, none, arith, ◌==◌, List, ◌∷◌, false}
use znworkload.Run.{Returns, Returns-bind, Returns-value, ok, crash, ◌>>=◌}
use znworkload.Backend.{Pair}
use znworkload.Zsm.{Zsm, Zbd, get_active_zone, success, failed_to_write}
use znworkload.Zsm.Invariant
use znworkload.Zsm.Held.{without}
use znworkload.Zsm.Get.{get_active_zone-Got}
use znworkload.Zsm.Return.{Undone, failed_to_write-Undone}
use znworkload.Cachemap.{
  Cachemap, Find, hit, wait, write_it, cachemap_find, cachemap_fail, read_result,
}
use znworkload.Cachemap.View
use znworkload.Cachemap.Write.{Finds, cachemap_find-Finds, Failed, cachemap_fail-Failed}
use znworkload.Disk.{Posix, write_chunk}
use znworkload.Eviction.{Cache}
use znworkload.Get.{Got, Ratio, cache_get, get_hit, get_miss, get_write, get_location, undo_map}

module _ {World : Type 0} (posix : Posix World) (zbd : Zbd) (id : ℕ) (random_buffer : ℕ → ℕ)
    (c : Cache) (w w' : World) (ratio : Ratio) (held : List Pair) (t : Zsm) (p : Pair)
    (ret : ℕ) where
  -- NULL, the ID is unknown again, and the location is given back.
  pub record FailureLeaves (g : Got posix zbd id random_buffer) : Type 0 where
    pub chunk : g.chunk ≡ none
    pub zones_ok : Invariant.Inv g.cache.zone_state held
    pub map_ok : View.Inv g.cache.cache_map
    pub same_view : (j : ℕ) → View.view g.cache.cache_map j ≡ View.view c.cache_map j
    pub same_policy : g.cache.eviction_policy ≡ c.eviction_policy
    pub same_ratio : g.ratio ≡ ratio

  module _ (v : View.Inv c.cache_map) (unknown : View.view c.cache_map id ≡ View.absent)
      (s : Invariant.Inv c.zone_state held)
      (taken : get_active_zone zbd c.zone_state ≡ ok (t, success p))
      (wrote : write_chunk posix t.zone_size t.chunk_size id random_buffer p w ≡ ok (w', ret))
      (failed : ret ≢ 0) where
    took : Invariant.Inv t (p ∷ held)
    took = (Returns-value _ taken (get_active_zone-Got zbd c.zone_state held s)).0

    undone :
        (m : Cachemap)
        → Finds c.cache_map id (m, write_it)
        → (t' : Zsm) → Invariant.Inv t' held
        → Returns FailureLeaves (
            undo_map posix zbd id random_buffer
              (record c { cache_map = m; zone_state = t' })
              w'
              ratio)
    unfolding undo_map
    undone m f t' inv =
        let claimed : View.view m id ≡ View.writing = ground (arith, f.2 id) in
        Returns-bind (Failed m id) FailureLeaves _ (cachemap_fail m id)
          (cachemap_fail-Failed m id f.1 claimed)
          λ m' g. record {
            chunk = refl;
            zones_ok = inv;
            map_ok = g.inv;
            same_view = λ j. ground (arith, g.seen j, f.2 j, unknown);
            same_policy = refl;
            same_ratio = refl;
          }

    missed :
        (fuel : ℕ) (m : Cachemap)
        → Finds c.cache_map id (m, write_it)
        → Returns FailureLeaves
            (get_miss posix zbd id random_buffer (suc fuel) (record c { cache_map = m }) w ratio)
    unfolding get_miss get_location get_write without
    missed fuel m f =
        let code : (ret == 0) ≡ false = ground (arith, failed) in
        let (z, _, back) = failed_to_write-Undone t (p ∷ held) 0 p took refl in
        rw (taken, wrote, code)
          (Returns-bind (Undone t (p ∷ held) 0 p z) FailureLeaves _ (failed_to_write t p) back
            λ t' g. undone m f t' g.0)

    -- For a thread that runs alone, if the cache map has its invariant and does not know the ID,
    -- the zone state manager has its invariant and gives a location, and the write to it fails,
    -- then zn_cache_get returns NULL. Both invariants hold again, with the locations held that
    -- were held before, and what the map says of every ID, the policy and the counts of hits and
    -- misses are as before.
    pub cache_get-Failure :
        (fuel : ℕ)
        → Returns FailureLeaves (cache_get posix zbd id random_buffer (suc fuel) c w ratio)
    unfolding cache_get
    cache_get-Failure fuel =
        Returns-bind (Finds c.cache_map id) FailureLeaves _ (cachemap_find c.cache_map id)
          (cachemap_find-Finds c.cache_map id v) λ (m, r) f. ended m r f
      where
        ended :
            (m : Cachemap) (r : Find)
            → Finds c.cache_map id (m, r)
            → Returns FailureLeaves (elim r [
              | hit a ↦ do
                q ← read_result m a
                get_hit posix zbd id random_buffer (record c { cache_map = m }) w ratio q
              | wait ↦ crash
              | write_it ↦
                  get_miss posix zbd id random_buffer
                    (suc fuel)
                    (record c { cache_map = m })
                    w
                    ratio
            ])
        ended m (hit a) f = absurd (ground (arith, unknown, f.1))
        ended m wait f = absurd (ground (arith, unknown, f.0))
        ended m write_it f = missed fuel m f
