-- ===== src/Get/Miss.antt =====
-- zn_cache_get of an unknown ID whose write succeeds.
use znworkload.Prelude.{
  ℕ, suc, ◌+◌, ◌<◌, ◌≡◌, ◌^◌, refl, some, none, arith, ◌==◌, if◌then◌else◌, List, ◌∷◌, true, u64,
}
use znworkload.Run.{Returns, Returns-bind, Returns-value, ok, crash, ◌>>=◌}
use znworkload.Backend.{Pair}
use znworkload.Zsm.{Zsm, Zbd, get_active_zone, success, return_active_zone}
use znworkload.Zsm.Invariant
use znworkload.Zsm.Held.{without}
use znworkload.Zsm.Get.{get_active_zone-Got}
use znworkload.Zsm.Return.{Returned, return_active_zone-Returned}
use znworkload.Cachemap.{
  Cachemap, Find, hit, wait, write_it, cachemap_find, cachemap_insert, read_result, find_chunk,
}
use znworkload.Cachemap.View
use znworkload.Cachemap.Write.{Finds, cachemap_find-Finds, Inserted, cachemap_insert-Inserted}
use znworkload.Promotional.{promotional_update, write}
use znworkload.Promotional.Lru
use znworkload.Promotional.Refines.{Accessed, Fits, accessed, fills, promotional_update-Accessed}
use znworkload.Disk.{Posix, write_chunk, gen_write_buffer}
use znworkload.Eviction.{Cache}
use znworkload.Get.{Got, Ratio, cache_get, get_hit, get_miss, get_write, get_location}

module _ {World : Type 0} (posix : Posix World) (zbd : Zbd) (id : ℕ) (random_buffer : ℕ → ℕ)
    (c : Cache) (w w' : World) (ratio : Ratio) (held : List Pair) (t : Zsm) (p : Pair) where
  -- The new chunk, which the map has at the location; the location is given back.
  pub record MissLeaves (g : Got posix zbd id random_buffer) : Type 0 where
    pub chunk : g.chunk ≡ some (gen_write_buffer id random_buffer)
    pub written : g.world ≡ w'
    pub zones_ok : Invariant.Inv g.cache.zone_state held
    pub map_ok : View.Inv g.cache.cache_map
    pub seen :
        (j : ℕ)
        → View.view g.cache.cache_map j ≡ (if id == j then View.at p else View.view c.cache_map j)
    pub policy_ok : Lru.Inv g.cache.eviction_policy
    pub used :
        Lru.order g.cache.eviction_policy.lru_queue
        ≡ accessed c.eviction_policy p write (Lru.order c.eviction_policy.lru_queue)
    pub counted : g.ratio ≡ record ratio { misses = u64 (ratio.misses + 1) }

  module _ (v : View.Inv c.cache_map) (unknown : View.view c.cache_map id ≡ View.absent)
      (small : id < 2 ^ 31) (s : Invariant.Inv c.zone_state held) (l : Lru.Inv c.eviction_policy)
      (taken : get_active_zone zbd c.zone_state ≡ ok (t, success p))
      (inside : p.zone < c.cache_map.num_zones)
      (vacant : find_chunk p.chunk_offset (c.cache_map.data_map p.zone) ≡ none)
      (fits : Fits c.eviction_policy p)
      (once : fills c.eviction_policy p ≡ true → c.eviction_policy.zone_to_lru_map p.zone ≡ none)
      (wrote : write_chunk posix t.zone_size t.chunk_size id random_buffer p w ≡ ok (w', 0)) where
    took : Invariant.Inv t (p ∷ held)
    took = (Returns-value _ taken (get_active_zone-Got zbd c.zone_state held s)).0

    inserted :
        (m : Cachemap)
        → Finds c.cache_map id (m, write_it)
        → Returns (Inserted m id p) (cachemap_insert m id p)
    inserted m f =
        let claimed : View.view m id ≡ View.writing = ground (arith, f.2 id) in
        cachemap_insert-Inserted m id p f.1 claimed (ground (arith, inside, f.5)) small
          (rw (f.4) vacant)

    missed :
        (fuel : ℕ) (m : Cachemap)
        → Finds c.cache_map id (m, write_it)
        → Returns MissLeaves
            (get_miss posix zbd id random_buffer (suc fuel) (record c { cache_map = m }) w ratio)
    unfolding get_miss get_location get_write without
    missed fuel m f =
        let (z, _, _, back) = return_active_zone-Returned zbd t (p ∷ held) 0 p took refl in
        rw (taken, wrote)
          (Returns-bind (Returned zbd t (p ∷ held) 0 p z) MissLeaves _ (return_active_zone zbd t p)
            back
            λ (t', r) g.
              Returns-bind (Accessed c.eviction_policy p write) MissLeaves _
                (promotional_update c.eviction_policy p write)
                (promotional_update-Accessed c.eviction_policy p write l fits λ e. once)
                λ q u.
                  Returns-bind (Inserted m id p) MissLeaves _ (cachemap_insert m id p)
                    (inserted m f)
                    λ m' i. record {
                      chunk = refl;
                      written = refl;
                      zones_ok = g.0;
                      map_ok = i.inv;
                      seen = λ j. ground (arith, i.seen j, f.2 j);
                      policy_ok = u.0;
                      used = u.1;
                      counted = refl;
                    })

    -- For a thread that runs alone, if the cache map, the promotional policy and the zone state
    -- manager have their invariants, the map does not know the ID, which is below 2^31, the
    -- manager gives a location of the device that no ID is listed at, the policy fits the location
    -- and does not have a zone that the write fills, and the write succeeds, then zn_cache_get
    -- returns the ID's buffer. All three invariants hold again, with the locations held that were
    -- held before; the map has the ID at the location and says of every other ID what it said, the
    -- policy's order is that after a write, and one miss is counted.
    pub cache_get-Miss :
        (fuel : ℕ) → Returns MissLeaves (cache_get posix zbd id random_buffer (suc fuel) c w ratio)
    unfolding cache_get
    cache_get-Miss fuel =
        Returns-bind (Finds c.cache_map id) MissLeaves _ (cachemap_find c.cache_map id)
          (cachemap_find-Finds c.cache_map id v) λ (m, r) f. ended m r f
      where
        ended :
            (m : Cachemap) (r : Find)
            → Finds c.cache_map id (m, r)
            → Returns MissLeaves (elim r [
              | hit a ↦ do
                q ← read_result m a
                get_hit posix zbd id random_buffer (record c { cache_map = m }) w ratio q
              | wait ↦ crash
              | write_it ↦
                  get_miss posix zbd id random_buffer
                    (suc fuel)
                    (record c { cache_map = m })
                    w
                    ratio
            ])
        ended m (hit a) f = absurd (ground (arith, unknown, f.1))
        ended m wait f = absurd (ground (arith, unknown, f.0))
        ended m write_it f = missed fuel m f
