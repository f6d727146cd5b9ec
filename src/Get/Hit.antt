-- ===== src/Get/Hit.antt =====
-- zn_cache_get of an ID that the cache map has.
use znworkload.Prelude.{ℕ, ◌+◌, ◌<◌, ◌≡◌, ◌^◌, refl, ap, arith, u32, u64}
use znworkload.Run.{Returns, Returns-bind, ok, crash, ◌>>=◌}
use znworkload.Backend.{Pair}
use znworkload.Zsm.{Zbd}
use znworkload.Cachemap.{Cachemap, Find, hit, wait, write_it, cachemap_find, read_result, update}
use znworkload.Cachemap.View
use znworkload.Cachemap.Tables.{Entries-keep}
use znworkload.Cachemap.Write.{Finds, cachemap_find-Finds}
use znworkload.Promotional.{promotional_update, read}
use znworkload.Promotional.Lru
use znworkload.Promotional.Refines.{Accessed, Fits, accessed, promotional_update-Accessed}
use znworkload.Disk.{Posix, read_from_disk}
use znworkload.Eviction.{Cache}
use znworkload.Get.{Got, Ratio, cache_get, get_hit, get_miss, reader_done}

module _ {World : Type 0} (posix : Posix World) (zbd : Zbd) (id : ℕ) (random_buffer : ℕ → ℕ)
    (c : Cache) (w : World) (ratio : Ratio) (p : Pair) where
  -- What a hit leaves: only the policy's order, the number of hits.
  pub record HitLeaves (g : Got posix zbd id random_buffer) : Type 0 where
    pub chunk : g.chunk ≡ read_from_disk posix c.zone_state.zone_size c.zone_state.chunk_size p w
    pub same_zones : g.cache.zone_state ≡ c.zone_state
    pub map_ok : View.Inv g.cache.cache_map
    pub same_view : (j : ℕ) → View.view g.cache.cache_map j ≡ View.view c.cache_map j
    pub same_readers : (z : ℕ) → g.cache.cache_map.active_readers z ≡ c.cache_map.active_readers z
    pub policy_ok : Lru.Inv g.cache.eviction_policy
    pub used :
        Lru.order g.cache.eviction_policy.lru_queue
        ≡ accessed c.eviction_policy p read (Lru.order c.eviction_policy.lru_queue)
    pub counted : g.ratio ≡ record ratio { hits = u64 (ratio.hits + 1) }

  module _ (v : View.Inv c.cache_map) (seen : View.view c.cache_map id ≡ View.at p)
      (few : c.cache_map.active_readers p.zone < 2 ^ 32) (l : Lru.Inv c.eviction_policy)
      (fits : Fits c.eviction_policy p) where
    read_found :
        (m : Cachemap) (a : ℕ)
        → Finds c.cache_map id (m, hit a)
        → (read_result m a ≡ ok p)
          × (m ≡ record c.cache_map {
            active_readers =
                update c.cache_map.active_readers p.zone
                  (u32 (c.cache_map.active_readers p.zone + 1));
          })
    unfolding read_result
    read_found m a (q, seen', known, there, inv, e) =
        let same : q ≡ p = ground (arith, seen, seen') in
        let e' = rw same at e in
        let r : m.results a ≡ c.cache_map.results a = ap (λ x. x.results a) e in
        (ground (arith, r, there, same), e')

    get_hit-Leaves :
        (m : Cachemap)
        → View.Inv m
        → m ≡ record c.cache_map {
          active_readers =
              update c.cache_map.active_readers p.zone
                (u32 (c.cache_map.active_readers p.zone + 1));
        }
        → Returns HitLeaves
            (get_hit posix zbd id random_buffer (record c { cache_map = m }) w ratio p)
    unfolding get_hit
    get_hit-Leaves m ok_map e =
        Returns-bind (Accessed c.eviction_policy p read) HitLeaves _
          (promotional_update c.eviction_policy p read)
          (promotional_update-Accessed c.eviction_policy p read l fits
            λ same full. absurd (ground (arith, same)))
          λ q g. record {
            chunk = refl;
            same_zones = refl;
            map_ok = record {
              live = ok_map.live;
              own = ok_map.own;
              listed = ok_map.listed;
              entries = λ z.
                  Entries-keep m (reader_done m p.zone) z (m.data_map z) (λ j q z s. s)
                    (ok_map.entries z);
              distinct = ok_map.distinct;
            };
            same_view = λ j.
                let zm : m.zone_map ≡ c.cache_map.zone_map = ap (λ x. x.zone_map) e in
                let rs : m.results ≡ c.cache_map.results = ap (λ x. x.results) e in
                rw (zm, rs) refl;
            same_readers = λ z.
                let at_p = ap (λ x. x.active_readers p.zone) e in
                let at_z = ap (λ x. x.active_readers z) e in ground (arith, at_p, at_z, few);
            policy_ok = g.0;
            used = g.1;
            counted = refl;
          }

    -- For a thread that runs alone, if the cache map has its invariant and the ID at a location,
    -- the zone's readers fit in 32 bits, and the promotional policy has its invariant and fits the
    -- location, then zn_cache_get returns what the read of the location gives. It counts one hit
    -- and moves the zone in the policy's order as a read does; the zones, what the map says of
    -- every ID, and the numbers of readers are as before, and the map and the policy keep their
    -- invariants.
    pub cache_get-Hit :
        (fuel : ℕ) → Returns HitLeaves (cache_get posix zbd id random_buffer fuel c w ratio)
    unfolding cache_get
    cache_get-Hit fuel =
        Returns-bind (Finds c.cache_map id) HitLeaves _ (cachemap_find c.cache_map id)
          (cachemap_find-Finds c.cache_map id v) λ (m, r) f. ended m r f
      where
        ended :
            (m : Cachemap) (r : Find)
            → Finds c.cache_map id (m, r)
            → Returns HitLeaves (elim r [
              | hit a ↦ do
                q ← read_result m a
                get_hit posix zbd id random_buffer (record c { cache_map = m }) w ratio q
              | wait ↦ crash
              | write_it ↦
                  get_miss posix zbd id random_buffer fuel (record c { cache_map = m }) w ratio
            ])
        ended m (hit a) f = let (r, e) = read_found m a f in rw r (get_hit-Leaves m f.4 e)
        ended m wait f = absurd (ground (arith, seen, f.0))
        ended m write_it f = absurd (ground (arith, seen, f.0))
