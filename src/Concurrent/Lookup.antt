-- ===== src/Concurrent/Lookup.antt =====
-- zn_cachemap_find among other threads: a hit, a wait, or a new writer.
use znworkload.Prelude.{ℕ, ◌≡◌, refl, some, arith, get_elem?, set, if◌then◌else◌, ◌==◌, ℕ_discrete}
use znworkload.Run.{ok, Returns, Returns-ok}
use znworkload.Backend.{Pair}
use znworkload.Cachemap.{Cachemap, Find, hit, wait, write_it, cachemap_find}
use znworkload.Cachemap.View
use znworkload.Cachemap.View.{State, absent, writing, at, view}
use znworkload.Cachemap.Write.{Finds, cachemap_find-Finds}
use znworkload.Cachemap.Stays.{Stays, cachemap_find-Stays}
use znworkload.Chunks.{Io}
use znworkload.Concurrent.{System, Pc, finding, locating, enter, after_find, reader_step}
use znworkload.Concurrent.Places.{fetches, reads, number, number-set, number-same}
use znworkload.Concurrent.Invariant.{
  Inv, Clears, Alloc-same, Tokens-same, Clears-same, enter-few, writers_of,
}
use znworkload.Concurrent.Frame.{Data-map}
use znworkload.Concurrent.Reader.{moves-Inv, hit-Inv}

-- An ID that the map did not know is now being written, by this thread alone.
module _ (s : System) (i id : ℕ) (v : Inv s) (here : get_elem? s.threads i ≡ some (finding id))
    (m : Cachemap) (unknown : view s.cache_map id ≡ absent)
    (seen : (j : ℕ) → view m j ≡ (if id == j then writing else view s.cache_map j)) where
  abbrev t : Pc
  t = locating id

  seen_before : (j : ℕ) (p : Pair) → view m j ≡ at p → view s.cache_map j ≡ at p
  seen_before j p e = ground (arith, seen j, e)

  claim-writers : (j : ℕ) → number fetches j (set s.threads i t) ≡ writers_of (view m j)
  claim-writers j =
      let n = number-set fetches j s.threads i t here in
      elim (ℕ_discrete id j) [
        | yes same ↦ ground (arith, n, v.claims.writers j, seen j, same, unknown)
        | no d ↦
            let e : view m j ≡ view s.cache_map j = ground (arith, d, seen j) in
            rw e (ground (arith, n, v.claims.writers j, d))
      ]

  claim-Clears : Clears m (set s.threads i t)
  claim-Clears =
      let c =
        Clears-same s.threads i (finding id) t here s.cache_map refl refl refl refl v.clears in
      record {
        vacant = λ z j p h e. c.vacant z j p h (seen_before j p e);
        unpublished = c.unpublished;
        quiet = c.quiet;
      }

  pub claim-Inv :
      View.Inv m
      → m.active_readers ≡ s.cache_map.active_readers
      → Stays s.cache_map m
      → Inv (enter (record s { cache_map = m }) i t)
  claim-Inv inv readers stays = record {
    alloc = Alloc-same s.threads i (finding id) t here s.zone_state refl v.alloc;
    same_num = ground (arith, stays.zones, v.same_num);
    few = enter-few s.threads i (finding id) t here v.few;
    claims = record {
      map_ok = inv;
      writers = claim-writers;
      readers = λ z.
          ground (arith, readers, number-same reads z s.threads i t here refl, v.claims.readers z);
    };
    tokens =
        Tokens-same s.threads i (finding id) t here s.eviction_policy s.zone_state refl v.tokens;
    chunks =
        Data-map s.cache_map m s.contents s.zone_state s.threads i (finding id) t here
          (λ j p e. v.chunks.stored j p (seen_before j p e))
          (λ j u e k b q r x y. stays.entry k b q x y) tt (v.chunks.relies i (finding id) here)
          v.chunks;
    clears = claim-Clears;
  }

module _ (s : System) (i id : ℕ) (v : Inv s)
    (here : get_elem? s.threads i ≡ some (finding id)) where
  -- Each of the three ways out of zn_cachemap_find
  after_find-Inv :
      (m : Cachemap) (r : Find)
      → cachemap_find s.cache_map id ≡ ok (m, r)
      → Finds s.cache_map id (m, r)
      → Inv (enter (record s { cache_map = m }) i (after_find s.cache_map id r))
  after_find-Inv m (hit a) e (p, seen, known, there, inv, same) =
      let h = hit-Inv s i v id a p here seen known there (rw same at inv) in rw (there, same) h
  after_find-Inv m wait e (seen, same) =
      rw same
        (moves-Inv s i v (finding id) (finding id) here refl (v.chunks.relies i (finding id) here))
  after_find-Inv m write_it e (unknown, inv, seen, readers, tables, zones) =
      claim-Inv s i id v here m unknown seen inv readers
        (cachemap_find-Stays s.cache_map id m write_it v.claims.map_ok e)

  pub finding-Inv : (io : Io) → Returns Inv (reader_step s i io (finding id))
  unfolding reader_step
  finding-Inv io =
      let ((m, r), e, f) =
        Returns-ok (Finds s.cache_map id) (cachemap_find s.cache_map id)
          (cachemap_find-Finds s.cache_map id v.claims.map_ok) in
      rw (e, reader_step) (after_find-Inv m r e f)
