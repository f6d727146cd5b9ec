-- ===== src/Concurrent/Clearing.antt =====
-- An evictor clears its zone from the cache map, among other threads.
use znworkload.Prelude.{
  ℕ, ◌<◌, ◌≡◌, ◌≢◌, refl, Option, some, arith, get_elem?, get_elem?-lt, set, ℕ_discrete, sym, ◌∙◌,
}
use znworkload.Run.{ok, Returns, Returns-ok}
use znworkload.Backend.{Pair}
use znworkload.Zsm.{Zbd}
use znworkload.Cachemap.{Cachemap, cachemap_clear_zone}
use znworkload.Cachemap.View.{State, absent, writing, at, view}
use znworkload.Cachemap.Clear.{outside, ZoneCleared, cachemap_clear_zone-ZoneCleared}
use znworkload.Cachemap.Stays.{cachemap_clear_zone-stays}
use znworkload.Concurrent.{System, Pc, clearing, waiting, enter, evictor_step}
use znworkload.Concurrent.Places.{
  copies, cleared, publishes, resets, reads, full_zone, fetches, number, number-set, number-same,
  number-get,
}
use znworkload.Concurrent.Invariant.{
  Inv, Claims, Clears, Alloc-same, Tokens-same, enter-few, writers_of,
}
use znworkload.Concurrent.Frame.{Data-map}

writers-outside : (z : ℕ) (w : State) → writers_of (outside z w) ≡ writers_of w
writers-outside z absent = refl
writers-outside z writing = refl
writers-outside z (at p) = ground arith

outside-at : (z : ℕ) (w : State) (p : Pair) → outside z w ≡ at p → (w ≡ at p) × (p.zone ≢ z)
outside-at z absent p e = cc
outside-at z writing p e = cc
outside-at z (at q) p e = ground (arith, e)

module _ (s : System) (i : ℕ) (v : Inv s) (r : Option ℕ) (k z : ℕ)
    (here : get_elem? s.threads i ≡ some (clearing r k z)) where
  abbrev t : Pc
  t = waiting r k z

  abbrev old : Pc
  old = clearing r k z

  -- No thread is about to copy a result in the zone, or to make a chunk of it known.
  module _ (uncopied : number copies z s.threads ≡ 0)
      (unpublished : number publishes z s.threads ≡ 0) (m : Cachemap)
      (c : ZoneCleared s.cache_map z m) (ran : cachemap_clear_zone s.cache_map z ≡ ok m) where
    seen_before : (j : ℕ) (p : Pair) → view m j ≡ at p → (view s.cache_map j ≡ at p) × (p.zone ≢ z)
    seen_before j p e = outside-at z (view s.cache_map j) p (sym (c.seen j) ∙ e)

    clear-Claims : Claims m (set s.threads i t)
    clear-Claims = record {
      map_ok = c.inv;
      writers = λ j.
          rw (c.seen j, writers-outside)
            (ground (arith, number-same fetches j s.threads i t here refl, v.claims.writers j));
      readers = λ j.
          ground
            (arith, c.readers, number-same reads j s.threads i t here refl, v.claims.readers j);
    }

    clear-Clears : Clears m (set s.threads i t)
    clear-Clears =
        let a = λ (j : ℕ). number-set cleared j s.threads i t here in
        let b = λ (j : ℕ). number-same publishes j s.threads i t here refl in
        let d = λ (j : ℕ). number-same resets j s.threads i t here refl in
        let f = λ (j : ℕ). number-same reads j s.threads i t here refl in
        record {
          vacant = λ j id p h e. elim (ℕ_discrete z j) [
            | yes same ↦ ground (arith, same, seen_before id p e)
            | no n ↦
                let h' : 0 < number cleared j s.threads = ground (arith, a j, h, n) in
                v.clears.vacant j id p h' (seen_before id p e).0
          ];
          unpublished = λ j h. ground (arith, a j, b j, h, unpublished, v.clears.unpublished j);
          quiet = λ j h. rw (f j) (v.clears.quiet j (rw (d j) at h));
        }

    clear-Inv : Inv (enter (record s { cache_map = m }) i t)
    clear-Inv = record {
      alloc = Alloc-same s.threads i old t here s.zone_state refl v.alloc;
      same_num = ground (arith, c.same_num, v.same_num);
      few = enter-few s.threads i old t here v.few;
      claims = clear-Claims;
      tokens = Tokens-same s.threads i old t here s.eviction_policy s.zone_state refl v.tokens;
      chunks =
          Data-map s.cache_map m s.contents s.zone_state s.threads i old t here
            (λ j p e. v.chunks.stored j p (seen_before j p e).0)
            (λ j u e id a p copying known there.
              cachemap_clear_zone-stays s.cache_map z m c ran id a p
                (λ same. ground (
                  arith,
                  uncopied,
                  number-get copies z s.threads j u e (ground (arith, copying, same)),
                ))
                known there)
            tt (v.chunks.small i old here) v.chunks;
      clears = clear-Clears;
    }

  pub inside : z < s.cache_map.num_zones
  inside =
      let has_it =
        number-get (full_zone s.zone_state.max_zone_chunks) z s.threads i old here (ground arith) in
      let f = v.tokens.full z (omega (arith, has_it)) in
      let lt = get_elem?-lt s.zone_state.zones z f.there in
      omega (arith, lt, v.same_num, v.alloc.sizes.zones_length)

  pub clearing-Inv :
      (zbd : Zbd)
      → number copies z s.threads ≡ 0
      → number publishes z s.threads ≡ 0
      → Returns Inv (evictor_step s i zbd (clearing r k z))
  unfolding evictor_step
  clearing-Inv zbd uncopied unpublished =
      let (m, e, c) =
        Returns-ok (ZoneCleared s.cache_map z) (cachemap_clear_zone s.cache_map z)
          (cachemap_clear_zone-ZoneCleared s.cache_map z v.claims.map_ok inside) in
      rw (e, evictor_step) (clear-Inv uncopied unpublished m c e)
