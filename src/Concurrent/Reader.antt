-- ===== src/Concurrent/Reader.antt =====
-- The steps of the hit branch of zn_cache_get among other threads.
use znworkload.Prelude.{ℕ, ◌+◌, ◌≡◌, ap, refl, some, arith, get_elem?, set, u32, count-le}
use znworkload.Backend.{Pair}
use znworkload.Cachemap.{Cachemap, update, loc}
use znworkload.Cachemap.View
use znworkload.Cachemap.View.{view, at, absent, writing}
use znworkload.Concurrent.{System, Pc, finding, copying, enter}
use znworkload.Concurrent.Places.{
  resets-le, fetches, reads, cleared, publishes, resets, number, names, one, number-set,
  number-same,
}
use znworkload.Concurrent.Invariant.{
  Hands, hands, Inv, Claims, Clears, Relies, Alloc-same, Claims-same, Tokens-same, Clears-same,
  enter-few,
}
use znworkload.Concurrent.Frame.{Data-same, Data-map}

module _ (s : System) (i : ℕ) (v : Inv s) where
  -- A thread moves to a place where it has the same in hand.
  pub moves-Inv :
      (old t : Pc)
      → get_elem? s.threads i ≡ some old
      → hands s.zone_state.max_zone_chunks t ≡ hands s.zone_state.max_zone_chunks old
      → Relies s.cache_map s.contents s.zone_state t
      → Inv (enter s i t)
  moves-Inv old t here e r = record {
    alloc = Alloc-same s.threads i old t here s.zone_state (ap (λ (h : Hands). h.held) e) v.alloc;
    same_num = v.same_num;
    few = enter-few s.threads i old t here v.few;
    claims =
        Claims-same s.threads i old t here s.cache_map (ap (λ (h : Hands). h.fetched) e)
          (ap (λ (h : Hands). h.reader) e) v.claims;
    tokens =
        Tokens-same s.threads i old t here s.eviction_policy s.zone_state
          (ap (λ (h : Hands). h.full) e) v.tokens;
    chunks =
        Data-same s.cache_map s.contents s.zone_state s.threads i old t here r
          (rw ((ap (λ (h : Hands). h.fetched) e)) (v.chunks.small i old here)) v.chunks;
    clears =
        Clears-same s.threads i old t here s.cache_map (ap (λ (h : Hands). h.emptied) e)
          (ap (λ (h : Hands). h.published) e) (ap (λ (h : Hands). h.reset) e)
          (ap (λ (h : Hands). h.reader) e) v.clears;
  }

  -- zn_cachemap_find counts one more reader of the zone of a known location.
  module _ (id a : ℕ) (p : Pair) (here : get_elem? s.threads i ≡ some (finding id))
      (seen : view s.cache_map id ≡ at p) (known : s.cache_map.zone_map id ≡ some a)
      (there : s.cache_map.results a ≡ some (loc p)) where
    abbrev t : Pc
    t = copying id a p

    abbrev counted : Cachemap
    counted = record s.cache_map {
      active_readers =
          update s.cache_map.active_readers p.zone (u32 (s.cache_map.active_readers p.zone + 1));
    }

    more :
        (z : ℕ)
        → number reads z (set s.threads i t) ≡ number reads z s.threads + one z (some p.zone)
    more z = ground (arith, number-set reads z s.threads i t here)

    hit-Claims : View.Inv counted → Claims counted (set s.threads i t)
    hit-Claims inv = record {
      map_ok = inv;
      writers = λ j. rw (number-same fetches j s.threads i t here refl) (v.claims.writers j);
      readers = λ z. ground (
        arith,
        more z,
        v.claims.readers z,
        count-le (λ u. names z (reads u)) (set s.threads i t),
        enter-few s.threads i (finding id) t here v.few,
      );
    }

    hit-Clears : Clears counted (set s.threads i t)
    hit-Clears =
        let a = λ (z : ℕ). number-same cleared z s.threads i t here refl in
        let d = λ (z : ℕ). number-same resets z s.threads i t here refl in
        record {
          vacant = λ z j q h. v.clears.vacant z j q (rw (a z) at h);
          unpublished = λ z h.
              rw (number-same publishes z s.threads i t here refl)
                (v.clears.unpublished z (rw (a z) at h));
          quiet = λ z h. ground (
            arith,
            more z,
            d z,
            v.clears.quiet z,
            resets-le z s.threads,
            v.clears.vacant z id p,
            seen,
          );
        }

    pub hit-Inv : View.Inv counted → Inv (enter (record s { cache_map = counted }) i t)
    hit-Inv inv = record {
      alloc = Alloc-same s.threads i (finding id) t here s.zone_state refl v.alloc;
      same_num = v.same_num;
      few = enter-few s.threads i (finding id) t here v.few;
      claims = hit-Claims inv;
      tokens =
          Tokens-same s.threads i (finding id) t here s.eviction_policy s.zone_state refl v.tokens;
      chunks =
          Data-map s.cache_map counted s.contents s.zone_state s.threads i (finding id) t here
            v.chunks.stored (λ j u e k b q r x y. (x, y)) (known, there, v.chunks.stored id p seen)
            tt v.chunks;
      clears = hit-Clears;
    }
