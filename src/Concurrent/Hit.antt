-- ===== src/Concurrent/Hit.antt =====
-- The steps of the hit branch of zn_cache_get after the lookup, among other threads.
use znworkload.Prelude.{
  ℕ, ◌+◌, ◌<◌, ◌≡◌, refl, Bool, true, false, some, none, List, arith, get_elem?, set, if◌then◌else◌,
  ◌==◌, occ, occ-append, [], ◌∷◌, dec_lt, count-le,
}
use znworkload.Run.{Returns, Returns-ok}
use znworkload.Backend.{Pair}
use znworkload.Zsm.{Zsm}
use znworkload.Cachemap.{Cachemap, read_result}
use znworkload.Cachemap.Tables.{Entries-keep}
use znworkload.Promotional.{Policy, promotional_update, read}
use znworkload.Promotional.Lru
use znworkload.Promotional.Lru.{has, order, erase, occ-erase}
use znworkload.Promotional.Refines.{Accessed, Fits, promotional_update-Accessed}
use znworkload.Get.{reader_done}
use znworkload.Chunks.{Io, content_at}
use znworkload.Concurrent.{
  System, Chunk, Pc, copying, reading, promoting, leaving, done, enter, reader_step,
}
use znworkload.Concurrent.Places.{
  fetches, reads, cleared, publishes, resets, number, number-set, number-same, names,
}
use znworkload.Concurrent.Invariant.{
  Inv, Claims, Clears, Tokens, Stored, Own, OwnIf, Alloc-same, Tokens-same, enter-few,
}
use znworkload.Concurrent.Frame.{Data-map}
use znworkload.Concurrent.Reader.{moves-Inv}

-- A change of the policy that keeps the zones that it has.
pub Tokens-policy :
    (q q' : Policy) (zs : Zsm) (ts : List Pc)
    → Lru.Inv q'
    → q'.zone_max_chunks ≡ q.zone_max_chunks
    → ((z : ℕ) → has (q'.zone_to_lru_map z) ≡ has (q.zone_to_lru_map z))
    → Tokens q zs ts
    → Tokens q' zs ts
Tokens-policy q q' zs ts inv max same c = record {
  policy_ok = inv;
  same_max = ground (arith, max, c.same_max);
  single = λ z. omega (arith, same z, c.single z);
  full = λ z h. c.full z (omega (arith, same z, h));
}

-- A read moves its zone within the queue.
read-has :
    (q q' : Policy) (p : Pair) (z : ℕ)
    → Lru.Inv q
    → Accessed q p read q'
    → has (q'.zone_to_lru_map z) ≡ has (q.zone_to_lru_map z)
read-has q q' p z v (inv, moved, max) = elim (dec_lt 0 (occ p.zone (order q.lru_queue))) [
  | yes there ↦ ground (
    arith,
    there,
    moved,
    inv.zones z,
    v.zones z,
    occ-append z (erase p.zone (order q.lru_queue)) (p.zone ∷ []),
    occ-erase p.zone z (order q.lru_queue) there,
  )
  | no absent ↦ ground (arith, absent, moved, inv.zones z, v.zones z)
]

-- A location of the device fits the policy's numbers.
pub fits :
    (s : System) (v : Inv s) (p : Pair)
    → p.chunk_offset < s.zone_state.max_zone_chunks
    → Fits s.eviction_policy p
fits s v p h =
    let z = v.alloc.sizes in
    record {
      chunks_pos = ground (arith, v.tokens.same_max, z.chunks_pos);
      chunks_small = ground (arith, v.tokens.same_max, z.chunks_small);
      offset_small = omega (arith, h, z.chunks_small);
    }

module _ (s : System) (i : ℕ) (v : Inv s) (io : Io) where
  pub copying-Inv :
      (id a : ℕ) (p : Pair)
      → get_elem? s.threads i ≡ some (copying id a p)
      → Returns Inv (reader_step s i io (copying id a p))
  unfolding reader_step read_result
  copying-Inv id a p here =
      let (known, there, stored) = v.chunks.relies i (copying id a p) here in
      rw (there, reader_step) (moves-Inv s i v (copying id a p) (reading id p) here refl stored)

  what_is_read :
      (id : ℕ) (p : Pair)
      → Stored s.contents s.zone_state p id
      → OwnIf s.contents id (if io.success then some (content_at s.contents p) else none)
  what_is_read id p h intact = by_result io.success
    where
      by_result : (b : Bool) → Own id (if b then some (content_at s.contents p) else none)
      by_result true = rw intact h.content
      by_result false = tt

  pub reading-Inv :
      (id : ℕ) (p : Pair)
      → get_elem? s.threads i ≡ some (reading id p)
      → Returns Inv (reader_step s i io (reading id p))
  unfolding reader_step
  reading-Inv id p here =
      let stored = v.chunks.relies i (reading id p) here in
      let d : Chunk = if io.success then some (content_at s.contents p) else none in
      moves-Inv s i v (reading id p) (promoting id p d) here refl
        (what_is_read id p stored, stored.room)

  pub promoting-Inv :
      (id : ℕ) (p : Pair) (d : Chunk)
      → get_elem? s.threads i ≡ some (promoting id p d)
      → Returns Inv (reader_step s i io (promoting id p d))
  unfolding reader_step
  promoting-Inv id p d here =
      let r = v.chunks.relies i (promoting id p d) here in
      let (q, e, a) =
        Returns-ok (Accessed s.eviction_policy p read) (promotional_update s.eviction_policy p read)
          (promotional_update-Accessed s.eviction_policy p read v.tokens.policy_ok (fits s v p r.1)
            λ h. absurd (ground (arith, h))) in
      let t : Pc = leaving id p d in
      let old : Pc = promoting id p d in
      let w : Inv (enter s i t) = moves-Inv s i v old t here refl r.0 in
      rw (e, reader_step)
        (record {
          alloc = w.alloc;
          same_num = w.same_num;
          few = w.few;
          claims = w.claims;
          tokens =
              Tokens-policy s.eviction_policy q s.zone_state (set s.threads i t) a.0 a.2
                (λ z. read-has s.eviction_policy q p z v.tokens.policy_ok a) w.tokens;
          chunks = w.chunks;
          clears = w.clears;
        })

  module _ (id : ℕ) (p : Pair) (d : Chunk)
      (here : get_elem? s.threads i ≡ some (leaving id p d)) where
    abbrev t : Pc
    t = done id d

    abbrev m : Cachemap
    m = reader_done s.cache_map p.zone

    fewer :
        (z : ℕ)
        → number reads z (set s.threads i t) + (if p.zone == z then 1 else 0)
          ≡ number reads z s.threads
    fewer z = ground (arith, number-set reads z s.threads i t here)

    leave-Claims : Claims m (set s.threads i t)
    leave-Claims = record {
      map_ok = record {
        live = v.claims.map_ok.live;
        own = v.claims.map_ok.own;
        listed = v.claims.map_ok.listed;
        entries = λ zone.
            Entries-keep s.cache_map m zone (s.cache_map.data_map zone) (λ j q z e. e)
              (v.claims.map_ok.entries zone);
        distinct = v.claims.map_ok.distinct;
      };
      writers = λ j. rw (number-same fetches j s.threads i t here refl) (v.claims.writers j);
      readers = λ z.
          ground (
            arith,
            fewer z,
            v.claims.readers z,
            count-le (λ u. names z (reads u)) s.threads,
            v.few,
          );
    }

    leave-Clears : Clears m (set s.threads i t)
    leave-Clears =
        let a = λ (z : ℕ). number-same cleared z s.threads i t here refl in
        let b = λ (z : ℕ). number-same resets z s.threads i t here refl in
        record {
          vacant = λ z j q h. v.clears.vacant z j q (rw (a z) at h);
          unpublished = λ z h.
              rw (number-same publishes z s.threads i t here refl)
                (v.clears.unpublished z (rw (a z) at h));
          quiet = λ z h. omega (arith, fewer z, v.clears.quiet z (rw (b z) at h));
        }

    pub leaving-Inv : Returns Inv (reader_step s i io (leaving id p d))
    unfolding reader_step
    leaving-Inv = record {
      alloc = Alloc-same s.threads i (leaving id p d) t here s.zone_state refl v.alloc;
      same_num = v.same_num;
      few = enter-few s.threads i (leaving id p d) t here v.few;
      claims = leave-Claims;
      tokens =
          Tokens-same s.threads i (leaving id p d) t here s.eviction_policy s.zone_state refl
            v.tokens;
      chunks =
          Data-map s.cache_map m s.contents s.zone_state s.threads i (leaving id p d) t here
            v.chunks.stored (λ j u e k b q r x y. (x, y)) (v.chunks.relies i (leaving id p d) here)
            tt v.chunks;
      clears = leave-Clears;
    }
