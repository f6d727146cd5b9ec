-- ===== src/ChunkPolicy/Written.antt =====
-- zn_policy_chunk_update for a write: the chunk joins the queue, and the zone the heap when it is
-- full.
use znworkload.Prelude.{
  ℕ, ◌+◌, ◌<◌, ◌≡◌, refl, ◌∙◌, true, false, some, none, [], ◌∷◌, ◌++◌, if◌then◌else◌, ◌==◌, arith,
  occ, occ-append, get_elem?, set, count, count-set, count-le, get_elem?-set, length-set,
  ℕ_discrete, get_elem?-lt, u32,
}
use znworkload.Backend.{Pair}
use znworkload.Minheap.{Heap}
use znworkload.Minheap.Insert.{Inserted}
use znworkload.Promotional.Lru
use znworkload.ChunkPolicy.{PolicyChunk, PoolZone, chunk_ptr, push_chunk, set_pool}
use znworkload.ChunkPolicy.Invariant.{
  Inv, ZonePlaced, lru_of, order_of, Queued, Queued-open, InPool-lt, Step, Step-Inv,
}

module _ (p : PolicyChunk) (v : Inv p) (location : Pair) (zpc : PoolZone) (zp : Pair)
    (zone_found : get_elem? p.zone_pool location.zone ≡ some zpc)
    (chunk_found : get_elem? zpc.chunks location.chunk_offset ≡ some zp)
    (unused : zp.in_use ≡ false) (open_zone : zpc.filled ≡ false) where
  abbrev pub ptr : ℕ
  ptr = chunk_ptr location.zone location.chunk_offset

  abbrev pub new_chunk : Pair
  new_chunk = record {
    zone = location.zone;
    chunk_offset = location.chunk_offset;
    id = location.id;
    in_use = true;
  }

  abbrev pub new_zone : PoolZone
  new_zone = record zpc {
    chunks = set zpc.chunks location.chunk_offset new_chunk;
    chunks_in_use = u32 (zpc.chunks_in_use + 1);
    zone_id = location.zone;
  }

  abbrev pub pushed : PolicyChunk
  pushed = push_chunk (set_pool p location.zone new_zone) ptr ptr

  old : ZonePlaced p location.zone zpc
  old = v.placed location.zone zpc zone_found

  inside : location.chunk_offset < p.max_zone_chunks
  inside =
      let l = get_elem?-lt zpc.chunks location.chunk_offset chunk_found in
      omega (arith, l, old.size)

  absent : occ ptr (order_of p) ≡ 0
  absent = ground (arith, old.in_lru location.chunk_offset zp chunk_found, unused)

  pub order-pushed : order_of pushed ≡ order_of p ++ ptr ∷ []
  order-pushed = Lru.order-append p.lru_queue (record { address = p.next_link; payload = ptr } ∷ [])

  occ-pushed : (j : ℕ) → occ j (order_of pushed) ≡ occ j (order_of p) + (if ptr == j then 1 else 0)
  occ-pushed j = ground (arith, order-pushed, occ-append j (order_of p) (ptr ∷ []))

  counts : new_zone.chunks_in_use ≡ count (λ c. c.in_use) new_zone.chunks
  counts =
      let c = count-set (λ c. c.in_use) zpc.chunks location.chunk_offset new_chunk chunk_found in
      let l = count-le (λ c. c.in_use) new_zone.chunks in
      let s = length-set zpc.chunks location.chunk_offset new_chunk in
      ground (arith, c, l, s, old.counted, old.size, v.max_small, unused)

  pub after_set :
      (c : ℕ)
      → get_elem? new_zone.chunks c
        ≡ (if location.chunk_offset == c then some new_chunk else get_elem? zpc.chunks c)
  after_set c =
      get_elem?-set zpc.chunks location.chunk_offset c new_chunk
        (get_elem?-lt zpc.chunks location.chunk_offset chunk_found)

  not_queued : zpc.pqueue_entry ≡ none
  not_queued =
      let q : Queued p.invalid_pqueue location.zone zpc.chunks_in_use false zpc.pqueue_entry =
        (let w = old.queued in rw open_zone at w) in
      Queued-open p.invalid_pqueue location.zone zpc.chunks_in_use zpc.pqueue_entry q

  pushed-ZonePlaced : ZonePlaced pushed location.zone new_zone
  pushed-ZonePlaced = record {
    size = length-set zpc.chunks location.chunk_offset new_chunk ∙ old.size;
    counted = counts;
    at_place = λ c x e u. ground (arith, after_set c, e, u, old.at_place c x);
    in_lru = λ c x e. ground (
      arith,
      occ-pushed (chunk_ptr location.zone c),
      after_set c,
      e,
      old.in_lru c x,
      absent,
      get_elem?-lt zpc.chunks c,
      old.size,
      v.max_small,
      inside,
    );
    key = λ c h. ground (arith, old.key c h);
    queued = rw (open_zone, not_queued) tt;
  }

  pushed-Step : Step p pushed location.zone zpc new_zone
  pushed-Step = record {
    found = zone_found;
    pool = refl;
    same_max = refl;
    same_size = length-set zpc.chunks location.chunk_offset new_chunk;
    others = λ y c d l. ground (arith, occ-pushed (chunk_ptr y c), d, l, inside, v.max_small);
    keys = λ k h. ground (arith, h);
    heaps = λ a y n d h c. (h, c);
    listed = λ k h. ground (arith, occ-pushed k, h, inside, v.max_small);
    inside = λ k h z. elim (ℕ_discrete ptr k) [
      | yes same ↦ ground (arith, same, inside, v.max_small)
      | no d ↦
          let before : 0 < occ k (order_of p) = ground (arith, occ-pushed k, h, d) in
          InPool-lt p k v.placed (v.in_pool k before)
    ];
  }

  pub pushed-Inv : Inv pushed
  pushed-Inv =
      Step-Inv p pushed location.zone zpc new_zone v pushed-Step
        (Lru.push_zone-Inv (lru_of p) p.lru_queue ptr v.lru.linked absent (λ j d. v.lru.zones j)
          v.lru.distinct)
        v.heap pushed-ZonePlaced

-- A zone that is full joins the heap.
module _ (p : PolicyChunk) (v : Inv p) (z : ℕ) (pz : PoolZone)
    (found : get_elem? p.zone_pool z ≡ some pz) (open_zone : pz.filled ≡ false) where
  module _ (r : Heap × ℕ) (i : Inserted p.invalid_pqueue z pz.chunks_in_use r) where
    abbrev pub full_zone : PoolZone
    full_zone = record pz { pqueue_entry = some r.1; filled = true }

    abbrev pub filled : PolicyChunk
    filled = set_pool (record p { invalid_pqueue = r.0 }) z full_zone

    pub pool_filled :
        (y : ℕ)
        → get_elem? filled.zone_pool y
          ≡ (if z == y then some full_zone else get_elem? p.zone_pool y)
    pool_filled y = get_elem?-set p.zone_pool z y full_zone (get_elem?-lt p.zone_pool z found)

    filled-Step : Step p filled z pz full_zone
    filled-Step = record {
      found = found;
      pool = refl;
      same_max = refl;
      same_size = refl;
      others = λ y c d l. refl;
      keys = λ k h. h;
      heaps = λ a y n d h c. ground (arith, i.is_new, i.held a, i.kept a, h, c);
      listed = λ k h. ground (arith, h);
      inside = λ k h e. InPool-lt p k v.placed (v.in_pool k h);
    }

    pub filled-Inv : Inv filled
    filled-Inv =
        let o = v.placed z pz found in
        Step-Inv p filled z pz full_zone v filled-Step v.lru i.valid (record {
          size = o.size;
          counted = o.counted;
          at_place = o.at_place;
          in_lru = o.in_lru;
          key = o.key;
          queued = ground (arith, i.held r.1, i.kept r.1);
        })
