-- ===== src/ChunkEviction/Round.antt =====
-- A round of zn_policy_chunk_evict: the least recently used chunk leaves the policy, its zone's
-- priority falls, and the cache map forgets it.
use znworkload.Prelude.{
  ℕ, ◌+◌, ◌<◌, ◌≡◌, refl, ap, ◌∙◌, true, false, some, none, List, ◌∷◌, if◌then◌else◌, ◌==◌, ◌||◌,
  arith, occ, get_elem?, set, count, count-set, count-le, get_elem?-set, length-set, get_elem?-lt,
  u32,
}
use znworkload.Minheap.{Heap}
use znworkload.Promotional.{Link, set_key}
use znworkload.Promotional.Lru
use znworkload.Promotional.Refines.{popped-Inv}
use znworkload.ChunkPolicy.{PolicyChunk, PoolZone, chunk_ptr, ptr_zone, ptr_chunk, set_pool}
use znworkload.ChunkPolicy.Invariant.{
  Inv, ZonePlaced, InPool, InPool-lt, lru_of, order_of, Step, Step-Inv,
}
use znworkload.ChunkEviction.Requeue.{Requeued}

module _ (p : PolicyChunk) (v : Inv p) (n : Link) (rest : List Link)
    (queue : p.lru_queue ≡ n ∷ rest) where
  abbrev pub z : ℕ
  z = ptr_zone n.payload

  abbrev pub ch : ℕ
  ch = ptr_chunk n.payload

  pub split : order_of p ≡ n.payload ∷ Lru.order rest
  split = ap Lru.order queue

  pub first : 0 < occ n.payload (order_of p)
  first = ground (arith, split)

  pub home : InPool p n.payload
  home = v.in_pool n.payload first

  pub placed : ZonePlaced p z home.zone
  placed = v.placed z home.zone home.zone_found

  pub used : home.chunk.in_use ≡ true
  used =
      let e : chunk_ptr z ch ≡ n.payload = omega arith in
      let o = placed.in_lru ch home.chunk home.chunk_found in ground (arith, o, e, first)

  pub place : (home.chunk.zone ≡ z) × (home.chunk.chunk_offset ≡ ch)
  place = placed.at_place ch home.chunk home.chunk_found used

  abbrev pub freed : PoolZone
  freed = record home.zone {
    chunks = set home.zone.chunks home.chunk.chunk_offset (record home.chunk { in_use = false });
    chunks_in_use = u32 (home.zone.chunks_in_use + 4294967295);
  }

  pub chunk_there : get_elem? home.zone.chunks home.chunk.chunk_offset ≡ some home.chunk
  chunk_there = ground (arith, place, home.chunk_found)

  pub zone_there : get_elem? p.zone_pool home.chunk.zone ≡ some home.zone
  zone_there = ground (arith, place, home.zone_found)

  counts : freed.chunks_in_use ≡ count (λ c. c.in_use) freed.chunks
  counts =
      let new = record home.chunk { in_use = false } in
      let c = count-set (λ x. x.in_use) home.zone.chunks home.chunk.chunk_offset new chunk_there in
      let l = count-le (λ x. x.in_use) home.zone.chunks in
      ground (arith, c, l, used, placed.counted, placed.size, v.max_small)

  after_set :
      (c : ℕ)
      → get_elem? freed.chunks c ≡ (
          if ch == c
          then some (record home.chunk { in_use = false })
          else get_elem? home.zone.chunks c)
  after_set c =
      let e =
        get_elem?-set home.zone.chunks home.chunk.chunk_offset c
          (record home.chunk { in_use = false })
          (get_elem?-lt home.zone.chunks home.chunk.chunk_offset chunk_there) in
      ground (arith, e, place)

  module _ (g : Heap)
      (r : Requeued p.invalid_pqueue z freed.chunks_in_use home.zone.filled home.zone.pqueue_entry
        g) where
    abbrev pub left : PolicyChunk
    left =
        set_pool
          (record p {
            lru_queue = rest;
            chunk_to_lru_map = set_key p.chunk_to_lru_map n.payload none;
            chunk_keys = λ k. n.payload == k || p.chunk_keys k;
            invalid_pqueue = g;
          })
          home.chunk.zone freed

    pub occ-left :
        (j : ℕ) → occ j (order_of p) ≡ occ j (order_of left) + (if n.payload == j then 1 else 0)
    occ-left j = ground (arith, split)

    left-Lru : Lru.Inv (lru_of left)
    left-Lru = popped-Inv (lru_of p) n rest queue v.lru

    left-Step : Step p left z home.zone freed
    left-Step = record {
      found = home.zone_found;
      pool = ap (λ x. set p.zone_pool x freed) place.0;
      same_max = refl;
      same_size =
          length-set home.zone.chunks home.chunk.chunk_offset
            (record home.chunk { in_use = false });
      others = λ y c d l. ground (arith, occ-left (chunk_ptr y c), d, l, v.max_small);
      keys = λ k h. ground (arith, h);
      heaps = r.keeps;
      listed = λ k h. ground (arith, occ-left k, h);
      inside = λ k h e.
          let before : 0 < occ k (order_of p) = ground (arith, occ-left k, h) in
          InPool-lt p k v.placed (v.in_pool k before);
    }

    pub left-Inv : Inv left
    left-Inv = Step-Inv p left z home.zone freed v left-Step left-Lru r.valid (record {
      size =
          length-set home.zone.chunks home.chunk.chunk_offset (record home.chunk { in_use = false })
          ∙ placed.size;
      counted = counts;
      at_place = λ c x e u. ground (arith, after_set c, e, u, placed.at_place c x);
      in_lru = λ c x e. ground (
        arith,
        occ-left (chunk_ptr z c),
        after_set c,
        e,
        placed.in_lru c x,
        used,
        placed.in_lru ch home.chunk home.chunk_found,
        get_elem?-lt home.zone.chunks c,
        placed.size,
        v.max_small,
      );
      key = λ c h. ground (arith, placed.key c h);
      queued = r.queued;
    })
