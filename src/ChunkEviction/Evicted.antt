-- ===== src/ChunkEviction/Evicted.antt =====
-- A round of the loop of zn_policy_chunk_evict, with the zone state manager and the cache map.
use znworkload.Prelude.{ℕ, ◌<◌, ◌≡◌, ◌≢◌, some, List, [], ◌∷◌, ◌++◌, arith, occ, ℕ_discrete}
use znworkload.Backend.{Pair}
use znworkload.Zsm.{Zsm}
use znworkload.Zsm.Invariant
use znworkload.Cachemap.{Cachemap, find_chunk}
use znworkload.Cachemap.View
use znworkload.Cachemap.ClearChunk.{ChunkCleared, entry-at}
use znworkload.Minheap.{Heap}
use znworkload.Promotional.{Link}
use znworkload.ChunkPolicy.{PolicyChunk, ptr_zone, ptr_chunk}
use znworkload.ChunkPolicy.Invariant.{Inv, order_of}
use znworkload.ChunkEviction.Requeue.{Requeued}
use znworkload.ChunkEviction.Round.{z, home, freed, left, left-Inv, occ-left, split, place, first}
use znworkload.ChunkEviction.{ChunkCache}

-- A chunk of the queue lies in a zone of the device, and the cache map has an ID there.
pub record Known (c : ChunkCache) (ptr : ℕ) : Type 0 where
  pub id : ℕ
  pub in_zones : ptr_zone ptr < c.zone_state.num_zones
  pub in_map : ptr_zone ptr < c.cache_map.num_zones
  pub listed : find_chunk (ptr_chunk ptr) (c.cache_map.data_map (ptr_zone ptr)) ≡ some id

abbrev pub chunk_order : ChunkCache → List ℕ
chunk_order c = order_of c.policy

pub record Ready (held : List Pair) (c : ChunkCache) : Type 0 where
  pub policy_ok : Inv c.policy
  pub zones_ok : Invariant.Inv c.zone_state held
  pub map_ok : View.Inv c.cache_map
  pub known : (ptr : ℕ) → 0 < occ ptr (chunk_order c) → Known c ptr

-- Whether one of the chunks is at a location.
abbrev pub Among : List ℕ → Pair → Type 0
Among gone p =
    (ptr : ℕ) × (0 < occ ptr gone) × (ptr_zone ptr ≡ p.zone) × (ptr_chunk ptr ≡ p.chunk_offset)

-- The chunks `gone` have left the head of the queue, the map has lost exactly the IDs that lay in
-- them, and the queues of the zone state manager are the same.
pub record ChunksGone (c : ChunkCache) (gone : List ℕ) (d : ChunkCache) : Type 0 where
  pub order : chunk_order c ≡ gone ++ chunk_order d
  pub absent :
      (id : ℕ) (p : Pair)
      → View.view d.cache_map id ≡ View.at p
      → (View.view c.cache_map id ≡ View.at p) × ¬ Among gone p
  pub kept :
      (id : ℕ) (p : Pair)
      → View.view c.cache_map id ≡ View.at p
      → ¬ Among gone p
      → View.view d.cache_map id ≡ View.at p
  pub same_free : d.zone_state.free_queue ≡ c.zone_state.free_queue
  pub same_active : d.zone_state.active_queue ≡ c.zone_state.active_queue

module _ (held : List Pair) (c : ChunkCache) (v : Ready held c) (n : Link) (rest : List Link)
    (queue : c.policy.lru_queue ≡ n ∷ rest) where
  abbrev p : PolicyChunk
  p = c.policy

  pub info : Known c n.payload
  info = v.known n.payload (first p v.policy_ok n rest queue)

  module _ (g : Heap)
      (r : Requeued p.invalid_pqueue
        (z p v.policy_ok n rest queue)
        (freed p v.policy_ok n rest queue).chunks_in_use
        (home p v.policy_ok n rest queue).zone.filled
        (home p v.policy_ok n rest queue).zone.pqueue_entry
        g)
      (t : Zsm) (zone_ok : Invariant.Inv t held) (same_num : t.num_zones ≡ c.zone_state.num_zones)
      (free_same : t.free_queue ≡ c.zone_state.free_queue)
      (active_same : t.active_queue ≡ c.zone_state.active_queue) (m : Cachemap)
      (k : ChunkCleared c.cache_map info.id (home p v.policy_ok n rest queue).chunk m) where
    abbrev after : ChunkCache
    after = record { policy = left p v.policy_ok n rest queue g r; cache_map = m; zone_state = t }

    zp_place :
        ((home p v.policy_ok n rest queue).chunk.zone ≡ ptr_zone n.payload)
        × ((home p v.policy_ok n rest queue).chunk.chunk_offset ≡ ptr_chunk n.payload)
    zp_place = place p v.policy_ok n rest queue

    alone : occ n.payload (chunk_order after) ≡ 0
    alone = ground (
      arith,
      split p v.policy_ok n rest queue,
      v.policy_ok.lru.zones n.payload,
      occ-left p v.policy_ok n rest queue g r n.payload,
    )

    still_listed :
        (ptr : ℕ) (old : Known c ptr)
        → 0 < occ ptr (chunk_order after)
        → find_chunk (ptr_chunk ptr) (m.data_map (ptr_zone ptr)) ≡ some old.id
    still_listed ptr old o =
        let other : ptr ≢ n.payload = λ e. ground (arith, alone, o, e) in
        elim (ℕ_discrete (ptr_zone ptr) (ptr_zone n.payload)) [
          | yes same ↦
              let apart : ptr_chunk n.payload ≢ ptr_chunk ptr = omega (arith, other, same) in
              let table = k.other_chunks (ptr_chunk ptr) in
              ground (arith, table, zp_place, same, old.listed, apart)
          | no d ↦ ground (arith, k.other_tables (ptr_zone ptr), zp_place, d, old.listed)
        ]

    pub after-Ready : Ready held after
    after-Ready = record {
      policy_ok = left-Inv p v.policy_ok n rest queue g r;
      zones_ok = zone_ok;
      map_ok = k.inv;
      known = λ ptr o.
          let old = v.known ptr (ground (arith, occ-left p v.policy_ok n rest queue g r ptr, o)) in
          record {
            id = old.id;
            in_zones = ground (arith, old.in_zones, same_num);
            in_map = ground (arith, old.in_map, k.same_num);
            listed = still_listed ptr old o;
          };
    }

    pub after-Gone : ChunksGone c (n.payload ∷ []) after
    after-Gone = record {
      order = split p v.policy_ok n rest queue;
      absent = λ id q e.
          let s = k.seen id in
          (
            ground (arith, s, e),
            λ (ptr, o, y, x).
                let same : n.payload ≡ ptr = ground (arith, o) in
                ground (arith, s, e, same, y, x, v.map_ok.listed id q, info.listed),
          );
      kept = λ id q e a.
          let l =
            entry-at c.cache_map (ptr_zone n.payload) (ptr_chunk n.payload) info.id _
              (v.map_ok.entries (ptr_zone n.payload)) info.listed in
          elim (ℕ_discrete info.id id) [
            | yes same ↦
                let at_q : l.location ≡ q = ground (arith, l.seen, e, same) in
                absurd (
                  a (
                    n.payload,
                    ground arith,
                    ground (arith, l.in_zone, at_q),
                    ground (arith, l.at_chunk, at_q),
                  ))
            | no d ↦ ground (arith, k.seen id, d, e)
          ];
      same_free = free_same;
      same_active = active_same;
    }
