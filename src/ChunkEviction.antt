-- ===== src/ChunkEviction.antt =====
-- zn_policy_chunk_evict and zn_policy_chunk_gc of src/eviction/chunk.c, with the parts of the cache
-- that they change. Like zn_fg_evict, they are modelled without other threads.
pub mod Requeue
pub mod Round
pub mod Evicted
pub mod Rounds
pub mod Sweep
pub mod Stuck
mod Tests
use znworkload.Prelude.{
  ℕ, zero, suc, ◌+◌, ◌-◌, ◌<◌, Bool, true, false, ◌||◌, Option, some, none, List, [], ◌∷◌, ◌++◌,
  ◌==◌, ltb, if◌then◌else◌, u32, minus_one, length, set,
}
use znworkload.Run.{Run, ok, abort, crash, ◌>>=◌, ◌>>◌, assert, deref, pop_head}
use znworkload.Backend.{Pair, chunk_pointer}
use znworkload.Zsm.{
  Zsm, Zbd, ActiveZone, success, retry, error, evict, get_active_zone, evict_zone,
  mark_chunk_invalid, get_num_free_zones,
}
use znworkload.Cachemap.{Cachemap, cachemap_insert, cachemap_clear_chunk, cachemap_clear_zone}
use znworkload.Minheap.{Heap, extract_min, load, update_by_entry}
use znworkload.Promotional.{Link, set_key}
use znworkload.Disk.{Posix, read_from_disk, write_out}
use znworkload.ChunkPolicy.{
  PolicyChunk, PoolZone, chunk_ptr, ptr_zone, ptr_chunk, pool_at, chunk_at, set_pool,
}

-- The policy, with the parts of struct zn_cache that its `cache` leads to.
pub record ChunkCache : Type 0 where
  pub policy : PolicyChunk
  pub cache_map : Cachemap
  pub zone_state : Zsm

-- A round of the loop of zn_policy_chunk_evict, after the head of the queue is taken off.
unfoldable pub evict_link : ChunkCache → Link → List Link → Run ChunkCache
evict_link c n rest = do
  let p = c.policy
  home ← pool_at p (ptr_zone n.payload)
  zp ← chunk_at home (ptr_chunk n.payload)
  zpc ← pool_at p zp.zone
  x ← chunk_at zpc zp.chunk_offset
  let zpc' = record zpc {
    chunks = set zpc.chunks zp.chunk_offset (record x { in_use = false });
    chunks_in_use = u32 (zpc.chunks_in_use + 4294967295);
  }
  (heap, _) ← update_by_entry p.invalid_pqueue zpc'.pqueue_entry zpc'.chunks_in_use
  t ← mark_chunk_invalid c.zone_state zp
  m ← cachemap_clear_chunk c.cache_map zp
  ok (record {
    policy =
        set_pool
          (record p {
            lru_queue = rest;
            chunk_to_lru_map = set_key p.chunk_to_lru_map n.payload none;
            chunk_keys = λ k. n.payload == k || p.chunk_keys k;
            invalid_pqueue = heap;
          })
          zp.zone zpc';
    cache_map = m;
    zone_state = t;
  })

unfoldable pub evict_chunk : ChunkCache → Run ChunkCache
unfolding evict_link
evict_chunk c = do (n, rest) ← pop_head c.policy.lru_queue; evict_link c n rest

-- The loop, with the rounds left first.
unfoldable pub evict_chunks : ℕ → ChunkCache → Run ChunkCache
evict_chunks zero c = ok c
evict_chunks (suc k) c = do d ← evict_chunk c; evict_chunks k d

-- `total_chunks - in_lru` in uint32_t
abbrev pub free_chunks : PolicyChunk → ℕ
free_chunks p = u32 (p.total_chunks + 4294967296 - u32 (length p.lru_queue))

module _ {World : Type 0} (posix : Posix World) (zbd : Zbd) where
  -- A round of the inner loop of zn_policy_chunk_gc, for chunk `i` of `old_zone`, if it is in use.
  unfoldable pub move_in_use :
      ChunkCache → World → ℕ → ℕ → PoolZone → Pair → Run (ChunkCache × World)
  move_in_use c w old_zone i old chunk = do
    let s = c.zone_state
    (t, taken) ← get_active_zone zbd s
    new_location ← (elim taken [ success p ↦ ok p | retry ↦ abort | error ↦ abort | evict ↦ abort ])
    buffer ← (elim (read_from_disk posix s.zone_size s.chunk_size chunk w) [
      | some b ↦ ok b
      | none ↦ abort
    ])
    let wp = chunk_pointer s.zone_size s.chunk_size new_location.chunk_offset new_location.zone
    (w', ret) ← write_out posix buffer s.chunk_size 4096 wp w
    assert (ret == 0)
    m ← cachemap_insert c.cache_map chunk.id new_location
    let p = set_pool c.policy old_zone (record old {
      chunks = set old.chunks i (record chunk { in_use = false });
      chunks_in_use = u32 (old.chunks_in_use + 4294967295);
    })
    new_zone ← pool_at p new_location.zone
    _ ← chunk_at new_zone new_location.chunk_offset
    let q = set_pool p new_location.zone (record new_zone {
      chunks = set new_zone.chunks new_location.chunk_offset (record chunk { in_use = true });
      chunks_in_use = u32 (new_zone.chunks_in_use + 1);
    })
    let link : Link = record {
      address = q.next_link;
      payload = chunk_ptr new_location.zone new_location.chunk_offset;
    }
    ok (
      record {
        policy = record q { lru_queue = q.lru_queue ++ link ∷ []; next_link = q.next_link + 1 };
        cache_map = m;
        zone_state = t;
      },
      w',
    )

  unfoldable pub move_chunk : ChunkCache → World → ℕ → ℕ → Run (ChunkCache × World)
  unfolding move_in_use
  move_chunk c w old_zone i = do
    old ← pool_at c.policy old_zone
    chunk ← chunk_at old i
    let moved = move_in_use c w old_zone i old chunk
    if chunk.in_use then moved else ok (c, w)

  -- The inner loop, with the rounds left first.
  unfoldable pub move_chunks : ℕ → ℕ → ChunkCache → World → ℕ → Run (ChunkCache × World)
  move_chunks zero i c w old_zone = ok (c, w)
  move_chunks (suc k) i c w old_zone = do
    (d, w') ← move_chunk c w old_zone i
    move_chunks k (i + 1) d w' old_zone

  -- A round of the outer loop: the zone with the fewest chunks in use is emptied and reset.
  unfoldable pub collect_zone : ChunkCache → World → Run (ChunkCache × World)
  unfolding move_chunks
  collect_zone c w = do
    (heap, ent) ← extract_min c.policy.invalid_pqueue
    a ← deref ent
    e ← load heap a
    let d = record c { policy = record c.policy { invalid_pqueue = heap } }
    (d, w) ← move_chunks d.policy.max_zone_chunks 0 d w e.payload
    old ← pool_at d.policy e.payload
    m ← cachemap_clear_zone d.cache_map old.zone_id
    (t, _) ← evict_zone zbd d.zone_state old.zone_id
    ok (record d { cache_map = m; zone_state = t }, w)

  -- The outer loop: the free zones after a round are counted anew.
  unfoldable pub collect : ℕ → ChunkCache → World → Run (ChunkCache × World)
  collect zero c w = crash
  collect (suc fuel) c w =
      let more = collect_zone c w >>= λ (d, w'). collect fuel d w' in
      if ltb (get_num_free_zones c.zone_state) 4 then more else ok (c, w)

  -- zn_policy_chunk_gc
  unfoldable pub chunk_gc : ℕ → ChunkCache → World → Run (ChunkCache × World)
  unfolding collect
  chunk_gc fuel c w =
      let collected = collect fuel c w in
      if ltb 2 (get_num_free_zones c.zone_state) then ok (c, w) else collected

  -- zn_policy_chunk_evict
  unfoldable pub chunk_evict : ℕ → ChunkCache → World → Run (ChunkCache × World × ℕ)
  unfolding evict_chunks chunk_gc
  chunk_evict fuel c w =
      let free = free_chunks c.policy in
      let evicted = do
        d ← evict_chunks (u32 (12 + 4294967296 - free)) c
        (e, w') ← chunk_gc fuel d w
        ok (e, w', 0)
      in if u32 (length c.policy.lru_queue) == 0 || ltb 6 free then ok (c, w, 1) else evicted
