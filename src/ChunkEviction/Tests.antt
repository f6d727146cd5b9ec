-- ===== src/ChunkEviction/Tests.antt =====
-- An eviction from the six chunks of three full zones, on a device of six zones of two chunks.
use znworkload.Prelude.{
  ℕ, ◌+◌, zero, ◌<◌, ◌≤◌, ◌≡◌, ◌^◌, ◌≢◌, suc, refl, ap, sym, subst, true, false, Option, none, some,
  List, [], ◌∷◌, arith, occ, length, ℕ_discrete,
}
use znworkload.Run.{Run, ok, abort, crash, Returns, Returns-ok}
use znworkload.Backend.{Pair, zns}
use znworkload.Disk.{Posix, write_out}
use znworkload.Zsm.{Zsm, Zbd, init, get_num_free_zones}
use znworkload.Zsm.Invariant
use znworkload.Zsm.Init.{init-Inv}
use znworkload.Cachemap.{
  Cachemap, Find, hit, wait, write_it, empty_map, cachemap_find, cachemap_insert, find_chunk,
}
use znworkload.Cachemap.View
use znworkload.Cachemap.Write.{
  Finds, cachemap_find-Finds, Inserted, cachemap_insert-Inserted, empty_map-Inv,
}
use znworkload.Minheap.{Entry, insert, set_slot, bubble_up, priority_at, slot}
use znworkload.EvictPolicy.{chunk_init}
use znworkload.ChunkPolicy.{chunk_update, ptr_zone, ptr_chunk, chunk_ptr}
use znworkload.ChunkPolicy.Tests.{zone_in, chunk_in, sixth, sixth-Inv, sixth_order, written}
use znworkload.ChunkEviction.{ChunkCache, chunk_evict, chunk_gc}
use znworkload.ChunkEviction.Evicted.{Ready, Known, chunk_order}
use znworkload.ChunkEviction.Stuck.{WritesReturn, ZoneInUse, chunk_gc-abort}
use znworkload.Minheap.Order.{holds, content, content_of}
use znworkload.ChunkEviction.Sweep.{Swept, chunk_evict-Swept}

abbrev idle_disk : Posix ℕ
idle_disk = record {
  pwrite = λ w b n o. (w + n, some n);
  fsync = λ w. w;
  reset_errno = λ w. w;
  errno = λ w. 0;
  pread = λ w n o. (some n, λ i. 0);
  bytes = λ w i. 0;
}

abbrev device : Zbd
device = record { open_zones = λ _ _ _. 0; finish_zones = λ _ _ _. 0; reset_zones = λ _ _ _. 0 }

abbrev found : Cachemap → Run (Cachemap × Find) → Cachemap
found m (ok (m', _)) = m'
found m _ = m

abbrev stored : Cachemap → Run Cachemap → Cachemap
stored m (ok m') = m'
stored m _ = m

-- The writer of an ID: zn_cachemap_find, and zn_cachemap_insert later.
abbrev claim : Cachemap → ℕ → Cachemap
claim m id = found m (cachemap_find m id)

abbrev place : ℕ → Pair
place ptr = record { zone = ptr_zone ptr; chunk_offset = ptr_chunk ptr; id = 0; in_use = false }

abbrev store : Cachemap → ℕ → ℕ → Cachemap
store m id ptr = stored m (cachemap_insert (claim m id) id (place ptr))

-- No ID of a map in order is being written.
abbrev Settled : Cachemap → Type 0
Settled m = View.Inv m × ((id : ℕ) → View.view m id ≢ View.writing)

abbrev Claimed : Cachemap → ℕ → Cachemap → Type 0
Claimed m id m' = View.Inv m' × ((j : ℕ) → id ≢ j → View.view m' j ≢ View.writing)

claim-Claimed :
    (m : Cachemap) (id : ℕ) → Settled m → View.view m id ≡ View.absent → Claimed m id (claim m id)
claim-Claimed m id v a = by_find (cachemap_find m id) (cachemap_find-Finds m id v.0)
  where
    by_find : (r : Run (Cachemap × Find)) → Returns (Finds m id) r → Claimed m id (found m r)
    by_find (ok (m', hit b)) h = absurd (ground (arith, h.1, a))
    by_find (ok (m', wait)) h = absurd (v.1 id h.0)
    by_find (ok (m', write_it)) h = (h.1, λ j d. ground (arith, h.2 j, d, v.1 j))
    by_find abort h = absurd h
    by_find crash h = absurd h

store-Settled :
    (m : Cachemap) (id ptr : ℕ)
    → Settled m
    → View.view m id ≡ View.absent
    → View.view (claim m id) id ≡ View.writing
    → ptr_zone ptr < (claim m id).num_zones
    → id < 2 ^ 31
    → find_chunk (ptr_chunk ptr) ((claim m id).data_map (ptr_zone ptr)) ≡ none
    → Settled (store m id ptr)
store-Settled m id ptr v a w i s f =
    let (inv, others) = claim-Claimed m id v a in
    let (q, e, h) =
      Returns-ok (Inserted (claim m id) id (place ptr))
        (cachemap_insert (claim m id) id (place ptr))
        (cachemap_insert-Inserted (claim m id) id (place ptr) inv w i s f) in
    subst Settled (sym (ap (stored m) e)) (h.inv, λ j. ground (arith, h.seen j, others j))

abbrev map0 : Cachemap
map0 = empty_map 6 (λ _. 0)

map0-Settled : Settled map0
unfolding empty_map
map0-Settled = (empty_map-Inv 6 (λ _. 0), λ id e. cc)

abbrev map1 : Cachemap
map1 = store map0 20 (chunk_ptr 0 0)

map1-Settled : Settled map1
unfolding empty_map cachemap_find cachemap_insert
map1-Settled =
    store-Settled map0 20 (chunk_ptr 0 0) map0-Settled refl refl (omega arith) (omega arith) refl

abbrev map2 : Cachemap
map2 = store map1 21 (chunk_ptr 0 1)

map2-Settled : Settled map2
unfolding empty_map cachemap_find cachemap_insert
map2-Settled =
    store-Settled map1 21 (chunk_ptr 0 1) map1-Settled refl refl (omega arith) (omega arith) refl

abbrev map3 : Cachemap
map3 = store map2 22 (chunk_ptr 1 0)

map3-Settled : Settled map3
unfolding empty_map cachemap_find cachemap_insert
map3-Settled =
    store-Settled map2 22 (chunk_ptr 1 0) map2-Settled refl refl (omega arith) (omega arith) refl

abbrev map4 : Cachemap
map4 = store map3 23 (chunk_ptr 1 1)

map4-Settled : Settled map4
unfolding empty_map cachemap_find cachemap_insert
map4-Settled =
    store-Settled map3 23 (chunk_ptr 1 1) map3-Settled refl refl (omega arith) (omega arith) refl

abbrev map5 : Cachemap
map5 = store map4 24 (chunk_ptr 2 0)

map5-Settled : Settled map5
unfolding empty_map cachemap_find cachemap_insert
map5-Settled =
    store-Settled map4 24 (chunk_ptr 2 0) map4-Settled refl refl (omega arith) (omega arith) refl

abbrev map6 : Cachemap
map6 = store map5 25 (chunk_ptr 2 1)

map6-Settled : Settled map6
unfolding empty_map cachemap_find cachemap_insert
map6-Settled =
    store-Settled map5 25 (chunk_ptr 2 1) map5-Settled refl refl (omega arith) (omega arith) refl

abbrev zones : Zsm → Run Zsm → Zsm
zones d (ok s) = s
zones d _ = d

abbrev none_open : Zsm
none_open = record {
  active_queue = [];
  free_queue = [];
  zones = [];
  writes_occurring = 0;
  fd = 3;
  zone_cap = 8192;
  zone_size = 16384;
  chunk_size = 4096;
  max_nr_active_zones = 2;
  max_zone_chunks = 2;
  num_zones = 6;
  backend_type = zns;
}

abbrev six_zones : Zsm
six_zones = zones none_open (init 6 3 8192 16384 4096 2 zns)

abbrev cache : ChunkCache
cache = record { policy = sixth; cache_map = map6; zone_state = six_zones }

abbrev AllKnown : ChunkCache → List ℕ → Type 0
AllKnown c [] = Unit {0}
AllKnown c (ptr ∷ q) = Known c ptr × AllKnown c q

AllKnown-first :
    (c : ChunkCache) (q : List ℕ) (ptr : ℕ) → AllKnown c q → 0 < occ ptr q → Known c ptr
AllKnown-first c [] ptr k o = absurd (omega arith)
AllKnown-first c (i ∷ q) ptr k o = elim (ℕ_discrete i ptr) [
  | yes e ↦ subst (Known c) e k.0
  | no d ↦ AllKnown-first c q ptr k.1 (ground (arith, d, o))
]

all_known : AllKnown cache written
unfolding empty_map cachemap_find cachemap_insert init
all_known = (
  record { id = 20; in_zones = omega arith; in_map = omega arith; listed = refl },
  (
    record { id = 21; in_zones = omega arith; in_map = omega arith; listed = refl },
    (
      record { id = 22; in_zones = omega arith; in_map = omega arith; listed = refl },
      (
        record { id = 23; in_zones = omega arith; in_map = omega arith; listed = refl },
        (
          record { id = 24; in_zones = omega arith; in_map = omega arith; listed = refl },
          (record { id = 25; in_zones = omega arith; in_map = omega arith; listed = refl }, tt),
        ),
      ),
    ),
  ),
)

cache-Ready : Ready [] cache
unfolding init
cache-Ready = record {
  policy_ok = sixth-Inv;
  zones_ok =
      (init-Inv 6 3 8192 16384 4096 2 zns (omega arith) (omega arith) (omega arith) (omega arith)
        (omega arith) (omega arith)).0;
  map_ok = map6-Settled.0;
  known = λ ptr o.
      AllKnown-first cache written ptr all_known (subst (λ q. 0 < occ ptr q) sixth_order o);
}

twelve : sixth.total_chunks ≡ 12
unfolding chunk_init chunk_update insert set_slot bubble_up priority_at slot
twelve = refl

chunks_fit : length (chunk_order cache) ≤ cache.policy.total_chunks
chunks_fit =
    let l : length (chunk_order cache) ≡ 6 = ap length sixth_order in omega (arith, l, twelve)

enough : 12 ≤ cache.policy.total_chunks
enough = omega (arith, twelve)

small : cache.policy.total_chunks < 2 ^ 32
small = omega (arith, twelve)

zones_left : 2 < get_num_free_zones cache.zone_state
unfolding init get_num_free_zones
zones_left = omega arith

chunk_evict-Swept_example : Returns (Swept [] cache 0) (chunk_evict idle_disk device 9 cache 0)
chunk_evict-Swept_example =
    chunk_evict-Swept idle_disk device 9 [] cache 0 cache-Ready chunks_fit enough small zones_left

-- The same cache on a device of two zones, where the garbage collection has to move chunks.
abbrev two_zones : Zsm
two_zones = zones none_open (init 2 3 8192 16384 4096 2 zns)

abbrev crowded : ChunkCache
crowded = record { policy = sixth; cache_map = map6; zone_state = two_zones }

two_zones-Inv : Invariant.Inv two_zones []
unfolding init
two_zones-Inv =
    (init-Inv 2 3 8192 16384 4096 2 zns (omega arith) (omega arith) (omega arith) (omega arith)
      (omega arith) (omega arith)).0

crowded_few : get_num_free_zones crowded.zone_state ≤ 2
unfolding init get_num_free_zones
crowded_few = omega arith

writes_return : WritesReturn idle_disk crowded.zone_state.chunk_size
unfolding init write_out
writes_return buffer wp w = tt

some_zone : 0 < sixth.invalid_pqueue.size
unfolding chunk_init chunk_update insert set_slot bubble_up priority_at slot
some_zone = omega arith

nothing_there : (o : Option Entry) (z n : ℕ) → o ≡ none → content_of o ≡ some (z, n) → ⊥
nothing_there none z n e f = cc
nothing_there (some x) z n e f = cc

full_zone : (i z : ℕ) → ZoneInUse sixth i → i ≡ z → ZoneInUse sixth z
full_zone i z u e = subst (ZoneInUse sixth) e u

in_use :
    (a z n : ℕ)
    → holds sixth.invalid_pqueue a ≡ true
    → content sixth.invalid_pqueue a ≡ some (z, n)
    → ZoneInUse sixth z
unfolding chunk_init chunk_update insert set_slot bubble_up priority_at slot
in_use zero z n h e =
    full_zone 0 z
      (record {
        zone = zone_in sixth 0;
        found = refl;
        size = refl;
        index = 0;
        chunk = chunk_in sixth 0 0;
        there = refl;
        used = refl;
      })
      (let f : 0 ≡ z = cc in f)
in_use (suc zero) z n h e =
    full_zone 1 z
      (record {
        zone = zone_in sixth 1;
        found = refl;
        size = refl;
        index = 0;
        chunk = chunk_in sixth 1 0;
        there = refl;
        used = refl;
      })
      (let f : 1 ≡ z = cc in f)
in_use (suc (suc zero)) z n h e =
    full_zone 2 z
      (record {
        zone = zone_in sixth 2;
        found = refl;
        size = refl;
        index = 0;
        chunk = chunk_in sixth 2 0;
        there = refl;
        used = refl;
      })
      (let f : 2 ≡ z = cc in f)
in_use (suc (suc (suc a))) z n h e =
    let next : sixth.invalid_pqueue.next ≤ suc (suc (suc a)) = omega arith in
    let none_there : sixth.invalid_pqueue.entry (suc (suc (suc a))) ≡ none =
      sixth-Inv.heap.0.fresh (suc (suc (suc a))) next in
    absurd (nothing_there (sixth.invalid_pqueue.entry (suc (suc (suc a)))) z n none_there e)

chunk_gc-abort_example : chunk_gc idle_disk device 1 crowded 0 ≡ abort
chunk_gc-abort_example =
    chunk_gc-abort idle_disk device [] crowded 0 two_zones-Inv map6-Settled.0 map6-Settled.1
      writes_return sixth-Inv.heap some_zone in_use 0 crowded_few
