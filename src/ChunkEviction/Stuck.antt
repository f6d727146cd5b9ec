-- ===== src/ChunkEviction/Stuck.antt =====
-- zn_policy_chunk_gc on a zone that still has a chunk in use: zn_cachemap_insert is for an ID that is
-- being written, but the ID of a chunk to move is not.
use znworkload.Prelude.{
  ℕ, zero, suc, ◌+◌, ◌<◌, ◌≤◌, ◌≡◌, ◌≢◌, refl, true, false, Option, some, none, List, ◌==◌, arith,
  get_elem?, get_elem?-some, get_elem?-lt, length, Option-cases, Bool-cases, inl, inr,
}
use znworkload.Run.{Run, ok, abort, Returns, bind-abort, ◌>>=◌, deref}
use znworkload.Backend.{Pair, chunk_pointer}
use znworkload.Disk.{Posix, write_out, read_from_disk}
use znworkload.Zsm.{
  Zbd, ActiveZone, success, retry, error, evict, get_active_zone, get_num_free_zones,
}
use znworkload.Zsm.Invariant
use znworkload.Zsm.Get.{Got, get_active_zone-Got}
use znworkload.Cachemap.{Cachemap, loc, cond, cachemap_insert}
use znworkload.Cachemap.View
use znworkload.Minheap.{Heap, Entry, extract_min, load}
use znworkload.Minheap.Order.{holds, content}
use znworkload.Minheap.Insert.{IsValid}
use znworkload.Minheap.Extract.{ExtractedMin, extract_min-Extracted}
use znworkload.ChunkPolicy.{PolicyChunk, PoolZone}
use znworkload.ChunkEviction.{
  ChunkCache, move_in_use, move_chunk, move_chunks, collect_zone, collect, chunk_gc,
}

-- An insertion fails its assertion unless the ID is being written.
insert-abort :
    (m : Cachemap) (id : ℕ) (p : Pair)
    → View.Inv m
    → View.view m id ≢ View.writing
    → cachemap_insert m id p ≡ abort
unfolding cachemap_insert
insert-abort m id p v n = elim (Option-cases (m.zone_map id)) [
  | inl unknown ↦ rw unknown refl
  | inr (a, known) ↦ elim (Option-cases (m.results a)) [
    | inl freed ↦ absurd (ground (arith, v.live id a known, freed))
    | inr (loc q, there) ↦ rw (known, there) refl
    | inr (cond, there) ↦ absurd (n (ground (arith, known, there)))
  ]
]

location-abort :
    {B : Type 0} (a : ActiveZone) (k : Pair → Run B)
    → ((p : Pair) → k p ≡ abort)
    → ((elim a [ success p ↦ ok p | retry ↦ abort | error ↦ abort | evict ↦ abort ]) >>= k) ≡ abort
location-abort (success p) k h = h p
location-abort retry k h = refl
location-abort error k h = refl
location-abort evict k h = refl

-- zn_write_out returns for every buffer of the size of a chunk.
abbrev pub WritesReturn : {World : Type 0} → Posix World → ℕ → Type 0
WritesReturn {World} posix size =
    (buffer : ℕ → ℕ) (wp : ℕ) (w : World)
    → Returns (λ _. Unit {0}) (write_out posix buffer size 4096 wp w)

module _ {World : Type 0} (posix : Posix World) (zbd : Zbd) (held : List Pair) (c : ChunkCache)
    (zones_ok : Invariant.Inv c.zone_state held) (map_ok : View.Inv c.cache_map)
    (unwritten : (id : ℕ) → View.view c.cache_map id ≢ View.writing)
    (writes : WritesReturn posix c.zone_state.chunk_size) where
  -- The move of a chunk in use fails an assertion, whatever the device answers.
  pub move_in_use-abort :
      (w : World) (old_zone i : ℕ) (old : PoolZone) (chunk : Pair)
      → move_in_use posix zbd c w old_zone i old chunk ≡ abort
  unfolding move_in_use
  move_in_use-abort w old_zone i old chunk =
      let s = c.zone_state in
      bind-abort (Got zbd s held) _ (get_active_zone zbd s)
        (get_active_zone-Got zbd s held zones_ok)
        λ (t, taken) _. location-abort taken _ λ p.
          elim (Option-cases (read_from_disk posix s.zone_size s.chunk_size chunk w)) [
            | inl unread ↦ rw unread refl
            | inr (buffer, filled) ↦
                let wp = chunk_pointer s.zone_size s.chunk_size p.chunk_offset p.zone in
                rw filled (
                  bind-abort (λ _. Unit {0}) _ (write_out posix buffer s.chunk_size 4096 wp w)
                    (writes buffer wp w)
                    λ (w', ret) _. elim (Bool-cases (ret == 0)) [
                      | inl good ↦
                          rw (good, insert-abort c.cache_map chunk.id p map_ok (unwritten chunk.id))
                            refl
                      | inr bad ↦ rw bad refl
                    ])
          ]

  -- The chunk that is moved first: those before it are not in use.
  module _ (old_zone : ℕ) (old : PoolZone)
      (found : get_elem? c.policy.zone_pool old_zone ≡ some old) (w : World) where
    move_chunk-skips :
        (i : ℕ) (x : Pair)
        → get_elem? old.chunks i ≡ some x
        → x.in_use ≡ false
        → move_chunk posix zbd c w old_zone i ≡ ok (c, w)
    unfolding move_chunk
    move_chunk-skips i x there unused = rw (found, there, unused) refl

    move_chunk-abort :
        (i : ℕ) (x : Pair)
        → get_elem? old.chunks i ≡ some x
        → x.in_use ≡ true
        → move_chunk posix zbd c w old_zone i ≡ abort
    unfolding move_chunk read_from_disk
    move_chunk-abort i x there used = rw (found, there, used) (move_in_use-abort w old_zone i old x)

    pub move_chunks-abort :
        (k i j : ℕ) (x : Pair)
        → i + k ≤ length old.chunks
        → i ≤ j
        → j < i + k
        → get_elem? old.chunks j ≡ some x
        → x.in_use ≡ true
        → move_chunks posix zbd k i c w old_zone ≡ abort
    unfolding move_chunks
    move_chunks-abort zero i j x f l h there used = absurd (omega arith)
    move_chunks-abort (suc k) i j x f l h there used =
        let (y, at_i) = get_elem?-some old.chunks i (omega arith) in
        elim (Bool-cases y.in_use) [
          | inl first ↦ rw (move_chunk-abort i y at_i first) refl
          | inr unused ↦
              let apart : i ≢ j = λ e. ground (arith, at_i, there, e, used, unused) in
              rw (move_chunk-skips i y at_i unused) (
                move_chunks-abort k (i + 1) j x (omega (arith, f)) (omega (arith, l, apart))
                  (omega (arith, h)) there used)
        ]

-- A zone of the pool with a chunk in use.
pub record ZoneInUse (p : PolicyChunk) (z : ℕ) : Type 0 where
  pub zone : PoolZone
  pub found : get_elem? p.zone_pool z ≡ some zone
  pub size : length zone.chunks ≡ p.max_zone_chunks
  pub index : ℕ
  pub chunk : Pair
  pub there : get_elem? zone.chunks index ≡ some chunk
  pub used : chunk.in_use ≡ true

module _ {World : Type 0} (posix : Posix World) (zbd : Zbd) (held : List Pair) (c : ChunkCache)
    (w : World) (zones_ok : Invariant.Inv c.zone_state held) (map_ok : View.Inv c.cache_map)
    (unwritten : (id : ℕ) → View.view c.cache_map id ≢ View.writing)
    (writes : WritesReturn posix c.zone_state.chunk_size)
    (heap_ok : IsValid c.policy.invalid_pqueue) (some_zone : 0 < c.policy.invalid_pqueue.size)
    (in_use : (a z n : ℕ)
      → holds c.policy.invalid_pqueue a ≡ true
      → content c.policy.invalid_pqueue a ≡ some (z, n)
      → ZoneInUse c.policy z) where
  abbrev taken_from : Heap → ChunkCache
  taken_from g = record c { policy = record c.policy { invalid_pqueue = g } }

  -- What follows on zn_minheap_extract_min fails in the moves.
  min-abort :
      (g : Heap) (taken : Option ℕ) (k : Entry → ChunkCache × World → Run (ChunkCache × World))
      → ExtractedMin c.policy.invalid_pqueue (g, taken)
      → (deref taken >>= λ a. load g a >>= λ e.
          move_chunks posix zbd c.policy.max_zone_chunks 0 (taken_from g) w e.payload >>= k e)
        ≡ abort
  min-abort g none k x = absurd (omega (arith, x.0, some_zone))
  min-abort g (some a) k x = elim (Option-cases (g.entry a)) [
    | inl gone ↦ absurd (ground (arith, x.all_kept a, x.was_held, gone))
    | inr (e, there) ↦
        let u = in_use a e.payload e.priority x.was_held (ground (arith, x.all_kept a, there)) in
        rw
          (
            there,
            move_chunks-abort posix zbd held (taken_from g) zones_ok map_ok unwritten writes
                e.payload u.zone u.found w c.policy.max_zone_chunks 0 u.index u.chunk
                (omega (arith, u.size)) (omega arith)
                (omega (arith, u.size, get_elem?-lt u.zone.chunks u.index u.there)) u.there u.used,
          )
          refl
  ]

  collect_zone-abort : collect_zone posix zbd c w ≡ abort
  unfolding collect_zone
  collect_zone-abort =
      let h = c.policy.invalid_pqueue in
      bind-abort (ExtractedMin h) _ (extract_min h) (extract_min-Extracted h heap_ok.0 heap_ok.1)
        λ (g, taken) x. min-abort g taken _ x

  -- If the zone state manager, the cache map and the heap of the chunk policy have their
  -- invariants, no ID is being written, zn_write_out returns, at most two zones are free, the heap
  -- is not empty, and every zone in it is one of the pool with a chunk in use, then
  -- zn_policy_chunk_gc fails an assertion, whatever the device answers.
  pub chunk_gc-abort :
      (fuel : ℕ) → get_num_free_zones c.zone_state ≤ 2 → chunk_gc posix zbd (suc fuel) c w ≡ abort
  unfolding chunk_gc collect get_num_free_zones
  chunk_gc-abort fuel few = rw collect_zone-abort (ground (arith, few))
