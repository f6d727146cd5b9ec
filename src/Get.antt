-- ===== src/Get.antt =====
-- zn_cache_get of src/cache.c with the promotional policy, for a thread that runs alone: a wait for
-- another thread never ends, which is a crash. The times and the profiler are left out.
pub mod Hit
pub mod Failure
pub mod Miss
mod Tests
use znworkload.Prelude.{ℕ, zero, suc, ◌+◌, Option, some, none, ◌==◌, if◌then◌else◌, u32, u64}
use znworkload.Run.{Run, ok, crash, ◌>>=◌}
use znworkload.Backend.{Pair}
use znworkload.Zsm.{
  Zbd, get_active_zone, ActiveZone, success, retry, error, evict, return_active_zone,
  failed_to_write,
}
use znworkload.Cachemap.{
  Cachemap, Find, hit, wait, write_it, cachemap_find, read_result, cachemap_insert, cachemap_fail,
  update,
}
use znworkload.Promotional.{promotional_update, read, write}
use znworkload.Disk.{Posix, read_from_disk, write_chunk, gen_write_buffer}
use znworkload.Profiler.{Double}
use znworkload.Eviction.{Cache, fg_evict}

-- struct zn_cache_hitratio, without its lock
pub record Ratio : Type 0 where
  pub hits : ℕ
  pub misses : ℕ

-- zn_cache_get_hit_ratio
abbrev pub get_hit_ratio : {D : Type 0} → Double D → Ratio → D
get_hit_ratio double ratio =
    let den = u64 (ratio.misses + ratio.hits) in
    if den == 0 then double.zero_value else double.over (double.of_count ratio.hits) den

-- The loop that asks for a location until there is one, or the device fails (`none`).
unfoldable pub get_location : ℕ → Zbd → Cache → Run (Cache × Option Pair)
get_location zero zbd c = crash
get_location (suc fuel) zbd c = do
  (t, r) ← get_active_zone zbd c.zone_state
  let d = record c { zone_state = t }
  elim r [
    | success p ↦ ok (d, some p)
    | retry ↦ get_location fuel zbd d
    | error ↦ ok (d, none)
    | evict ↦ do e ← fg_evict zbd d; get_location fuel zbd e
  ]

-- `g_atomic_int_dec_and_test(&cache->active_readers[zone])`
abbrev pub reader_done : Cachemap → ℕ → Cachemap
reader_done m zone = record m {
  active_readers = update m.active_readers zone (u32 (m.active_readers zone + 4294967295));
}

module _ {World : Type 0} (posix : Posix World) (zbd : Zbd) (id : ℕ) (random_buffer : ℕ → ℕ) where
  -- What a call leaves, with the chunk that it returns or `none` for NULL.
  pub record Got : Type 0 where
    pub cache : Cache
    pub world : World
    pub ratio : Ratio
    pub chunk : Option (ℕ → ℕ)

  -- The branch for a result with a location.
  unfoldable pub get_hit : Cache → World → Ratio → Pair → Run Got
  get_hit c w ratio p = do
    let s = c.zone_state
    policy ← promotional_update c.eviction_policy p read
    ok (record {
      cache = record c { eviction_policy = policy; cache_map = reader_done c.cache_map p.zone };
      world = w;
      ratio = record ratio { hits = u64 (ratio.hits + 1) };
      chunk = read_from_disk posix s.zone_size s.chunk_size p w;
    })

  -- UNDO_MAP
  unfoldable pub undo_map : Cache → World → Ratio → Run Got
  undo_map c w ratio = do
    m ← cachemap_fail c.cache_map id
    ok (record { cache = record c { cache_map = m }; world = w; ratio = ratio; chunk = none })

  -- The write to a location, and UNDO_ZONE_GET if it fails.
  unfoldable pub get_write : Cache → World → Ratio → Pair → Run Got
  unfolding undo_map
  get_write c w ratio p = do
    let s = c.zone_state
    (w', ret) ← write_chunk posix s.zone_size s.chunk_size id random_buffer p w
    if ret == 0
        then (do
          (t, _) ← return_active_zone zbd s p
          policy ← promotional_update c.eviction_policy p write
          m ← cachemap_insert c.cache_map id p
          ok (record {
            cache = record { cache_map = m; eviction_policy = policy; zone_state = t };
            world = w';
            ratio = record ratio { misses = u64 (ratio.misses + 1) };
            chunk = some (gen_write_buffer id random_buffer);
          }))
        else (do t ← failed_to_write s p; undo_map (record c { zone_state = t }) w' ratio)

  unfoldable pub get_miss : ℕ → Cache → World → Ratio → Run Got
  unfolding get_location get_write undo_map
  get_miss fuel c w ratio = do
    (d, location) ← get_location fuel zbd c
    elim location [ some p ↦ get_write d w ratio p | none ↦ undo_map d w ratio ]

  -- zn_cache_get
  unfoldable pub cache_get : ℕ → Cache → World → Ratio → Run Got
  unfolding get_hit get_miss
  cache_get fuel c w ratio = do
    (m, r) ← cachemap_find c.cache_map id
    let d = record c { cache_map = m }
    elim r [
      | hit a ↦ do p ← read_result m a; get_hit d w ratio p
      | wait ↦ crash
      | write_it ↦ get_miss fuel d w ratio
    ]
