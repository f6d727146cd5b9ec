-- ===== src/Concurrent.antt =====
-- zn_cache_get and zn_fg_evict of src/cache.c with the promotional policy, run by any number of
-- threads. A step is one call that runs under a mutex, one atomic operation, or one access of the
-- device; a schedule says which thread takes the next step and what the device answers to it.
-- The device is kept as what was written to its chunks, and whether a write has gone past the end
-- of its chunk: znworkload.Disk says how the bytes get there. The hit ratio and the profiler, which no step reads, are left out.
pub mod Places
pub mod Held
pub mod Zones
pub mod Invariant
pub mod Frame
pub mod Reader
pub mod Lookup
pub mod Hit
pub mod Writer
pub mod Store
pub mod Give
pub mod Note
pub mod Publish
pub mod Evictor
pub mod Clearing
pub mod Resetting
pub mod Intact
pub mod Safe
pub mod Progress
pub mod Moving
pub mod Start
pub mod Race
pub mod Live
pub mod Session
mod Tests
mod RaceTests
use znworkload.Prelude.{
  ℕ, zero, suc, Bool, true, false, ◌&&◌, Option, some, none, List, [], ◌∷◌, ◌==◌, if◌then◌else◌,
  minus_one, get_elem?, set,
}
use znworkload.Run.{Run, ok, ◌>>=◌, ◌>>◌, assert}
use znworkload.Backend.{Pair}
use znworkload.Chunks.{Contents, Io, Layout, confined, put_chunk_content, reset_content, content_at}
use znworkload.Zsm.{
  Zsm, Zbd, ActiveZone, success, retry, error, evict, get_active_zone, return_active_zone,
  failed_to_write, evict_zone,
}
use znworkload.Cachemap.{
  Cachemap, MapResult, loc, cond, Find, hit, wait, write_it, cachemap_find, read_result,
  cachemap_insert, cachemap_fail, cachemap_clear_zone,
}
use znworkload.Promotional.{Policy, read, write, promotional_update, get_zone_to_evict}
use znworkload.Eviction.{to_evict, positive}
use znworkload.Get.{reader_done}

-- What a call of zn_cache_get may return for its ID: NULL (`none`), a chunk whose last write failed
-- (`some none`), or the chunk of an ID.
abbrev pub Chunk : Type 0
Chunk = Option (Option ℕ)

-- Where a thread is. The reader's states come first, then the writer's, then those of zn_fg_evict,
-- which a writer runs for its ID and the eviction thread for `none`, with the rounds left and the
-- zone. `copying` also keeps, for the statements, the location that the result had at the lookup.
pub data Pc : Type 0 where
  idle : Pc
  finding : ℕ → Pc
  copying : ℕ → ℕ → Pair → Pc
  reading : ℕ → Pair → Pc
  promoting leaving : ℕ → Pair → Chunk → Pc
  done : ℕ → Chunk → Pc
  locating : ℕ → Pc
  writing returning noting publishing failing : ℕ → Pair → Pc
  undoing : ℕ → Pc
  counting : Option ℕ → Pc
  choosing : Option ℕ → ℕ → Pc
  clearing waiting resetting : Option ℕ → ℕ → ℕ → Pc

-- struct zn_cache as the threads share it, the device, and the threads
pub record System : Type 0 where
  pub layout : Layout
  pub cache_map : Cachemap
  pub eviction_policy : Policy
  pub zone_state : Zsm
  pub contents : Contents
  pub threads : List Pc

-- A thread calls zn_cache_get for an ID, or zn_fg_evict; or it goes on, with the result of a read
-- or a write and the device's answers.
pub data Event : Type 0 where
  get : ℕ → ℕ → Event
  fg_evict : ℕ → Event
  go_on : ℕ → Io → Zbd → Event

abbrev pub enter : System → ℕ → Pc → System
enter s i t = record s { threads = set s.threads i t }

abbrev result_location : Option MapResult → Pair
result_location (some (loc p)) = p
result_location _ = record { zone = 0; chunk_offset = 0; id = 0; in_use = false }

-- Where zn_cachemap_find leads; a thread that waits looks again when the writer has signalled.
abbrev pub after_find : Cachemap → ℕ → Find → Pc
after_find m id (hit a) = copying id a (result_location (m.results a))
after_find m id wait = finding id
after_find m id write_it = locating id

-- The loop of zn_cache_get around zsm_get_active_zone
abbrev pub after_location : ℕ → ActiveZone → Pc
after_location id (success p) = writing id p
after_location id retry = locating id
after_location id error = undoing id
after_location id evict = counting (some id)

-- zn_fg_evict returns to its caller.
abbrev pub after_evict : Option ℕ → Pc
after_evict none = idle
after_evict (some id) = locating id

-- One step of the hit branch.
unfoldable pub reader_step : System → ℕ → Io → Pc → Run System
reader_step s i io (finding id) = do
  (m, r) ← cachemap_find s.cache_map id
  ok (enter (record s { cache_map = m }) i (after_find s.cache_map id r))
reader_step s i io (copying id a p) = do
  q ← read_result s.cache_map a
  ok (enter s i (reading id q))
reader_step s i io (reading id p) =
    ok (enter s i (promoting id p (if io.success then some (content_at s.contents p) else none)))
reader_step s i io (promoting id p d) = do
  policy ← promotional_update s.eviction_policy p read
  ok (enter (record s { eviction_policy = policy }) i (leaving id p d))
reader_step s i io (leaving id p d) =
    ok (enter (record s { cache_map = reader_done s.cache_map p.zone }) i (done id d))
reader_step s i io _ = ok s

-- One step of the miss branch.
unfoldable pub writer_step : System → ℕ → Io → Zbd → Pc → Run System
writer_step s i io zbd (locating id) = do
  (t, r) ← get_active_zone zbd s.zone_state
  ok (enter (record s { zone_state = t }) i (after_location id r))
writer_step s i io zbd (writing id p) =
    let d = if io.success then some id else none in
    ok (
      enter (record s { contents = put_chunk_content s.contents (confined s.layout io) p d }) i
        (if io.success then returning id p else failing id p))
writer_step s i io zbd (returning id p) = do
  (t, _) ← return_active_zone zbd s.zone_state p
  ok (enter (record s { zone_state = t }) i (noting id p))
writer_step s i io zbd (noting id p) = do
  policy ← promotional_update s.eviction_policy p write
  ok (enter (record s { eviction_policy = policy }) i (publishing id p))
writer_step s i io zbd (publishing id p) = do
  m ← cachemap_insert s.cache_map id p
  ok (enter (record s { cache_map = m }) i (done id (some (some id))))
writer_step s i io zbd (failing id p) = do
  t ← failed_to_write s.zone_state p
  ok (enter (record s { zone_state = t }) i (undoing id))
writer_step s i io zbd (undoing id) = do
  m ← cachemap_fail s.cache_map id
  ok (enter (record s { cache_map = m }) i (done id none))
writer_step s i io zbd _ = ok s

-- One step of zn_fg_evict: its count of free zones, and its loop with the rounds left.
unfoldable pub evictor_step : System → ℕ → Zbd → Pc → Run System
evictor_step s i zbd (counting r) = ok (enter s i (choosing r (to_evict s.zone_state)))
evictor_step s i zbd (choosing r zero) = ok (enter s i (after_evict r))
evictor_step s i zbd (choosing r (suc k)) = do
  (policy, zone) ← get_zone_to_evict s.eviction_policy
  ok (
      enter (record s { eviction_policy = policy }) i
        (if zone == minus_one then after_evict r else clearing r k zone))
evictor_step s i zbd (clearing r k zone) = do
  m ← cachemap_clear_zone s.cache_map zone
  ok (enter (record s { cache_map = m }) i (waiting r k zone))
evictor_step s i zbd (waiting r k zone) = ok (
    enter s i
      (if positive (s.cache_map.active_readers zone) then waiting r k zone else resetting r k zone))
evictor_step s i zbd (resetting r k zone) = do
  (t, ret) ← evict_zone zbd s.zone_state zone
  assert (ret == 0)
  let contents = reset_content s.contents s.zone_state.backend_type zone
  ok (enter (record s { zone_state = t; contents = contents }) i (choosing r k))
evictor_step s i zbd _ = ok s

-- The step of a thread at its place; a thread with no call does nothing.
unfoldable pub thread_step : System → ℕ → Io → Zbd → Pc → Run System
unfolding reader_step writer_step evictor_step
thread_step s i io zbd t = elim t [
  | idle ↦ ok s
  | finding id ↦ reader_step s i io (finding id)
  | copying id a p ↦ reader_step s i io (copying id a p)
  | reading id p ↦ reader_step s i io (reading id p)
  | promoting id p d ↦ reader_step s i io (promoting id p d)
  | leaving id p d ↦ reader_step s i io (leaving id p d)
  | done id d ↦ ok s
  | counting r ↦ evictor_step s i zbd (counting r)
  | choosing r k ↦ evictor_step s i zbd (choosing r k)
  | clearing r k z ↦ evictor_step s i zbd (clearing r k z)
  | waiting r k z ↦ evictor_step s i zbd (waiting r k z)
  | resetting r k z ↦ evictor_step s i zbd (resetting r k z)
  | t ↦ writer_step s i io zbd t
]

-- A thread takes a new call when it has none; other threads and calls are ignored.
abbrev pub called : Pc → Pc → Pc
called idle t = t
called (done id d) t = t
called old t = old

abbrev pub started : System → ℕ → Pc → Option Pc → System
started s i t none = s
started s i t (some old) = enter s i (called old t)

unfoldable pub step : System → Event → Run System
unfolding thread_step
step s (get i id) = ok (started s i (finding id) (get_elem? s.threads i))
step s (fg_evict i) = ok (started s i (counting none) (get_elem? s.threads i))
step s (go_on i io zbd) = elim (get_elem? s.threads i) [
  | none ↦ ok s
  | some t ↦ thread_step s i io zbd t
]

unfoldable pub run : System → List Event → Run System
run s [] = ok s
run s (e ∷ es) = do t ← step s e; run t es
