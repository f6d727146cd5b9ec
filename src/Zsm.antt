-- ===== src/Zsm.antt =====
-- include/zone_state_manager.h and src/zone_state_manager.c: the zone state manager.
-- Pointers to `struct zn_zone` are indices into the array `zones`, so the queues `active` and
-- `free` share the array's entries as they do in C. Every function here runs under `state_mutex`
-- from its first access to its last, so it is one atomic step on the state.
pub mod Invariant
pub mod Move
pub mod Held
pub mod Return
pub mod Evict
pub mod Init
pub mod Clients
mod Tests
pub mod Get
use znworkload.Prelude.{
  ℕ, zero, suc, ◌+◌, ◌/◌, Bool, true, false, ◌&&◌, ◌||◌, List, [], ◌∷◌, ◌++◌, ltb, leb, ◌==◌,
  if◌then◌else◌, u32, minus_one, length, get_elem?, set, count,
}
use znworkload.Run.{Run, ok, crash, ◌>>=◌, ◌>>◌, assert, deref, pop_head}
use znworkload.Backend.{Backend, zns, block, Pair, chunk_pointer}

-- enum zn_zone_condition
pub data Condition : Type 0 where
  free full active write_occuring : Condition

abbrev pub is_free : Condition → Bool
is_free free = true
is_free _ = false

abbrev pub is_full : Condition → Bool
is_full full = true
is_full _ = false

abbrev pub is_active : Condition → Bool
is_active active = true
is_active _ = false

abbrev pub is_writing : Condition → Bool
is_writing write_occuring = true
is_writing _ = false

-- struct zn_zone
pub record Zone : Type 0 where
  pub state : Condition
  pub zone_id : ℕ
  pub chunk_offset : ℕ
  pub invalid : List ℕ

-- struct zone_state_manager, without its mutex
pub record Zsm : Type 0 where
  pub active_queue : List ℕ
  pub free_queue : List ℕ
  pub zones : List Zone
  pub writes_occurring : ℕ
  pub fd : ℕ
  pub zone_cap : ℕ
  pub zone_size : ℕ
  pub chunk_size : ℕ
  pub max_nr_active_zones : ℕ
  pub max_zone_chunks : ℕ
  pub num_zones : ℕ
  pub backend_type : Backend

-- The calls into libzbd during one operation: file descriptor, offset and length to the result.
pub record Zbd : Type 0 where
  pub open_zones : ℕ → ℕ → ℕ → ℕ
  pub finish_zones : ℕ → ℕ → ℕ → ℕ
  pub reset_zones : ℕ → ℕ → ℕ → ℕ

-- enum zsm_get_active_zone_error, with the out parameter of the successful case
pub data ActiveZone : Type 0 where
  success : Pair → ActiveZone
  retry error evict : ActiveZone

abbrev pub zone_at : Zsm → ℕ → Run Zone
zone_at s i = deref (get_elem? s.zones i)

abbrev pub put : Zsm → ℕ → Zone → Zsm
put s i z = record s { zones = set s.zones i z }

-- g_queue_get_length, a guint
abbrev pub queue_length : List ℕ → ℕ
queue_length q = u32 (length q)

-- The write pointer of a zone's first chunk.
abbrev pub zone_start : Zsm → Zone → ℕ
zone_start s z = chunk_pointer s.zone_size s.chunk_size 0 z.zone_id

-- `if (backend_type == ZE_BACKEND_ZNS) ret = …`, with `ret` 0 before it
abbrev pub on_zns : Backend → ℕ → ℕ
on_zns zns ret = ret
on_zns block ret = 0

-- close_zone: the code that it returns, and the state after it
unfoldable pub close_zone : Zbd → Zsm → ℕ → Zone → Zsm × ℕ
close_zone zbd s i z =
    if is_full z.state
    then (s, 0)
    else (let ret = on_zns s.backend_type (zbd.finish_zones s.fd (zone_start s z) s.zone_cap) in
        if ret == 0 then (put s i (record z { state = full; chunk_offset = 0 }), 0) else (s, ret))

-- reset_zone
unfoldable pub reset_zone : Zbd → Zsm → ℕ → Zone → Zsm × ℕ
reset_zone zbd s i z =
    if is_free z.state
    then (s, 0)
    else (let ret = on_zns s.backend_type (zbd.reset_zones s.fd (zone_start s z) s.zone_cap) in
        if ret == 0
        then (
          record s {
            zones = set s.zones i (record z { state = free; chunk_offset = 0 });
            free_queue = s.free_queue ++ i ∷ [];
          },
          0,
        )
        else (s, ret))

-- open_zone
unfoldable pub open_zone : Zbd → Zsm → ℕ → Run (Zsm × ℕ)
open_zone zbd s i = do
  z ← zone_at s i
  assert (is_free z.state)
  let ret = on_zns s.backend_type (zbd.open_zones s.fd (zone_start s z) 1)
  if leb s.max_nr_active_zones (u32 (queue_length s.active_queue + s.writes_occurring))
      then ok (s, minus_one)
      else if ret == 0
      then ok (
        record s {
          zones = set s.zones i (record z { state = active; chunk_offset = 0 });
          active_queue = s.active_queue ++ i ∷ [];
        },
        0,
      )
      else ok (s, ret)

-- The end of zsm_get_active_zone: hand out the head of the active queue.
unfoldable pub take_active : Zsm → Run (Zsm × ActiveZone)
take_active s = do
  (i, rest) ← pop_head s.active_queue
  z ← zone_at s i
  assert (is_active z.state)
  let pair : Pair = record {
    zone = z.zone_id;
    chunk_offset = z.chunk_offset;
    id = 0;
    in_use = false;
  }
  ok (
    record s {
      active_queue = rest;
      zones = set s.zones i (record z { state = write_occuring });
      writes_occurring = u32 (s.writes_occurring + 1);
    },
    success pair,
  )

-- The branch of zsm_get_active_zone that opens the head of the free queue.
unfoldable pub open_free : Zbd → Zsm → Run (Zsm × ActiveZone)
open_free zbd s = do
  (i, rest) ← pop_head s.free_queue
  z ← zone_at s i
  assert (is_free z.state)
  (opened, ret) ← open_zone zbd (record s { free_queue = rest }) i
  if ret == 0 then take_active opened else ok (opened, error)

-- zsm_get_active_zone
unfoldable pub get_active_zone : Zbd → Zsm → Run (Zsm × ActiveZone)
get_active_zone zbd s =
    let active_size = queue_length s.active_queue in
    let writer_size = s.writes_occurring in
    let free_size = queue_length s.free_queue in
    if u32 (active_size + writer_size) == 0 && free_size == 0
    then ok (s, evict)
    else (assert (ltb 0 (u32 (active_size + writer_size)) || ltb 0 free_size)
        >> (if active_size == 0
            then (if ltb (u32 (active_size + writer_size)) s.max_nr_active_zones && ltb 0 free_size
                then open_free zbd s
                else ok (s, retry))
            else take_active s))

-- The asserts on entry to zsm_return_active_zone and zsm_failed_to_write.
abbrev pub within_limit : Zsm → Bool
within_limit s = leb (u32 (queue_length s.active_queue + s.writes_occurring)) s.max_nr_active_zones

-- `writes_occurring--`
abbrev pub writer_done : Zsm → Zsm
writer_done s = record s { writes_occurring = u32 (s.writes_occurring + 4294967295) }

-- zsm_return_active_zone
unfoldable pub return_active_zone : Zbd → Zsm → Pair → Run (Zsm × ℕ)
return_active_zone zbd s p = do
  assert (within_limit s)
  z ← zone_at s p.zone
  assert (is_writing z.state)
  assert (z.chunk_offset == p.chunk_offset)
  let z' = record z { chunk_offset = u32 (z.chunk_offset + 1) }
  let t = put (writer_done s) p.zone z'
  if z'.chunk_offset == s.max_zone_chunks
      then ok (close_zone zbd t p.zone z')
      else ok (
        record t {
          zones = set t.zones p.zone (record z' { state = active });
          active_queue = t.active_queue ++ p.zone ∷ [];
        },
        0,
      )

-- zsm_failed_to_write
unfoldable pub failed_to_write : Zsm → Pair → Run Zsm
failed_to_write s p = do
  assert (within_limit s)
  z ← zone_at s p.zone
  assert (is_writing z.state)
  assert (z.chunk_offset == p.chunk_offset)
  assert (ltb z.chunk_offset s.max_zone_chunks)
  ok (record (writer_done s) {
    zones = set s.zones p.zone (record z { state = active });
    active_queue = s.active_queue ++ p.zone ∷ [];
  })

-- zsm_evict, with its test of the result of reset_zone as the source has it. `zone_to_free` is an
-- int there: the index is one that it holds, below 2^31.
unfoldable pub evict_zone : Zbd → Zsm → ℕ → Run (Zsm × ℕ)
evict_zone zbd s i = do
  z ← zone_at s i
  assert (is_full z.state)
  let (t, ret) = reset_zone zbd s i z
  if ret == 0 then ok (t, ret) else do
    z' ← zone_at t i
    assert (is_free z'.state)
    ok (put t i (record z' { invalid = [] }), 0)

-- zsm_mark_chunk_invalid
unfoldable pub mark_chunk_invalid : Zsm → Pair → Run Zsm
mark_chunk_invalid s p = do
  z ← zone_at s p.zone
  ok (put s p.zone (record z { invalid = z.invalid ++ p.chunk_offset ∷ [] }))

-- zsm_get_num_active_zones
unfoldable pub get_num_active_zones : Zsm → ℕ
get_num_active_zones s = u32 (queue_length s.active_queue + s.writes_occurring)

-- zsm_get_num_free_zones
unfoldable pub get_num_free_zones : Zsm → ℕ
get_num_free_zones s = queue_length s.free_queue

-- zsm_get_num_full_zones; the loop runs over the array
unfoldable pub get_num_full_zones : Zsm → ℕ
get_num_full_zones s = count (λ z. is_full z.state) s.zones

-- zsm_get_num_invalid_chunks
unfoldable pub get_num_invalid_chunks : Zsm → ℕ → Run ℕ
get_num_invalid_chunks s i = do z ← zone_at s i; ok (queue_length z.invalid)

-- The loop of zsm_init, with the rounds left first: zones `i`, `i + 1` and so on.
unfoldable pub init_zones : ℕ → ℕ → List Zone
init_zones zero i = []
init_zones (suc k) i =
    record { state = free; zone_id = i; chunk_offset = 0; invalid = [] } ∷ init_zones k (i + 1)

-- What the same loop pushes on the free queue.
unfoldable pub init_free : ℕ → ℕ → List ℕ
init_free zero i = []
init_free (suc k) i = i ∷ init_free k (i + 1)

-- zsm_init; a chunk size of 0 divides by zero
unfoldable pub init : ℕ → ℕ → ℕ → ℕ → ℕ → ℕ → Backend → Run Zsm
unfolding init_zones init_free
init num_zones fd zone_cap zone_size chunk_size max_nr_active_zones backend =
    if chunk_size == 0
    then crash
    else ok (record {
      active_queue = [];
      free_queue = init_free num_zones 0;
      zones = init_zones num_zones 0;
      writes_occurring = 0;
      fd = fd;
      zone_cap = zone_cap;
      zone_size = zone_size;
      chunk_size = chunk_size;
      max_nr_active_zones = max_nr_active_zones;
      max_zone_chunks = zone_cap / chunk_size;
      num_zones = num_zones;
      backend_type = backend;
    })
