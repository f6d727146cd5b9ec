-- ===== src/Cachemap.antt =====
-- include/cachemap.h and src/cachemap.c: from data IDs to locations, and from zones to data IDs.
-- The `struct zone_map_result` values lie in memory by address, so that a freed one can be told
-- apart; `zone_map` and the tables of `data_map` hold addresses and IDs as GLib's tables do.
-- A function runs under `cache_map_mutex`, so it is one step; find is one step up to its unlock or
-- its wait. The reference count of the condition variable is not modelled.
pub mod View
pub mod Tables
pub mod Drop
pub mod Write
pub mod Clear
pub mod ClearChunk
pub mod Race
pub mod Stays
mod Tests
use znworkload.Prelude.{
  ℕ, suc, ◌+◌, ◌^◌, Bool, true, false, ◌&&◌, Option, some, none, List, [], ◌∷◌, ◌==◌, if◌then◌else◌,
  ltb, u32, u64,
}
use znworkload.Run.{Run, ok, abort, crash, ◌>>=◌, ◌>>◌, assert, deref}
use znworkload.Backend.{Pair}

-- struct zone_map_result: where the data lies, or the condition variable of its writer
pub data MapResult : Type 0 where
  loc : Pair → MapResult
  cond : MapResult

-- One of the tables of data_map: chunk offsets with data IDs.
abbrev pub Table : Type 0
Table = List (ℕ × ℕ)

-- struct zn_cachemap, without its mutex, and the memory that it points to
pub record Cachemap : Type 0 where
  pub zone_map : ℕ → Option ℕ
  pub data_map : ℕ → Table
  pub num_zones : ℕ
  pub active_readers : ℕ → ℕ
  pub results : ℕ → Option MapResult
  pub next : ℕ

abbrev pub update {ℓ} : {A : Type ℓ} → (ℕ → A) → ℕ → A → ℕ → A
update f i v j = if i == j then v else f j

-- GINT_TO_POINTER of GPOINTER_TO_INT: an ID is read back as an `int`, whose sign is extended.
unfoldable pub int_key : ℕ → ℕ
int_key id = if ltb id (2 ^ 31) then id else u64 (id + 18446744069414584320)

-- The tables' g_hash_table_lookup, g_hash_table_insert and g_hash_table_remove
abbrev pub find_chunk : ℕ → Table → Option ℕ
find_chunk c [] = none
find_chunk c ((d, id) ∷ t) = if d == c then some id else find_chunk c t

abbrev pub put_chunk : ℕ → ℕ → Table → Table
put_chunk c id [] = (c, id) ∷ []
put_chunk c id ((d, old) ∷ t) = if d == c then (c, id) ∷ t else (d, old) ∷ put_chunk c id t

abbrev pub remove_chunk : ℕ → Table → Table
remove_chunk c [] = []
remove_chunk c ((d, id) ∷ t) = if d == c then t else (d, id) ∷ remove_chunk c t

-- `assert(g_hash_table_contains(map->zone_map, key))`, the lookup after it, and the result there
abbrev pub contained : Option ℕ → Run ℕ
contained (some a) = ok a
contained none = abort

-- `assert(res->type == RESULT_LOC)`, and `assert(res->type == RESULT_COND)`
abbrev pub located : MapResult → Run Pair
located (loc p) = ok p
located cond = abort

abbrev pub pending : MapResult → Run (Unit {0})
pending (loc p) = abort
pending cond = ok tt

-- `data_map[zone]`
abbrev pub table : Cachemap → ℕ → Run Table
table m zone = if ltb zone m.num_zones then ok (m.data_map zone) else crash

-- g_hash_table_remove from zone_map, and g_free of the result
abbrev pub drop_result : Cachemap → ℕ → ℕ → Cachemap
drop_result m key a = record m {
  zone_map = update m.zone_map key none;
  results = update m.results a none;
}

-- How the critical section of zn_cachemap_find ends: a reader goes on to copy the result, a thread
-- sleeps until the writer is done, or the thread becomes the writer.
pub data Find : Type 0 where
  hit : ℕ → Find
  wait : Find
  write_it : Find

find_result : Cachemap → ℕ → MapResult → Run (Cachemap × Find)
find_result m a cond = ok (m, wait)
find_result m a (loc p) =
    if ltb p.zone m.num_zones
    then ok (
      record m {
        active_readers = update m.active_readers p.zone (u32 (m.active_readers p.zone + 1));
      },
      hit a,
    )
    else crash

find_entry : Cachemap → ℕ → Option ℕ → Run (Cachemap × Find)
find_entry m id (some a) = do r ← deref (m.results a); find_result m a r
find_entry m id none = ok (
  record m {
    zone_map = update m.zone_map id (some m.next);
    results = update m.results m.next (some cond);
    next = m.next + 1;
  },
  write_it,
)

-- zn_cachemap_find, one turn of its loop
unfoldable pub cachemap_find : Cachemap → ℕ → Run (Cachemap × Find)
unfolding find_entry find_result
cachemap_find m id = find_entry m id (m.zone_map id)

-- `return *lookup;`, which runs after the mutex is released
unfoldable pub read_result : Cachemap → ℕ → Run Pair
read_result m a = do r ← deref (m.results a); located r

-- zn_cachemap_insert
unfoldable pub cachemap_insert : Cachemap → ℕ → Pair → Run Cachemap
cachemap_insert m id p = do
  a ← contained (m.zone_map id)
  r ← deref (m.results a)
  pending r
  t ← table m p.zone
  ok (record m {
    results = update m.results a (some (loc p));
    data_map = update m.data_map p.zone (put_chunk p.chunk_offset id t);
  })

-- GPOINTER_TO_INT of a lookup that may give NULL
abbrev id_or_zero : Option ℕ → ℕ
id_or_zero none = 0
id_or_zero (some id) = id

-- zn_cachemap_clear_chunk
unfoldable pub cachemap_clear_chunk : Cachemap → Pair → Run Cachemap
cachemap_clear_chunk m p = do
  t ← table m p.zone
  let key = int_key (id_or_zero (find_chunk p.chunk_offset t))
  a ← contained (m.zone_map key)
  r ← deref (m.results a)
  q ← located r
  assert (q.zone == p.zone)
  assert (q.chunk_offset == p.chunk_offset)
  let m' = drop_result m key a
  ok (record m' { data_map = update m.data_map p.zone (remove_chunk p.chunk_offset t) })

-- The loop of zn_cachemap_clear_zone, in the order in which the iterator meets the entries.
unfoldable pub clear_entries : ℕ → Table → Cachemap → Run Cachemap
clear_entries zone [] m = ok m
clear_entries zone ((c, id) ∷ t) m = do
  a ← contained (m.zone_map (int_key id))
  r ← deref (m.results a)
  q ← located r
  assert (q.zone == zone)
  clear_entries zone t (drop_result m (int_key id) a)

-- zn_cachemap_clear_zone
unfoldable pub cachemap_clear_zone : Cachemap → ℕ → Run Cachemap
cachemap_clear_zone m zone = do
  t ← table m zone
  m' ← clear_entries zone t m
  ok (record m' { data_map = update m'.data_map zone [] })

-- zn_cachemap_fail
unfoldable pub cachemap_fail : Cachemap → ℕ → Run Cachemap
cachemap_fail m id = do
  a ← contained (m.zone_map id)
  r ← deref (m.results a)
  pending r
  ok (drop_result m id a)

-- A map that knows no ID, with one table for each zone and the readers' counters that it is given
unfoldable pub empty_map : ℕ → (ℕ → ℕ) → Cachemap
empty_map num_zones readers = record {
  zone_map = λ _. none;
  data_map = λ _. [];
  num_zones = num_zones;
  active_readers = readers;
  results = λ _. none;
  next = 0;
}

-- zn_cachemap_init: `num_zones` is an int, and g_new aborts on a negative number of tables.
unfoldable pub cachemap_init : ℕ → (ℕ → ℕ) → Run Cachemap
cachemap_init num_zones readers =
    if ltb num_zones 2147483648 then ok (empty_map num_zones readers) else abort
