-- ===== src/Cachemap/Race.antt =====
-- What can happen to a reader between the unlock of zn_cachemap_find and its copy of the result,
-- and what happens to IDs that an `int` cannot hold.
use znworkload.Prelude.{ℕ, ◌+◌, ◌<◌, ◌≤◌, ◌≡◌, ◌^◌, none, ◌∷◌, u32, arith}
use znworkload.Run.{ok, abort, crash, Returns-value}
use znworkload.Backend.{Pair}
use znworkload.Cachemap.{
  Cachemap, Table, int_key, cachemap_find, hit, read_result, clear_entries, cachemap_clear_zone,
}
use znworkload.Cachemap.View.{at, view, Inv}
use znworkload.Cachemap.Write.{Finds, cachemap_find-Finds}
use znworkload.Cachemap.Clear.{ZoneCleared, cachemap_clear_zone-ZoneCleared}

module _ (m m' : Cachemap) (id a : ℕ) (p : Pair) (v : Inv m) (seen : view m id ≡ at p)
    (found : cachemap_find m id ≡ ok (m', hit a)) where
  finds : Finds m id (m', hit a)
  finds = Returns-value (Finds m id) found (cachemap_find-Finds m id v)

  -- With the invariant, if zn_cachemap_find has found an ID at a location and nothing comes
  -- between, then the copy of the result is that location, and its zone has one more reader.
  pub find-read :
      (read_result m' a ≡ ok p) × (m'.active_readers p.zone ≡ u32 (m.active_readers p.zone + 1))
  unfolding read_result
  find-read = let (q, seen', known, there, v', e) = finds in ground (arith, seen, seen', there, e)

  -- With the invariant, if zn_cachemap_find has found an ID at a location and the location's zone
  -- is cleared before the thread copies the result, then the thread is already counted as a reader
  -- of the zone, and the copy reads freed memory.
  pub find-clear-read :
      (m'' : Cachemap)
      → cachemap_clear_zone m' p.zone ≡ ok m''
      → (m''.active_readers p.zone ≡ u32 (m.active_readers p.zone + 1))
        × (read_result m'' a ≡ crash)
  unfolding read_result
  find-clear-read m'' cleared =
      let (q, seen', known, there, v', e) = finds in
      let inside : p.zone < m'.num_zones = ground (arith, e, v.listed id p seen) in
      let r =
        Returns-value (ZoneCleared m' p.zone) cleared
          (cachemap_clear_zone-ZoneCleared m' p.zone v' inside) in
      ground (arith, r.readers, e, r.freed id a p, known, seen, seen')

-- If the first entry of the zone's table is an ID from 2^31 up to 2^32 - 1, and zone_map has no
-- key above 32 bits, then zn_cachemap_clear_zone fails an assertion.
pub cachemap_clear_zone-abort :
    (m : Cachemap) (zone c id : ℕ) (t : Table)
    → zone < m.num_zones
    → m.data_map zone ≡ (c, id) ∷ t
    → 2 ^ 31 ≤ id
    → id < 2 ^ 32
    → ((key : ℕ) → 2 ^ 32 ≤ key → m.zone_map key ≡ none)
    → cachemap_clear_zone m zone ≡ abort
unfolding cachemap_clear_zone clear_entries int_key
cachemap_clear_zone-abort m zone c id t inside listed large fits keys =
    ground (arith, inside, listed, keys (int_key id))
