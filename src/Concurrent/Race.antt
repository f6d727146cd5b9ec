-- ===== src/Concurrent/Race.antt =====
-- What goes wrong in src/cache.c if a zone is cleared while a thread that wrote its chunk there has
-- not yet inserted its entry: the policy has heard of the zone before the map does.
use znworkload.Prelude.{
  false, ℕ, ◌<◌, ◌≡◌, ◌≢◌, refl, true, Option, some, none, List, [], ◌∷◌, arith, get_elem?,
  get_elem?-set, get_elem?-lt, length, length-set, set,
}
use znworkload.Run.{ok, Returns, Returns-ok}
use znworkload.Backend.{Backend, zns, block, Pair}
use znworkload.Zsm.{Zsm, Zbd, Zone, is_free, full, zone_start, evict_zone}
use znworkload.Zsm.Evict.{Evicted, evict_zone-Evicted, reset_code}
use znworkload.Cachemap.{Cachemap, cachemap_clear_zone, cachemap_insert}
use znworkload.Cachemap.View.{State, view, at}
use znworkload.Cachemap.Write.{Inserted, cachemap_insert-Inserted}
use znworkload.Cachemap.Clear.{ZoneCleared, cachemap_clear_zone-ZoneCleared}
use znworkload.Eviction.{positive}
use znworkload.Chunks.{Io, reset_content, content_at}
use znworkload.Concurrent.{
  System, Pc, publishing, choosing, clearing, waiting, resetting, go_on, step, run, thread_step,
  writer_step, evictor_step,
}
use znworkload.Concurrent.Places.{full_zone, number-get}
use znworkload.Concurrent.Held.{held_of}
use znworkload.Concurrent.Invariant.{Inv, FullZone}
use znworkload.Concurrent.Give.{Obeys}
use znworkload.Concurrent.Publish.{fetched}

-- A thread that is there takes the step of its place.
pub step-there :
    (s : System) (i : ℕ) (io : Io) (zbd : Zbd) (t : Pc)
    → get_elem? s.threads i ≡ some t
    → step s (go_on i io zbd) ≡ thread_step s i io zbd t
unfolding step
step-there s i io zbd t e = rw (e, step) refl

-- What the reset of its zone leaves of the chunk of an ID
abbrev pub left_of : Backend → ℕ → Option ℕ
left_of zns id = none
left_of block id = some id

-- The map leads to a chunk of a free zone, which holds no data any more on a ZNS device.
abbrev pub Lost : Backend → ℕ → Pair → System → Type 0
Lost backend id p s =
    (view s.cache_map id ≡ at p)
    × (content_at s.contents p ≡ left_of backend id)
    × ((z : Zone) × (get_elem? s.zone_state.zones p.zone ≡ some z) × (is_free z.state ≡ true))

module _ (s : System) (i j : ℕ) (v : Inv s) (id k : ℕ) (r : Option ℕ) (p : Pair)
    (writer : get_elem? s.threads i ≡ some (publishing id p))
    (evictor : get_elem? s.threads j ≡ some (clearing r k p.zone))
    (unread : s.cache_map.active_readers p.zone ≡ 0) (io : Io) (zbd : Zbd) (obeys : Obeys zbd)
    (intact : s.contents.intact ≡ true) where
  apart : i ≢ j
  apart same =
      let e : some (publishing id p) ≡ some (clearing r k p.zone) =
        ground (arith, writer, evictor, same) in
      absurd (ground arith)

  filled : FullZone s.zone_state.zones p.zone
  filled =
      let max = s.zone_state.max_zone_chunks in
      let n =
        number-get (full_zone max) p.zone s.threads j (clearing r k p.zone) evictor
          (ground arith) in
      v.tokens.full p.zone (omega (arith, n))

  inside : p.zone < s.cache_map.num_zones
  inside =
      let lt = get_elem?-lt s.zone_state.zones p.zone filled.there in
      omega (arith, lt, v.same_num, v.alloc.sizes.zones_length)

  is_filled : filled.zone.state ≡ full
  is_filled = ground (arith, filled.filled)

  code : reset_code zbd s.zone_state filled.zone ≡ 0
  code =
      let wp = zone_start s.zone_state filled.zone in
      ground (arith, obeys.does_reset s.zone_state.fd wp s.zone_state.zone_cap)

  threads_at :
      (t : Pc) (ts : List Pc) → length ts ≡ length s.threads → get_elem? (set ts j t) j ≡ some t
  threads_at t ts e =
      let lt = get_elem?-lt s.threads j evictor in
      ground (arith, get_elem?-set ts j j t (omega (arith, lt, e)))

  abbrev Gone : Zsm × ℕ → Type 0
  Gone = Evicted s.zone_state (held_of s.threads) p.zone filled.zone

  module _ (m : Cachemap) (c : ZoneCleared s.cache_map p.zone m)
      (ran : cachemap_clear_zone s.cache_map p.zone ≡ ok m) (zs : Zsm) (ret : ℕ)
      (reset : evict_zone zbd s.zone_state p.zone ≡ ok (zs, ret)) (g : Gone (zs, ret)) where
    abbrev ts1 : List Pc
    ts1 = set s.threads j (waiting r k p.zone)

    abbrev ts2 : List Pc
    ts2 = set ts1 j (resetting r k p.zone)

    abbrev ts3 : List Pc
    ts3 = set ts2 j (choosing r k)

    same1 : length ts1 ≡ length s.threads
    same1 = length-set s.threads j (waiting r k p.zone)

    same2 : length ts2 ≡ length s.threads
    same2 = omega (arith, same1, length-set ts1 j (resetting r k p.zone))

    abbrev s1 : System
    s1 = record s { cache_map = m; threads = ts1 }

    abbrev s2 : System
    s2 = record s1 { threads = ts2 }

    abbrev s3 : System
    s3 = record s2 {
      zone_state = zs;
      contents = reset_content s.contents s.zone_state.backend_type p.zone;
      threads = ts3;
    }

    first : step s (go_on j io zbd) ≡ ok s1
    unfolding thread_step evictor_step
    first =
        rw (step-there s j io zbd (clearing r k p.zone) evictor, thread_step, evictor_step, ran)
          refl

    second : step s1 (go_on j io zbd) ≡ ok s2
    unfolding thread_step evictor_step
    second =
        let there = threads_at (waiting r k p.zone) s.threads refl in
        let test : positive (m.active_readers p.zone) ≡ false = ground (arith, unread, c.readers) in
        rw (step-there s1 j io zbd (waiting r k p.zone) there, thread_step, evictor_step, test) refl

    third : step s2 (go_on j io zbd) ≡ ok s3
    unfolding thread_step evictor_step
    third =
        let there = threads_at (resetting r k p.zone) ts1 same1 in
        rw (step-there s2 j io zbd (resetting r k p.zone) there, thread_step, evictor_step, reset)
          (ground (arith, g.1))

    still_there : get_elem? ts3 i ≡ some (publishing id p)
    still_there =
        let lt = get_elem?-lt s.threads j evictor in
        ground (
          arith,
          apart,
          writer,
          get_elem?-set s.threads j i (waiting r k p.zone) lt,
          get_elem?-set ts1 j i (resetting r k p.zone) (omega (arith, lt, same1)),
          get_elem?-set ts2 j i (choosing r k) (omega (arith, lt, same2)),
        )

    left : (b : Backend) → content_at (reset_content s.contents b p.zone) p ≡ left_of b id
    left zns = ground (arith, intact)
    left block =
        let stored = v.chunks.relies i (publishing id p) writer in
        ground (arith, intact, stored.content)

    fourth : Returns (Lost s.zone_state.backend_type id p) (step s3 (go_on i io zbd))
    unfolding thread_step writer_step
    fourth =
        let w = fetched s i v id (publishing id p) writer refl in
        let still : view m id ≡ State.writing = ground (arith, c.seen id, w) in
        let (m', e, n) = Returns-ok (Inserted m id p) (cachemap_insert m id p) (
          cachemap_insert-Inserted m id p c.inv still (omega (arith, inside, c.same_num))
            (v.chunks.small i (publishing id p) writer) (ground (arith, c.emptied))) in
        rw (step-there s3 i io zbd (publishing id p) still_there, thread_step, writer_step, e)
          (ground (arith, n.seen id), left s.zone_state.backend_type, (_, g.4, refl))

  -- If the invariant holds, no write has gone past the end of its chunk, one thread has told the
  -- policy of its chunk and not yet inserted it in the map, an evictor has chosen the zone of the
  -- chunk, the zone has no readers, and the device resets the zone, then, if the evictor clears,
  -- waits for and resets the zone before the thread inserts, the four steps return, and the map
  -- says that the ID lies at the thread's location, which is in a free zone. On a ZNS device the
  -- location then holds no data; on a block device, where a reset touches no data, it still holds
  -- the chunk of the ID.
  pub run-Lost :
      Returns
        (Lost s.zone_state.backend_type id p)
        (run s (go_on j io zbd ∷ go_on j io zbd ∷ go_on j io zbd ∷ go_on i io zbd ∷ []))
  unfolding run
  run-Lost =
      let (m, ran, c) =
        Returns-ok (ZoneCleared s.cache_map p.zone) (cachemap_clear_zone s.cache_map p.zone)
          (cachemap_clear_zone-ZoneCleared s.cache_map p.zone v.claims.map_ok inside) in
      let ((zs, ret), reset, g) = Returns-ok Gone (evict_zone zbd s.zone_state p.zone) (
        evict_zone-Evicted zbd s.zone_state (held_of s.threads) p.zone filled.zone v.alloc
          filled.there is_filled code) in
      let (t, e, h) =
        Returns-ok (Lost s.zone_state.backend_type id p)
          (step (s3 m c ran zs ret reset g) (go_on i io zbd)) (fourth m c ran zs ret reset g) in
      rw
        (
          first m c ran zs ret reset g,
          second m c ran zs ret reset g,
          third m c ran zs ret reset g,
          e,
          run,
        )
        h
