-- ===== src/Concurrent/Writer.antt =====
-- The steps of the miss branch of zn_cache_get that take a location or give it back unused, among
-- other threads.
use znworkload.Prelude.{ℕ, ◌≡◌, ap, refl, some, none, List, arith, get_elem?, set, occ, ◌∷◌, length}
use znworkload.Run.{Returns, Returns-ok, Returns-value}
use znworkload.Backend.{Pair}
use znworkload.Zsm.{
  Zsm, Zbd, ActiveZone, success, retry, error, evict, get_active_zone, failed_to_write,
}
use znworkload.Zsm.Invariant
use znworkload.Zsm.Invariant.{AllHeld, held_zones}
use znworkload.Zsm.Get.{Got, get_active_zone-Got}
use znworkload.Zsm.Return.{Undone, failed_to_write-Undone}
use znworkload.Chunks.{Io}
use znworkload.Concurrent.{
  System, Pc, locating, writing, failing, undoing, counting, enter, after_location, writer_step,
}
use znworkload.Concurrent.Places.{holds, hold_zone, number-set}
use znworkload.Concurrent.Held.{
  held_of, held_index, held-number, held_of-get, held_of-without, held_of-length, held_of-all,
}
use znworkload.Concurrent.Zones.{Kept, TookKept, get_active_zone-Kept, failed_to_write-Kept}
use znworkload.Concurrent.Invariant.{
  Inv, Hands, hands, Relies, Alloc-same, Claims-same, Tokens-same, Clears-same, enter-few,
}
use znworkload.Concurrent.Frame.{Tokens-grows, Data-grows}
use znworkload.Concurrent.Reader.{moves-Inv}

-- The order of the held locations does not matter.
Inv-permute :
    (zs : Zsm) (held held' : List Pair)
    → Invariant.Inv zs held
    → length held' ≡ length held
    → ((j : ℕ) → occ j (held_zones held') ≡ occ j (held_zones held))
    → AllHeld zs.zones zs.max_zone_chunks held'
    → Invariant.Inv zs held'
Inv-permute zs held held' v size same all = record {
  sizes = v.sizes;
  zone_ok = λ i z e.
      let o = v.zone_ok i z e in
      record {
        id = o.id;
        in_active = o.in_active;
        in_free = o.in_free;
        in_held = rw (same i) o.in_held;
        open_offset = o.open_offset;
        free_offset = o.free_offset;
        full_offset = o.full_offset;
      };
  active_inside = v.active_inside;
  free_inside = v.free_inside;
  all_held = all;
  writers = omega (arith, v.writers);
  limit = omega (arith, v.limit);
  free_count = v.free_count;
}

-- A thread is handed a location.
take-Alloc :
    (zs : Zsm) (ts : List Pc) (i : ℕ) (old t : Pc) (p : Pair)
    → get_elem? ts i ≡ some old
    → holds old ≡ none
    → holds t ≡ some p
    → Invariant.Inv zs (p ∷ held_of ts)
    → Invariant.Inv zs (held_of (set ts i t))
take-Alloc zs ts i old t p here h n v =
    Inv-permute zs (p ∷ held_of ts) (held_of (set ts i t)) v (held_of-length ts i p t here h n)
      (λ j. ground (
        arith,
        held-number j (set ts i t),
        held-number j ts,
        number-set hold_zone j ts i t here,
        h,
        n,
      ))
      (held_of-all zs.zones zs.max_zone_chunks ts i p t here h n v.all_held)

module _ (s : System) (i : ℕ) (v : Inv s) where
  -- The zone state manager changes, and the thread has the same in hand, but for a location.
  pub zones-Inv :
      (old t : Pc) (zs : Zsm)
      → get_elem? s.threads i ≡ some old
      → record (hands s.zone_state.max_zone_chunks t) { held = holds old }
        ≡ hands s.zone_state.max_zone_chunks old
      → Invariant.Inv zs (held_of (set s.threads i t))
      → Kept s.zone_state zs
      → Relies s.cache_map s.contents zs t
      → Inv (enter (record s { zone_state = zs }) i t)
  zones-Inv old t zs here e alloc kept r = record {
    alloc = alloc;
    same_num = ground (arith, kept.2, v.same_num);
    few = enter-few s.threads i old t here v.few;
    claims =
        Claims-same s.threads i old t here s.cache_map (ap (λ (h : Hands). h.fetched) e)
          (ap (λ (h : Hands). h.reader) e) v.claims;
    tokens = Tokens-grows s.eviction_policy s.zone_state zs (set s.threads i t) kept (
        Tokens-same s.threads i old t here s.eviction_policy s.zone_state
          (ap (λ (h : Hands). h.full) e) v.tokens);
    chunks =
        Data-grows s.cache_map s.contents s.zone_state zs s.threads i old t here kept r
          (rw ((ap (λ (h : Hands). h.fetched) e)) (v.chunks.small i old here)) v.chunks;
    clears =
        Clears-same s.threads i old t here s.cache_map (ap (λ (h : Hands). h.emptied) e)
          (ap (λ (h : Hands). h.published) e) (ap (λ (h : Hands). h.reset) e)
          (ap (λ (h : Hands). h.reader) e) v.clears;
  }

  module _ (id : ℕ) (here : get_elem? s.threads i ≡ some (locating id)) (zbd : Zbd) where
    after_location-Inv :
        (t : Zsm) (r : ActiveZone)
        → Got zbd s.zone_state (held_of s.threads) (t, r)
        → Kept s.zone_state t
        → Inv (enter (record s { zone_state = t }) i (after_location id r))
    after_location-Inv t (success p) g k =
        zones-Inv (locating id) (writing id p) t here refl
          (take-Alloc t s.threads i (locating id) (writing id p) p here refl refl g.0) k tt
    after_location-Inv t retry g k =
        rw g.0 (moves-Inv s i v (locating id) (locating id) here refl tt)
    after_location-Inv t error g k =
        zones-Inv (locating id) (undoing id) t here refl
          (Alloc-same s.threads i (locating id) (undoing id) here t refl g.0) k tt
    after_location-Inv t evict g k =
        rw g.0 (moves-Inv s i v (locating id) (counting (some id)) here refl tt)

    pub locating-Inv : (io : Io) → Returns Inv (writer_step s i io zbd (locating id))
    unfolding writer_step
    locating-Inv io =
        let zs = s.zone_state in
        let held = held_of s.threads in
        let ((t, r), e, g) =
          Returns-ok (Got zbd zs held) (get_active_zone zbd zs)
            (get_active_zone-Got zbd zs held v.alloc) in
        let k =
          Returns-value (TookKept zbd zs held v.alloc) e
            (get_active_zone-Kept zbd zs held v.alloc) in
        rw (e, writer_step) (after_location-Inv t r g k)

  pub failing-Inv :
      (id : ℕ) (p : Pair) (io : Io) (zbd : Zbd)
      → get_elem? s.threads i ≡ some (failing id p)
      → Returns Inv (writer_step s i io zbd (failing id p))
  unfolding writer_step
  failing-Inv id p io zbd here =
      let zs = s.zone_state in
      let held = held_of s.threads in
      let k = held_index i s.threads in
      let at = held_of-get s.threads i p here refl in
      let (z, found, back) = failed_to_write-Undone zs held k p v.alloc at in
      let (t, e, u) = Returns-ok (Undone zs held k p z) (failed_to_write zs p) back in
      let kept = Returns-value (Kept zs) e (failed_to_write-Kept zbd zs held v.alloc k p at) in
      rw (e, writer_step)
        (zones-Inv (failing id p) (undoing id) t here refl
          (rw (held_of-without s.threads i p (undoing id) here refl refl) u.0) kept tt)
