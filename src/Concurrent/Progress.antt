-- ===== src/Concurrent/Progress.antt =====
-- Which threads of src/cache.c wait for which: the ones that wait for a writer, for a zone that is
-- being written, or for the readers of a zone.
use znworkload.Prelude.{
  ℕ, suc, ◌<◌, ◌≡◌, refl, Bool, true, false, Option, some, List, [], ◌∷◌, arith, get_elem?, length,
  inl, inr, Option-cases, Bool-cases,
}
use znworkload.Run.{Run, ok, Returns-ok}
use znworkload.Backend.{Pair}
use znworkload.Zsm.{Zsm, Zbd, ActiveZone, success, retry, error, evict, get_active_zone}
use znworkload.Zsm.Get.{Got, get_active_zone-Got}
use znworkload.Cachemap.{Cachemap, Find, hit, wait, write_it, cachemap_find}
use znworkload.Cachemap.Write.{Finds, cachemap_find-Finds}
use znworkload.Eviction.{positive}
use znworkload.Concurrent.{
  System, Pc, idle, finding, copying, reading, promoting, leaving, done, locating, writing,
  returning, failing, waiting,
}
use znworkload.Concurrent.Places.{names, number, reads, holds, fetches}
use znworkload.Concurrent.Held.{held_of}
use znworkload.Concurrent.Invariant.{Inv}

abbrev waits : Run (Cachemap × Find) → Bool
waits (ok (m, wait)) = true
waits _ = false

abbrev retries : Run (Zsm × ActiveZone) → Bool
retries (ok (s, retry)) = true
retries _ = false

-- The thread's next step leaves everything as it is: its ID is being written, all the active zones
-- are, or the zone that it evicts has readers.
abbrev pub blocked : Zbd → System → Pc → Bool
blocked zbd s (finding id) = waits (cachemap_find s.cache_map id)
blocked zbd s (locating id) = retries (get_active_zone zbd s.zone_state)
blocked zbd s (waiting r k z) = positive (s.cache_map.active_readers z)
blocked zbd s _ = false

abbrev pub in_call : Pc → Bool
in_call idle = false
in_call (done id d) = false
in_call _ = true

-- Some thread is in a call and is not blocked.
pub record Moves (zbd : Zbd) (s : System) : Type 0 where
  pub index : ℕ
  pub place : Pc
  pub there : get_elem? s.threads index ≡ some place
  pub calls : in_call place ≡ true
  pub free_to : blocked zbd s place ≡ false

number-pos :
    (f : Pc → Option ℕ) (k : ℕ) (ts : List Pc)
    → 0 < number f k ts
    → (i : ℕ) × (t : Pc) × (get_elem? ts i ≡ some t) × (names k (f t) ≡ true)
number-pos f k [] h = absurd (omega arith)
number-pos f k (t ∷ ts) h = elim (Bool-cases (names k (f t))) [
  | inl yes_it ↦ (0, t, refl, yes_it)
  | inr other ↦ let (i, u, e, n) = number-pos f k ts (ground (arith, h, other)) in (suc i, u, e, n)
]

held_of-pos :
    (ts : List Pc)
    → 0 < length (held_of ts)
    → (i : ℕ) × (t : Pc) × (p : Pair) × (get_elem? ts i ≡ some t) × (holds t ≡ some p)
held_of-pos [] h = absurd (omega arith)
held_of-pos (t ∷ ts) h = elim (Option-cases (holds t)) [
  | inr (p, e) ↦ (0, t, p, refl, e)
  | inl none_held ↦ let (i, u, p, e, n) = held_of-pos ts (rw none_held at h) in (suc i, u, p, e, n)
]

module _ (zbd : Zbd) (s : System) (v : Inv s) where
  reader-free :
      (t : Pc) (z : ℕ) → names z (reads t) ≡ true → (in_call t ≡ true) × (blocked zbd s t ≡ false)
  reader-free (copying id a p) z h = (refl, refl)
  reader-free (reading id p) z h = (refl, refl)
  reader-free (promoting id p d) z h = (refl, refl)
  reader-free (leaving id p d) z h = (refl, refl)
  reader-free _ z h = cc

  holder-free :
      (t : Pc) (p : Pair) → holds t ≡ some p → (in_call t ≡ true) × (blocked zbd s t ≡ false)
  holder-free (writing id p) q h = (refl, refl)
  holder-free (returning id p) q h = (refl, refl)
  holder-free (failing id p) q h = (refl, refl)
  holder-free _ q h = cc

  -- A zone with readers has one that goes on.
  reader-Moves : (z : ℕ) → 0 < s.cache_map.active_readers z → Moves zbd s
  reader-Moves z h =
      let (i, t, e, n) = number-pos reads z s.threads (ground (arith, h, v.claims.readers z)) in
      let f = reader-free t z n in
      record { index = i; place = t; there = e; calls = f.0; free_to = f.1 }

  -- If there is no zone to write to, some thread is writing to one.
  holder-Moves : retries (get_active_zone zbd s.zone_state) ≡ true → Moves zbd s
  holder-Moves h =
      let ((t, r), e, g) =
        Returns-ok (Got zbd s.zone_state (held_of s.threads)) (get_active_zone zbd s.zone_state)
          (get_active_zone-Got zbd s.zone_state (held_of s.threads) v.alloc) in
      let h' : retries (ok (t, r)) ≡ true = rw e at h in
      let (i, u, p, there, n) = held_of-pos s.threads (by_answer t r g h') in
      let f = holder-free u p n in
      record { index = i; place = u; there = there; calls = f.0; free_to = f.1 }
    where
      by_answer :
          (t : Zsm) (r : ActiveZone)
          → Got zbd s.zone_state (held_of s.threads) (t, r)
          → retries (ok (t, r)) ≡ true
          → 0 < length (held_of s.threads)
      by_answer t retry g h = g.2
      by_answer t (success p) g h = cc
      by_answer t error g h = cc
      by_answer t evict g h = cc

  -- The thread that fetches an ID goes on, or another one does.
  fetcher-Moves :
      (i : ℕ) (t : Pc) (id : ℕ)
      → get_elem? s.threads i ≡ some t
      → names id (fetches t) ≡ true
      → Moves zbd s
  fetcher-Moves i t id e n = elim (Bool-cases (blocked zbd s t)) [
    | inl stuck ↦ stuck_at t n stuck
    | inr free ↦ record { index = i; place = t; there = e; calls = fetching t n; free_to = free }
  ]
    where
      fetching : (t : Pc) → names id (fetches t) ≡ true → in_call t ≡ true
      fetching idle n = cc
      fetching (done j d) n = cc
      fetching _ n = refl

      stuck_at : (t : Pc) → names id (fetches t) ≡ true → blocked zbd s t ≡ true → Moves zbd s
      stuck_at (finding j) n b = cc
      stuck_at (locating j) n b = holder-Moves b
      stuck_at (waiting r k z) n b = reader-Moves z (ground (arith, b))
      stuck_at _ n b = cc

  waiter-Moves : (id : ℕ) → waits (cachemap_find s.cache_map id) ≡ true → Moves zbd s
  waiter-Moves id h =
      let ((m, r), e, f) =
        Returns-ok (Finds s.cache_map id) (cachemap_find s.cache_map id)
          (cachemap_find-Finds s.cache_map id v.claims.map_ok) in
      let h' : waits (ok (m, r)) ≡ true = rw e at h in
      let (i, t, there, n) = number-pos fetches id s.threads (by_find m r f h') in
      fetcher-Moves i t id there n
    where
      by_find :
          (m : Cachemap) (r : Find)
          → Finds s.cache_map id (m, r)
          → waits (ok (m, r)) ≡ true
          → 0 < number fetches id s.threads
      by_find m wait f h = ground (arith, f.0, v.claims.writers id)
      by_find m (hit a) f h = cc
      by_find m write_it f h = cc

  -- If some thread has not ended its call, some thread that has not is not blocked.
  pub blocked-Moves :
      (i : ℕ) (t : Pc) → get_elem? s.threads i ≡ some t → in_call t ≡ true → Moves zbd s
  blocked-Moves i t e c = elim (Bool-cases (blocked zbd s t)) [
    | inr free ↦ record { index = i; place = t; there = e; calls = c; free_to = free }
    | inl stuck ↦ stuck_at t stuck
  ]
    where
      stuck_at : (t : Pc) → blocked zbd s t ≡ true → Moves zbd s
      stuck_at (finding j) b = waiter-Moves j b
      stuck_at (locating j) b = holder-Moves b
      stuck_at (waiting r k z) b = reader-Moves z (ground (arith, b))
      stuck_at _ b = cc
