-- ===== src/Zsm/Evict.antt =====
-- zsm_evict and zsm_mark_chunk_invalid.
use znworkload.Prelude.{
  ℕ, ◌<◌, ◌≡◌, ◌≢◌, refl, List, [], ◌∷◌, ◌++◌, some, arith, get_elem?, set, get_elem?-set,
  get_elem?-lt, get_elem?-some, ℕ_discrete, if◌then◌else◌, count-set, ◌==◌, occ-append,
  length-append,
}
use znworkload.Run.{ok, abort, Returns}
use znworkload.Backend.{Pair}
use znworkload.Zsm.{
  Zsm, Zbd, Zone, is_free, evict_zone, reset_zone, mark_chunk_invalid, zone_start, on_zns, full,
  free, put,
}
use znworkload.Zsm.Invariant.{Inv, AllHeld, AllHeld-set}
use znworkload.Zsm.Move.{moved, moved-Inv}

-- What `zbd_reset_zones` answers, or 0 on a block device.
abbrev pub reset_code : Zbd → Zsm → Zone → ℕ
reset_code zbd s z = on_zns s.backend_type (zbd.reset_zones s.fd (zone_start s z) s.zone_cap)

module _ (s : Zsm) (held : List Pair) (v : Inv s held) (i : ℕ) (z : Zone)
    (found : get_elem? s.zones i ≡ some z) (is_filled : z.state ≡ full) where
  abbrev pub emptied : Zone
  emptied = record z { state = free; chunk_offset = 0 }

  abbrev pub freed : Zsm
  freed =
      moved s held v i found s.active_queue (s.free_queue ++ i ∷ []) emptied s.writes_occurring held

  pub freed-Inv : Inv freed held
  freed-Inv =
      let lt = get_elem?-lt s.zones i found in
      let o = v.zone_ok i z found in
      moved-Inv s held v i found s.active_queue (s.free_queue ++ i ∷ []) emptied s.writes_occurring
        held
        (record {
          same_active = λ j n. refl;
          same_free = λ j n. ground (arith, occ-append j s.free_queue (i ∷ []));
          same_held = λ j n. refl;
        })
        (ground (arith, o, is_filled, occ-append i s.free_queue (i ∷ [])))
        (AllHeld-set s.zones s.max_zone_chunks i emptied held lt
          (ground (arith, o.in_held, is_filled)) v.all_held)
        v.writers v.limit
        (ground (
          arith,
          v.free_count,
          length-append s.free_queue (i ∷ []),
          count-set (λ y. is_free y.state) s.zones i emptied found,
          is_filled,
        ))

  reset_zone-branches :
      (zbd : Zbd)
      → reset_zone zbd s i z
        ≡ (if reset_code zbd s z == 0 then (freed, 0) else (s, reset_code zbd s z))
  unfolding reset_zone
  reset_zone-branches zbd = ground (arith, is_filled)

-- What a successful eviction leaves: the zone is free and last in the free queue, and its list of
-- invalid chunks is the one that it had.
abbrev pub Evicted : Zsm → List Pair → ℕ → Zone → Zsm × ℕ → Type 0
Evicted s held i z (t, ret) =
    Inv t held
    × (ret ≡ 0)
    × (t.free_queue ≡ s.free_queue ++ i ∷ [])
    × (t.active_queue ≡ s.active_queue)
    × (get_elem? t.zones i ≡ some (record z { state = free; chunk_offset = 0 }))
    × ((j : ℕ) → j ≢ i → get_elem? t.zones j ≡ get_elem? s.zones j)

module _ (zbd : Zbd) (s : Zsm) (held : List Pair) (i : ℕ) (z : Zone) (v : Inv s held)
    (found : get_elem? s.zones i ≡ some z) (is_filled : z.state ≡ full) where
  pub evict_zone-success :
      reset_code zbd s z ≡ 0 → evict_zone zbd s i ≡ ok (freed s held v i z found is_filled, 0)
  unfolding evict_zone
  evict_zone-success e =
      ground (arith, found, is_filled, reset_zone-branches s held v i z found is_filled zbd)

  -- With the invariant, evicting a full zone that the device resets returns 0 and keeps the
  -- invariant and the active queue; the zone is free at chunk 0, last in the free queue, and its
  -- list of invalid chunks is what it was before.
  pub evict_zone-Evicted :
      reset_code zbd s z ≡ 0 → Returns (Evicted s held i z) (evict_zone zbd s i)
  evict_zone-Evicted e = rw (evict_zone-success e) (
    freed-Inv s held v i z found is_filled,
    refl,
    refl,
    refl,
    ground (
      arith,
      get_elem?-set s.zones i i (emptied s held v i z found is_filled)
          (get_elem?-lt s.zones i found),
    ),
    λ j n. ground (
      arith,
      n,
      get_elem?-set s.zones i j (emptied s held v i z found is_filled)
          (get_elem?-lt s.zones i found),
    ),
  )

  -- With the invariant, evicting a full zone that the device does not reset fails the assertion
  -- that the zone is free: zsm_evict returns no error code.
  pub evict_zone-abort : reset_code zbd s z ≢ 0 → evict_zone zbd s i ≡ abort
  unfolding evict_zone
  evict_zone-abort n =
      ground (arith, found, is_filled, reset_zone-branches s held v i z found is_filled zbd)

-- zsm_mark_chunk_invalid changes no zone's place.
AllHeld-mark :
    (zones : List Zone) (max i : ℕ) (z z' : Zone) (held : List Pair)
    → get_elem? zones i ≡ some z
    → z'.state ≡ z.state
    → z'.chunk_offset ≡ z.chunk_offset
    → AllHeld zones max held
    → AllHeld (set zones i z') max held
AllHeld-mark zones max i z z' [] e s o a = tt
AllHeld-mark zones max i z z' (p ∷ ps) e s o a = (
  elim (ℕ_discrete i p.zone) [
    | yes same ↦ record {
      zone = z';
      found = ground (arith, get_elem?-set zones i p.zone z' (get_elem?-lt zones i e));
      writing = ground (arith, a.0);
      next = ground (arith, a.0);
      room = a.0.room;
    }
    | no differ ↦ record {
      zone = a.0.zone;
      found = ground (arith, get_elem?-set zones i p.zone z' (get_elem?-lt zones i e), a.0.found);
      writing = a.0.writing;
      next = a.0.next;
      room = a.0.room;
    }
  ],
  AllHeld-mark zones max i z z' ps e s o a.1,
)

-- The mark of a chunk is recorded last in its zone's list, and nothing else changes.
abbrev pub Marked : Zsm → List Pair → Pair → Zone → Zsm → Type 0
Marked s held p z t =
    Inv t held × (t ≡ put s p.zone (record z { invalid = z.invalid ++ p.chunk_offset ∷ [] }))

-- With the invariant, marking a chunk of any zone of the device returns and keeps the invariant;
-- it adds the chunk to the end of the zone's list of invalid chunks and changes nothing else.
pub mark_chunk_invalid-Marked :
    (s : Zsm) (held : List Pair) (p : Pair)
    → Inv s held
    → p.zone < s.num_zones
    → (z : Zone) × (get_elem? s.zones p.zone ≡ some z)
      × Returns (Marked s held p z) (mark_chunk_invalid s p)
unfolding mark_chunk_invalid
mark_chunk_invalid-Marked s held p v h =
    let (z, found) = get_elem?-some s.zones p.zone (omega (arith, v.sizes.zones_length)) in
    let o = v.zone_ok p.zone z found in
    let z' : Zone = record z { invalid = z.invalid ++ p.chunk_offset ∷ [] } in
    (
      z,
      found,
      rw found (
        moved-Inv s held v p.zone found s.active_queue s.free_queue z' s.writes_occurring held
            (record { same_active = λ j n. refl; same_free = λ j n. refl; same_held = λ j n. refl })
            (ground (arith, o))
            (AllHeld-mark s.zones s.max_zone_chunks p.zone z z' held found refl refl v.all_held)
            v.writers v.limit
            (ground
              (arith, v.free_count, count-set (λ y. is_free y.state) s.zones p.zone z' found)),
        refl,
      ),
    )
