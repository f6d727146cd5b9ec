-- ===== src/Zsm/Return.antt =====
-- zsm_return_active_zone and zsm_failed_to_write.
use znworkload.Prelude.{
  ℕ, ◌+◌, ◌<◌, ◌≡◌, ◌≢◌, refl, true, false, List, [], ◌∷◌, ◌++◌, some, arith, length, get_elem?,
  set, get_elem?-set, set-set, get_elem?-lt, occ, ℕ_discrete, ltb, if◌then◌else◌, count-set, ◌⊎◌,
  ◌==◌, occ-append, length-append, u32,
}
use znworkload.Run.{ok, Returns}
use znworkload.Backend.{Pair}
use znworkload.Zsm.{
  Zsm, Zbd, Zone, is_free, is_active, is_full, write_occuring, return_active_zone, failed_to_write,
  close_zone, zone_start, on_zns, active, full, within_limit,
}
use znworkload.Zsm.Invariant.{Inv, AllHeld-set, HeldOk, held_zones}
use znworkload.Zsm.Held.{without, length-without, occ-without, AllHeld-get, AllHeld-without}
use znworkload.Zsm.Move.{moved, moved-Inv}

module _ (s : Zsm) (held : List Pair) (v : Inv s held) (k : ℕ) (p : Pair)
    (held_at : get_elem? held k ≡ some p) where
  abbrev pub rest : List Pair
  rest = without k held

  pub held_ok : HeldOk s.zones s.max_zone_chunks p
  held_ok = AllHeld-get s.zones s.max_zone_chunks k held held_at v.all_held

  abbrev pub zone : Zone
  zone = held_ok.zone

  abbrev pub found : get_elem? s.zones p.zone ≡ some zone
  found = held_ok.found

  -- The queues when the zone goes back to the active ones, as `z'`.
  abbrev pub queued : Zone → Zsm
  queued z' =
      moved s held v p.zone found (s.active_queue ++ p.zone ∷ []) s.free_queue z' (length rest) rest

  queued-Inv :
      (z' : Zone)
      → z'.zone_id ≡ zone.zone_id
      → z'.state ≡ active
      → z'.chunk_offset < s.max_zone_chunks
      → Inv (queued z') rest
  queued-Inv z' id state room =
      let lt = get_elem?-lt s.zones p.zone found in
      let o = v.zone_ok p.zone zone found in
      let alone : occ p.zone (held_zones rest) ≡ 0 =
        ground (arith, o.in_held, held_ok.writing, occ-without p.zone k held held_at) in
      moved-Inv s held v p.zone found (s.active_queue ++ p.zone ∷ []) s.free_queue z' (length rest)
        rest
        (record {
          same_active = λ j n. ground (arith, occ-append j s.active_queue (p.zone ∷ []));
          same_free = λ j n. refl;
          same_held = λ j n. ground (arith, occ-without j k held held_at);
        })
        (ground (arith, o, alone, held_ok.writing, occ-append p.zone s.active_queue (p.zone ∷ [])))
        (AllHeld-set s.zones s.max_zone_chunks p.zone z' rest lt alone
          (AllHeld-without s.zones s.max_zone_chunks k held v.all_held))
        refl
        (omega (
          arith,
          v.limit,
          length-append s.active_queue (p.zone ∷ []),
          length-without k held held_at,
        ))
        (ground (
          arith,
          v.free_count,
          count-set (λ y. is_free y.state) s.zones p.zone z' found,
          held_ok.writing,
        ))

  -- The state when the zone is in no queue afterwards: closed, or stuck after a failed close.
  abbrev pub parked : Zone → Zsm
  parked z' = moved s held v p.zone found s.active_queue s.free_queue z' (length rest) rest

  parked-Inv :
      (z' : Zone)
      → z'.zone_id ≡ zone.zone_id
      → is_active z'.state ≡ false
      → is_free z'.state ≡ false
      → (is_full z'.state ≡ true → z'.chunk_offset ≡ 0)
      → Inv (parked z') rest
  parked-Inv z' id idle taken empty =
      let lt = get_elem?-lt s.zones p.zone found in
      let o = v.zone_ok p.zone zone found in
      let alone : occ p.zone (held_zones rest) ≡ 0 =
        ground (arith, o.in_held, held_ok.writing, occ-without p.zone k held held_at) in
      moved-Inv s held v p.zone found s.active_queue s.free_queue z' (length rest) rest
        (record {
          same_active = λ j n. refl;
          same_free = λ j n. refl;
          same_held = λ j n. ground (arith, occ-without j k held held_at);
        })
        (ground (arith, o, alone, held_ok.writing, empty))
        (AllHeld-set s.zones s.max_zone_chunks p.zone z' rest lt alone
          (AllHeld-without s.zones s.max_zone_chunks k held v.all_held))
        refl (omega (arith, v.limit, length-without k held held_at))
        (ground (
          arith,
          v.free_count,
          count-set (λ y. is_free y.state) s.zones p.zone z' found,
          held_ok.writing,
        ))

  -- What `zbd_finish_zones` answers, or 0 on a block device.
  abbrev pub close_code : Zbd → ℕ
  close_code zbd = on_zns s.backend_type (zbd.finish_zones s.fd (zone_start s zone) s.zone_cap)

  -- The assertions on entry hold, and the counters do not wrap.
  within : within_limit s ≡ true
  within = ground (arith, v.limit, v.writers, v.sizes.max_small)

  same_offset : (zone.chunk_offset == p.chunk_offset) ≡ true
  same_offset = ground (arith, held_ok.next)

  one_less : u32 (s.writes_occurring + 4294967295) ≡ length rest
  one_less = omega (arith, v.limit, v.writers, v.sizes.max_small, length-without k held held_at)

  one_more : u32 (zone.chunk_offset + 1) ≡ p.chunk_offset + 1
  one_more = omega (arith, held_ok.next, held_ok.room, v.sizes.chunks_small)

  abbrev pub advanced : Zone
  advanced = record zone { chunk_offset = p.chunk_offset + 1 }

  pub return-branches :
      (zbd : Zbd)
      → return_active_zone zbd s p ≡ (
          if p.chunk_offset + 1 == s.max_zone_chunks
          then ok (close_zone zbd (parked advanced) p.zone advanced)
          else ok (queued (record advanced { state = active }), 0))
  unfolding return_active_zone
  return-branches zbd =
      rw (within, found, held_ok.writing, same_offset, one_less, one_more, set-set)

  not_full : is_full zone.state ≡ false
  not_full = ground (arith, held_ok.writing)

  -- close_zone on the zone that was just filled.
  pub close_zone-branches :
      (zbd : Zbd)
      → close_zone zbd (parked advanced) p.zone advanced ≡ (
          if close_code zbd == 0
          then (parked (record zone { state = full; chunk_offset = 0 }), 0)
          else (parked advanced, close_code zbd))
  unfolding close_zone
  close_zone-branches zbd = rw (set-set, not_full)

  at_place : (z' : Zone) → get_elem? (set s.zones p.zone z') p.zone ≡ some z'
  at_place z' =
      ground (arith, get_elem?-set s.zones p.zone p.zone z' (get_elem?-lt s.zones p.zone found))

  pub failed-success : failed_to_write s p ≡ ok (queued (record zone { state = active }))
  unfolding failed_to_write
  failed-success = rw (within, found, held_ok.writing, same_offset, one_less, room)
    where
      room : ltb zone.chunk_offset s.max_zone_chunks ≡ true
      room = ground (arith, held_ok.next, held_ok.room)

-- What giving back a written location does: the zone waits for its next chunk, is closed after its
-- last one, or stays as it is if the device refuses to close it.
abbrev pub Returned : Zbd → Zsm → List Pair → ℕ → Pair → Zone → Zsm × ℕ → Type 0
Returned zbd s held k p z (t, ret) =
    Inv t (without k held)
    × (t.free_queue ≡ s.free_queue)
    × (((p.chunk_offset + 1 < s.max_zone_chunks)
          × (ret ≡ 0)
          × (t.active_queue ≡ s.active_queue ++ p.zone ∷ [])
          × (get_elem? t.zones p.zone
              ≡ some (record z { state = active; chunk_offset = p.chunk_offset + 1 })))
        ⊎ (((p.chunk_offset + 1 ≡ s.max_zone_chunks)
              × (ret ≡ 0)
              × (t.active_queue ≡ s.active_queue)
              × (get_elem? t.zones p.zone ≡ some (record z { state = full; chunk_offset = 0 })))
            ⊎ ((p.chunk_offset + 1 ≡ s.max_zone_chunks)
                × (ret ≡ on_zns s.backend_type (zbd.finish_zones s.fd (zone_start s z) s.zone_cap))
                × (ret ≢ 0)
                × (t.active_queue ≡ s.active_queue)
                × (get_elem? t.zones p.zone
                    ≡ some (record z { chunk_offset = p.chunk_offset + 1 })))))

-- With the invariant, giving back any held location returns, whatever the device answers, and
-- keeps the invariant for the locations still held and the free queue. If the zone has chunks left
-- it is active again at the next chunk, last in the active queue; after its last chunk it is full;
-- if the device refuses to close it, the device's code is returned and the zone stays a zone being
-- written.
pub return_active_zone-Returned :
    (zbd : Zbd) (s : Zsm) (held : List Pair) (k : ℕ) (p : Pair)
    → Inv s held
    → get_elem? held k ≡ some p
    → (z : Zone) × (get_elem? s.zones p.zone ≡ some z)
      × (z.state ≡ write_occuring)
      × Returns (Returned zbd s held k p z) (return_active_zone zbd s p)
return_active_zone-Returned zbd s held k p v e =
    let h = held_ok s held v k p e in
    let z' : Zone = advanced s held v k p e in
    let place = at_place s held v k p e in
    (
      h.zone,
      h.found,
      ground (arith, h.writing),
      rw (return-branches s held v k p e zbd)
          (elim (ℕ_discrete (p.chunk_offset + 1) s.max_zone_chunks) [
            | no more ↦
                let i =
                  queued-Inv s held v k p e (record z' { state = active }) refl refl
                    (omega (arith, h.room)) in
                ground (arith, i, place (record z' { state = active }), h.room)
            | yes last ↦ elim (ℕ_discrete (close_code s held v k p e zbd) 0) [
              | yes closed ↦
                  let i =
                    parked-Inv s held v k p e (record z' { state = full; chunk_offset = 0 }) refl
                      refl refl (λ _. refl) in
                  ground (
                    arith,
                    i,
                    close_zone-branches s held v k p e zbd,
                    place (record z' { state = full; chunk_offset = 0 }),
                  )
              | no stuck ↦
                  let i =
                    parked-Inv s held v k p e z' refl (ground (arith, h.writing))
                      (ground (arith, h.writing)) (λ q. ground (arith, h.writing)) in
                  ground (arith, i, close_zone-branches s held v k p e zbd, place z')
            ]
          ]),
    )

-- A location whose write failed goes back unused: its zone is active again at the same chunk.
abbrev pub Undone : Zsm → List Pair → ℕ → Pair → Zone → Zsm → Type 0
Undone s held k p z t =
    Inv t (without k held)
    × (t.free_queue ≡ s.free_queue)
    × (t.active_queue ≡ s.active_queue ++ p.zone ∷ [])
    × (get_elem? t.zones p.zone ≡ some (record z { state = active; chunk_offset = p.chunk_offset }))

-- With the invariant, zsm_failed_to_write on any held location returns and keeps the invariant for
-- the locations still held and the free queue; the location's zone is active again at the same
-- chunk, last in the active queue.
pub failed_to_write-Undone :
    (s : Zsm) (held : List Pair) (k : ℕ) (p : Pair)
    → Inv s held
    → get_elem? held k ≡ some p
    → (z : Zone) × (get_elem? s.zones p.zone ≡ some z)
      × Returns (Undone s held k p z) (failed_to_write s p)
failed_to_write-Undone s held k p v e =
    let h = held_ok s held v k p e in
    let z' : Zone = record h.zone { state = active } in
    (
      h.zone,
      h.found,
      rw (failed-success s held v k p e) (
        queued-Inv s held v k p e z' refl refl (omega (arith, h.room, h.next)),
        refl,
        refl,
        ground (arith, at_place s held v k p e z', h.next),
      ),
    )
