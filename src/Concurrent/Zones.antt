-- ===== src/Concurrent/Zones.antt =====
-- What the zone state manager keeps for those who hold no location: full zones stay full, and what
-- was written of a zone stays behind its next chunk, until the zone is evicted.
use znworkload.Prelude.{
  ℕ, ◌+◌, ◌≤◌, ◌<◌, ◌≡◌, refl, true, false, List, [], ◌∷◌, some, arith, length, get_elem?, set,
  get_elem?-set, get_elem?-lt, get_elem?-some, ℕ_discrete, dec_lt, ◌⊎◌, inl, inr,
}
use znworkload.Run.{Returns}
use znworkload.Backend.{Pair}
use znworkload.Zsm.{
  Zsm, Zbd, Zone, is_full, write_occuring, active, full, take_active, open_free, get_active_zone,
  ActiveZone, return_active_zone, failed_to_write,
}
use znworkload.Zsm.Invariant.{Inv}
use znworkload.Zsm.Get.{
  opened, take_active-success, opened-Inv, open_free-opens, open_free-loses, open_code,
  is_active-head, is_free-head, get_active_zone-branches, length_zero, length_pos,
}
use znworkload.Zsm.Return.{
  held_ok, advanced, return-branches, close_zone-branches, close_code, failed-success,
}

-- What is known of a zone when `zones` has changed to `zones'`.
pub record Later (z : Zone) (zones' : List Zone) (j : ℕ) : Type 0 where
  pub zone : Zone
  pub there : get_elem? zones' j ≡ some zone
  pub stays_full : is_full z.state ≡ true → is_full zone.state ≡ true
  pub passed : (is_full zone.state ≡ true) ⊎ (z.chunk_offset ≤ zone.chunk_offset)

abbrev pub Grows : List Zone → List Zone → Type 0
Grows zones zones' = (j : ℕ) (z : Zone) → get_elem? zones j ≡ some z → Later z zones' j

abbrev pub Kept : Zsm → Zsm → Type 0
Kept s t =
    Grows s.zones t.zones × (t.max_zone_chunks ≡ s.max_zone_chunks) × (t.num_zones ≡ s.num_zones)

pub Grows-refl : (zones : List Zone) → Grows zones zones
Grows-refl zones j z e = record {
  zone = z;
  there = e;
  stays_full = λ h. h;
  passed = inr (omega arith);
}

Grows-trans : (a b c : List Zone) → Grows a b → Grows b c → Grows a c
Grows-trans a b c f g j z e =
    let x = f j z e in
    let y = g j x.zone x.there in
    record {
      zone = y.zone;
      there = y.there;
      stays_full = λ h. y.stays_full (x.stays_full h);
      passed = ground (arith, x.passed, y.passed, y.stays_full);
    }

-- A change of one zone that is not full, or that stays as it is.
Grows-set :
    (zones : List Zone) (i : ℕ) (z z' : Zone)
    → get_elem? zones i ≡ some z
    → is_full z.state ≡ false
    → ((is_full z'.state ≡ true) ⊎ (z.chunk_offset ≤ z'.chunk_offset))
    → Grows zones (set zones i z')
Grows-set zones i z z' e n h j y f = elim (ℕ_discrete i j) [
  | yes same ↦ record {
    zone = z';
    there = ground (arith, same, get_elem?-set zones i j z' (get_elem?-lt zones i e));
    stays_full = λ q. ground (arith, same);
    passed = ground (arith, same, h);
  }
  | no d ↦ record {
    zone = y;
    there = ground (arith, d, get_elem?-set zones i j z' (get_elem?-lt zones i e));
    stays_full = λ q. q;
    passed = inr (omega arith);
  }
]

module _ (zbd : Zbd) (s : Zsm) (held : List Pair) (v : Inv s held) where
  abbrev pub TookKept : Zsm × ActiveZone → Type 0
  TookKept (t, r) = Kept s t

  take_active-Kept :
      (i : ℕ) (rest : List ℕ) → s.active_queue ≡ i ∷ rest → Returns TookKept (take_active s)
  take_active-Kept i rest head =
      let (z, found) = get_elem?-some s.zones i (v.active_inside i (ground (arith, head))) in
      let a = is_active-head s held v i rest z head found in
      rw (take_active-success s held v i rest z head found) (
        Grows-set s.zones i z (record z { state = write_occuring }) found (ground (arith, a))
            (inr (omega arith)),
        refl,
        refl,
      )

  open_free-Kept :
      (i : ℕ) (rest : List ℕ)
      → s.active_queue ≡ []
      → s.free_queue ≡ i ∷ rest
      → length held < s.max_nr_active_zones
      → Returns TookKept (open_free zbd s)
  open_free-Kept i rest none head room =
      let (z, found) = get_elem?-some s.zones i (v.free_inside i (ground (arith, head))) in
      let f = is_free-head s held v i rest head z found in
      let o = v.zone_ok i z found in
      let room' : length s.active_queue + length held < s.max_nr_active_zones =
        ground (arith, none) in
      elim (ℕ_discrete (open_code s held v i rest head z found zbd) 0) [
        | yes e ↦
            let t = opened s held v i rest head z found in
            let z' : Zone = record z { state = active; chunk_offset = 0 } in
            let found' : get_elem? t.zones i ≡ some z' =
              ground (arith, get_elem?-set s.zones i i z' (get_elem?-lt s.zones i found)) in
            let head' : t.active_queue ≡ i ∷ [] = ground (arith, none) in
            let v' = opened-Inv s held v i rest head z found room' in
            let first : Grows s.zones t.zones =
              Grows-set s.zones i z z' found (ground (arith, f))
                (inr (ground (arith, o.free_offset f))) in
            let second =
              Grows-set t.zones i z' (record z' { state = write_occuring }) found' refl
                (inr (omega arith)) in
            rw
              (
                open_free-opens s held v i rest head z found zbd room' e,
                take_active-success t held v' i [] z' head' found',
              )
              (Grows-trans s.zones t.zones _ first second, refl, refl)
        | no n ↦
            rw (open_free-loses s held v i rest head z found zbd room' n)
              (Grows-refl s.zones, refl, refl)
      ]

  pub get_active_zone-Kept : Returns TookKept (get_active_zone zbd s)
  get_active_zone-Kept =
      let same : Kept s s = (Grows-refl s.zones, refl, refl) in
      rw (get_active_zone-branches zbd s held v) (elim (ℕ_discrete (length s.active_queue) 0) [
        | yes none ↦
            let none' = length_zero s.active_queue none in
            elim (ℕ_discrete (length s.free_queue) 0) [
              | yes empty ↦ elim (ℕ_discrete (length held) 0) [
                | yes idle ↦ ground (arith, none', same, empty)
                | no busy ↦ ground (arith, none', same, empty)
              ]
              | no more ↦
                  let (i, rest, head) = length_pos s.free_queue more in
                  elim (dec_lt (length held) s.max_nr_active_zones) [
                    | yes room ↦ ground (arith, open_free-Kept i rest none' head room)
                    | no limit ↦ ground (arith, none', same)
                  ]
            ]
        | no more ↦
            let (i, rest, head) = length_pos s.active_queue more in
            ground (arith, take_active-Kept i rest head)
      ])

-- Giving back a location.
module _ (zbd : Zbd) (s : Zsm) (held : List Pair) (v : Inv s held) (k : ℕ) (p : Pair)
    (held_at : get_elem? held k ≡ some p) where
  open_zone : is_full (held_ok s held v k p held_at).zone.state ≡ false
  open_zone = ground (arith, (held_ok s held v k p held_at).writing)

  abbrev pub GaveKept : Zsm × ℕ → Type 0
  GaveKept (t, r) = Kept s t

  changed :
      (z' : Zone)
      → ((is_full z'.state ≡ true) ⊎ (p.chunk_offset ≤ z'.chunk_offset))
      → Grows s.zones (set s.zones p.zone z')
  changed z' h =
      let o = held_ok s held v k p held_at in
      Grows-set s.zones p.zone o.zone z' o.found open_zone (ground (arith, h, o.next))

  pub return_active_zone-Kept : Returns GaveKept (return_active_zone zbd s p)
  return_active_zone-Kept =
      let z' : Zone = advanced s held v k p held_at in
      let shut = changed (record z' { state = full; chunk_offset = 0 }) (inl refl) in
      let more = changed (record z' { state = active }) (inr (omega arith)) in
      let stuck = changed z' (inr (omega arith)) in
      rw (return-branches s held v k p held_at zbd)
        (elim (ℕ_discrete (p.chunk_offset + 1) s.max_zone_chunks) [
          | no n ↦ ground (arith, more)
          | yes last ↦ elim (ℕ_discrete (close_code s held v k p held_at zbd) 0) [
            | yes closed ↦ ground (arith, shut, close_zone-branches s held v k p held_at zbd)
            | no refused ↦ ground (arith, stuck, close_zone-branches s held v k p held_at zbd)
          ]
        ])

  pub failed_to_write-Kept : Returns (Kept s) (failed_to_write s p)
  failed_to_write-Kept =
      let z : Zone = (held_ok s held v k p held_at).zone in
      let o = held_ok s held v k p held_at in
      rw (failed-success s held v k p held_at)
        (changed (record z { state = active }) (inr (ground (arith, o.next))), refl, refl)
