-- ===== src/Zsm/Get.antt =====
-- zsm_get_active_zone.
use znworkload.Prelude.{
  ℕ, ◌+◌, ◌≤◌, ◌<◌, ◌≡◌, ◌≢◌, refl, true, false, List, [], ◌∷◌, ◌++◌, some, arith, length,
  get_elem?, get_elem?-set, get_elem?-lt, get_elem?-some, ℕ_discrete, dec_lt, ◌&&◌, ltb,
  if◌then◌else◌, ◌^◌, count-le, count-set, ◌⊎◌, inl, inr, ◌==◌, occ-append, length-append,
}
use znworkload.Run.{ok, Returns}
use znworkload.Backend.{Pair}
use znworkload.Zsm.{
  Zsm, Zbd, Zone, is_free, is_active, write_occuring, take_active, open_zone, open_free,
  get_active_zone, success, retry, error, evict, ActiveZone, zone_start, on_zns, active,
}
use znworkload.Zsm.Invariant.{Inv, AllHeld-set}
use znworkload.Zsm.Move.{moved, moved-Inv}

module _ (s : Zsm) (held : List Pair) (v : Inv s held) (i : ℕ) (rest : List ℕ) (z : Zone)
    (head : s.active_queue ≡ i ∷ rest) (found : get_elem? s.zones i ≡ some z) where
  abbrev pub taken : Pair
  taken = record { zone = z.zone_id; chunk_offset = z.chunk_offset; id = 0; in_use = false }

  abbrev pub after : Zsm
  after =
      moved s held v i found rest s.free_queue (record z { state = write_occuring })
        (s.writes_occurring + 1) (taken ∷ held)

  pub is_active-head : is_active z.state ≡ true
  is_active-head = let o = v.zone_ok i z found in ground (arith, o.in_active)

  pub take_active-success : take_active s ≡ ok (after, success taken)
  unfolding take_active
  take_active-success =
      rw (head, found, is_active-head) (ground (arith, v.writers, v.limit, v.sizes.max_small))

  after-Inv : Inv after (taken ∷ held)
  after-Inv =
      let lt = get_elem?-lt s.zones i found in
      let o = v.zone_ok i z found in
      let z' : Zone = record z { state = write_occuring } in
      moved-Inv s held v i found rest s.free_queue z' (s.writes_occurring + 1) (taken ∷ held)
        (record {
          same_active = λ j n. ground (arith, head);
          same_free = λ j n. refl;
          same_held = λ j n. ground (arith, o.id);
        })
        (ground (arith, o, head, is_active-head))
        (
          record {
            zone = z';
            found = ground (arith, get_elem?-set s.zones i i z' lt, o.id);
            writing = refl;
            next = refl;
            room = ground (arith, o.open_offset, is_active-head);
          },
          AllHeld-set s.zones s.max_zone_chunks i z' held lt
              (ground (arith, o.in_held, is_active-head)) v.all_held,
        )
        (omega (arith, v.writers)) (ground (arith, v.limit, head))
        (ground (
          arith,
          v.free_count,
          count-set (λ y. is_free y.state) s.zones i z' found,
          is_active-head,
        ))

-- Losing the head of the free queue keeps the invariant.
module _ (s : Zsm) (held : List Pair) (v : Inv s held) (i : ℕ) (rest : List ℕ)
    (head : s.free_queue ≡ i ∷ rest) where
  popped-Inv : Inv (record s { free_queue = rest }) held
  popped-Inv = record {
    sizes = record {
      zones_length = v.sizes.zones_length;
      zones_small = v.sizes.zones_small;
      max_pos = v.sizes.max_pos;
      max_small = v.sizes.max_small;
      chunks_pos = v.sizes.chunks_pos;
      chunks_small = v.sizes.chunks_small;
    };
    zone_ok = λ j y e. ground (arith, v.zone_ok j y e, head);
    active_inside = v.active_inside;
    free_inside = λ j h. ground (arith, v.free_inside j, head);
    all_held = v.all_held;
    writers = v.writers;
    limit = v.limit;
    free_count = ground (arith, v.free_count, head);
  }

  module _ (z : Zone) (found : get_elem? s.zones i ≡ some z) where
    abbrev pub opened : Zsm
    opened =
        moved s held v i found (s.active_queue ++ i ∷ []) rest
          (record z { state = active; chunk_offset = 0 }) s.writes_occurring held

    pub is_free-head : is_free z.state ≡ true
    is_free-head = let o = v.zone_ok i z found in ground (arith, o.in_free, head)

    pub opened-Inv : length s.active_queue + length held < s.max_nr_active_zones → Inv opened held
    opened-Inv room =
        let lt = get_elem?-lt s.zones i found in
        let o = v.zone_ok i z found in
        let z' : Zone = record z { state = active; chunk_offset = 0 } in
        moved-Inv s held v i found (s.active_queue ++ i ∷ []) rest z' s.writes_occurring held
          (record {
            same_active = λ j n. ground (arith, occ-append j s.active_queue (i ∷ []));
            same_free = λ j n. ground (arith, head);
            same_held = λ j n. refl;
          })
          (ground (
            arith,
            o,
            head,
            is_free-head,
            v.sizes.chunks_pos,
            occ-append i s.active_queue (i ∷ []),
          ))
          (AllHeld-set s.zones s.max_zone_chunks i z' held lt
            (ground (arith, o.in_held, is_free-head)) v.all_held)
          v.writers (omega (arith, room, length-append s.active_queue (i ∷ [])))
          (ground (
            arith,
            v.free_count,
            head,
            count-set (λ y. is_free y.state) s.zones i z' found,
            is_free-head,
          ))

    -- The result of `zbd_open_zones`, or 0 on a block device.
    abbrev pub open_code : Zbd → ℕ
    open_code zbd = on_zns s.backend_type (zbd.open_zones s.fd (zone_start s z) 1)

    open_zone-ok :
        (zbd : Zbd)
        → length s.active_queue + length held < s.max_nr_active_zones
        → open_code zbd ≡ 0
        → open_zone zbd (record s { free_queue = rest }) i ≡ ok (opened, 0)
    unfolding open_zone
    open_zone-ok zbd room e =
        rw (found, is_free-head) (ground (arith, v.writers, v.sizes.max_small))

    open_zone-fails :
        (zbd : Zbd)
        → length s.active_queue + length held < s.max_nr_active_zones
        → open_code zbd ≢ 0
        → open_zone zbd (record s { free_queue = rest }) i
          ≡ ok (record s { free_queue = rest }, open_code zbd)
    unfolding open_zone
    open_zone-fails zbd room n =
        rw (found, is_free-head) (ground (arith, v.writers, v.sizes.max_small))

    pub open_free-opens :
        (zbd : Zbd)
        → length s.active_queue + length held < s.max_nr_active_zones
        → open_code zbd ≡ 0
        → open_free zbd s ≡ take_active opened
    unfolding open_free
    open_free-opens zbd room e = ground (arith, open_zone-ok zbd room e, head, found, is_free-head)

    pub open_free-loses :
        (zbd : Zbd)
        → length s.active_queue + length held < s.max_nr_active_zones
        → open_code zbd ≢ 0
        → open_free zbd s ≡ ok (record s { free_queue = rest }, error)
    unfolding open_free
    open_free-loses zbd room n =
        ground (arith, open_zone-fails zbd room n, head, found, is_free-head)

-- What a call from `s` may return: the location is the next chunk of the oldest active zone, or
-- the first of the oldest free zone where none is active.
abbrev pub Got : Zbd → Zsm → List Pair → Zsm × ActiveZone → Type 0
Got zbd s held (t, success p) =
    Inv t (p ∷ held)
    × ((rest : List ℕ) × ((s.active_queue ≡ p.zone ∷ rest)
          ⊎ ((s.active_queue ≡ []) × (s.free_queue ≡ p.zone ∷ rest) × (p.chunk_offset ≡ 0))))
Got zbd s held (t, retry) =
    (t ≡ s)
    × (s.active_queue ≡ [])
    × (0 < length held)
    × ((s.max_nr_active_zones ≤ length held) ⊎ (s.free_queue ≡ []))
Got zbd s held (t, error) =
    Inv t held
    × ((i : ℕ) × (z : Zone) × (s.free_queue ≡ i ∷ t.free_queue)
        × (get_elem? s.zones i ≡ some z)
        × (on_zns s.backend_type (zbd.open_zones s.fd (zone_start s z) 1) ≢ 0)
        × (t ≡ record s { free_queue = t.free_queue }))
Got zbd s held (t, evict) = (t ≡ s) × (s.active_queue ≡ []) × (s.free_queue ≡ []) × (held ≡ [])

take_active-Got :
    (zbd : Zbd) (s : Zsm) (held : List Pair) (v : Inv s held) (i : ℕ) (rest : List ℕ)
    → s.active_queue ≡ i ∷ rest
    → Returns (Got zbd s held) (take_active s)
take_active-Got zbd s held v i rest head =
    let (z, found) = get_elem?-some s.zones i (v.active_inside i (ground (arith, head))) in
    let o = v.zone_ok i z found in
    rw (take_active-success s held v i rest z head found)
      (after-Inv s held v i rest z head found, (rest, inl (ground (arith, head, o.id))))

open_free-Got :
    (zbd : Zbd) (s : Zsm) (held : List Pair) (v : Inv s held) (i : ℕ) (rest : List ℕ)
    → s.active_queue ≡ []
    → s.free_queue ≡ i ∷ rest
    → length held < s.max_nr_active_zones
    → Returns (Got zbd s held) (open_free zbd s)
open_free-Got zbd s held v i rest none head room =
    let (z, found) = get_elem?-some s.zones i (v.free_inside i (ground (arith, head))) in
    let o = v.zone_ok i z found in
    let room' : length s.active_queue + length held < s.max_nr_active_zones =
      ground (arith, none) in
    elim (ℕ_discrete (open_code s held v i rest head z found zbd) 0) [
      | yes e ↦
          let t = opened s held v i rest head z found in
          let found' : get_elem? t.zones i ≡ some (record z { state = active; chunk_offset = 0 }) =
            ground (
              arith,
              get_elem?-set s.zones i i (record z { state = active; chunk_offset = 0 })
                  (get_elem?-lt s.zones i found),
            ) in
          let head' : t.active_queue ≡ i ∷ [] = ground (arith, none) in
          let v' = opened-Inv s held v i rest head z found room' in
          rw
            (
              open_free-opens s held v i rest head z found zbd room' e,
              take_active-success t held v' i [] (record z { state = active; chunk_offset = 0 })
                  head' found',
            )
            (
              after-Inv t held v' i [] (record z { state = active; chunk_offset = 0 }) head' found',
              (rest, inr (none, ground (arith, head, o.id), refl)),
            )
      | no n ↦
          rw (open_free-loses s held v i rest head z found zbd room' n)
            (popped-Inv s held v i rest head, (i, z, head, found, n, refl))
    ]

-- Both queues and the writers fit the 32-bit counters, so reading their sizes loses nothing.
pub free_small : (s : Zsm) (held : List Pair) → Inv s held → length s.free_queue < 2 ^ 32
free_small s held v = omega (
  arith,
  v.free_count,
  count-le (λ y. is_free y.state) s.zones,
  v.sizes.zones_length,
  v.sizes.zones_small,
)

-- The branches of the call, with the counters read as plain numbers.
pub get_active_zone-branches :
    (zbd : Zbd) (s : Zsm) (held : List Pair)
    → Inv s held
    → get_active_zone zbd s ≡ (
        if length s.active_queue + length held == 0 && length s.free_queue == 0
        then ok (s, evict)
        else if length s.active_queue == 0
        then (if ltb (length held) s.max_nr_active_zones && ltb 0 (length s.free_queue)
            then open_free zbd s
            else ok (s, retry))
        else take_active s)
unfolding get_active_zone
get_active_zone-branches zbd s held v =
    ground (arith, free_small s held v, v.writers, v.limit, v.sizes.max_small)

pub length_zero {ℓ} : {A : Type ℓ} (xs : List A) → length xs ≡ 0 → xs ≡ []
length_zero [] e = refl
length_zero (x ∷ xs) e = absurd (omega arith)

pub length_pos {ℓ} :
    {A : Type ℓ} (xs : List A) → length xs ≢ 0 → (x : A) × (ys : List A) × (xs ≡ x ∷ ys)
length_pos [] n = absurd (n refl)
length_pos (x ∷ xs) n = (x, xs, refl)

-- With the invariant, zsm_get_active_zone returns, whatever the device answers. On success the
-- location is the next chunk of the oldest active zone, or the first chunk of the oldest free zone
-- if none is active, and the invariant holds with it held; retry means that no zone is active,
-- that a location is held, and that the limit is reached or no zone is free; error means that the
-- device refused to open the oldest free zone, which has then left the free queue; evict means
-- that no zone is active, free or held. The state is unchanged by retry and evict.
pub get_active_zone-Got :
    (zbd : Zbd) (s : Zsm) (held : List Pair)
    → Inv s held
    → Returns (Got zbd s held) (get_active_zone zbd s)
get_active_zone-Got zbd s held v =
    rw (get_active_zone-branches zbd s held v) (elim (ℕ_discrete (length s.active_queue) 0) [
      | yes none ↦
          let none' = length_zero s.active_queue none in
          elim (ℕ_discrete (length s.free_queue) 0) [
            | yes empty ↦
                let empty' = length_zero s.free_queue empty in
                elim (ℕ_discrete (length held) 0) [
                  | yes idle ↦ ground (arith, none', empty', length_zero held idle)
                  | no busy ↦ ground (arith, none', empty')
                ]
            | no more ↦
                let (i, rest, head) = length_pos s.free_queue more in
                elim (dec_lt (length held) s.max_nr_active_zones) [
                  | yes room ↦ ground (arith, open_free-Got zbd s held v i rest none' head room)
                  | no limit ↦ ground (arith, none')
                ]
          ]
      | no more ↦
          let (i, rest, head) = length_pos s.active_queue more in
          ground (arith, take_active-Got zbd s held v i rest head)
    ])
