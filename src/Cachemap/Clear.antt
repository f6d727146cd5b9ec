-- ===== src/Cachemap/Clear.antt =====
-- zn_cachemap_clear_zone.
use znworkload.Prelude.{
  ℕ, ◌<◌, ◌≤◌, ◌≡◌, ◌≢◌, ◌^◌, refl, sym, ◌∙◌, some, none, List, [], ◌∷◌, ◌==◌, if◌then◌else◌, ltb,
  arith, occ, ℕ_discrete, dec_lt,
}
use znworkload.Run.{ok, Returns, Returns-bind, Returns-map, ◌>>=◌}
use znworkload.Backend.{Pair}
use znworkload.Cachemap.{
  Cachemap, loc, Table, update, find_chunk, drop_result, clear_entries, cachemap_clear_zone,
}
use znworkload.Cachemap.Tables.{Entries-keep}
use znworkload.Cachemap.Drop.{
  Loop, gone, view-gone, gone-Loop, Entries-gone, entry-known, int_key-small,
}
use znworkload.Cachemap.View.{State, absent, writing, at, view, chunks, Entries, Inv}

abbrev ids : Table → List ℕ
ids [] = []
ids ((c, id) ∷ t) = id ∷ ids t

-- The loop forgets the IDs of the entries that are left, and no others.
record Cleared (m : Cachemap) (t : Table) (m' : Cachemap) : Type 0 where
  loop : Loop m'
  seen : (j : ℕ) → view m' j ≡ (if ltb 0 (occ j (ids t)) then absent else view m j)
  freed : (j a : ℕ) → m.zone_map j ≡ some a → 0 < occ j (ids t) → m'.results a ≡ none
  still_freed : (a : ℕ) → m.results a ≡ none → m'.results a ≡ none
  same_tables : m'.data_map ≡ m.data_map
  same_zones : m'.num_zones ≡ m.num_zones
  same_readers : m'.active_readers ≡ m.active_readers

clear-step :
    (m : Cachemap) (zone c id a : ℕ) (p : Pair) (t : Table)
    → id < 2 ^ 31
    → m.zone_map id ≡ some a
    → m.results a ≡ some (loc p)
    → p.zone ≡ zone
    → clear_entries zone ((c, id) ∷ t) m ≡ clear_entries zone t (drop_result m id a)
unfolding clear_entries
clear-step m zone c id a p t small known there inside =
    rw (int_key-small id small, known, there) (ground (arith, inside))

clear_entries-Cleared :
    (zone : ℕ) (t : Table) (m : Cachemap)
    → Loop m
    → Entries m zone t
    → ((c : ℕ) → occ c (chunks t) ≤ 1)
    → Returns (Cleared m t) (clear_entries zone t m)
unfolding clear_entries
clear_entries-Cleared zone [] m v k d = record {
  loop = v;
  seen = λ j. refl;
  freed = λ j a e h. absurd (omega arith);
  still_freed = λ a e. e;
  same_tables = refl;
  same_zones = refl;
  same_readers = refl;
}
clear_entries-Cleared zone ((c, id) ∷ t) m v k d =
    let (a, p, known, there, inside) = entry-known m zone c id k.0 in
    let g = gone m v id a known in
    let none_left : occ c (chunks t) ≡ 0 = ground (arith, d c) in
    let ih =
      clear_entries-Cleared zone t g (gone-Loop m v id a known)
        (Entries-gone m v id a known zone c t k.0 none_left k.1) (λ b. ground (arith, d b)) in
    let step : clear_entries zone ((c, id) ∷ t) m ≡ clear_entries zone t g =
      clear-step m zone c id a p t k.0.small known there inside in
    rw step (
      Returns-map (Cleared g t) (Cleared m ((c, id) ∷ t)) (clear_entries zone t g) ih λ m' r.
        record {
          loop = r.loop;
          seen = λ j. ground (arith, r.seen j, view-gone m v id a known j);
          freed = λ j b e h. ground (arith, r.freed j b, r.still_freed b, known, v.own id j b);
          still_freed = λ b e. ground (arith, r.still_freed b);
          same_tables = r.same_tables;
          same_zones = r.same_zones;
          same_readers = r.same_readers;
        })

-- What clearing a zone does: the IDs that lay in it are unknown, the others are as they were, and
-- the zone's table is empty.
abbrev pub outside : ℕ → State → State
outside zone absent = absent
outside zone writing = writing
outside zone (at p) = if p.zone == zone then absent else at p

pub record ZoneCleared (m : Cachemap) (zone : ℕ) (m' : Cachemap) : Type 0 where
  pub inv : Inv m'
  pub seen : (id : ℕ) → view m' id ≡ outside zone (view m id)
  pub freed :
      (id a : ℕ) (p : Pair)
      → m.zone_map id ≡ some a
      → view m id ≡ at p
      → p.zone ≡ zone
      → m'.results a ≡ none
  pub emptied : m'.data_map zone ≡ []
  pub other_tables : (z : ℕ) → z ≢ zone → m'.data_map z ≡ m.data_map z
  pub readers : m'.active_readers ≡ m.active_readers
  pub same_num : m'.num_zones ≡ m.num_zones

ids-entry :
    (m : Cachemap) (zone id : ℕ) (t : Table)
    → Entries m zone t
    → 0 < occ id (ids t)
    → (p : Pair) × (view m id ≡ at p) × (p.zone ≡ zone)
ids-entry m zone id [] k h = absurd (omega arith)
ids-entry m zone id ((c, j) ∷ t) k h = elim (ℕ_discrete j id) [
  | yes e ↦ (k.0.location, ground (arith, k.0.seen, e), k.0.in_zone)
  | no n ↦ ids-entry m zone id t k.1 (ground (arith, n, h))
]

find_chunk-ids : (c id : ℕ) (t : Table) → find_chunk c t ≡ some id → 0 < occ id (ids t)
find_chunk-ids c id [] e = cc
find_chunk-ids c id ((d, j) ∷ t) e = ground (arith, find_chunk-ids c id t)

module _ (m : Cachemap) (v : Inv m) (zone : ℕ) where
  seen-outside :
      (id : ℕ)
      → (if ltb 0 (occ id (ids (m.data_map zone))) then absent else view m id)
        ≡ outside zone (view m id)
  seen-outside id = elim (dec_lt 0 (occ id (ids (m.data_map zone)))) [
    | yes h ↦
        let (p, e, z) = ids-entry m zone id (m.data_map zone) (v.entries zone) h in
        rw e (ground (arith, h, z))
    | no n ↦ by_view (view m id) refl n
  ]
    where
      by_view :
          (s : State)
          → view m id ≡ s
          → ¬ (0 < occ id (ids (m.data_map zone)))
          → (if ltb 0 (occ id (ids (m.data_map zone))) then absent else view m id)
            ≡ outside zone (view m id)
      by_view absent e n = rw e (ground (arith, n))
      by_view writing e n = rw e (ground (arith, n))
      by_view (at p) e n =
          rw e (
            ground
              (arith, n, v.listed id p e, find_chunk-ids p.chunk_offset id (m.data_map p.zone)))

  module _ (g : Cachemap) (r : Cleared m (m.data_map zone) g) where
    abbrev swept : Cachemap
    swept = record g { data_map = update g.data_map zone [] }

    view-swept : (id : ℕ) → view swept id ≡ outside zone (view m id)
    view-swept id = r.seen id ∙ seen-outside id

    kept_elsewhere : (id : ℕ) (p : Pair) → p.zone ≢ zone → view m id ≡ at p → view swept id ≡ at p
    kept_elsewhere id p n e = view-swept id ∙ (rw e (ground (arith, n)))

    seen_before : (id : ℕ) (p : Pair) → view swept id ≡ at p → (view m id ≡ at p) × (p.zone ≢ zone)
    seen_before id p e = by_view (view m id) refl (sym (view-swept id) ∙ e)
      where
        by_view :
            (s : State)
            → view m id ≡ s
            → outside zone (view m id) ≡ at p
            → (view m id ≡ at p) × (p.zone ≢ zone)
        by_view absent f o = absurd (ground (arith, f, o))
        by_view writing f o = absurd (ground (arith, f, o))
        by_view (at q) f o = ground (arith, f, o)

    swept-ZoneCleared : ZoneCleared m zone swept
    swept-ZoneCleared = record {
      inv = record {
        live = r.loop.live;
        own = r.loop.own;
        listed = λ id p e.
            ground (arith, r.same_tables, r.same_zones, v.listed id p, seen_before id p e);
        entries = λ z. elim (ℕ_discrete zone z) [
          | yes same ↦ ground (arith, same)
          | no n ↦
              let keep =
                Entries-keep m swept z (m.data_map z)
                  (λ id p q e. kept_elsewhere id p (ground (arith, n, q)) e) (v.entries z) in
              ground (arith, n, keep, r.same_tables)
        ];
        distinct = λ z c. ground (arith, r.same_tables, v.distinct z c);
      };
      seen = view-swept;
      freed = λ id a p e f z. r.freed id a e (
          ground (arith, v.listed id p f, z, find_chunk-ids p.chunk_offset id (m.data_map p.zone)));
      emptied = ground arith;
      other_tables = λ z n. ground (arith, r.same_tables);
      readers = r.same_readers;
      same_num = r.same_zones;
    }

-- With the invariant, zn_cachemap_clear_zone of a zone of the device returns and keeps the
-- invariant; exactly the IDs that lay in the zone are unknown then and their results are freed,
-- the zone's table is empty, and no other ID, no other table and no count of readers has changed.
pub cachemap_clear_zone-ZoneCleared :
    (m : Cachemap) (zone : ℕ)
    → Inv m
    → zone < m.num_zones
    → Returns (ZoneCleared m zone) (cachemap_clear_zone m zone)
unfolding cachemap_clear_zone
cachemap_clear_zone-ZoneCleared m zone v inside = rw_table (
    Returns-bind (Cleared m (m.data_map zone)) (ZoneCleared m zone) _ _
      (clear_entries-Cleared zone (m.data_map zone) m (record { live = v.live; own = v.own })
        (v.entries zone) (v.distinct zone))
      (swept-ZoneCleared m v zone))
  where
    rw_table :
        Returns (ZoneCleared m zone) (
          clear_entries zone (m.data_map zone) m >>= λ m'.
          ok (record m' { data_map = update m'.data_map zone [] }))
        → Returns (ZoneCleared m zone) (cachemap_clear_zone m zone)
    rw_table h = ground (arith, inside, h)
