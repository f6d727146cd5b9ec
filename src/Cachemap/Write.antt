-- ===== src/Cachemap/Write.antt =====
-- zn_cachemap_find, zn_cachemap_insert and zn_cachemap_fail.
use znworkload.Prelude.{
  ℕ, ◌+◌, ◌<◌, ◌≡◌, ◌^◌, refl, some, none, ◌==◌, if◌then◌else◌, u32, arith, occ, Option-cases,
  ℕ_discrete, inl, inr,
}
use znworkload.Run.{Returns}
use znworkload.Backend.{Pair}
use znworkload.Cachemap.{
  Cachemap, MapResult, loc, cond, update, find_chunk, put_chunk, cachemap_find, find_entry,
  find_result, Find, hit, wait, write_it, cachemap_insert, cachemap_fail, drop_result, empty_map,
}
use znworkload.Cachemap.Tables.{Entries-keep, find_chunk-put, chunks-put, occ-none, Entries-put}
use znworkload.Cachemap.View.{absent, writing, at, view, chunks, Entry, Entries, Inv}

pub empty_map-Inv : (num_zones : ℕ) (readers : ℕ → ℕ) → Inv (empty_map num_zones readers)
unfolding empty_map
empty_map-Inv n readers = record {
  live = λ id a e. absurd (ground arith);
  own = λ id id' a e f. absurd (ground arith);
  listed = λ id p e. absurd (ground arith);
  entries = λ zone. tt;
  distinct = λ zone c. omega arith;
}

-- An unknown ID gets a result that says it is being written.
module _ (m : Cachemap) (v : Inv m) (id : ℕ) (unknown : m.zone_map id ≡ none) where
  abbrev claimed : Cachemap
  claimed = record m {
    zone_map = update m.zone_map id (some m.next);
    results = update m.results m.next (some cond);
    next = m.next + 1;
  }

  view-claimed : (j : ℕ) → view claimed j ≡ (if id == j then writing else view m j)
  view-claimed j = elim (Option-cases (m.zone_map j)) [
    | inl none_there ↦ ground (arith, none_there)
    | inr (a, e) ↦ ground (arith, e, unknown, v.live j a e)
  ]

  claimed-Inv : Inv claimed
  claimed-Inv = record {
    live = λ j a e. ground (arith, v.live j a);
    own = λ j j' a e f. ground (arith, v.own j j' a, v.live j a, v.live j' a);
    listed = λ j p e. ground (arith, view-claimed j, v.listed j p);
    entries = λ zone.
        Entries-keep m claimed zone (m.data_map zone)
          (λ j p z e. ground (arith, view-claimed j, unknown)) (v.entries zone);
    distinct = v.distinct;
  }

-- What find does: it counts a reader of a known location, makes the thread wait for the writer, or
-- makes it the writer.
abbrev pub Finds : Cachemap → ℕ → Cachemap × Find → Type 0
Finds m id (m', hit a) =
    (p : Pair) × (view m id ≡ at p)
    × (m.zone_map id ≡ some a)
    × (m.results a ≡ some (loc p))
    × Inv m'
    × (m' ≡ record m {
      active_readers = update m.active_readers p.zone (u32 (m.active_readers p.zone + 1));
    })
Finds m id (m', wait) = (view m id ≡ writing) × (m' ≡ m)
Finds m id (m', write_it) =
    (view m id ≡ absent)
    × Inv m'
    × ((j : ℕ) → view m' j ≡ (if id == j then writing else view m j))
    × (m'.active_readers ≡ m.active_readers)
    × (m'.data_map ≡ m.data_map)
    × (m'.num_zones ≡ m.num_zones)

find_result-Finds :
    (m : Cachemap) (v : Inv m) (id a : ℕ) (r : MapResult)
    → m.zone_map id ≡ some a
    → m.results a ≡ some r
    → Returns (Finds m id) (find_result m a r)
unfolding find_result
find_result-Finds m v id a cond e f = ground (arith, e, f)
find_result-Finds m v id a (loc p) e f =
    let seen : view m id ≡ at p = ground (arith, e, f) in
    let m' : Cachemap = record m {
      active_readers = update m.active_readers p.zone (u32 (m.active_readers p.zone + 1));
    } in
    let v' : Inv m' = record {
      live = v.live;
      own = v.own;
      listed = v.listed;
      entries = λ zone. Entries-keep m m' zone (m.data_map zone) (λ j q z s. s) (v.entries zone);
      distinct = v.distinct;
    } in
    ground (arith, (v.listed id p seen).0, seen, e, f, v')

-- With the invariant, a turn of zn_cachemap_find returns. It hits exactly with the result of an ID
-- that has a location, and then counts one more reader of that zone and changes nothing else; it
-- waits, changing nothing, if the ID is being written; for an unknown ID the thread becomes the
-- writer, the ID is then being written, and no other ID, no table and no count of readers has
-- changed. The invariant holds after a hit and for the writer.
pub cachemap_find-Finds :
    (m : Cachemap) (id : ℕ) → Inv m → Returns (Finds m id) (cachemap_find m id)
unfolding cachemap_find
cachemap_find-Finds m id v = elim (Option-cases (m.zone_map id)) [
  | inl unknown ↦
      rw (unknown, find_entry)
        (
          ground (arith, unknown),
          claimed-Inv m v id unknown,
          view-claimed m v id unknown,
          refl,
          refl,
          refl,
        )
  | inr (a, e) ↦ elim (Option-cases (m.results a)) [
    | inl freed ↦ absurd (ground (arith, freed, v.live id a e))
    | inr (r, f) ↦ rw (e, find_entry, f) (find_result-Finds m v id a r e f)
  ]
]

-- What the writer's insertion does: the ID lies at the location, and nothing else changes.
pub record Inserted (m : Cachemap) (id : ℕ) (p : Pair) (m' : Cachemap) : Type 0 where
  pub inv : Inv m'
  pub seen : (j : ℕ) → view m' j ≡ (if id == j then at p else view m j)
  pub listed_at : find_chunk p.chunk_offset (m'.data_map p.zone) ≡ some id
  pub readers : m'.active_readers ≡ m.active_readers

module _ (m : Cachemap) (v : Inv m) (id a : ℕ) (known : m.zone_map id ≡ some a)
    (waiting : m.results a ≡ some cond) where
  module _ (p : Pair) (inside : p.zone < m.num_zones) (small : id < 2 ^ 31)
      (vacant : find_chunk p.chunk_offset (m.data_map p.zone) ≡ none) where
    abbrev placed : Cachemap
    placed = record m {
      results = update m.results a (some (loc p));
      data_map = update m.data_map p.zone (put_chunk p.chunk_offset id (m.data_map p.zone));
    }

    view-placed : (j : ℕ) → view placed j ≡ (if id == j then at p else view m j)
    view-placed j = elim (Option-cases (m.zone_map j)) [
      | inl none_there ↦ ground (arith, none_there, known)
      | inr (b, e) ↦ ground (arith, e, known, v.own id j a known)
    ]

    Entries-placed : (zone : ℕ) → Entries placed zone (placed.data_map zone)
    Entries-placed zone =
        let keep =
          Entries-keep m placed zone (m.data_map zone)
            (λ j q z e. ground (arith, view-placed j, known, waiting)) (v.entries zone) in
        elim (ℕ_discrete p.zone zone) [
          | yes same ↦
              let e : Entry placed zone p.chunk_offset id = record {
                location = p;
                seen = ground (arith, view-placed id);
                in_zone = same;
                at_chunk = refl;
                small = small;
              } in
              let put =
                Entries-put placed zone p.chunk_offset id (m.data_map zone)
                  (ground (arith, same, vacant)) e keep in
              ground (arith, same, put)
          | no d ↦ ground (arith, d, keep)
        ]

    placed-Inserted : Inserted m id p placed
    placed-Inserted = record {
      inv = record {
        live = λ j b e. ground (arith, v.live j b);
        own = v.own;
        listed = λ j q e. ground (
          arith,
          view-placed j,
          v.listed j q,
          inside,
          vacant,
          find_chunk-put p.chunk_offset q.chunk_offset id (m.data_map p.zone),
        );
        entries = Entries-placed;
        distinct = λ zone c. ground (
          arith,
          v.distinct zone c,
          chunks-put p.chunk_offset c id (m.data_map p.zone) vacant,
          absent_chunk,
        );
      };
      seen = view-placed;
      listed_at =
          ground (arith, find_chunk-put p.chunk_offset p.chunk_offset id (m.data_map p.zone));
      readers = refl;
    }
      where
        absent_chunk : occ p.chunk_offset (chunks (m.data_map p.zone)) ≡ 0
        absent_chunk = occ-none p.chunk_offset (m.data_map p.zone) vacant

  abbrev dropped : Cachemap
  dropped = drop_result m id a

  view-dropped : (j : ℕ) → view dropped j ≡ (if id == j then absent else view m j)
  view-dropped j = elim (Option-cases (m.zone_map j)) [
    | inl none_there ↦ ground (arith, none_there)
    | inr (b, e) ↦ ground (arith, e, known, v.own id j a known)
  ]

  dropped-Inv : Inv dropped
  dropped-Inv = record {
    live = λ j b e. ground (arith, v.live j b, v.own id j a known);
    own = λ j j' b e f. ground (arith, v.own j j' b);
    listed = λ j p e. ground (arith, view-dropped j, v.listed j p);
    entries = λ zone.
        Entries-keep m dropped zone (m.data_map zone)
          (λ j p z e. ground (arith, view-dropped j, known, waiting)) (v.entries zone);
    distinct = v.distinct;
  }

pub writing-cond :
    (m : Cachemap) (id : ℕ)
    → Inv m
    → view m id ≡ writing
    → (a : ℕ) × (m.zone_map id ≡ some a) × (m.results a ≡ some cond)
writing-cond m id v w = elim (Option-cases (m.zone_map id)) [
  | inl e ↦ absurd (ground (arith, e, w))
  | inr (a, e) ↦ (a, e, ground (arith, e, w))
]

-- With the invariant, zn_cachemap_insert of an ID below 2^31 that is being written, at a location
-- of the device that no ID is listed at, returns and keeps the invariant; the ID is then at the
-- location and listed there, and no other ID and no count of readers has changed.
pub cachemap_insert-Inserted :
    (m : Cachemap) (id : ℕ) (p : Pair)
    → Inv m
    → view m id ≡ writing
    → p.zone < m.num_zones
    → id < 2 ^ 31
    → find_chunk p.chunk_offset (m.data_map p.zone) ≡ none
    → Returns (Inserted m id p) (cachemap_insert m id p)
unfolding cachemap_insert
cachemap_insert-Inserted m id p v w inside small vacant =
    let (a, known, waiting) = writing-cond m id v w in
    ground (arith, known, waiting, placed-Inserted m v id a known waiting p inside small vacant)

-- What the writer's failure does: the ID is unknown again, and nothing else changes.
pub record Failed (m : Cachemap) (id : ℕ) (m' : Cachemap) : Type 0 where
  pub inv : Inv m'
  pub seen : (j : ℕ) → view m' j ≡ (if id == j then absent else view m j)
  pub same_tables : m'.data_map ≡ m.data_map

-- With the invariant, zn_cachemap_fail of an ID that is being written returns and keeps the
-- invariant; the ID is then unknown, and no other ID and no zone's table has changed.
pub cachemap_fail-Failed :
    (m : Cachemap) (id : ℕ)
    → Inv m
    → view m id ≡ writing
    → Returns (Failed m id) (cachemap_fail m id)
unfolding cachemap_fail
cachemap_fail-Failed m id v w =
    let (a, known, waiting) = writing-cond m id v w in
    let f : Failed m id (drop_result m id a) = record {
      inv = dropped-Inv m v id a known waiting;
      seen = view-dropped m v id a known waiting;
      same_tables = refl;
    } in
    ground (arith, known, waiting, f)
