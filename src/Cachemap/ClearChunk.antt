-- ===== src/Cachemap/ClearChunk.antt =====
-- zn_cachemap_clear_chunk.
use znworkload.Prelude.{
  ℕ, ◌<◌, ◌≡◌, ◌≢◌, refl, ◌==◌, if◌then◌else◌, some, none, arith, occ, [], ◌∷◌, ℕ_discrete,
}
use znworkload.Run.{Returns}
use znworkload.Backend.{Pair}
use znworkload.Cachemap.{
  Cachemap, Table, update, find_chunk, remove_chunk, cachemap_clear_chunk, drop_result,
}
use znworkload.Cachemap.View.{absent, at, view, chunks, Entry, Entries, Inv}
use znworkload.Cachemap.Tables.{find_chunk-remove, chunks-remove, gone-remove, Entries-remove}
use znworkload.Cachemap.Drop.{Loop, view-gone, gone-Loop, entry-known, int_key-small}

-- What clearing a chunk does: its ID is unknown, and no other changes.
pub record ChunkCleared (m : Cachemap) (id : ℕ) (p : Pair) (m' : Cachemap) : Type 0 where
  pub inv : Inv m'
  pub seen : (j : ℕ) → view m' j ≡ (if id == j then absent else view m j)
  pub other_chunks :
      (c : ℕ)
      → find_chunk c (m'.data_map p.zone)
        ≡ (if p.chunk_offset == c then none else find_chunk c (m.data_map p.zone))
  pub other_tables : (z : ℕ) → z ≢ p.zone → m'.data_map z ≡ m.data_map z
  pub readers : m'.active_readers ≡ m.active_readers
  pub same_num : m'.num_zones ≡ m.num_zones

pub entry-at :
    (m : Cachemap) (zone c id : ℕ) (t : Table)
    → Entries m zone t
    → find_chunk c t ≡ some id
    → Entry m zone c id
entry-at m zone c id [] k e = cc
entry-at m zone c id ((d, j) ∷ t) k e = elim (ℕ_discrete d c) [
  | yes same ↦ let f : j ≡ id = ground (arith, same, e) in rw (same, f) at (k.0)
  | no n ↦ entry-at m zone c id t k.1 (ground (arith, n, e))
]

-- The other entries stay: an ID has one location only.
Entries-others :
    (m m' : Cachemap) (zone id : ℕ) (p : Pair) (t : Table)
    → ((j : ℕ) → view m' j ≡ (if id == j then absent else view m j))
    → view m id ≡ at p
    → (zone ≡ p.zone → occ p.chunk_offset (chunks t) ≡ 0)
    → Entries m zone t
    → Entries m' zone t
Entries-others m m' zone id p [] s w n k = tt
Entries-others m m' zone id p ((c, j) ∷ t) s w n k = (
  record {
    location = k.0.location;
    seen = ground (arith, s j, n, k.0, w);
    in_zone = k.0.in_zone;
    at_chunk = k.0.at_chunk;
    small = k.0.small;
  },
  Entries-others m m' zone id p t s w (λ e. ground (arith, n e)) k.1,
)

module _ (m : Cachemap) (v : Inv m) (id : ℕ) (p : Pair) (inside : p.zone < m.num_zones)
    (listed : find_chunk p.chunk_offset (m.data_map p.zone) ≡ some id) where
  entry : Entry m p.zone p.chunk_offset id
  entry = entry-at m p.zone p.chunk_offset id (m.data_map p.zone) (v.entries p.zone) listed

  module _ (a : ℕ) (q : Pair) (known : m.zone_map id ≡ some a) where
    loop : Loop m
    loop = record { live = v.live; own = v.own }

    abbrev cleared : Cachemap
    cleared = record (drop_result m id a) {
      data_map = update m.data_map p.zone (remove_chunk p.chunk_offset (m.data_map p.zone));
    }

    view-cleared : (j : ℕ) → view cleared j ≡ (if id == j then absent else view m j)
    view-cleared j = view-gone m loop id a known j

    Entries-cleared : (zone : ℕ) → Entries cleared zone (cleared.data_map zone)
    Entries-cleared zone = elim (ℕ_discrete p.zone zone) [
      | yes same ↦
          let e : cleared.data_map zone ≡ remove_chunk p.chunk_offset (m.data_map zone) =
            ground (arith, same) in
          rw e (
            Entries-others m cleared zone id entry.location _ view-cleared entry.seen
              (λ z. ground (
                arith,
                entry.at_chunk,
                gone-remove p.chunk_offset (m.data_map zone) (v.distinct zone p.chunk_offset),
              ))
              (Entries-remove m zone p.chunk_offset (m.data_map zone) (v.entries zone)))
      | no n ↦
          let e : cleared.data_map zone ≡ m.data_map zone = ground (arith, n) in
          rw e (
            Entries-others m cleared zone id entry.location _ view-cleared entry.seen
              (λ z. absurd (n (ground (arith, z, entry.in_zone)))) (v.entries zone))
    ]

    cleared-ChunkCleared : ChunkCleared m id p cleared
    cleared-ChunkCleared = record {
      inv = record {
        live = λ j b e. (gone-Loop m loop id a known).live j b e;
        own = λ j j' b e f. (gone-Loop m loop id a known).own j j' b e f;
        listed = λ j q e. ground (
          arith,
          view-cleared j,
          v.listed j q,
          entry.seen,
          listed,
          find_chunk-remove p.chunk_offset q.chunk_offset (m.data_map p.zone)
              (v.distinct p.zone p.chunk_offset),
        );
        entries = Entries-cleared;
        distinct = λ z c.
            ground (arith, v.distinct z c, chunks-remove p.chunk_offset c (m.data_map p.zone));
      };
      seen = view-cleared;
      other_chunks = λ c. ground (
        arith,
        find_chunk-remove p.chunk_offset c (m.data_map p.zone) (v.distinct p.zone p.chunk_offset),
      );
      other_tables = λ z n. ground (arith, n);
      readers = refl;
      same_num = refl;
    }

  -- With the invariant, zn_cachemap_clear_chunk of a chunk at which an ID is listed returns and
  -- keeps the invariant; that ID is unknown, no other ID has changed, the chunk is listed no more,
  -- and no other chunk, zone's table or count of readers has changed.
  pub cachemap_clear_chunk-ChunkCleared : Returns (ChunkCleared m id p) (cachemap_clear_chunk m p)
  unfolding cachemap_clear_chunk
  cachemap_clear_chunk-ChunkCleared =
      let (a, q, known, there, z) = entry-known m p.zone p.chunk_offset id entry in
      let small = int_key-small id entry.small in
      let same : q ≡ entry.location = ground (arith, entry.seen, known, there) in
      let c = cleared-ChunkCleared a q known in
      ground (arith, inside, listed, small, known, there, z, same, entry.at_chunk, c)
