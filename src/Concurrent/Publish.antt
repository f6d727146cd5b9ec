-- ===== src/Concurrent/Publish.antt =====
-- zn_cachemap_insert and zn_cachemap_fail of the thread that fetches an ID, among other threads.
use znworkload.Prelude.{
  ℕ, ◌<◌, ◌≡◌, refl, some, none, [], ◌∷◌, arith, get_elem?, get_elem?-lt, set, if◌then◌else◌, ◌==◌,
  inl, inr, Option-cases, ℕ_discrete,
}
use znworkload.Run.{Returns, Returns-ok}
use znworkload.Backend.{Pair}
use znworkload.Zsm.{Zbd}
use znworkload.Cachemap.{Cachemap, Table, find_chunk, cachemap_insert, cachemap_fail}
use znworkload.Cachemap.View
use znworkload.Cachemap.View.{State, absent, writing, at, view, Entry, Entries}
use znworkload.Cachemap.Write.{Inserted, cachemap_insert-Inserted, Failed, cachemap_fail-Failed}
use znworkload.Cachemap.Stays.{Stays, cachemap_insert-Stays, cachemap_fail-Stays}
use znworkload.Chunks.{Io}
use znworkload.Concurrent.{System, Pc, publishing, undoing, done, enter, writer_step}
use znworkload.Concurrent.Places.{
  fetches, reads, cleared, publishes, resets, number, number-set, number-same, number-get,
}
use znworkload.Concurrent.Invariant.{
  Inv, Claims, Clears, Stored, Alloc-same, Tokens-same, enter-few, writers_of,
}
use znworkload.Concurrent.Frame.{Data-map}

Entries-find :
    (m : Cachemap) (zone c id : ℕ) (t : Table)
    → Entries m zone t
    → find_chunk c t ≡ some id
    → Entry m zone c id
Entries-find m zone c id [] k e = cc
Entries-find m zone c id ((d, j) ∷ t) k e = elim (ℕ_discrete d c) [
  | yes same ↦ ground (arith, same, k.0, e)
  | no n ↦ Entries-find m zone c id t k.1 (ground (arith, n, e))
]

one_writer : (v : State) → 0 < writers_of v → v ≡ writing
one_writer absent h = absurd (omega arith)
one_writer writing h = refl
one_writer (at p) h = absurd (omega arith)

module _ (s : System) (i : ℕ) (v : Inv s) (id : ℕ) where
  -- The ID of a thread that fetches is being written.
  pub fetched :
      (old : Pc)
      → get_elem? s.threads i ≡ some old
      → fetches old ≡ some id
      → view s.cache_map id ≡ writing
  fetched old here e = one_writer (view s.cache_map id) (
      ground (
        arith,
        v.claims.writers id,
        number-get fetches id s.threads i old here (ground (arith, e)),
      ))

  -- The map after the end of a fetch, when the ID is in a new state.
  module _ (old t : Pc) (here : get_elem? s.threads i ≡ some old) (fetching : fetches old ≡ some id)
      (ended : fetches t ≡ none) (m : Cachemap) (now : State) (settled : writers_of now ≡ 0)
      (seen : (j : ℕ) → view m j ≡ (if id == j then now else view s.cache_map j))
      (readers : m.active_readers ≡ s.cache_map.active_readers) where
    end-writers : (j : ℕ) → number fetches j (set s.threads i t) ≡ writers_of (view m j)
    end-writers j =
        let n = number-set fetches j s.threads i t here in
        elim (ℕ_discrete id j) [
          | yes same ↦
              let w = fetched old here fetching in
              let e : view m j ≡ now = ground (arith, same, seen j) in
              rw e (ground (arith, n, v.claims.writers j, same, fetching, ended, settled, w))
          | no d ↦
              let e : view m j ≡ view s.cache_map j = ground (arith, d, seen j) in
              rw e (ground (arith, n, v.claims.writers j, d, fetching, ended))
        ]

    pub end-Claims : View.Inv m → reads t ≡ reads old → Claims m (set s.threads i t)
    end-Claims inv same = record {
      map_ok = inv;
      writers = end-writers;
      readers = λ z.
          ground (arith, readers, number-same reads z s.threads i t here same, v.claims.readers z);
    }

  module _ (p : Pair) (here : get_elem? s.threads i ≡ some (publishing id p)) where
    abbrev t : Pc
    t = done id (some (some id))

    abbrev old : Pc
    old = publishing id p

    stored : Stored s.contents s.zone_state p id
    stored = v.chunks.relies i old here

    -- No ID is listed at the location: what lies there is this ID's chunk.
    vacant : find_chunk p.chunk_offset (s.cache_map.data_map p.zone) ≡ none
    vacant = elim (Option-cases (find_chunk p.chunk_offset (s.cache_map.data_map p.zone))) [
      | inl e ↦ e
      | inr (j, e) ↦
          let n =
            Entries-find s.cache_map p.zone p.chunk_offset j (s.cache_map.data_map p.zone)
              (v.claims.map_ok.entries p.zone) e in
          let other = v.chunks.stored j n.location n.seen in
          let w = fetched old here refl in
          absurd (ground (arith, other.content, stored.content, n.in_zone, n.at_chunk, n.seen, w))
    ]

    inside : p.zone < s.cache_map.num_zones
    inside =
        let lt = get_elem?-lt s.zone_state.zones p.zone stored.placed.there in
        omega (arith, lt, v.same_num, v.alloc.sizes.zones_length)

    -- No evictor has cleared the zone, so the entry will not outlive the chunk.
    not_cleared : number cleared p.zone s.threads ≡ 0
    not_cleared = elim (ℕ_discrete (number cleared p.zone s.threads) 0) [
      | yes e ↦ e
      | no n ↦ absurd (
          ground (
            arith,
            v.clears.unpublished p.zone,
            n,
            number-get publishes p.zone s.threads i old here (ground arith),
          ))
    ]

    publish-Clears :
        (m : Cachemap)
        → ((j : ℕ) → view m j ≡ (if id == j then at p else view s.cache_map j))
        → Clears m (set s.threads i t)
    publish-Clears m seen =
        let a = λ (z : ℕ). number-same cleared z s.threads i t here refl in
        let b = λ (z : ℕ). number-same resets z s.threads i t here refl in
        let c = λ (z : ℕ). number-same reads z s.threads i t here refl in
        record {
          vacant = λ z j q h e. elim (ℕ_discrete id j) [
            | yes same ↦ ground (arith, same, seen j, e, a z, h, not_cleared)
            | no d ↦ v.clears.vacant z j q (rw (a z) at h) (ground (arith, d, seen j, e))
          ];
          unpublished = λ z h. omega (
            arith,
            v.clears.unpublished z (rw (a z) at h),
            number-set publishes z s.threads i t here,
          );
          quiet = λ z h. rw (c z) (v.clears.quiet z (rw (b z) at h));
        }

    publish-Inv :
        (m : Cachemap)
        → Inserted s.cache_map id p m
        → Stays s.cache_map m
        → Inv (enter (record s { cache_map = m }) i t)
    publish-Inv m k stays = record {
      alloc = Alloc-same s.threads i old t here s.zone_state refl v.alloc;
      same_num = ground (arith, stays.zones, v.same_num);
      few = enter-few s.threads i old t here v.few;
      claims = end-Claims old t here refl refl m (at p) refl k.seen k.readers k.inv refl;
      tokens = Tokens-same s.threads i old t here s.eviction_policy s.zone_state refl v.tokens;
      chunks =
          Data-map s.cache_map m s.contents s.zone_state s.threads i old t here
            (λ j q e. elim (ℕ_discrete id j) [
              | yes same ↦ ground (arith, same, k.seen j, e, stored)
              | no d ↦ v.chunks.stored j q (ground (arith, d, k.seen j, e))
            ])
            (λ j u e x b q r y z. stays.entry x b q y z) (λ h. refl) tt v.chunks;
      clears = publish-Clears m k.seen;
    }

    pub publishing-Inv :
        (io : Io) (zbd : Zbd) → Returns Inv (writer_step s i io zbd (publishing id p))
    unfolding writer_step
    publishing-Inv io zbd =
        let w = fetched old here refl in
        let (m, e, k) = Returns-ok (Inserted s.cache_map id p) (cachemap_insert s.cache_map id p) (
          cachemap_insert-Inserted s.cache_map id p v.claims.map_ok w inside
            (v.chunks.small i old here) vacant) in
        rw (e, writer_step)
          (publish-Inv m k (cachemap_insert-Stays s.cache_map id p m v.claims.map_ok w e))

  module _ (here : get_elem? s.threads i ≡ some (undoing id)) where
    abbrev gone : Pc
    gone = done id none

    undo-Inv :
        (m : Cachemap)
        → Failed s.cache_map id m
        → Stays s.cache_map m
        → m.active_readers ≡ s.cache_map.active_readers
        → Inv (enter (record s { cache_map = m }) i gone)
    undo-Inv m k stays readers =
        let before = λ (j : ℕ) (q : Pair) (e : view m j ≡ at q).
          (let r : view s.cache_map j ≡ at q = ground (arith, k.seen j, e) in r) in
        let a = λ (z : ℕ). number-same cleared z s.threads i gone here refl in
        let b = λ (z : ℕ). number-same resets z s.threads i gone here refl in
        let c = λ (z : ℕ). number-same reads z s.threads i gone here refl in
        let d = λ (z : ℕ). number-same publishes z s.threads i gone here refl in
        record {
          alloc = Alloc-same s.threads i (undoing id) gone here s.zone_state refl v.alloc;
          same_num = ground (arith, stays.zones, v.same_num);
          few = enter-few s.threads i (undoing id) gone here v.few;
          claims =
              end-Claims (undoing id) gone here refl refl m absent refl k.seen readers k.inv refl;
          tokens =
              Tokens-same s.threads i (undoing id) gone here s.eviction_policy s.zone_state refl
                v.tokens;
          chunks =
              Data-map s.cache_map m s.contents s.zone_state s.threads i (undoing id) gone here
                (λ j q e. v.chunks.stored j q (before j q e))
                (λ j u e x b q r y z. stays.entry x b q y z) (λ h. tt) tt v.chunks;
          clears = record {
            vacant = λ z j q h e. v.clears.vacant z j q (rw (a z) at h) (before j q e);
            unpublished = λ z h. rw (d z) (v.clears.unpublished z (rw (a z) at h));
            quiet = λ z h. rw (c z) (v.clears.quiet z (rw (b z) at h));
          };
        }

    pub undoing-Inv : (io : Io) (zbd : Zbd) → Returns Inv (writer_step s i io zbd (undoing id))
    unfolding writer_step
    undoing-Inv io zbd =
        let w = fetched (undoing id) here refl in
        let (m, e, k) =
          Returns-ok (Failed s.cache_map id) (cachemap_fail s.cache_map id)
            (cachemap_fail-Failed s.cache_map id v.claims.map_ok w) in
        let (stays, readers) = cachemap_fail-Stays s.cache_map id m v.claims.map_ok w e in
        rw (e, writer_step) (undo-Inv m k stays readers)
